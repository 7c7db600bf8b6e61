-- ===== src/Session/Answers.antt =====
-- A join that is answered, a reset of the media and a refresh of the token keep the client sound.
use zvonok.Prelude.{
  if_cases, elim_cases, String, Bool, true, false, Option, none, some, List, [], ◌∷◌, ◌≡◌, refl,
  inl, inr, Option-cases,
}
use zvonok.Json.{Json}
use zvonok.Capabilities.{CapabilityId}
use zvonok.Session.State.{
  Manager, connected, Track, JoinPayload, emit, tell, ask_token, load_device as load_call, act,
}
use zvonok.Session.Producers.{with_state, retain_local_produces}
use zvonok.Session.Recovery.{
  recoverable, show_connection, close_all, reset_media_state, join_room, or_expired, begin_load,
  create_transports, finish_load, recovered, handle_joined, begin_refresh, finish_refresh,
}
use zvonok.Session.Facade.{begin_media_reset, finish_media_reset}
use zvonok.Session.Core.{joins, IsMild, act-IsMild, act-joins, send-IsMild}
use zvonok.Session.Sound.{IsSound, mild-IsSound}
use zvonok.Session.Quiet.{Quiet, mild-Quiet, Quiet-trans, reset_all-Keeps, fail_recovery-Quiet}
use zvonok.Session.Events.{
  recoverable-cases, active-Quiet, retain-IsSound, replay-Quiet, join_room-IsSound,
}

finish_load-IsMild : (b : Bool) (s : Manager) → IsMild s (finish_load b s)
unfolding finish_load create_transports joins
finish_load-IsMild true s =
    send-IsMild (emit "sfu:create-send-transport" "" ∷ emit "sfu:create-recv-transport" "" ∷ []) s
      refl
finish_load-IsMild false s = refl

pub finish_load-Quiet : (b : Bool) (s : Manager) → Quiet s (finish_load b s)
finish_load-Quiet b s = mild-Quiet s (finish_load b s) (finish_load-IsMild b s)

pub finish_media_reset-Quiet :
    (live : Track → Bool) (b : Bool) (s : Manager) → Quiet s (finish_media_reset live b s)
unfolding finish_media_reset
finish_media_reset-Quiet live b s =
    Quiet-trans s (finish_load b s) (finish_media_reset live b s) (finish_load-Quiet b s)
      (replay-Quiet live (finish_load b s))

begin_load-Quiet : (router : Json) (s : Manager) → Quiet s (begin_load router s)
unfolding begin_load joins
begin_load-Quiet router s = (
  λ (held, devices, bounded, flushed, rated). (held, λ e. absurd (cc), bounded, flushed, rated),
  λ e. (e, act-joins (load_call router ∷ []) s refl),
)

-- The session is established with the answer.
established-Quiet : (s : Manager) → Quiet s (record s { session_established = true })
established-Quiet s = (
  λ ((held, held_too), devices, bounded, flushed, rated).
      ((held, λ e. absurd (cc)), devices, bounded, flushed, rated),
  λ e. (e, refl),
)

recovered-Quiet : (live : Track → Bool) (s : Manager) → Quiet s (recovered live s)
unfolding recovered
recovered-Quiet live s =
    if_cases (Quiet s) s.session_established _ _
      (λ e. replay-Quiet live (show_connection connected s)) (λ e. mild-Quiet s s refl)

pub handle_joined-Quiet :
    (live : Track → Bool) (router : Json) (user_id : Option String)
    (capabilities : List CapabilityId) (s : Manager)
    → Quiet s (handle_joined live router user_id capabilities s)
unfolding handle_joined
handle_joined-Quiet live router user_id capabilities s =
    let t =
      with_state (λ st. record st { capabilities = capabilities })
        (record s { local_user_id = user_id }) in
    let u = recovered live t in
    let v = record u { session_established = true } in
    Quiet-trans s t (begin_load router v) (mild-Quiet s t refl) (
      Quiet-trans t u (begin_load router v) (recovered-Quiet live t)
        (Quiet-trans u v (begin_load router v) (established-Quiet u) (begin_load-Quiet router v)))

pub begin_media_reset-Quiet :
    (live : Track → Bool) (router : Json) (room_id : String) (s : Manager)
    → Quiet s (begin_media_reset live router room_id s)
unfolding begin_media_reset recoverable joins
begin_media_reset-Quiet live router room_id s =
    elim_cases (Quiet s) (recoverable s) _ _ (λ e. mild-Quiet s s refl)
      (λ p e.
        let t = act (tell "room-media-reset" room_id ∷ []) s in
        let u = retain_local_produces live t in
        let v = reset_media_state (close_all u) in
        active-Quiet s (begin_load router v) p (recoverable-cases s p e).1 (λ h.
          (begin_load-Quiet router v).0 (
            (reset_all-Keeps u).0 (
              retain-IsSound live t p e
                (mild-IsSound s t (act-IsMild (tell "room-media-reset" room_id ∷ []) s refl) h)))))

pub begin_refresh-Quiet : (code : String) (s : Manager) → Quiet s (begin_refresh code s)
unfolding begin_refresh joins
begin_refresh-Quiet code s =
    if_cases (Quiet s) _ _ _ (λ e. fail_recovery-Quiet "join-error" code s)
      (λ e.
        mild-Quiet s (act (ask_token ∷ []) (record s { token_refresh_attempted = true }))
          (act-IsMild (ask_token ∷ []) (record s { token_refresh_attempted = true }) refl))

abbrev retried : (String → Option Json) → JoinPayload → Manager → Manager
retried decode q s =
    let t = record s { last_join_payload = some q } in or_expired t (join_room decode q none t)

renewed-IsSound :
    (decode : String → Option Json) (p q : JoinPayload) (s : Manager)
    → s.last_join_payload ≡ some p
    → IsSound s
    → IsSound (retried decode q s)
renewed-IsSound decode p q s e ((held, held_too), devices, bounded, flushed, rated) =
    let t = record s { last_join_payload = some q } in
    let sound : IsSound t = ((λ k. absurd (cc), held_too), devices, bounded, flushed, rated) in
    elim (Option-cases (join_room decode q none t)) [
      | inl f ↦ rw f ((fail_recovery-Quiet "join-error" "ROOM_TOKEN_EXPIRED" t).0 sound)
      | inr (w, f) ↦ rw f (join_room-IsSound decode q none t w f sound)
    ]

pub finish_refresh-Quiet :
    (decode : String → Option Json) (token : Option String) (s : Manager)
    → Quiet s (finish_refresh decode token s)
unfolding finish_refresh
finish_refresh-Quiet decode none s = fail_recovery-Quiet "join-error" "ROOM_TOKEN_EXPIRED" s
finish_refresh-Quiet decode (some token) s =
    elim_cases (Quiet s) s.last_join_payload _ _ (λ e. mild-Quiet s s refl)
      (λ p e.
        active-Quiet s (retried decode (record p { token = some token }) s) p e
          (renewed-IsSound decode p (record p { token = some token }) s e))
