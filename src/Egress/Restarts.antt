-- ===== src/Egress/Restarts.antt =====
-- Failures of a pipeline and the end of a session that keeps failing.
use zvonok.Prelude.{
  ℕ, suc, ◌+◌, ◌≤◌, ◌<◌, String, ◌≡◌, ◌≢◌, ◌⊎◌, inl, inr, ◌∙◌, refl, ap, Bool, true, false, Option,
  some, List, [], ◌∷◌, ◌++◌, arith, Bool-cases, ltb, get, length, length-append,
}
use zvonok.Media.Consumers.{RoomTapDescriptor}
use zvonok.Egress.State.{
  ActiveSession, SessionStatus, starting, live, stopping, Service, change, is_stopping,
}
use zvonok.Egress.Pipeline.{
  start_pipeline, recent, count_failure, next_part, retry, on_pipeline_failure, on_process_exit,
  times_of,
}
use zvonok.Egress.Frames.{modify-IsSession, same-IsSession, start_pipeline-IsSession}
use zvonok.Egress.Failing.{HasFailed, Runs, start_pipeline-rows, fail_session-HasFailed}

-- All times lie in one window.
abbrev pub Within : ℕ → List ℕ → Type 0
Within base [] = Unit
Within base (t ∷ ts) = (base ≤ t) × (t < base + 300000) × Within base ts

recent_all :
    (base now : ℕ) (ts : List ℕ)
    → Within base ts
    → base ≤ now
    → now < base + 300000
    → recent now ts ≡ ts
unfolding recent
recent_all base now [] w a b = refl
recent_all base now (t ∷ ts) w a b = ground (arith, w, a, b, recent_all base now ts w.2 a b)

Within-snoc :
    (base now : ℕ) (ts : List ℕ)
    → Within base ts
    → base ≤ now
    → now < base + 300000
    → Within base (ts ++ now ∷ [])
Within-snoc base now [] w a b = (a, b, tt)
Within-snoc base now (t ∷ ts) w a b = (w.0, w.1, Within-snoc base now ts w.2 a b)

pub is_stopping_lem :
    (x : ActiveSession) (st : SessionStatus) → x.status ≡ st → st ≢ stopping → is_stopping x ≡ false
unfolding is_stopping
is_stopping_lem x starting e n = rw e refl
is_stopping_lem x live e n = rw e refl
is_stopping_lem x stopping e n = absurd (n refl)

pub stopped_lem : (x : ActiveSession) → x.status ≡ stopping → is_stopping x ≡ true
unfolding is_stopping
stopped_lem x e = rw e refl

module _ (opens : String → Bool) (ds : List RoomTapDescriptor) (id : String) where
  -- The exits of processes of the session, at these times.
  unfoldable pub exits : List ℕ → Service → Service
  exits [] s = s
  exits (t ∷ ts) s = exits ts (on_process_exit opens ds t id s)

  exit-HasFailed :
      (now : ℕ) (s : Service) → HasFailed id s → HasFailed id (on_process_exit opens ds now id s)
  unfolding on_process_exit
  exit-HasFailed now s ((times, h), row) =
      rw (on_process_exit, h.found, stopped_lem h.session h.with_status) ((times, h), row)

  exits-HasFailed : (ts : List ℕ) (s : Service) → HasFailed id s → HasFailed id (exits ts s)
  unfolding exits
  exits-HasFailed [] s h = h
  exits-HasFailed (t ∷ ts) s h =
      exits-HasFailed ts (on_process_exit opens ds t id s) (exit-HasFailed t s h)

  retry_lem :
      (times : List ℕ) (s : Service)
      → Runs id times s
      → HasFailed id (retry opens ds id s) ⊎ Runs id times (retry opens ds id s)
  unfolding retry next_part
  retry_lem times s ((status, n, h), (row, e)) =
      let t = change id next_part s in
      let k =
        start_pipeline-IsSession id status times opens ds t
          (same-IsSession id status times next_part s.heap (λ x. (refl, refl)) h) in
      let kept : get id (start_pipeline opens ds id t).0.rows ≡ some row =
        ap (get id) (start_pipeline-rows opens ds id t) ∙ e in
      elim (Bool-cases (start_pipeline opens ds id t).1) [
        | inl f ↦ rw f (inr ((status, n, k), (row, kept)))
        | inr f ↦ rw f (
            inl (
              fail_session-HasFailed id "restart failed" status times row
                (start_pipeline opens ds id t).0 k kept))
      ]

  failure-Runs :
      (base now : ℕ) (reason : String) (times : List ℕ) (s : Service)
      → Within base times
      → base ≤ now
      → now < base + 300000
      → Runs id times s
      → HasFailed id (on_pipeline_failure opens ds now id reason s)
        ⊎ ((length times < 3)
            × Runs id (times ++ now ∷ []) (on_pipeline_failure opens ds now id reason s))
  unfolding on_pipeline_failure count_failure
  failure-Runs base now reason times s w a b ((status, n, h), (row, e)) =
      let t = change id (count_failure now) s in
      let k =
        modify-IsSession id (count_failure now) status status times (times ++ now ∷ []) s.heap
          (λ x p q. (
            p,
            ap (λ z. recent now z ++ now ∷ []) q
                ∙ ap (λ z. z ++ now ∷ []) (recent_all base now times w a b),
          ))
          h in
      let counted : length (times_of (get id t.heap)) ≡ suc (length times) =
        ap (λ (o : Option ActiveSession). length (times_of o)) k.found
        ∙ ap (λ z. length z) k.with_times
        ∙ omega (arith, length-append times (now ∷ [])) in
      elim (Bool-cases (ltb 3 (length (times_of (get id t.heap))))) [
        | inl f ↦
            rw (on_pipeline_failure, f)
              (inl (fail_session-HasFailed id reason status (times ++ now ∷ []) row t k e))
        | inr f ↦
            rw (on_pipeline_failure, f)
              (elim (retry_lem (times ++ now ∷ []) t ((status, n, k), (row, e))) [
                | inl g ↦ inl g
                | inr g ↦ inr (ground (arith, f, counted), g)
              ])
      ]

  exit-Runs :
      (base now : ℕ) (times : List ℕ) (s : Service)
      → Within base times
      → base ≤ now
      → now < base + 300000
      → Runs id times s
      → HasFailed id (on_process_exit opens ds now id s)
        ⊎ ((length times < 3) × Runs id (times ++ now ∷ []) (on_process_exit opens ds now id s))
  unfolding on_process_exit
  exit-Runs base now times s w a b ((status, n, h), row) =
      rw (on_process_exit, h.found, is_stopping_lem h.session status h.with_status n)
        (failure-Runs base now "pipeline exited unexpectedly" times s w a b ((status, n, h), row))

  exits-Runs :
      (base : ℕ) (ts times : List ℕ) (s : Service)
      → Within base times
      → Within base ts
      → Runs id times s
      → HasFailed id (exits ts s) ⊎ ((length times + length ts ≤ 3) ⊎ (ts ≡ []))
  unfolding exits
  exits-Runs base [] times s w v r = inr (inr refl)
  exits-Runs base (t ∷ ts) times s w v r =
      let next = on_process_exit opens ds t id s in
      elim (exit-Runs base t times s w v.0 v.1 r) [
        | inl f ↦ inl (exits-HasFailed ts next f)
        | inr (few, g) ↦
            elim (exits-Runs base ts (times ++ t ∷ []) next (Within-snoc base t times w v.0 v.1) v.2
              g) [
                | inl f ↦ inl f
                | inr (inl k) ↦ inr (inl (omega (arith, k, length-append times (t ∷ []))))
                | inr (inr k) ↦ inr (inl (omega (arith, few, ap length k)))
              ]
      ]

pub crash_loop_ends :
    (opens : String → Bool) (ds : List RoomTapDescriptor) (id : String) (base : ℕ) (ts : List ℕ)
    (s : Service)
    → Runs id [] s
    → Within base ts
    → 3 < length ts
    → HasFailed id (exits opens ds id ts s)
crash_loop_ends opens ds id base ts s r w n = elim (exits-Runs opens ds id base ts [] s tt w r) [
  | inl f ↦ f
  | inr (inl k) ↦ absurd (omega (arith, k, n))
  | inr (inr k) ↦ absurd (omega (arith, n, ap length k))
]
