-- ===== src/Session/Mild.antt =====
-- The operations on single producers leave the session alone.
use zvonok.Prelude.{
  ℕ, String, Option, [], ◌∷◌, refl, ◌∙◌, inl, inr, Option-cases, get, put, remove, or_else,
}
use zvonok.Client.Registry.{MediaKind, MediaSource, camera}
use zvonok.Session.State.{
  emit, emit_produce, close_producer as close_call, pause_producer as pause_call,
  resume_producer as resume_call, answer_request, produced, refused, tell, Manager, SfuState,
  ProduceResult, act,
}
use zvonok.Session.Publish.{
  finish_flight, find_flight, caught, get_producer_by_kind, get_screen_producer,
}
use zvonok.Session.Producers.{
  on_produce, close_one, close_screen_producer, close_producer, pause_producer, resume_producer,
  settle_request, handle_producer_created, handle_produce_error,
}
use zvonok.Session.Core.{joins, IsMild, act-IsMild, send-IsMild, elim-IsMild, reply_all-IsMild}

pub finish_flight-IsMild :
    (n : ℕ) (result : ProduceResult) (s : Manager) → IsMild s (finish_flight n result s)
unfolding finish_flight
finish_flight-IsMild n result s =
    elim-IsMild (find_flight n s.flights) s _ _ refl
      (λ f. reply_all-IsMild f.replies (caught result) _)

pub on_produce-IsMild :
    (request_id : String) (kind : MediaKind) (source : Option MediaSource) (s : Manager)
    → IsMild s (on_produce request_id kind source s)
unfolding on_produce joins
on_produce-IsMild request_id kind source s = elim-IsMild s.send_transport s _ _ refl (λ t.
    send-IsMild (emit_produce request_id t kind source ∷ [])
      (record s { pending_requests = put request_id (or_else source camera) s.pending_requests })
      refl)

close_one-IsMild :
    (id : String) (f : SfuState → SfuState) (s : Manager) → IsMild s (close_one id f s)
unfolding close_one joins
close_one-IsMild id f s =
    let t = record s { producers = remove id s.producers } in
    send-IsMild (emit "sfu:close-producer" id ∷ []) (act (close_call id ∷ []) t) refl
    ∙ act-IsMild (close_call id ∷ []) t refl

pub close_screen_producer-IsMild : (s : Manager) → IsMild s (close_screen_producer s)
unfolding close_screen_producer
close_screen_producer-IsMild s = elim (Option-cases (get_screen_producer s)) [
  | inl e ↦ rw (close_screen_producer, e) refl
  | inr ((id, p), e) ↦ rw (close_screen_producer, e) (close_one-IsMild id _ s)
]

pub close_producer-IsMild : (kind : MediaKind) (s : Manager) → IsMild s (close_producer kind s)
unfolding close_producer
close_producer-IsMild kind s = elim (Option-cases (get_producer_by_kind kind s)) [
  | inl e ↦ rw (close_producer, e) refl
  | inr ((id, p), e) ↦ rw (close_producer, e) (close_one-IsMild id _ s)
]

pub pause_producer-IsMild : (id : String) (s : Manager) → IsMild s (pause_producer id s)
unfolding pause_producer joins
pause_producer-IsMild id s = elim-IsMild (get id s.producers) s _ _ refl (λ p.
    send-IsMild (emit "sfu:pause-producer" id ∷ []) (act (pause_call id ∷ []) s) refl
    ∙ act-IsMild (pause_call id ∷ []) s refl)

pub resume_producer-IsMild : (id : String) (s : Manager) → IsMild s (resume_producer id s)
unfolding resume_producer joins
resume_producer-IsMild id s = elim-IsMild (get id s.producers) s _ _ refl (λ p.
    send-IsMild (emit "sfu:resume-producer" id ∷ []) (act (resume_call id ∷ []) s) refl
    ∙ act-IsMild (resume_call id ∷ []) s refl)

settle_request-IsMild :
    (id : String) (result : ProduceResult) (s : Manager) → IsMild s (settle_request id result s)
unfolding settle_request joins
settle_request-IsMild id result s = elim-IsMild (get id s.pending_requests) s _ _ refl (λ p.
    act-IsMild (answer_request id result ∷ [])
      (record s { pending_requests = remove id s.pending_requests }) refl)

pub handle_producer_created-IsMild :
    (request_id id : String) (kind : MediaKind) (source : Option MediaSource) (s : Manager)
    → IsMild s (handle_producer_created request_id id kind source s)
unfolding handle_producer_created
handle_producer_created-IsMild request_id id kind source s =
    settle_request-IsMild request_id (produced id) s

pub handle_produce_error-IsMild :
    (request_id code : String) (s : Manager) → IsMild s (handle_produce_error request_id code s)
unfolding handle_produce_error joins
handle_produce_error-IsMild request_id code s =
    act-IsMild (tell "produce-error" code ∷ []) (settle_request request_id (refused code) s) refl
    ∙ settle_request-IsMild request_id (refused code) s
