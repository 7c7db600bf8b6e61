-- ===== src/Session/Producers.antt =====
-- packages/client/src/sfu/publish.ts: the producers and the requests for them, and what is held across
-- a break of the connection.
use zvonok.Prelude.{
  ℕ, String, Bool, false, Option, none, some, List, [], ◌∷◌, ◌++◌, map, if◌then◌else◌, or_else, Map,
  get, put, remove,
}
use zvonok.Client.Registry.{MediaKind, audio, video, MediaSource, camera}
use zvonok.Session.State.{
  Manager, SfuState, Track, Intent, LocalProducer, ProduceResult, produced, refused, nothing,
  closed, Act, emit, emit_produce, close_producer as close_call, pause_producer as pause_call,
  resume_producer as resume_call, answer_request, tell, act, send,
}
use zvonok.Session.Publish.{
  produce_with_source, get_producer_by_kind, get_screen_producer, source_or_camera, is_screen,
  reply_with,
}

abbrev pub with_state : (SfuState → SfuState) → Manager → Manager
with_state f s = record s { state = f s.state }

-- `produceWithSource` for each, in order.
unfoldable pub produce_all : (Track → Bool) → List (Intent × Option ℕ) → Manager → Manager
produce_all live [] s = s
produce_all live ((i, reply) ∷ es) s = produce_all live es (produce_with_source live i reply s)

unfoldable pub flush_pending_produces : (Track → Bool) → Manager → Manager
flush_pending_produces live s = produce_all live s.pending_local (record s { pending_local = [] })

-- The library's "produce" event on the send transport.
unfoldable pub on_produce : String → MediaKind → Option MediaSource → Manager → Manager
on_produce request_id kind source s = elim s.send_transport [
  | none ↦ s
  | some transport ↦
      send (emit_produce request_id transport kind source ∷ [])
        (record s { pending_requests = put request_id (or_else source camera) s.pending_requests })
]

unfoldable pub clear_kind : MediaKind → SfuState → SfuState
clear_kind audio st = record st { audio_producer_id = none }
clear_kind video st = record st { video_producer_id = none }

unfoldable pub close_one : String → (SfuState → SfuState) → Manager → Manager
close_one id f s = with_state f (
    send (emit "sfu:close-producer" id ∷ [])
      (act (close_call id ∷ []) (record s { producers = remove id s.producers })))

unfoldable pub close_screen_producer : Manager → Manager
close_screen_producer s = elim (get_screen_producer s) [
  | none ↦ s
  | some (id, p) ↦ close_one id (λ st. record st { screen_producer_id = none }) s
]

unfoldable pub close_producer : MediaKind → Manager → Manager
close_producer kind s = elim (get_producer_by_kind kind s) [
  | none ↦ s
  | some (id, p) ↦ close_one id (clear_kind kind) s
]

unfoldable pub pause_producer : String → Manager → Manager
pause_producer id s = elim (get id s.producers) [
  | none ↦ s
  | some p ↦ send (emit "sfu:pause-producer" id ∷ []) (act (pause_call id ∷ []) s)
]

unfoldable pub resume_producer : String → Manager → Manager
resume_producer id s = elim (get id s.producers) [
  | none ↦ s
  | some p ↦ send (emit "sfu:resume-producer" id ∷ []) (act (resume_call id ∷ []) s)
]

unfoldable pub settle_request : String → ProduceResult → Manager → Manager
settle_request request_id result s = elim (get request_id s.pending_requests) [
  | none ↦ s
  | some source ↦
      act (answer_request request_id result ∷ [])
        (record s { pending_requests = remove request_id s.pending_requests })
]

unfoldable pub show_producer : String → MediaKind → Option MediaSource → SfuState → SfuState
show_producer id audio source st = record st { audio_producer_id = some id }
show_producer id video source st =
    if is_screen source
    then record st { screen_producer_id = some id }
    else record st { video_producer_id = some id }

unfoldable pub handle_producer_created :
    String → String → MediaKind → Option MediaSource → Manager → Manager
handle_producer_created request_id id kind source s =
    with_state (show_producer id kind source) (settle_request request_id (produced id) s)

unfoldable pub handle_produce_error : String → String → Manager → Manager
handle_produce_error request_id code s =
    act (tell "produce-error" code ∷ []) (settle_request request_id (refused code) s)

-- The callbacks of `onProducerStateChange`.
unfoldable pub notify_producer_state : String → Manager → Manager
notify_producer_state id s = act (tell "producer-state" id ∷ []) s

-- The producers whose track has not ended, as what to ask for again.
unfoldable pub live_intents : (Track → Bool) → Map LocalProducer → List Intent
live_intents live [] = []
live_intents live ((id, p) ∷ ps) =
    let rest = live_intents live ps in
    elim p.track [
      | none ↦ rest
      | some track ↦
          if live track
          then record {
            track = track;
            source = source_or_camera p.kind p.source;
            is_mobile = false;
          }
            ∷ rest
          else rest
    ]

-- What is still buffered settles as nothing produced.
unfoldable pub settle_pending : ProduceResult → List (Intent × Option ℕ) → Manager → Manager
settle_pending result [] s = s
settle_pending result ((i, reply) ∷ es) s = settle_pending result es (reply_with reply result s)

abbrev pub intents : List (Intent × Option ℕ) → List Intent
intents es = map (λ e. e.0) es

unfoldable pub retain_local_produces : (Track → Bool) → Manager → Manager
retain_local_produces live s = settle_pending nothing s.pending_local (record s {
  retained = s.retained ++ (live_intents live s.producers ++ intents s.pending_local);
  pending_local = [];
})

abbrev pub unanswered : List Intent → List (Intent × Option ℕ)
unanswered is = map (λ i. (i, none)) is

unfoldable pub replay_retained_produces : (Track → Bool) → Manager → Manager
replay_retained_produces live s =
    produce_all live (unanswered s.retained) (record s { retained = [] })

unfoldable pub clear_retained_produces : Manager → Manager
clear_retained_produces s = record s { retained = [] }

abbrev pub close_calls : Map LocalProducer → List Act
close_calls ps = map (λ e. close_call e.0) ps

abbrev pub rejections : Map MediaSource → List Act
rejections rs = map (λ e. answer_request e.0 closed) rs

unfoldable pub close_publishing : Manager → Manager
close_publishing s = settle_pending closed s.pending_local (
    act (close_calls s.producers ++ rejections s.pending_requests)
      (record s { producers = []; in_progress = []; pending_requests = []; pending_local = [] }))

unfoldable pub reset_publishing : Manager → Manager
reset_publishing s =
    act (rejections s.pending_requests)
      (record s { producers = []; in_progress = []; pending_requests = [] })
