-- ===== src/Session/Publish.antt =====
-- packages/client/src/sfu/publish.ts: the local tracks that are sent. `live` says which tracks have not
-- ended. A call of `produce` that nobody waits for has no number.
use zvonok.Prelude.{
  ℕ, suc, String, Bool, true, false, not, ◌||◌, ◌&&◌, Option, none, some, List, [], ◌∷◌, ◌++◌, leb,
  ◌==◌, if◌then◌else◌, length, Map, get, put, remove,
}
use zvonok.Client.Registry.{MediaKind, audio, video, MediaSource, camera, screen}
use zvonok.Session.State.{
  Manager, Track, Intent, LocalProducer, Flight, ProduceResult, produced, nothing, closed, Encoding,
  CodecOptions, start_bitrate, opus, transport_produce, settle, act, is_connected,
}

abbrev pub simulcast_encodings : List Encoding
simulcast_encodings =
    record {
      rid = "low";
      max_bitrate = 150000;
      scale_resolution_down_by = some 4;
      max_framerate = some 15;
    }
    ∷ record {
      rid = "mid";
      max_bitrate = 500000;
      scale_resolution_down_by = some 2;
      max_framerate = some 24;
    }
    ∷ record {
      rid = "high";
      max_bitrate = 2000000;
      scale_resolution_down_by = none;
      max_framerate = none;
    }
    ∷ []

abbrev pub mobile_simulcast_encodings : List Encoding
mobile_simulcast_encodings =
    record {
      rid = "low";
      max_bitrate = 150000;
      scale_resolution_down_by = some 4;
      max_framerate = some 15;
    }
    ∷ record {
      rid = "mid";
      max_bitrate = 400000;
      scale_resolution_down_by = some 2;
      max_framerate = some 15;
    }
    ∷ record {
      rid = "high";
      max_bitrate = 900000;
      scale_resolution_down_by = none;
      max_framerate = some 15;
    }
    ∷ []

unfoldable pub is_video : MediaKind → Bool
is_video audio = false
is_video video = true

unfoldable pub is_screen : Option MediaSource → Bool
is_screen (some screen) = true
is_screen _ = false

unfoldable pub kind_text : MediaKind → String
kind_text audio = "audio"
kind_text video = "video"

-- `dedupeKey`.
unfoldable pub dedupe_key : Intent → String
dedupe_key i = if is_screen i.source then "screen" else kind_text i.track.kind

unfoldable pub is_screen_producer : LocalProducer → Bool
is_screen_producer p = is_video p.kind && is_screen p.source

unfoldable pub same_kind : MediaKind → MediaKind → Bool
same_kind audio k = not (is_video k)
same_kind video k = is_video k

unfoldable pub is_of_kind : MediaKind → LocalProducer → Bool
is_of_kind kind p = same_kind kind p.kind && not (is_video kind && is_screen p.source)

unfoldable pub find_producer :
    (LocalProducer → Bool) → Map LocalProducer → Option (String × LocalProducer)
find_producer test [] = none
find_producer test ((id, p) ∷ ps) = if test p then some (id, p) else find_producer test ps

unfoldable pub get_producer_by_kind : MediaKind → Manager → Option (String × LocalProducer)
get_producer_by_kind kind s = find_producer (is_of_kind kind) s.producers

unfoldable pub get_screen_producer : Manager → Option (String × LocalProducer)
get_screen_producer s = find_producer is_screen_producer s.producers

-- A promise settles; one that nobody waits for does so unseen.
unfoldable pub reply_with : Option ℕ → ProduceResult → Manager → Manager
reply_with none result s = s
reply_with (some n) result s = act (settle n result ∷ []) s

unfoldable pub encodings_of : Intent → Option (List Encoding)
encodings_of i =
    if is_video i.track.kind && not (is_screen i.source)
    then some (if i.is_mobile then mobile_simulcast_encodings else simulcast_encodings)
    else none

unfoldable pub codec_options_of : Intent → CodecOptions
codec_options_of i = if is_video i.track.kind then start_bitrate 1000 else opus i.is_mobile

-- `source ?? (isVideo ? "camera" : undefined)`.
unfoldable pub source_or_camera : MediaKind → Option MediaSource → Option MediaSource
source_or_camera kind (some source) = some source
source_or_camera audio none = none
source_or_camera video none = some camera

-- `doProduceTrack` up to its await, as the run that `singleFlight` starts.
unfoldable pub begin_flight : String → Intent → Option ℕ → Manager → Manager
begin_flight transport i reply s =
    let n = s.next_flight in
    let call =
      transport_produce n transport i.track (encodings_of i) (codec_options_of i)
        (source_or_camera i.track.kind i.source) in
    act (call ∷ []) (record s {
      in_progress = put (dedupe_key i) n s.in_progress;
      flights = (n, record { key = dedupe_key i; intent = i; replies = reply ∷ [] }) ∷ s.flights;
      next_flight = suc n;
    })

unfoldable pub join_flight : ℕ → Option ℕ → List (ℕ × Flight) → List (ℕ × Flight)
join_flight n reply [] = []
join_flight n reply ((m, f) ∷ fs) =
    let rest = join_flight n reply fs in
    if m == n then (m, record f { replies = f.replies ++ reply ∷ [] }) ∷ fs else (m, f) ∷ rest

unfoldable pub single_flight : String → Intent → Option ℕ → Manager → Manager
single_flight transport i reply s = elim (get (dedupe_key i) s.in_progress) [
  | some n ↦ record s { flights = join_flight n reply s.flights }
  | none ↦ begin_flight transport i reply s
]

unfoldable pub existing_producer : Intent → Manager → Option (String × LocalProducer)
existing_producer i s =
    if is_screen i.source then get_screen_producer s else get_producer_by_kind i.track.kind s

-- The promise that `produceWithSource` makes for a call that is buffered.
unfoldable pub buffer : Intent → Option ℕ → Manager → Manager
buffer i reply s = record s { pending_local = s.pending_local ++ (i, reply) ∷ [] }

unfoldable pub produce_with_source : (Track → Bool) → Intent → Option ℕ → Manager → Manager
produce_with_source live i reply s = elim s.send_transport [
  | none ↦
      if not (is_connected s) || leb 8 (length s.pending_local) || not (live i.track)
      then reply_with reply nothing s
      else buffer i reply s
  | some transport ↦ elim (existing_producer i s) [
    | some (id, p) ↦ reply_with reply (produced id) s
    | none ↦ single_flight transport i reply s
  ]
]

unfoldable pub produce : (Track → Bool) → Track → Bool → ℕ → Manager → Manager
produce live track is_mobile reply =
    produce_with_source live
      (record { track = track; source = source_or_camera track.kind none; is_mobile = is_mobile })
      (some reply)

unfoldable pub produce_screen : (Track → Bool) → Track → ℕ → Manager → Manager
produce_screen live track reply =
    produce_with_source live (record { track = track; source = some screen; is_mobile = false })
      (some reply)

unfoldable pub find_flight : ℕ → List (ℕ × Flight) → Option Flight
find_flight n [] = none
find_flight n ((m, f) ∷ fs) = if m == n then some f else find_flight n fs

unfoldable pub drop_flight : ℕ → List (ℕ × Flight) → List (ℕ × Flight)
drop_flight n [] = []
drop_flight n ((m, f) ∷ fs) = let rest = drop_flight n fs in if m == n then rest else (m, f) ∷ rest

unfoldable pub reply_all : List (Option ℕ) → ProduceResult → Manager → Manager
reply_all [] result s = s
reply_all (r ∷ rs) result s = reply_all rs result (reply_with r result s)

-- `singleFlight` forgets the run, unless another has its place.
unfoldable pub forget_flight : ℕ → String → Map ℕ → Map ℕ
forget_flight n key m = elim (get key m) [ none ↦ m | some k ↦ if k == n then remove key m else m ]

unfoldable pub keep_producer : Intent → ProduceResult → Map LocalProducer → Map LocalProducer
keep_producer i (produced id) ps =
    put id
      (record {
        kind = i.track.kind;
        source = source_or_camera i.track.kind i.source;
        track = some i.track;
      })
      ps
keep_producer i _ ps = ps

-- An error other than a refusal counts as nothing produced.
unfoldable pub caught : ProduceResult → ProduceResult
caught closed = nothing
caught result = result

-- `doProduceTrack` after its await.
unfoldable pub finish_flight : ℕ → ProduceResult → Manager → Manager
finish_flight n result s = elim (find_flight n s.flights) [
  | none ↦ s
  | some f ↦ reply_all f.replies (caught result) (record s {
    producers = keep_producer f.intent result s.producers;
    flights = drop_flight n s.flights;
    in_progress = forget_flight n f.key s.in_progress;
  })
]

-- `producer.on("transportclose")`.
unfoldable pub on_transport_close : String → Manager → Manager
on_transport_close id s = record s { producers = remove id s.producers }
