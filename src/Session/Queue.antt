-- ===== src/Session/Queue.antt =====
-- What the publish unit does with a list of calls: it buffers them while there is no transport, and starts
-- them once there is one.
use zvonok.Prelude.{
  ℕ, suc, ◌+◌, ◌≤◌, String, Bool, true, Option, none, some, List, [], ◌∷◌, ◌++◌, ◌≡◌, ◌≢◌, refl,
  sym, ap, subst, ◌∙◌, inl, inr, arith, Map, Option-cases, Bool-cases, get, put, get-put, length,
  length-append,
}
use mathlib.Core.List.{append_assoc, append-nil}
use zvonok.Session.State.{
  Manager, Act, settle, transport_produce, Track, Intent, LocalProducer, ProduceResult,
  is_connected, act,
}
use zvonok.Session.Publish.{
  reply_with, buffer, begin_flight, single_flight, existing_producer, find_producer,
  get_screen_producer, get_producer_by_kind, is_screen, dedupe_key, encodings_of, codec_options_of,
  source_or_camera, produce_with_source,
}
use zvonok.Session.Producers.{produce_all, settle_pending, live_intents, unanswered}

abbrev pub AreLive : (Track → Bool) → List Intent → Type 0
AreLive live [] = Unit
AreLive live (i ∷ rest) = (live i.track ≡ true) × AreLive live rest

pub live_intents-AreLive :
    (live : Track → Bool) (ps : Map LocalProducer) (more : List Intent)
    → AreLive live more
    → AreLive live (live_intents live ps ++ more)
unfolding live_intents
live_intents-AreLive live [] more h = h
live_intents-AreLive live ((id, p) ∷ ps) more h =
    let rest = live_intents-AreLive live ps more h in
    elim (Option-cases p.track) [
      | inl e ↦ rw (live_intents, e) rest
      | inr (t, e) ↦ elim (Bool-cases (live t)) [
        | inl f ↦ rw (live_intents, e, f) (f, rest)
        | inr f ↦ rw (live_intents, e, f) rest
      ]
    ]

-- Without a transport, live calls are buffered up to eight.
pub buffered :
    (live : Track → Bool) (es : List Intent) (s : Manager)
    → s.send_transport ≡ none
    → is_connected s ≡ true
    → length s.pending_local + length es ≤ 8
    → AreLive live es
    → produce_all live (unanswered es) s
      ≡ record s { pending_local = s.pending_local ++ unanswered es }
unfolding produce_all is_connected
buffered live [] s e c l h =
    ap (λ z. record s { pending_local = z }) (sym (append-nil s.pending_local))
buffered live (i ∷ es) s e c l (h, hs) =
    let t = record s { pending_local = s.pending_local ++ (i, none) ∷ [] } in
    let one : produce_with_source live i none s ≡ t =
      unfold produce_with_source buffer in ground (arith, e, c, l, h) in
    ap (produce_all live (unanswered es)) one
    ∙ buffered live es t e c (omega (arith, l, length-append s.pending_local ((i, none) ∷ []))) hs
    ∙ ap (λ z. record s { pending_local = z })
        (append_assoc s.pending_local ((i, none) ∷ []) (unanswered es))

-- The call of the media library for an intent.
abbrev pub call_for : String → ℕ → Intent → Act
call_for transport n i =
    transport_produce n transport i.track (encodings_of i) (codec_options_of i)
      (source_or_camera i.track.kind i.source)

unfoldable pub calls_for : String → ℕ → List Intent → List Act
calls_for transport n [] = []
calls_for transport n (i ∷ rest) = call_for transport n i ∷ calls_for transport (suc n) rest

abbrev DiffersFrom : Intent → List Intent → Type 0
DiffersFrom i [] = Unit
DiffersFrom i (j ∷ rest) = (dedupe_key i ≢ dedupe_key j) × DiffersFrom i rest

-- No two of them are for the microphone, the camera or the screen.
abbrev pub IsDistinct : List Intent → Type 0
IsDistinct [] = Unit
IsDistinct (i ∷ rest) = DiffersFrom i rest × IsDistinct rest

-- None of them is under way, nor will be when its turn comes.
abbrev AreApart : List Intent → Map ℕ → Type 0
AreApart [] m = Unit
AreApart (i ∷ rest) m =
    (n : ℕ) → (get (dedupe_key i) m ≡ none) × AreApart rest (put (dedupe_key i) n m)

abbrev AreAbsent : List Intent → Map ℕ → Type 0
AreAbsent [] m = Unit
AreAbsent (i ∷ rest) m = (get (dedupe_key i) m ≡ none) × AreAbsent rest m

put-AreAbsent :
    (i : Intent) (n : ℕ) (es : List Intent) (m : Map ℕ)
    → DiffersFrom i es
    → AreAbsent es m
    → AreAbsent es (put (dedupe_key i) n m)
put-AreAbsent i n [] m d h = tt
put-AreAbsent i n (j ∷ es) m (d, ds) (h, hs) =
    (ground (arith, get-put (dedupe_key j) (dedupe_key i) n m, d, h), put-AreAbsent i n es m ds hs)

distinct-AreApart : (es : List Intent) (m : Map ℕ) → IsDistinct es → AreAbsent es m → AreApart es m
distinct-AreApart [] m d h = tt
distinct-AreApart (i ∷ es) m (d, ds) (h, hs) =
    λ n. (h, distinct-AreApart es (put (dedupe_key i) n m) ds (put-AreAbsent i n es m d hs))

none-AreAbsent : (es : List Intent) → AreAbsent es []
unfolding get
none-AreAbsent [] = tt
none-AreAbsent (i ∷ es) = (refl, none-AreAbsent es)

nothing_exists : (i : Intent) (s : Manager) → s.producers ≡ [] → existing_producer i s ≡ none
unfolding existing_producer get_screen_producer get_producer_by_kind find_producer
nothing_exists i s e = elim (Bool-cases (is_screen i.source)) [
  | inl f ↦ ground (arith, f, e)
  | inr f ↦ ground (arith, f, e)
]

-- Calls apart from one another are started, each with a call of the media library.
started_apart :
    (live : Track → Bool) (t : String) (es : List Intent) (s : Manager)
    → s.send_transport ≡ some t
    → s.producers ≡ []
    → AreApart es s.in_progress
    → ((produce_all live (unanswered es) s).acts ≡ s.acts ++ calls_for t s.next_flight es)
      × ((produce_all live (unanswered es) s).state ≡ s.state)
      × ((produce_all live (unanswered es) s).session_established ≡ s.session_established)
unfolding produce_all calls_for begin_flight
started_apart live t [] s e f h = (sym (append-nil s.acts), refl, refl)
started_apart live t (i ∷ es) s e f h =
    let u = begin_flight t i none s in
    let (free, rest) = h s.next_flight in
    let one : produce_with_source live i none s ≡ u =
      unfold produce_with_source single_flight in ground (arith, e, nothing_exists i s f, free) in
    let (acts, state, session) = started_apart live t es u e f rest in
    (
      ap (λ z. (produce_all live (unanswered es) z).acts) one
          ∙ acts
          ∙ append_assoc s.acts (call_for t s.next_flight i ∷ [])
              (calls_for t (suc s.next_flight) es),
      ap (λ z. (produce_all live (unanswered es) z).state) one ∙ state,
      ap (λ z. (produce_all live (unanswered es) z).session_established) one ∙ session,
    )

pub started :
    (live : Track → Bool) (t : String) (es : List Intent) (s : Manager)
    → s.send_transport ≡ some t
    → s.producers ≡ []
    → s.in_progress ≡ []
    → IsDistinct es
    → ((produce_all live (unanswered es) s).acts ≡ s.acts ++ calls_for t s.next_flight es)
      × ((produce_all live (unanswered es) s).state ≡ s.state)
      × ((produce_all live (unanswered es) s).session_established ≡ s.session_established)
started live t es s e f g d =
    started_apart live t es s e f
      (subst (AreApart es) (sym g) (distinct-AreApart es [] d (none-AreAbsent es)))

-- What settles for the calls that were buffered.
unfoldable pub settlements : ProduceResult → List (Intent × Option ℕ) → List Act
settlements result [] = []
settlements result ((i, none) ∷ es) = settlements result es
settlements result ((i, some n) ∷ es) = settle n result ∷ settlements result es

pub settle_all :
    (result : ProduceResult) (es : List (Intent × Option ℕ)) (s : Manager)
    → settle_pending result es s ≡ act (settlements result es) s
unfolding settle_pending settlements reply_with
settle_all result [] s = ap (λ z. record s { acts = z }) (sym (append-nil s.acts))
settle_all result ((i, none) ∷ es) s = settle_all result es s
settle_all result ((i, some n) ∷ es) s =
    settle_all result es (act (settle n result ∷ []) s)
    ∙ ap (λ z. record s { acts = z })
        (append_assoc s.acts (settle n result ∷ []) (settlements result es))
