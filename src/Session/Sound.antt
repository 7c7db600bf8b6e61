-- ===== src/Session/Sound.antt =====
-- What holds of the client's session at all times, and the operations that change a session.
use zvonok.Prelude.{
  if_cases, elim_cases, ℕ, suc, ◌≤◌, ◌<◌, String, Bool, false, not, ◌||◌, Option, none, some, List,
  [], ◌∷◌, ◌++◌, ◌≡◌, refl, sym, ap, subst, ◌∙◌, ◌⊎◌, inl, inr, arith, get, leb, length,
  length-append,
}
use zvonok.Session.State.{Manager, Track, Intent, nothing, closed, produced, is_connected}
use zvonok.Session.Publish.{
  buffer, begin_flight, single_flight, existing_producer, dedupe_key, produce_with_source,
}
use zvonok.Session.Producers.{
  produce_all, live_intents, intents, retain_local_produces, close_publishing, close_calls,
  rejections,
}
use zvonok.Session.Subscribe.{close_consumers, close_consumer_calls}
use zvonok.Session.Recovery.{close_all, close_calls_of}
use zvonok.Session.Core.{
  joins, joins-append, Core, core, IsMild, act-IsMild, reply_with-IsMild, elim-IsMild,
  settle_pending-IsMild, joins-close_calls, joins-rejections, joins-close_consumer_calls,
}

-- Intents are held only for a session that can be recovered; transports stand on a device; at most eight
-- calls are buffered, and none once there is a transport to send by; at most five rejoins count.
abbrev pub SoundCore : Core → Type 0
SoundCore c =
    ((c.1 ≡ none → c.0 ≡ []) × (c.2 ≡ false → c.0 ≡ []))
    × (c.3 ≡ false → (c.4 ≡ none) × (c.5 ≡ none))
    × (length c.6 ≤ 8)
    × ((t : String) → c.4 ≡ some t → c.6 ≡ [])
    × (length c.7 ≤ 5)

abbrev pub IsSound : Manager → Type 0
IsSound s = SoundCore (core s)

pub mild-IsSound : (s t : Manager) → IsMild s t → IsSound s → IsSound t
mild-IsSound s t m h = subst SoundCore (sym m) h

begin_flight-IsMild :
    (transport : String) (i : Intent) (reply : Option ℕ) (s : Manager)
    → IsMild s (begin_flight transport i reply s)
unfolding begin_flight joins
begin_flight-IsMild transport i reply s =
    act-IsMild (_ ∷ []) (record s { next_flight = suc s.next_flight }) refl

single_flight-IsMild :
    (transport : String) (i : Intent) (reply : Option ℕ) (s : Manager)
    → IsMild s (single_flight transport i reply s)
unfolding single_flight
single_flight-IsMild transport i reply s =
    elim-IsMild (get (dedupe_key i) s.in_progress) s _ _ (begin_flight-IsMild transport i reply s)
      (λ n. refl)

-- A call of `produceWithSource` leaves the session alone or is buffered.
pub produce-cases :
    (live : Track → Bool) (i : Intent) (reply : Option ℕ) (s : Manager)
    → IsMild s (produce_with_source live i reply s)
      ⊎ ((s.send_transport ≡ none)
          × (length s.pending_local < 8)
          × (produce_with_source live i reply s ≡ buffer i reply s))
unfolding produce_with_source
produce-cases live i reply s =
    let P = λ (z : Manager).
      IsMild s z
      ⊎ ((s.send_transport ≡ none) × (length s.pending_local < 8) × (z ≡ buffer i reply s)) in
    elim_cases P s.send_transport _ _
      (λ e.
        if_cases P (not (is_connected s) || leb 8 (length s.pending_local) || not (live i.track)) _
          _ (λ f. inl (reply_with-IsMild reply nothing s)) (λ f. inr (e, ground (arith, f), refl)))
      (λ t e. inl (
        elim-IsMild (existing_producer i s) s _ _ (single_flight-IsMild t i reply s)
          (λ (id, p). reply_with-IsMild reply (produced id) s)))

close_publishing-core :
    (s : Manager)
    → core (close_publishing s) ≡ (
      s.retained,
      s.last_join_payload,
      s.session_established,
      s.has_device,
      s.send_transport,
      s.recv_transport,
      [],
      s.rejoin_times,
      joins s.acts,
    )
unfolding close_publishing
close_publishing-core s =
    settle_pending-IsMild closed s.pending_local _
    ∙ act-IsMild (close_calls s.producers ++ rejections s.pending_requests)
        (record s { pending_local = [] })
        (joins-append (close_calls s.producers) (rejections s.pending_requests)
          ∙ rw (joins-close_calls s.producers) (joins-rejections s.pending_requests))

joins-close_calls_of : (o p : Option String) → joins (close_calls_of o ++ close_calls_of p) ≡ []
unfolding joins
joins-close_calls_of none none = refl
joins-close_calls_of none (some p) = refl
joins-close_calls_of (some o) none = refl
joins-close_calls_of (some o) (some p) = refl

close_consumers-IsMild : (s : Manager) → IsMild s (close_consumers s)
unfolding close_consumers
close_consumers-IsMild s =
    act-IsMild (close_consumer_calls s.consumers) (record s { consumers = [] })
      (joins-close_consumer_calls s.consumers)

-- Without the transports and what was buffered.
abbrev pub torn : Core → Core
torn c = (c.0, c.1, c.2, c.3, none, none, [], c.7, c.8)

abbrev cut : Core → Core
cut c = (c.0, c.1, c.2, c.3, none, none, c.6, c.7, c.8)

pub close_all-core : (s : Manager) → core (close_all s) ≡ torn (core s)
unfolding close_all
close_all-core s =
    let t = close_consumers (close_publishing s) in
    act-IsMild (close_calls_of t.send_transport ++ close_calls_of t.recv_transport)
      (record t { send_transport = none; recv_transport = none; registry = [] })
      (joins-close_calls_of t.send_transport t.recv_transport)
    ∙ ap cut (close_consumers-IsMild (close_publishing s))
    ∙ ap cut (close_publishing-core s)

-- The held intents of a session that is recovered later.
pub retain-core :
    (live : Track → Bool) (s : Manager)
    → core (retain_local_produces live s) ≡ (
      s.retained ++ (live_intents live s.producers ++ intents s.pending_local),
      s.last_join_payload,
      s.session_established,
      s.has_device,
      s.send_transport,
      s.recv_transport,
      [],
      s.rejoin_times,
      joins s.acts,
    )
unfolding retain_local_produces
retain-core live s = settle_pending-IsMild nothing s.pending_local _

-- A call keeps the client sound, and neither joins nor changes what is held.
abbrev pub Keeps : Manager → Manager → Type 0
Keeps s t =
    (IsSound s → IsSound t)
    × (t.retained ≡ s.retained)
    × (t.last_join_payload ≡ s.last_join_payload)
    × (joins t.acts ≡ joins s.acts)

pub Keeps-refl : (s : Manager) → Keeps s s
Keeps-refl s = (λ h. h, refl, refl, refl)

pub Keeps-trans : (s t u : Manager) → Keeps s t → Keeps t u → Keeps s u
Keeps-trans s t u (a, b, c, d) (e, f, g, h) = (λ k. e (a k), f ∙ b, g ∙ c, h ∙ d)

pub mild-Keeps : (s t : Manager) → IsMild s t → Keeps s t
mild-Keeps s t m = (
  mild-IsSound s t m,
  ap (λ (c : Core). c.0) m,
  ap (λ (c : Core). c.1) m,
  ap (λ (c : Core). c.8) m,
)

buffer-IsSound :
    (i : Intent) (reply : Option ℕ) (s : Manager)
    → s.send_transport ≡ none
    → length s.pending_local < 8
    → IsSound s
    → IsSound (buffer i reply s)
unfolding buffer
buffer-IsSound i reply s e less (held, devices, bounded, flushed, rated) = (
  held,
  devices,
  omega (arith, less, length-append s.pending_local ((i, reply) ∷ [])),
  λ t f. absurd (ground (arith, e, f)),
  rated,
)

pub produce-Keeps :
    (live : Track → Bool) (i : Intent) (reply : Option ℕ) (s : Manager)
    → Keeps s (produce_with_source live i reply s)
unfolding buffer
produce-Keeps live i reply s = elim (produce-cases live i reply s) [
  | inl m ↦ mild-Keeps s (produce_with_source live i reply s) m
  | inr (e, less, same) ↦
      subst (Keeps s) (sym same) (buffer-IsSound i reply s e less, refl, refl, refl)
]

pub produce_all-Keeps :
    (live : Track → Bool) (es : List (Intent × Option ℕ)) (s : Manager)
    → Keeps s (produce_all live es s)
unfolding produce_all
produce_all-Keeps live [] s = Keeps-refl s
produce_all-Keeps live ((i, reply) ∷ es) s =
    let t = produce_with_source live i reply s in
    Keeps-trans s t (produce_all live es t) (produce-Keeps live i reply s)
      (produce_all-Keeps live es t)
