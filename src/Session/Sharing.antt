-- ===== src/Session/Sharing.antt =====
-- Calls for one medium share one run, and the members' media that end with them.
use zvonok.Prelude.{
  ℕ, String, Bool, none, some, List, [], ◌∷◌, ◌++◌, ◌≡◌, refl, ap, ◌∙◌, arith, get, put, get-put,
}
use mathlib.Core.List.{append_assoc}
use zvonok.Session.State.{Manager, settle, Track, Intent, Flight, ProduceResult}
use zvonok.Session.Publish.{
  produce_with_source, existing_producer, get_screen_producer, get_producer_by_kind, single_flight,
  begin_flight, join_flight, dedupe_key, find_flight, caught, finish_flight, reply_all, reply_with,
}
use zvonok.Session.Queue.{call_for}

first_call :
    (live : Track → Bool) (i : Intent) (m : ℕ) (t : String) (s : Manager)
    → s.send_transport ≡ some t
    → existing_producer i s ≡ none
    → get (dedupe_key i) s.in_progress ≡ none
    → produce_with_source live i (some m) s ≡ begin_flight t i (some m) s
unfolding produce_with_source single_flight
first_call live i m t s e f h = ground (arith, e, f, h)

-- The run with both who wait for it.
abbrev both : Intent → ℕ → ℕ → Flight
both i m n = record { key = dedupe_key i; intent = i; replies = some m ∷ some n ∷ [] }

second_call :
    (live : Track → Bool) (i j : Intent) (m n : ℕ) (t : String) (s : Manager)
    → s.send_transport ≡ some t
    → existing_producer j s ≡ none
    → dedupe_key i ≡ dedupe_key j
    → produce_with_source live j (some n) (begin_flight t i (some m) s)
      ≡ record (begin_flight t i (some m) s) { flights = (s.next_flight, both i m n) ∷ s.flights }
unfolding produce_with_source single_flight begin_flight join_flight existing_producer
    get_screen_producer get_producer_by_kind
second_call live i j m n t s e g k =
    let found : get (dedupe_key j) (put (dedupe_key i) s.next_flight s.in_progress)
        ≡ some s.next_flight =
      ground (arith, get-put (dedupe_key j) (dedupe_key i) s.next_flight s.in_progress, k) in
    ground (arith, e, g, found)

finish_lem :
    (i : Intent) (m n k : ℕ) (result : ProduceResult) (s : Manager) (fs : List (ℕ × Flight))
    → s.flights ≡ (k, both i m n) ∷ fs
    → (finish_flight k result s).acts
      ≡ s.acts ++ settle m (caught result) ∷ settle n (caught result) ∷ []
unfolding finish_flight find_flight reply_all reply_with
finish_lem i m n k result s fs e =
    let found : find_flight k s.flights ≡ some (both i m n) = ground (arith, e) in
    rw (finish_flight, found)
      (append_assoc s.acts (settle m (caught result) ∷ []) (settle n (caught result) ∷ []))

-- Of two calls for the same medium, with a transport and no producer or run for it, only the first calls
-- the media library, and both settle with what that call comes to.
pub shared_flight :
    (live live' : Track → Bool) (i j : Intent) (m n : ℕ) (t : String) (result : ProduceResult)
    (s : Manager)
    → s.send_transport ≡ some t
    → existing_producer i s ≡ none
    → existing_producer j s ≡ none
    → dedupe_key i ≡ dedupe_key j
    → get (dedupe_key i) s.in_progress ≡ none
    → (finish_flight s.next_flight result
        (produce_with_source live' j (some n) (produce_with_source live i (some m) s))).acts
      ≡ s.acts
        ++ call_for t s.next_flight i ∷ settle m (caught result) ∷ settle n (caught result) ∷ []
shared_flight live live' i j m n t result s e f g k h =
    let u = begin_flight t i (some m) s in
    let v = record u { flights = (s.next_flight, both i m n) ∷ s.flights } in
    let two : produce_with_source live' j (some n) (produce_with_source live i (some m) s) ≡ v =
      ap (produce_with_source live' j (some n)) (first_call live i m t s e f h)
      ∙ second_call live' i j m n t s e g k in
    ap (λ z. (finish_flight s.next_flight result z).acts) two
    ∙ finish_lem i m n s.next_flight result v s.flights refl
    ∙ (unfold begin_flight in
        append_assoc s.acts (call_for t s.next_flight i ∷ [])
          (settle m (caught result) ∷ settle n (caught result) ∷ []))
