-- ===== src/Session/Core.antt =====
-- What most of the client's operations leave alone: the session, what is held for it, the transports,
-- and the requests to join.
use zvonok.Prelude.{
  ℕ, String, Bool, true, false, Option, none, some, List, [], ◌∷◌, ◌++◌, ◌≡◌, refl, ap, ◌∙◌, inl,
  inr, Map, Option-cases, if◌then◌else◌,
}
use mathlib.Core.List.{append-nil}
use zvonok.Client.Registry.{MediaSource}
use zvonok.Session.State.{
  Manager, Act, emit_join, JoinPayload, Intent, LocalProducer, RemoteConsumer, ProduceResult, act,
  send,
}
use zvonok.Session.Publish.{reply_with, reply_all}
use zvonok.Session.Producers.{settle_pending, close_calls, rejections}
use zvonok.Session.Subscribe.{close_consumer_calls}

abbrev pub asks : Act → List JoinPayload → List JoinPayload
asks (emit_join p) rest = p ∷ rest
asks _ rest = rest

-- The requests to join among the acts.
unfoldable pub joins : List Act → List JoinPayload
joins [] = []
joins (a ∷ rest) = asks a (joins rest)

asks-append : (a : Act) (xs ys : List JoinPayload) → asks a (xs ++ ys) ≡ asks a xs ++ ys
asks-append (emit_join p) xs ys = refl
asks-append _ xs ys = refl

pub joins-append : (xs ys : List Act) → joins (xs ++ ys) ≡ joins xs ++ joins ys
unfolding joins
joins-append [] ys = refl
joins-append (a ∷ xs) ys = rw (joins-append xs ys) (asks-append a (joins xs) (joins ys))

abbrev pub Core : Type 0
Core =
    List Intent
    × Option JoinPayload
    × Bool
    × Bool
    × Option String
    × Option String
    × List (Intent × Option ℕ)
    × List ℕ
    × List JoinPayload

abbrev pub core : Manager → Core
core s = (
  s.retained,
  s.last_join_payload,
  s.session_established,
  s.has_device,
  s.send_transport,
  s.recv_transport,
  s.pending_local,
  s.rejoin_times,
  joins s.acts,
)

abbrev pub IsMild : Manager → Manager → Type 0
IsMild s t = core t ≡ core s

pub act-joins : (es : List Act) (s : Manager) → joins es ≡ [] → joins (act es s).acts ≡ joins s.acts
act-joins es s e =
    joins-append s.acts es ∙ ap (λ z. joins s.acts ++ z) e ∙ append-nil (joins s.acts)

pub act-IsMild : (es : List Act) (s : Manager) → joins es ≡ [] → IsMild s (act es s)
act-IsMild es s e = rw (act-joins es s e) refl

pub if-IsMild :
    (b : Bool) (s x y : Manager) → IsMild s x → IsMild s y → IsMild s (if b then x else y)
if-IsMild true s x y p q = p
if-IsMild false s x y p q = q

pub elim-IsMild {ℓ} :
    {V : Type ℓ} (o : Option V) (s x : Manager) (f : V → Manager)
    → IsMild s x
    → ((v : V) → IsMild s (f v))
    → IsMild s (elim o [ none ↦ x | some v ↦ f v ])
elim-IsMild none s x f p q = p
elim-IsMild (some v) s x f p q = q v

pub send-IsMild : (es : List Act) (s : Manager) → joins es ≡ [] → IsMild s (send es s)
unfolding send
send-IsMild es s e = elim (Option-cases s.socket) [
  | inl f ↦ rw (send, f) refl
  | inr (c, f) ↦ rw (send, f) (act-IsMild es s e)
]

pub reply_with-IsMild :
    (r : Option ℕ) (result : ProduceResult) (s : Manager) → IsMild s (reply_with r result s)
unfolding reply_with joins
reply_with-IsMild none result s = refl
reply_with-IsMild (some n) result s = act-IsMild _ s refl

pub reply_all-IsMild :
    (rs : List (Option ℕ)) (result : ProduceResult) (s : Manager) → IsMild s (reply_all rs result s)
unfolding reply_all
reply_all-IsMild [] result s = refl
reply_all-IsMild (r ∷ rs) result s =
    reply_all-IsMild rs result (reply_with r result s) ∙ reply_with-IsMild r result s

pub settle_pending-IsMild :
    (result : ProduceResult) (es : List (Intent × Option ℕ)) (s : Manager)
    → IsMild s (settle_pending result es s)
unfolding settle_pending
settle_pending-IsMild result [] s = refl
settle_pending-IsMild result ((i, r) ∷ es) s =
    settle_pending-IsMild result es (reply_with r result s) ∙ reply_with-IsMild r result s

pub joins-close_calls : (ps : Map LocalProducer) → joins (close_calls ps) ≡ []
unfolding joins
joins-close_calls [] = refl
joins-close_calls (p ∷ ps) = joins-close_calls ps

pub joins-rejections : (rs : Map MediaSource) → joins (rejections rs) ≡ []
unfolding joins
joins-rejections [] = refl
joins-rejections (r ∷ rs) = joins-rejections rs

pub joins-close_consumer_calls : (cs : Map RemoteConsumer) → joins (close_consumer_calls cs) ≡ []
unfolding joins
joins-close_consumer_calls [] = refl
joins-close_consumer_calls (c ∷ cs) = joins-close_consumer_calls cs
