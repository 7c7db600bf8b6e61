-- ===== src/Broadcast.antt =====
-- apps/server/src/sfu/sfu-broadcast.service.ts: the data channel of a room. The size of a payload's
-- JSON text in bytes and the clock are parameters.
pub mod Reach
mod Tests
use Prim.Native.Char.{Char, code}
use zvonok.Prelude.{
  ℕ, zero, suc, ◌≤◌, ◌≡◌, ◌≢◌, ◌⊎◌, ◌∙◌, inl, inr, sym, ap, refl, String, Bool, true, false, Option,
  none, some, List, [], ◌∷◌, ◌++◌, arith, ◌==◌, ◌&&◌, ◌||◌, not, if◌then◌else◌, leb, Bool-cases,
  Option-cases, is_some, ite, str_dec, get, has, Map,
}
use zvonok.Json.{Json, text, object, end, field, as_text}
use zvonok.Capabilities.{includes, send_data_message}
use zvonok.Presence.State.{State, PresenceRecord, Event, Effect, emit, fan_out, message, send}
use zvonok.Presence.Rooms.{fan_out_effects, broadcast_to_room, deliveries, list_peer_sockets}
use zvonok.Presence.Lookup.{context_of}

abbrev pub broadcast_payload_max_bytes : ℕ
broadcast_payload_max_bytes = 8192

pub data BroadcastErrorCode : Type 0 where
  not_in_room missing_capability payload_too_large invalid_topic : BroadcastErrorCode

pub data BroadcastAck : Type 0 where
  ok : BroadcastAck
  denied : BroadcastErrorCode → String → BroadcastAck

pub record BroadcastPayload : Type 0 where
  pub topic : Option Json
  pub payload : Option Json

between : ℕ → ℕ → ℕ → Bool
between low high n = leb low n && leb n high

-- `[A-Za-z0-9._-]`
unfoldable pub in_topic : Char → Bool
unfolding between
in_topic c =
    between b'A' b'Z' (code c)
    || between b'a' b'z' (code c)
    || between b'0' b'9' (code c)
    || code c == b'.'
    || code c == b'_'
    || code c == b'-'

-- No more characters than the number, all of a topic's.
unfoldable pub topic_within : ℕ → String → Bool
topic_within n String.[] = true
topic_within zero (String.◌∷◌ c s) = false
topic_within (suc n) (String.◌∷◌ c s) = in_topic c && topic_within n s

unfoldable pub valid_topic : String → Bool
valid_topic String.[] = false
valid_topic (String.◌∷◌ c s) = topic_within 64 (String.◌∷◌ c s)

unfoldable pub topic_of : Option Json → Option String
topic_of topic = elim (as_text topic) [
  | none ↦ none
  | some t ↦ if valid_topic t then some t else none
]

unfoldable pub fits : (Json → ℕ) → Option Json → Option Json
fits bytes none = none
fits bytes (some v) = if leb (bytes v) broadcast_payload_max_bytes then some v else none

abbrev pub broadcast_message : String → String → Json → String → Event
broadcast_message sender topic payload timestamp = message "sfu:broadcast" (
    object (
      field "senderId" (text sender) (
        field "topic" (text topic)
          (field "payload" payload (field "timestamp" (text timestamp) end)))))

unfoldable pub broadcast :
    (Json → ℕ) → String → State → String → BroadcastPayload → State × BroadcastAck
broadcast bytes timestamp s sid p = elim (context_of s sid) [
  | none ↦ (s, denied not_in_room "Join the room before broadcasting")
  | some r ↦
      if includes r.capabilities send_data_message
      then (elim (topic_of p.topic) [
        | none ↦ (s, denied invalid_topic "topic must be 1-64 characters of [A-Za-z0-9._-]")
        | some topic ↦ elim (fits bytes p.payload) [
          | none ↦ (s, denied payload_too_large "payload must serialize to at most 8192 bytes")
          | some payload ↦ (
            broadcast_to_room s r.room_id (broadcast_message r.user_id topic payload timestamp)
                (some sid),
            ok,
          )
        ]
      ])
      else (s, denied missing_capability "Missing send-data-message capability")
]

-- What a broadcast that is acknowledged shows.
abbrev pub Relayed : (Json → ℕ) → String → State → State → String → BroadcastPayload → Type 0
Relayed bytes timestamp s t sid p =
    (r : PresenceRecord) × (topic : String) × (payload : Json) × (get sid s.records ≡ some r)
    × (includes r.capabilities send_data_message ≡ true)
    × (p.topic ≡ some (text topic))
    × (valid_topic topic ≡ true)
    × (p.payload ≡ some payload)
    × (bytes payload ≤ 8192)
    × (t
        ≡ broadcast_to_room s r.room_id (broadcast_message r.user_id topic payload timestamp)
            (some sid))

topic_of_sound :
    (j : Option Json) (topic : String)
    → topic_of j ≡ some topic
    → (j ≡ some (text topic)) × (valid_topic topic ≡ true)
unfolding topic_of as_text
topic_of_sound j topic e = ground arith

fits_sound :
    (bytes : Json → ℕ) (j : Option Json) (v : Json)
    → fits bytes j ≡ some v
    → (j ≡ some v) × (bytes v ≤ 8192)
unfolding fits
fits_sound bytes j v e = ground arith

-- A broadcast either is refused and changes nothing, or it comes from a socket in a room whose record
-- holds the capability to send data, has a valid topic and a payload of at most 8192 bytes, and is
-- handed to the fan-out of that room with the sender left out.
pub relay_guarded :
    (bytes : Json → ℕ) (timestamp : String) (s : State) (sid : String) (p : BroadcastPayload)
    → (((broadcast bytes timestamp s sid p).1 ≢ ok) × ((broadcast bytes timestamp s sid p).0 ≡ s))
      ⊎ (((broadcast bytes timestamp s sid p).1 ≡ ok)
          × Relayed bytes timestamp s (broadcast bytes timestamp s sid p).0 sid p)
unfolding broadcast
relay_guarded bytes timestamp s sid p = elim (Option-cases (context_of s sid)) [
  | inl e ↦ inl (rw (broadcast, e) (λ h. cc), rw (broadcast, e) refl)
  | inr (r, e) ↦ elim (Bool-cases (includes r.capabilities send_data_message)) [
    | inr c ↦ inl (rw (broadcast, e, c) (λ h. cc), rw (broadcast, e, c) refl)
    | inl c ↦ elim (Option-cases (topic_of p.topic)) [
      | inl f ↦ inl (rw (broadcast, e, c, f) (λ h. cc), rw (broadcast, e, c, f) refl)
      | inr (topic, f) ↦ elim (Option-cases (fits bytes p.payload)) [
        | inl g ↦ inl (rw (broadcast, e, c, f, g) (λ h. cc), rw (broadcast, e, c, f, g) refl)
        | inr (payload, g) ↦
            let (a, b) = topic_of_sound p.topic topic f in
            let (h, k) = fits_sound bytes p.payload payload g in
            let whole : broadcast bytes timestamp s sid p ≡ (
              broadcast_to_room s r.room_id (broadcast_message r.user_id topic payload timestamp)
                  (some sid),
              ok,
            ) =
              rw (broadcast, e, c, f, g) refl in
            inr (
              ap (λ (x : State × BroadcastAck). x.1) whole,
              (r, topic, payload, e, c, a, b, h, k, ap (λ (x : State × BroadcastAck). x.0) whole),
            )
      ]
    ]
  ]
]
