-- ===== src/Webhooks/Dispatch.antt =====
-- apps/server/src/webhooks/webhook-dispatcher.service.ts and webhook-delivery.service.ts. The rows of
-- the database, the clock and the POST request are parameters.
use zvonok.Prelude.{
  ℕ, suc, ◌≤◌, ◌<◌, ◌≡◌, ◌≢◌, ◌⊎◌, inl, inr, ◌∙◌, sym, subst, refl, dec_lt, String, Bool, false,
  Option, none, some, if◌then◌else◌, truthy, or_else, arith,
}
use zvonok.Json.{Json, text, number, object, Fields, end, field}
use zvonok.Presence.State.{
  Participant, LeaveReason, leave, kick, room_end, disconnect, Webhook, room_started,
  participant_joined, participant_left, room_ended,
}
use zvonok.Webhooks.Queue.{Outcome, delivered, failed, throws, dropped, run_with_retries}
use zvonok.Webhooks.Retries.{retries_settle, tries, ending_of}

pub record ProjectRow : Type 0 where
  pub id : String
  pub webhook_url : Option String
  pub webhook_secret : Option String

pub record RoomRow : Type 0 where
  pub slug : String
  pub project : Option ProjectRow

pub record Emission : Type 0 where
  pub room_id : String
  pub room_slug : Option String
  pub type : String
  pub extra : Fields

pub data EgressEvent : Type 0 where
  egress_started : String → Json → EgressEvent
  egress_stopped : String → Json → String → EgressEvent
  egress_failed : String → Json → String → EgressEvent
  recording_ready : String → Json → String → ℕ → EgressEvent

reason_text : LeaveReason → String
reason_text leave = "leave"
reason_text kick = "kick"
reason_text room_end = "room-end"
reason_text disconnect = "disconnect"

-- A field whose value is undefined is left out of the text.
optional : String → Option Json → Fields → Fields
optional k none fs = fs
optional k (some v) fs = field k v fs

text_option : Option String → Option Json
text_option none = none
text_option (some s) = some (text s)

participant_json : Participant → Json
unfolding optional text_option
participant_json p = object (
    field "id" (text p.id) (
      field "displayName" (text p.display_name)
        (optional "externalId" (text_option p.external_id) (optional "metadata" p.metadata end))))

egress_json : String → Json → Json
egress_json id outputs = object (field "id" (text id) (field "outputs" outputs end))

unfoldable pub emission_of : Webhook → Emission
unfolding participant_json reason_text
emission_of (room_started room slug) = record {
  room_id = room;
  room_slug = slug;
  type = "room.started";
  extra = end;
}
emission_of (participant_joined room slug p) = record {
  room_id = room;
  room_slug = slug;
  type = "participant.joined";
  extra = field "participant" (participant_json p) end;
}
emission_of (participant_left room slug p reason) = record {
  room_id = room;
  room_slug = slug;
  type = "participant.left";
  extra = field "participant" (participant_json p) (field "reason" (text (reason_text reason)) end);
}
emission_of (room_ended room slug) = record {
  room_id = room;
  room_slug = slug;
  type = "room.ended";
  extra = end;
}

unfoldable pub egress_emission_of : String → Option String → EgressEvent → Emission
unfolding egress_json
egress_emission_of room slug (egress_started id outputs) = record {
  room_id = room;
  room_slug = slug;
  type = "egress.started";
  extra = field "egress" (egress_json id outputs) end;
}
egress_emission_of room slug (egress_stopped id outputs reason) = record {
  room_id = room;
  room_slug = slug;
  type = "egress.stopped";
  extra = field "egress" (egress_json id outputs) (field "reason" (text reason) end);
}
egress_emission_of room slug (egress_failed id outputs error) = record {
  room_id = room;
  room_slug = slug;
  type = "egress.failed";
  extra = field "egress" (egress_json id outputs) (field "error" (text error) end);
}
egress_emission_of room slug (recording_ready id outputs url size) = record {
  room_id = room;
  room_slug = slug;
  type = "egress.recording_ready";
  extra =
      field "egress" (egress_json id outputs)
        (field "recordingUrl" (text url) (field "recordingSizeBytes" (number size) end));
}

unfoldable pub body_of : String → Emission → RoomRow → Json
body_of timestamp e room = object (
    field "type" (text e.type) (
      field "timestamp" (text timestamp) (
        field "data"
          (object (
            field "roomId" (text e.room_id)
              (field "roomSlug" (text (or_else e.room_slug room.slug)) e.extra)))
          end)))

-- An endpoint and its secret, where both are set.
unfoldable pub endpoint_of : Option ProjectRow → Option (String × String)
endpoint_of none = none
endpoint_of (some p) = elim (truthy p.webhook_url) [
  | none ↦ none
  | some url ↦ elim (truthy p.webhook_secret) [ none ↦ none | some secret ↦ some (url, secret) ]
]

-- The project whose queue takes the event, with the body of its delivery.
unfoldable pub enqueue : (String → Option RoomRow) → String → Emission → Option (String × Json)
enqueue rooms timestamp e = elim (rooms e.room_id) [
  | none ↦ none
  | some room ↦ elim room.project [
    | none ↦ none
    | some project ↦ elim (endpoint_of (some project)) [
      | none ↦ none
      | some endpoint ↦ some (project.id, body_of timestamp e room)
    ]
  ]
]

-- What a POST comes to: a response, which is a 2xx or not, or an error.
pub data Fetched : Type 0 where
  response : Bool → Fetched
  error : Fetched

unfoldable pub deliver : Fetched → Bool
deliver (response is_ok) = is_ok
deliver error = false

pub data ConfigRead : Type 0 where
  unreadable : ConfigRead
  row : Option ProjectRow → ConfigRead

-- An attempt of a delivery: the configuration is read again each time.
unfoldable pub attempt_of : (ℕ → ConfigRead) → (ℕ → String × String → Fetched) → ℕ → Outcome
unfolding deliver
attempt_of configs post n = elim (configs n) [
  | unreadable ↦ throws
  | row project ↦ elim (endpoint_of project) [
    | none ↦ delivered
    | some endpoint ↦ if deliver (post n endpoint) then delivered else failed
  ]
]

removed_delivered :
    (configs : ℕ → ConfigRead) (post : ℕ → String × String → Fetched) (k : ℕ)
    (project : Option ProjectRow)
    → configs k ≡ row project
    → endpoint_of project ≡ none
    → attempt_of configs post k ≡ delivered
unfolding attempt_of
removed_delivered configs post k project e f = rw (attempt_of, e, f) refl

not_dropped : (o : Outcome) → o ≢ failed → ending_of o ≢ dropped
not_dropped delivered ne = λ e. cc
not_dropped failed ne = absurd (ne refl)
not_dropped throws ne = λ e. cc

stops_by :
    (attempt : ℕ → Outcome) (k n : ℕ)
    → attempt k ≡ delivered
    → ((m : ℕ) → m < n → attempt m ≡ failed)
    → n ≤ k
stops_by attempt k n gone before = elim (dec_lt k n) [
  | yes l ↦ absurd (ground (arith, gone, before k l))
  | no m ↦ omega arith
]

ends_well :
    (attempt : ℕ → Outcome) (k n : ℕ)
    → k ≤ 5
    → n ≤ k
    → attempt k ≡ delivered
    → (n ≡ 5) ⊎ (attempt n ≢ failed)
    → attempt n ≢ failed
ends_well attempt k n le by gone (inr ne) = ne
ends_well attempt k n le by gone (inl e) =
    let same : k ≡ n = omega arith in
    subst (λ m. attempt m ≢ failed) same (λ f. ground (arith, gone, f))

-- When the endpoint of a project is taken away while a delivery is being retried, the attempt that
-- finds it gone is the last one, and the delivery is not reported as dropped.
pub removed_config_stops :
    (configs : ℕ → ConfigRead) (post : ℕ → String × String → Fetched) (k : ℕ)
    (project : Option ProjectRow)
    → k ≤ 5
    → configs k ≡ row project
    → endpoint_of project ≡ none
    → (tries (run_with_retries (attempt_of configs post)).0 ≤ suc k)
      × ((run_with_retries (attempt_of configs post)).1 ≢ dropped)
removed_config_stops configs post k project le e f =
    let gone = removed_delivered configs post k project e f in
    let (n, le5, before, why, ends, count, wait) = retries_settle (attempt_of configs post) in
    let by = stops_by (attempt_of configs post) k n gone before in
    let good = ends_well (attempt_of configs post) k n le by gone why in
    (omega (arith, count, by), λ d. not_dropped (attempt_of configs post n) good (sym ends ∙ d))
