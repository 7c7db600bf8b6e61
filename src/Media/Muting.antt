-- ===== src/Media/Muting.antt =====
-- Pausing and muting: `pauseProducer`, `resumeProducer`, `mutePeer` and `muteAll` of
-- apps/server/src/sfu/sfu.service.ts. The pauses of `muteAll` are awaited together; here they come one
-- after the other, in the order in which they are asked for.
use zvonok.Prelude.{
  String, Bool, true, false, Option, none, some, List, [], ◌∷◌, ite, if◌then◌else◌, str_dec, Map,
  get, modify,
}
use zvonok.Json.{Json, text, boolean, object, end, field}
use zvonok.Capabilities.{includes, mute_users}
use zvonok.Presence.State.{PresenceRecord}
use zvonok.Presence.Rooms.{list_peer_sockets, nonempty}
use zvonok.Presence.Control.{
  SfuHostActionAck, ok, denied, not_in_room, missing_capability, not_found,
}
use zvonok.Presence.Lookup.{context_of, peer_socket_in_room}
use zvonok.Media.State.{
  Sfu, MediaPeer, Producer, kind_json, source_json, user_json, Call, pause_producer as pauses,
  resume_producer as resumes, fan, call,
}

unfoldable pub set_paused : Bool → Producer → Producer
set_paused paused p = record p { paused = paused }

unfoldable pub set_producer : String → Bool → MediaPeer → MediaPeer
set_producer id paused peer = record peer {
  producers = modify id (set_paused paused) peer.producers;
}

unfoldable pub state_json : Producer → PresenceRecord → Bool → Json
state_json p r paused = object (
    field "producerId" (text p.id) (
      field "kind" (kind_json p.kind) (
        field "userId" (text r.user_id)
          (field "paused" (boolean paused) (field "source" (source_json p.source) end)))))

-- The producer of the socket, with the socket's context.
unfoldable pub own_producer : Sfu → String → String → Option (Producer × PresenceRecord)
own_producer s sid producer_id = elim (get sid s.media) [
  | none ↦ none
  | some peer ↦ elim (get producer_id peer.producers) [
    | none ↦ none
    | some p ↦ elim (context_of s.presence sid) [ none ↦ none | some r ↦ some (p, r) ]
  ]
]

unfoldable pub change_producer : Bool → Call → Sfu → String → String → Sfu
change_producer paused done s sid producer_id = elim (own_producer s sid producer_id) [
  | none ↦ s
  | some (p, r) ↦
      fan r.room_id "sfu:producer-state-changed" (state_json p r paused) (some sid) (
        call (done ∷ [])
          (record s { media = modify sid (set_producer producer_id paused) s.media }))
]

unfoldable pub pause_producer : Sfu → String → String → Sfu
pause_producer s sid producer_id = change_producer true (pauses producer_id) s sid producer_id

unfoldable pub resume_producer : Sfu → String → String → Sfu
resume_producer s sid producer_id = change_producer false (resumes producer_id) s sid producer_id

unfoldable pub pause_all : Map Producer → Map Producer
unfolding set_paused
pause_all [] = []
pause_all ((k, p) ∷ ps) = (k, set_paused true p) ∷ pause_all ps

-- The calls for the producers that are not paused yet.
unfoldable pub pause_calls : Map Producer → List Call
pause_calls [] = []
pause_calls ((k, p) ∷ ps) =
    let rest = pause_calls ps in if p.paused then rest else pauses p.id ∷ rest

unfoldable pub mute_media : MediaPeer → MediaPeer
mute_media peer = record peer { producers = pause_all peer.producers }

unfoldable pub calls_of : Option MediaPeer → List Call
calls_of none = []
calls_of (some peer) = pause_calls peer.producers

unfoldable pub mute_room_peer : String → String → String → Sfu → Sfu
mute_room_peer room target user_id s =
    fan room "sfu:peer-muted" (user_json user_id) none
      (call (calls_of (get target s.media)) (record s { media = modify target mute_media s.media }))

-- The requester's record, where it may mute.
unfoldable pub deny_host_action : Sfu → String → Option SfuHostActionAck
deny_host_action s sid = elim (context_of s.presence sid) [
  | none ↦ some (denied not_in_room "Join the room before using host controls")
  | some r ↦
      if includes r.capabilities mute_users
      then none
      else some (denied missing_capability "Missing mute-users capability")
]

unfoldable pub mute_target : Sfu → String → String → String → Sfu × SfuHostActionAck
mute_target s sid room user_id = elim (peer_socket_in_room s.presence room user_id) [
  | none ↦ (s, not_found user_id)
  | some target ↦
      ite (str_dec target sid) (s, not_found user_id) (mute_room_peer room target user_id s, ok)
]

unfoldable pub mute_peer : Sfu → String → String → Sfu × SfuHostActionAck
mute_peer s sid user_id = elim (deny_host_action s sid) [
  | some denial ↦ (s, denial)
  | none ↦ elim (context_of s.presence sid) [
    | none ↦ (s, denied not_in_room "Join the room before using host controls")
    | some r ↦ mute_target s sid r.room_id user_id
  ]
]

abbrev pub is_publishing : Option MediaPeer → Bool
is_publishing none = false
is_publishing (some peer) = nonempty peer.producers

-- A member that publishes, as its context is known.
abbrev pub enlist :
    Bool → Option PresenceRecord → String → List (String × String) → List (String × String)
enlist true (some r) x rest = (x, r.user_id) ∷ rest
enlist _ _ x rest = rest

-- The other members that publish, with their users.
unfoldable pub publishers : Sfu → String → List String → List (String × String)
publishers s sid [] = []
publishers s sid (x ∷ xs) =
    let rest = publishers s sid xs in
    ite (str_dec x sid) rest
      (enlist (is_publishing (get x s.media)) (context_of s.presence x) x rest)

unfoldable pub mute_each : String → List (String × String) → Sfu → Sfu
mute_each room [] s = s
mute_each room ((x, u) ∷ xs) s = mute_each room xs (mute_room_peer room x u s)

unfoldable pub mute_all : Sfu → String → Sfu × SfuHostActionAck
mute_all s sid = elim (deny_host_action s sid) [
  | some denial ↦ (s, denial)
  | none ↦ elim (context_of s.presence sid) [
    | none ↦ (s, denied not_in_room "Join the room before using host controls")
    | some r ↦
        (mute_each r.room_id (publishers s sid (list_peer_sockets s.presence r.room_id)) s, ok)
  ]
]
