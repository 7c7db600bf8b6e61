-- ===== src/Media/Reach.antt =====
-- Every run of the media layer, over the presence service.
use zvonok.Prelude.{ℕ, String, ◌≢◌, Bool, Option}
use zvonok.Json.{Json}
use zvonok.Capabilities.{CapabilityId}
use zvonok.Auth.Jwt.{Services}
use zvonok.Auth.Identity.{Handshake}
use zvonok.Presence.State.{leave as by_leave}
use zvonok.Presence.Rooms.{depart}
use zvonok.Presence.Join.{Database, SfuJoinPayload}
use zvonok.Presence.Control.{hold_seat}
use zvonok.Media.State.{Sfu, Call}
use zvonok.Media.Producers.{Producing, ProducePayload, finish_produce, create_producer}
use zvonok.Media.Closing.{close_producer_for_peer}
use zvonok.Media.Muting.{change_producer, mute_peer, mute_all}
use zvonok.Media.Consumers.{create_send_transport, create_recv_transport, create_consumer}
use zvonok.Media.Sessions.{leave_room, close_peer, kick_peer, expire_seat}
use zvonok.Media.Joining.{join_room}
use zvonok.Media.Frames.{depart-Frames, hold_seat-Frames}
use zvonok.Media.Attached.{IsAttached, mild-IsAttached, departs-IsAttached}
use zvonok.Media.Mild.{
  finish_produce-IsMild, create_producer-IsMild, close_producer-IsMild, mute_all-IsMild,
  mute_peer-IsMild, change_producer-IsMild,
}
use zvonok.Media.Receiving.{create_send-IsMild, create_recv-IsMild, create_consumer-IsMild}
use zvonok.Media.Entries.{join_room-IsAttached, expire_seat-IsAttached, kick_peer-IsAttached}

-- What the media layer is called for, by sockets, by hosts and by the presence service.
pub data Step : Sfu → Sfu → Type 0 where
  joins :
      (s : Sfu) (svc : Services) (db : Database) (h : Handshake) (pl : SfuJoinPayload) (j : Json)
      (name : CapabilityId → String) (answer : Option ℕ)
      → pl.room_id ≢ ""
      → Step s (join_room svc db h pl j name answer s)
  leaves : (s : Sfu) (sid : String) → Step s (leave_room sid s)
  drops : (s : Sfu) (sid : String) → Step s (close_peer sid s)
  expires : (s : Sfu) (room key : String) → Step s (expire_seat room key s)
  kicks : (s : Sfu) (sid user_id : String) → Step s (kick_peer sid user_id s).0
  produces :
      (s : Sfu) (sid : String) (p : ProducePayload) (answer : Option String)
      → Step s (create_producer s sid p answer)
  finishes : (s : Sfu) (g : Producing) (answer : Option String) → Step s (finish_produce g answer s)
  closes : (s : Sfu) (sid id : String) → Step s (close_producer_for_peer sid id s)
  pauses :
      (s : Sfu) (sid id : String) (paused : Bool) (done : Call)
      → Step s (change_producer paused done s sid id)
  mutes : (s : Sfu) (sid user_id : String) → Step s (mute_peer s sid user_id).0
  mutes_all : (s : Sfu) (sid : String) → Step s (mute_all s sid).0
  sends :
      (s : Sfu) (sid : String) (answer : Option String)
      → Step s (create_send_transport s sid answer)
  receives :
      (s : Sfu) (sid : String) (answer : Option String)
      → Step s (create_recv_transport s sid answer)
  consumes :
      (s : Sfu) (sid id : String) (answer : Option String)
      → Step s (create_consumer s sid id answer)

pub data Run : Sfu → Sfu → Type 0 where
  here : {s : Sfu} → Run s s
  next : {s t u : Sfu} → Run s t → Step t u → Run s u

step-IsAttached : {s t : Sfu} → IsAttached s → Step s t → IsAttached t
unfolding leave_room close_peer
step-IsAttached a (joins s svc db h pl j name answer n) =
    join_room-IsAttached svc db h pl j name answer s n a
step-IsAttached a (leaves s sid) =
    departs-IsAttached sid (λ p. depart p sid by_leave) s (depart-Frames sid by_leave) a
step-IsAttached a (drops s sid) =
    departs-IsAttached sid (λ p. hold_seat p sid) s (hold_seat-Frames sid) a
step-IsAttached a (expires s room key) = expire_seat-IsAttached room key s a
step-IsAttached a (kicks s sid user_id) = kick_peer-IsAttached sid user_id s a
step-IsAttached a (produces s sid p answer) =
    mild-IsAttached s (create_producer s sid p answer) (create_producer-IsMild s sid p answer) a
step-IsAttached a (finishes s g answer) =
    mild-IsAttached s (finish_produce g answer s) (finish_produce-IsMild g answer s) a
step-IsAttached a (closes s sid id) =
    mild-IsAttached s (close_producer_for_peer sid id s) (close_producer-IsMild sid id s) a
step-IsAttached a (pauses s sid id paused done) =
    mild-IsAttached s (change_producer paused done s sid id)
      (change_producer-IsMild paused done s sid id) a
step-IsAttached a (mutes s sid user_id) =
    mild-IsAttached s (mute_peer s sid user_id).0 (mute_peer-IsMild s sid user_id) a
step-IsAttached a (mutes_all s sid) = mild-IsAttached s (mute_all s sid).0 (mute_all-IsMild s sid) a
step-IsAttached a (sends s sid answer) =
    mild-IsAttached s (create_send_transport s sid answer) (create_send-IsMild s sid answer) a
step-IsAttached a (receives s sid answer) =
    mild-IsAttached s (create_recv_transport s sid answer) (create_recv-IsMild s sid answer) a
step-IsAttached a (consumes s sid id answer) =
    mild-IsAttached s (create_consumer s sid id answer) (create_consumer-IsMild s sid id answer) a

-- Where every socket that has media has a record in a room, and the presence service will call the
-- media layer before it takes that record out, the same holds after every run of joins to rooms with a
-- name, leaves, network drops, grace expiries, kicks, productions, mutes, transports and consumers.
pub Run-IsAttached : {s t : Sfu} → IsAttached s → Run s t → IsAttached t
Run-IsAttached a here = a
Run-IsAttached a (next r m) = step-IsAttached (Run-IsAttached a r) m
