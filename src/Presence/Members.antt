-- ===== src/Presence/Members.antt =====
-- The records and the member sets of the rooms say the same: lemmas on the two maps alone.
use zvonok.Prelude.{
  String, ◌≡◌, ◌≢◌, ◌⊎◌, true, Option, none, some, List, [], arith, truthy, Map, get, put, remove,
  modify, set_at, get-put, get-remove, has, add, discard, has_at, has_at-add, has_at-modify,
  has_at-remove, colon_free,
}
use zvonok.Presence.State.{PresenceRecord}

-- The ids of rooms are neither empty nor hold a colon.
pub record IsRoomId (room : String) : Type 0 where
  pub filled : room ≢ ""
  pub plain : colon_free room ≡ true

pub truthy_room : {room : String} → IsRoomId room → truthy (some room) ≡ some room
unfolding truthy
truthy_room v = ground (arith, v.filled)

abbrev room_of : Option PresenceRecord → Option String
room_of none = none
room_of (some r) = some r.room_id

pub record IsMembers (records : Map PresenceRecord) (rooms : Map (List String)) : Type 0 where
  pub member :
      (sid room : String) → has_at sid rooms room ≡ true → room_of (get sid records) ≡ some room
  pub tracked :
      (sid : String) (r : PresenceRecord)
      → get sid records ≡ some r
      → has_at sid rooms r.room_id ≡ true
  pub own : (sid : String) (r : PresenceRecord) → get sid records ≡ some r → r.socket_id ≡ sid
  pub id : (sid : String) (r : PresenceRecord) → get sid records ≡ some r → IsRoomId r.room_id

module _ {records : Map PresenceRecord} {rooms : Map (List String)}
    (v : IsMembers records rooms) where
  -- A socket leaves the room of its record.
  pub drop-IsMembers :
      (sid : String) (r : PresenceRecord)
      → get sid records ≡ some r
      → IsMembers (remove sid records) (modify r.room_id (discard sid) rooms)
  drop-IsMembers sid r e = record {
    member = λ x room h. ground (
      arith,
      v.member x room,
      get-remove x sid records,
      has_at-modify x room rooms r.room_id sid,
    );
    tracked = λ x q h. ground (
      arith,
      v.tracked x q,
      get-remove x sid records,
      has_at-modify x q.room_id rooms r.room_id sid,
    );
    own = λ x q h. v.own x q (ground (arith, get-remove x sid records));
    id = λ x q h. v.id x q (ground (arith, get-remove x sid records));
  }

  -- A socket without a record, or with one for the same room, joins.
  pub join-IsMembers :
      (r : PresenceRecord)
      → IsRoomId r.room_id
      → (room_of (get r.socket_id records) ≡ none)
        ⊎ (room_of (get r.socket_id records) ≡ some r.room_id)
      → IsMembers
          (put r.socket_id r records)
          (put r.room_id (add r.socket_id (set_at rooms r.room_id)) rooms)
  join-IsMembers r w before = record {
    member = λ x room h. ground (
      arith,
      v.member x room,
      get-put x r.socket_id r records,
      has_at-add x room rooms r.room_id r.socket_id,
    );
    tracked = λ x q h. ground (
      arith,
      v.tracked x q,
      get-put x r.socket_id r records,
      has_at-add x q.room_id rooms r.room_id r.socket_id,
    );
    own = λ x q h. ground (arith, v.own x q, get-put x r.socket_id r records);
    id = λ x q h. ground (arith, v.id x q, w.filled, w.plain, get-put x r.socket_id r records);
  }

  -- A room without members is dropped.
  pub forget-IsMembers :
      (room : String) → set_at rooms room ≡ [] → IsMembers records (remove room rooms)
  unfolding has
  forget-IsMembers room e = record {
    member = λ x k h. v.member x k (ground (arith, has_at-remove x k rooms room));
    tracked = λ x q h. ground (arith, v.tracked x q h, has_at-remove x q.room_id rooms room);
    own = v.own;
    id = v.id;
  }
