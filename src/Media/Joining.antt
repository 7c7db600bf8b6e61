-- ===== src/Media/Joining.antt =====
-- Who comes: `joinRoom`, the loss of routers and the subscriptions of
-- apps/server/src/sfu/sfu.service.ts.
use zvonok.Prelude.{
  ℕ, String, Option, none, some, List, [], ◌∷◌, ◌++◌, ◌==◌, if◌then◌else◌, is_some, Map, get, put,
  remove, has, add, set_at,
}
use zvonok.Json.{Json, text, array, object, Fields, Items, nil, cons, end, field}
use zvonok.Capabilities.{CapabilityId}
use zvonok.Auth.Jwt.{Services}
use zvonok.Auth.Identity.{Handshake}
use zvonok.Presence.State.{PresenceRecord}
use zvonok.Presence.Rooms.{list_peer_sockets}
use zvonok.Presence.Join.{Database, SfuJoinPayload, join}
use zvonok.Presence.Lookup.{on_peer_detach, on_room_closed}
use zvonok.Media.Pool.{create_router}
use zvonok.Media.State.{Sfu, MediaPeer, new_peer, Call, close_transports, tell, fan}
use zvonok.Media.Sessions.{detach_handler, closed_handler, drop_members, with_presence}

unfoldable pub attach_media : String → Sfu → Sfu
attach_media sid s = record s {
  media = put sid new_peer s.media;
  presence = on_peer_detach s.presence sid detach_handler;
}

unfoldable pub watch_room : String → Sfu → Sfu
watch_room room s = if has room s.router_rooms then s else record s {
  router_rooms = add room s.router_rooms;
  presence = on_room_closed s.presence room closed_handler;
}

optional : String → Option Json → Fields → Fields
optional k none fs = fs
optional k (some v) fs = field k v fs

text_option : Option String → Option Json
text_option none = none
text_option (some s) = some (text s)

joined_json : Json → (CapabilityId → String) → PresenceRecord → Json
unfolding optional text_option
joined_json router_capabilities name r = object (
    field "routerRtpCapabilities" router_capabilities (
      field "participant"
        (object (
          field "id" (text r.user_id) (
            field "username" (text r.username) (
              optional "externalId" (text_option r.external_id)
                (optional "metadata" r.metadata end)))))
        (field "capabilities" (array (names r.capabilities)) end)))
  where
    names : List CapabilityId → Items
    names [] = nil
    names (c ∷ cs) = cons (text (name c)) (names cs)

-- What a join that presence admits does to the media, with what the library answers for the router.
unfoldable pub open_media :
    Json → (CapabilityId → String) → Option ℕ → String → PresenceRecord → Sfu → Sfu
unfolding joined_json
open_media router_capabilities name answer sid r s =
    let t = watch_room r.room_id (attach_media sid s) in
    let made = create_router r.room_id answer t.pool in
    let u = record t { pool = made.0 } in
    elim made.1 [
      | none ↦ u
      | some router ↦ tell sid "sfu:joined" (joined_json router_capabilities name r) u
    ]

unfoldable pub join_room :
    Services
    → Database
    → Handshake
    → SfuJoinPayload
    → Json
    → (CapabilityId → String)
    → Option ℕ
    → Sfu
    → Sfu
join_room svc db h p router_capabilities name answer s =
    let joined = join svc db s.presence h p in
    elim joined.1 [
      | none ↦ with_presence joined.0 s
      | some outcome ↦
          open_media router_capabilities name answer h.socket_id outcome.peer
            (with_presence joined.0 s)
    ]

-- The rooms whose routers died and were made anew, with the capabilities of the new ones.
unfoldable pub handle_routers_lost : Json → List String → Sfu → Sfu
handle_routers_lost router_capabilities [] s = s
handle_routers_lost router_capabilities (room ∷ rooms) s =
    let t = drop_members (list_peer_sockets s.presence room) s in
    let u = record t { room_screen_share = remove room t.room_screen_share } in
    let told =
      fan room "sfu:room-media-reset"
        (object
          (field "roomId" (text room) (field "routerRtpCapabilities" router_capabilities end)))
        none u in
    handle_routers_lost router_capabilities rooms
      (if is_some (get room u.pool.routers) then told else u)

add_tap : ℕ → List ℕ → List ℕ
add_tap h [] = h ∷ []
add_tap h (x ∷ xs) = if x == h then x ∷ xs else x ∷ add_tap h xs

unfoldable pub on_producer_added : String → ℕ → Sfu → Sfu
unfolding add_tap
on_producer_added room h s = record s {
  tap_handlers = put room (add_tap h (set_at s.tap_handlers room)) s.tap_handlers;
}

all_calls : Map MediaPeer → List Call
all_calls [] = []
all_calls ((k, peer) ∷ peers) = close_transports peer ++ all_calls peers

unfoldable pub on_module_destroy : Sfu → Sfu
unfolding all_calls
on_module_destroy s = record s {
  calls = s.calls ++ all_calls s.media;
  media = [];
  room_screen_share = [];
  tap_handlers = [];
}
