-- ===== src/Media/Closing.antt =====
-- The end of producers and of a member's media: `closeProducerForPeer` and `detachMedia` of
-- apps/server/src/sfu/sfu.service.ts.
use zvonok.Prelude.{
  keys, String, Bool, true, false, ◌&&◌, Option, none, some, List, [], ◌∷◌, ite, if◌then◌else◌,
  str_dec, Map, get, remove, modify,
}
use zvonok.Json.{text, object, end, field}
use zvonok.Presence.State.{PresenceRecord}
use zvonok.Presence.Rooms.{list_peer_sockets}
use zvonok.Presence.Lookup.{context_of}
use zvonok.Media.State.{
  Sfu, MediaPeer, Producer, Consumer, is_screen, user_json, close_producer, close_consumer,
  tell_peer, fan, call, close_transports,
}

-- The first consumer of a producer.
unfoldable pub consumer_of : String → Map Consumer → Option Consumer
consumer_of producer_id [] = none
consumer_of producer_id ((k, c) ∷ cs) =
    ite (str_dec c.producer_id producer_id) (some c) (consumer_of producer_id cs)

unfoldable pub drop_consumer : String → MediaPeer → MediaPeer
drop_consumer id peer = record peer { consumers = remove id peer.consumers }

unfoldable pub close_shared_consumer : String → String → MediaPeer → Sfu → Sfu
close_shared_consumer producer_id x peer s = elim (consumer_of producer_id peer.consumers) [
  | none ↦ s
  | some c ↦
      tell_peer x "sfu:consumer-closed" (object (field "consumerId" (text c.id) end)) (
        call (close_consumer c.id ∷ [])
          (record s { media = modify x (drop_consumer c.id) s.media }))
]

-- A member loses its consumer of the screen and is told.
unfoldable pub lose_screen : PresenceRecord → String → String → Sfu → Sfu
lose_screen r producer_id x s = elim (get x s.media) [
  | none ↦ s
  | some peer ↦
      tell_peer x "sfu:screen-share-stopped" (user_json r.user_id)
        (close_shared_consumer producer_id x peer s)
]

-- The members other than the sharer lose the screen.
unfoldable pub stop_share : String → PresenceRecord → String → List String → Sfu → Sfu
stop_share sid r producer_id [] s = s
stop_share sid r producer_id (x ∷ xs) s =
    stop_share sid r producer_id xs (ite (str_dec x sid) s (lose_screen r producer_id x s))

abbrev pub is_sharer : Map String → String → String → Bool
is_sharer shares room sid = elim (get room shares) [
  | none ↦ false
  | some sharer ↦ ite (str_dec sharer sid) true false
]

unfoldable pub release_share : String → PresenceRecord → Producer → Sfu → Sfu
release_share sid r p s =
    if is_screen p.source && is_sharer s.room_screen_share r.room_id sid
    then stop_share sid r p.id (list_peer_sockets s.presence r.room_id)
        (record s { room_screen_share = remove r.room_id s.room_screen_share })
    else s

unfoldable pub drop_producer : String → MediaPeer → MediaPeer
drop_producer id peer = record peer { producers = remove id peer.producers }

unfoldable pub close_producer_for_peer : String → String → Sfu → Sfu
close_producer_for_peer sid producer_id s = elim (get sid s.media) [
  | none ↦ s
  | some peer ↦ elim (context_of s.presence sid) [
    | none ↦ s
    | some r ↦ elim (get producer_id peer.producers) [
      | none ↦ s
      | some p ↦ release_share sid r p (
          call (close_producer producer_id ∷ [])
            (record s { media = modify sid (drop_producer producer_id) s.media }))
    ]
  ]
]

unfoldable pub close_producers : String → List String → Sfu → Sfu
close_producers sid [] s = s
close_producers sid (p ∷ ps) s = close_producers sid ps (close_producer_for_peer sid p s)

unfoldable pub release_fallback : String → PresenceRecord → Sfu → Sfu
release_fallback sid r s =
    if is_sharer s.room_screen_share r.room_id sid
    then fan r.room_id "sfu:screen-share-stopped" (user_json r.user_id) (some sid)
        (record s { room_screen_share = remove r.room_id s.room_screen_share })
    else s

unfoldable pub drop_media : String → Sfu → Sfu
drop_media sid s = record s { media = remove sid s.media }

unfoldable pub detach_media : String → Sfu → Sfu
detach_media sid s = elim (get sid s.media) [
  | none ↦ drop_media sid s
  | some peer ↦ elim (context_of s.presence sid) [
    | none ↦ drop_media sid s
    | some r ↦ drop_media sid (
        call (close_transports peer) (
          release_fallback sid r (
            close_producers sid (keys peer.producers)
              (fan r.room_id "sfu:peer-media-detached" (user_json r.user_id) (some sid) s))))
  ]
]
