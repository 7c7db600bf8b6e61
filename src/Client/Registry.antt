-- ===== src/Client/Registry.antt =====
-- packages/client/src/sfu/participant-registry.ts. A record that an operation hands out is the one in
-- the registry after the operation.
use zvonok.Prelude.{
  String, Bool, true, false, Option, none, some, [], ◌∷◌, truthy, or_else, Map, get, put, remove,
}
use zvonok.Json.{Json}

pub data MediaKind : Type 0 where
  audio video : MediaKind

pub data MediaSource : Type 0 where
  camera screen : MediaSource

pub record ParticipantProducerInfo : Type 0 where
  pub kind : MediaKind
  pub paused : Option Bool
  pub source : Option MediaSource

pub record ParticipantLifecycleInput : Type 0 where
  pub user_id : String
  pub username : Option String
  pub external_id : Option String
  pub metadata : Option Json

pub record SfuParticipantInfo : Type 0 where
  pub user_id : String
  pub username : String
  pub external_id : Option String
  pub metadata : Option Json
  pub producers : Map ParticipantProducerInfo
  pub media_connected : Option Bool

abbrev pub Registry : Type 0
Registry = Map SfuParticipantInfo

abbrev pub new_peer : ParticipantLifecycleInput → SfuParticipantInfo
new_peer input = record {
  user_id = input.user_id;
  username = or_else (truthy input.username) "";
  external_id = input.external_id;
  metadata = input.metadata;
  producers = [];
  media_connected = none;
}

abbrev pub refreshed : ParticipantLifecycleInput → SfuParticipantInfo → SfuParticipantInfo
refreshed input peer = record peer {
  username = or_else (truthy input.username) peer.username;
  media_connected = some true;
}

-- The record, and whether it is new.
unfoldable pub upsert : ParticipantLifecycleInput → Registry → Registry × SfuParticipantInfo × Bool
upsert input peers = elim (get input.user_id peers) [
  | none ↦ (put input.user_id (new_peer input) peers, new_peer input, true)
  | some peer ↦ (put input.user_id (refreshed input peer) peers, refreshed input peer, false)
]

abbrev pub attached : String → ParticipantProducerInfo → SfuParticipantInfo → SfuParticipantInfo
attached producer_id info peer = record peer {
  producers = put producer_id info peer.producers;
  media_connected = some true;
}

unfoldable pub attach_producer : String → String → ParticipantProducerInfo → Registry → Registry
attach_producer user_id producer_id info peers = elim (get user_id peers) [
  | none ↦ peers
  | some peer ↦ put user_id (attached producer_id info peer) peers
]

unfoldable pub is_detached : SfuParticipantInfo → Bool
is_detached peer = elim peer.media_connected [
  | none ↦ false
  | some true ↦ false
  | some false ↦ true
]

unfoldable pub mark_media_detached : String → Registry → Registry × Option SfuParticipantInfo
unfolding is_detached
mark_media_detached user_id peers = elim (get user_id peers) [
  | none ↦ (peers, none)
  | some peer ↦ elim (is_detached peer) [
    | true ↦ (peers, none)
    | false ↦
        let gone = record peer { media_connected = some false } in
        (put user_id gone peers, some gone)
  ]
]

unfoldable pub remove_peer : String → Registry → Registry × Option SfuParticipantInfo
remove_peer user_id peers = (remove user_id peers, get user_id peers)

unfoldable pub find_producer : String → Registry → Option (String × ParticipantProducerInfo)
find_producer producer_id [] = none
find_producer producer_id ((user_id, peer) ∷ peers) = elim (get producer_id peer.producers) [
  | none ↦ find_producer producer_id peers
  | some info ↦ some (user_id, info)
]

abbrev pub clear : Registry → Registry
clear peers = []
