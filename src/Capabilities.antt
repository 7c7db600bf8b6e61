-- ===== src/Capabilities.antt =====
-- apps/server/src/sfu/capabilities.ts: the roles of a room token and the capabilities they stand for.
use zvonok.Prelude.{
  String, Bool, true, false, Option, none, some, List, [], ◌∷◌, ◌++◌, ite, str_dec,
}
use zvonok.Json.{Json, as_text}

pub data ParticipantRole : Type 0 where
  host participant viewer : ParticipantRole

pub data CapabilityId : Type 0 where
  send_audio send_video send_screenshare mute_users remove_participants lock_room : CapabilityId
  start_recording start_broadcast send_data_message : CapabilityId

unfoldable pub CapabilityId-discrete : Discrete CapabilityId
CapabilityId-discrete = hlevel

-- `capabilities.includes(c)`
unfoldable pub includes : List CapabilityId → CapabilityId → Bool
includes [] c = false
includes (d ∷ ds) c = ite (CapabilityId-discrete d c) true (includes ds c)

abbrev pub participant_capabilities : List CapabilityId
participant_capabilities = send_audio ∷ send_video ∷ send_screenshare ∷ send_data_message ∷ []

abbrev pub host_capabilities : List CapabilityId
host_capabilities =
    participant_capabilities
    ++ mute_users ∷ remove_participants ∷ lock_room ∷ start_recording ∷ start_broadcast ∷ []

unfoldable pub capabilities_for_role : ParticipantRole → List CapabilityId
capabilities_for_role host = host_capabilities
capabilities_for_role participant = participant_capabilities
capabilities_for_role viewer = []

role_of : Option String → Option ParticipantRole
role_of none = none
role_of (some s) =
    ite (str_dec s "host") (some host) (
      ite (str_dec s "participant") (some participant)
        (ite (str_dec s "viewer") (some viewer) none))

-- `isParticipantRole`, with the role that the text names.
unfoldable pub is_participant_role : Option Json → Option ParticipantRole
unfolding role_of
is_participant_role v = role_of (as_text v)
