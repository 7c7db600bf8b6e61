-- ===== src/Session/Blip.antt =====
-- A break of the connection, from the lost socket to the new transport.
use zvonok.Prelude.{ℕ, String, Bool, true, Option, List, [], ◌≡◌}
use zvonok.Json.{Json}
use zvonok.Capabilities.{CapabilityId}
use zvonok.Session.State.{Manager, connected, Track, Intent}
use zvonok.Session.Producers.{unanswered}
use zvonok.Session.Recovery.{finish_load, handle_joined}
use zvonok.Session.Facade.{on_connected, on_disconnected}

-- The intents wait for a transport, in a client that shows itself connected.
abbrev IsWaiting : List Intent → Manager → Type 0
IsWaiting is s =
    (s.pending_local ≡ unanswered is)
    × (s.producers ≡ [])
    × (s.in_progress ≡ [])
    × (s.has_device ≡ true)
    × (s.state.connection_state ≡ connected)
    × (s.session_established ≡ true)

-- The client before the new transport, after the break, the way back, the answer and the device.
abbrev pub before_transport :
    (String → Option Json)
    → (Track → Bool)
    → ℕ
    → Json
    → Option String
    → List CapabilityId
    → Manager
    → Manager
before_transport decode live now router user capabilities s =
    finish_load true (
      handle_joined live router user capabilities
        (on_connected decode now (on_disconnected live s)))
