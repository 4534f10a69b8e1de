-- ===== src/Tests/Data.antt =====
-- A host, a viewer, their room, and a digest.
use winbridge.Base.{true, String, [], ◌∷◌, none, some, str_eq, if◌then◌else◌}
use winbridge.Protocol.Session.{host, viewer}
use winbridge.Protocol.Identity.{PairingTicket}
use winbridge.Protocol.Messages.{Body, signal, entry, end, str, ProtocolEnvelope}
use winbridge.Relay.RateLimit.{Limiter}
use winbridge.Relay.Rooms.{RelayPeer, RelayRoom, RoomRegistry, JoinInputs}
use winbridge.Relay.Connection.Monad.{State, Sink}
use winbridge.Relay.Connection.Handler.{Context}

abbrev pub sample_salt : String
sample_salt = "salt:0123456789abcdef0123456789abcdef"

abbrev pub zero_digest : String
zero_digest = "0000000000000000000000000000000000000000000000000000000000000000"

abbrev pub one_digest : String
one_digest = "1111111111111111111111111111111111111111111111111111111111111111"

-- A digest that tells the code 123-456 from the others.
abbrev pub sample_sha : String → String
sample_sha s =
    if str_eq s "salt:0123456789abcdef0123456789abcdef:123-456" then one_digest else zero_digest

abbrev pub host_peer : RelayPeer
host_peer = record {
  peer_id = "host-1";
  role = host;
  session_id = "session-1";
  device_id = "device-host-1";
  socket = 1;
}

abbrev pub viewer_peer : RelayPeer
viewer_peer = record {
  peer_id = "viewer-1";
  role = viewer;
  session_id = "session-1";
  device_id = "device-viewer-1";
  socket = 2;
}

abbrev pub sample_ticket : PairingTicket
sample_ticket = record {
  pairing_id = "pairing-0001";
  session_id = "session-1";
  host_device_id = "device-host-1";
  pairing_code_salt = sample_salt;
  pairing_code_hash = "sha256:1111111111111111111111111111111111111111111111111111111111111111";
  created_at = 100;
  expires_at = 300_100;
  remaining_uses = 1;
}

abbrev pub spent_ticket : PairingTicket
spent_ticket = record sample_ticket { remaining_uses = 0 }

abbrev pub host_room : RelayRoom
host_room = record { peers = ("host-1", host_peer) ∷ []; pairing_ticket = some sample_ticket }

abbrev pub full_room : RelayRoom
full_room = record {
  peers = ("host-1", host_peer) ∷ ("viewer-1", viewer_peer) ∷ [];
  pairing_ticket = some spent_ticket;
}

abbrev pub empty_registry : RoomRegistry
empty_registry = record { ticket_ttl_ms = 300_000; max_uses = 1; rooms = [] }

abbrev pub host_registry : RoomRegistry
host_registry = record empty_registry { rooms = ("session-1", host_room) ∷ [] }

abbrev pub full_registry : RoomRegistry
full_registry = record empty_registry { rooms = ("session-1", full_room) ∷ [] }

abbrev pub join_inputs : JoinInputs
join_inputs = record { now = 100; pairing_id = "pairing-0001"; salt = sample_salt }

abbrev pub viewer_inputs : JoinInputs
viewer_inputs = record { now = 200; pairing_id = "pairing-0002"; salt = sample_salt }

abbrev pub new_limits : Limiter
new_limits = record { limit = 5; window_ms = 60_000; attempts = [] }

abbrev pub takes_all : Sink
takes_all before e = none

abbrev pub host_context : Context
host_context = record {
  socket = 1;
  remote_key = "192.0.2.1";
  is_open = λ s. true;
  sink = takes_all;
  inputs = viewer_inputs;
}

abbrev pub host_state : State
host_state = record {
  rooms = full_registry;
  invalid_message_limiter = new_limits;
  registered_peer = some host_peer;
  effects = [];
}

abbrev pub greeting : Body
greeting = signal "host-1" (some "viewer-1") (entry "kind" (str "offer") end)

abbrev pub greeting_envelope : ProtocolEnvelope
greeting_envelope = record {
  message_id = "message-1";
  session_id = "session-1";
  created_at = 150;
  body = greeting;
}
