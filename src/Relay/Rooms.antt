-- ===== src/Relay/Rooms.antt =====
-- apps/relay/src/rooms.ts: `RoomRegistry`. A peer's `send` and `close` write to the socket that it
-- registered on, so a peer carries that socket's number. The clock and the random parts of a ticket
-- are arguments of `join`. A call that throws returns no registry: the source assigns nothing
-- before its last check.
pub mod Shape
pub mod Isolation
pub mod Join
pub mod Leave
use Prim.Native.String.{◌++◌ as str_append}
use winbridge.Base.{
  ℕ, Bool, true, false, ◌&&◌, ◌||◌, not, String, List, [], ◌∷◌, Option, none, some, Result, ok, err,
  thrown, Failure, zod_error, ◌>>=◌, ◌>>◌, guard, leb, str_eq, length, keep, if◌then◌else◌,
}
use winbridge.Base.Dict.{Dict, lookup, insert, delete, values, has}
use winbridge.Protocol.Session.{SessionRole, host, viewer, role_eq}
use winbridge.Protocol.Identity.{
  PairingTicket, PairedDevice, create_pairing_ticket, consume_pairing_ticket, create_paired_device,
  assert_bounded_integer,
}

pub record RelayPeer : Type 0 where
  pub peer_id : String
  pub role : SessionRole
  pub session_id : String
  pub device_id : String
  pub socket : ℕ

pub record RelayJoinResult : Type 0 where
  pub peers : List RelayPeer
  pub ticket_created : Bool
  pub ticket_consumed : Bool
  pub ticket_remaining_uses : Option ℕ
  pub paired_device : Option PairedDevice

pub record RelayLeaveResult : Type 0 where
  pub remaining_peers : List RelayPeer
  pub removed_peers : List RelayPeer

pub record RelayRoom : Type 0 where
  pub peers : Dict RelayPeer
  pub pairing_ticket : Option PairingTicket

pub record RoomRegistry : Type 0 where
  pub ticket_ttl_ms : ℕ
  pub max_uses : ℕ
  pub rooms : Dict RelayRoom

abbrev pub default_relay_pairing_ticket_ttl_ms : ℕ
default_relay_pairing_ticket_ttl_ms = 300_000

abbrev pub default_relay_pairing_ticket_max_uses : ℕ
default_relay_pairing_ticket_max_uses = 1

abbrev pub max_relay_pairing_ticket_ttl_ms : ℕ
max_relay_pairing_ticket_ttl_ms = 86_400_000

abbrev pub max_relay_pairing_ticket_max_uses : ℕ
max_relay_pairing_ticket_max_uses = 10

abbrev pub duplicate_relay_peer_join_reason : String
duplicate_relay_peer_join_reason = "Peer is already connected to session"

abbrev pub same_role_relay_peer_join_reason : String
same_role_relay_peer_join_reason = "Peer role is already connected to session"

abbrev or_default : Option ℕ → ℕ → ℕ
or_default none d = d
or_default (some n) d = n

-- `normalizeRelayPairingConfig`, and the constructor.
unfoldable pub new_room_registry : Option ℕ → Option ℕ → Result RoomRegistry
unfolding assert_bounded_integer
new_room_registry ticket_ttl_ms max_uses = do
  let ttl = or_default ticket_ttl_ms default_relay_pairing_ticket_ttl_ms
  let uses = or_default max_uses default_relay_pairing_ticket_max_uses
  assert_bounded_integer ttl 0 max_relay_pairing_ticket_ttl_ms
      "Pairing ticket TTL must be an integer from 0 through 86400000"
  assert_bounded_integer uses 1 max_relay_pairing_ticket_max_uses
      "Pairing ticket max uses must be an integer from 1 through 10"
  ok (record { ticket_ttl_ms = ttl; max_uses = uses; rooms = [] })

-- `peers.find(…)`: the first peer of a role.
unfoldable pub find_role : SessionRole → List RelayPeer → Option RelayPeer
find_role role [] = none
find_role role (p ∷ ps) = if role_eq p.role role then some p else find_role role ps

abbrev pub other_holds_role : Option RelayPeer → String → Bool
other_holds_role none peer_id = false
other_holds_role (some p) peer_id = not (str_eq p.peer_id peer_id)

abbrev pub rename_mismatch : Failure → Failure
rename_mismatch (thrown m) =
    if str_eq m "Pairing code does not match ticket"
    then thrown "Pairing code mismatch"
    else thrown m
rename_mismatch (zod_error issues) = zod_error issues

-- `try { … } catch (error) { … }`
abbrev pub catch_mismatch {ℓ} : {A : Type ℓ} → Result A → Result A
catch_mismatch (ok a) = ok a
catch_mismatch (err e) = err (rename_mismatch e)

-- What a join draws from outside: the time, and the random id and salt of a new ticket.
pub record JoinInputs : Type 0 where
  pub now : ℕ
  pub pairing_id : String
  pub salt : String

-- The room after the ticket step, and the paired device.
pub record Admission : Type 0 where
  pub ticket : PairingTicket
  pub ticket_created : Bool
  pub ticket_consumed : Bool
  pub paired_device : Option PairedDevice

-- What `join` stores and returns.
abbrev pub joined_room : Dict RelayPeer → Admission → RelayRoom × RelayJoinResult
joined_room peers a = (
  record { peers = peers; pairing_ticket = some a.ticket },
  record {
    peers = values peers;
    ticket_created = a.ticket_created;
    ticket_consumed = a.ticket_consumed;
    ticket_remaining_uses = some a.ticket.remaining_uses;
    paired_device = a.paired_device;
  },
)

-- `this.rooms.get(…) ?? { peers: new Map() }`
abbrev pub or_new_room : Option RelayRoom → RelayRoom
or_new_room none = record { peers = []; pairing_ticket = none }
or_new_room (some room) = room

-- The loop that deletes the peers behind a host that leaves.
abbrev pub delete_all : List RelayPeer → Dict RelayPeer → Dict RelayPeer
delete_all [] peers = peers
delete_all (p ∷ ps) peers = delete_all ps (delete p.peer_id peers)

module _ (sha256_hex : String → String) where
  -- The body of the `try` block for a viewer.
  unfoldable pub admit_viewer : PairingTicket → RelayPeer → String → ℕ → Result Admission
  admit_viewer ticket peer pairing_code now = do
    consumed ← consume_pairing_ticket sha256_hex ticket pairing_code now
    paired ← create_paired_device ticket peer.device_id now
    ok (record {
      ticket = consumed;
      ticket_created = false;
      ticket_consumed = true;
      paired_device = some paired;
    })

  unfoldable pub admit_peer :
      SessionRole
      → (ttl_ms max_uses : ℕ) → Option PairingTicket
      → RelayPeer
      → String
      → JoinInputs
      → Result Admission
  admit_peer host ttl_ms max_uses ticket peer pairing_code inputs = do
    created ←
        create_pairing_ticket sha256_hex peer.session_id peer.device_id pairing_code ttl_ms max_uses
          inputs.now inputs.pairing_id inputs.salt
    ok (record {
      ticket = created;
      ticket_created = true;
      ticket_consumed = false;
      paired_device = none;
    })
  admit_peer viewer ttl_ms max_uses none peer pairing_code inputs =
      err (thrown "Host pairing ticket required")
  admit_peer viewer ttl_ms max_uses (some ticket) peer pairing_code inputs =
      catch_mismatch (admit_viewer ticket peer pairing_code inputs.now)

  -- `join` on the peers and the ticket of the room.
  unfoldable pub join_room :
      (ttl_ms max_uses : ℕ)
      → Dict RelayPeer
      → Option PairingTicket
      → RelayPeer
      → String
      → JoinInputs
      → Result (RelayRoom × RelayJoinResult)
  join_room ttl_ms max_uses peers ticket peer pairing_code inputs = do
    guard (not (has peer.peer_id peers)) (thrown duplicate_relay_peer_join_reason)
    guard (not (other_holds_role (find_role peer.role (values peers)) peer.peer_id))
        (thrown same_role_relay_peer_join_reason)
    guard (not (leb 2 (length peers) && not (has peer.peer_id peers)))
        (thrown (str_append "Session " (str_append peer.session_id " already has two peers")))
    admission ← admit_peer peer.role ttl_ms max_uses ticket peer pairing_code inputs
    ok (joined_room (insert peer.peer_id peer peers) admission)

  unfoldable pub join :
      RoomRegistry → RelayPeer → String → JoinInputs → Result (RoomRegistry × RelayJoinResult)
  join g peer pairing_code inputs = do
    let room = or_new_room (lookup peer.session_id g.rooms)
    joined ←
        join_room g.ticket_ttl_ms g.max_uses room.peers room.pairing_ticket peer pairing_code inputs
    ok (record g { rooms = insert peer.session_id joined.0 g.rooms }, joined.1)

unfoldable pub leave_room : String → Dict RelayPeer → RelayPeer → Dict RelayPeer × RelayLeaveResult
leave_room peer_id peers leaving =
    let remaining = keep (λ p. not (str_eq p.peer_id peer_id)) (values peers) in
    let without = delete peer_id peers in
    elim leaving.role [
      | host ↦ (
        delete_all remaining without,
        record { remaining_peers = remaining; removed_peers = remaining },
      )
      | viewer ↦ (without, record { remaining_peers = remaining; removed_peers = [] })
    ]

-- The room is deleted when it is empty.
abbrev pub put_room : String → RelayRoom → Dict RelayPeer → Dict RelayRoom → Dict RelayRoom
put_room session_id room [] rooms = delete session_id rooms
put_room session_id room (p ∷ ps) rooms = insert session_id (record room { peers = p ∷ ps }) rooms

unfoldable pub leave : RoomRegistry → String → String → RoomRegistry × RelayLeaveResult
unfolding leave_room
leave g session_id peer_id = elim (lookup session_id g.rooms) [
  | none ↦ (g, record { remaining_peers = []; removed_peers = [] })
  | some room ↦ elim (lookup peer_id room.peers) [
    | none ↦ (g, record { remaining_peers = values room.peers; removed_peers = [] })
    | some leaving ↦
        let left = leave_room peer_id room.peers leaving in
        (record g { rooms = put_room session_id room left.0 g.rooms }, left.1)
  ]
]

-- `peers(sessionId, exceptPeerId)`
unfoldable pub peers_except : RoomRegistry → String → String → List RelayPeer
peers_except g session_id except = elim (lookup session_id g.rooms) [
  | none ↦ []
  | some room ↦ keep (λ p. not (str_eq p.peer_id except)) (values room.peers)
]

unfoldable pub size : RoomRegistry → String → ℕ
size g session_id = elim (lookup session_id g.rooms) [ none ↦ 0 | some room ↦ length room.peers ]

unfoldable pub has_peer : RoomRegistry → String → String → Bool
has_peer g session_id peer_id = elim (lookup session_id g.rooms) [
  | none ↦ false
  | some room ↦ has peer_id room.peers
]
