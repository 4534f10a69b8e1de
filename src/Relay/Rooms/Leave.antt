-- ===== src/Relay/Rooms/Leave.antt =====
-- Who is put out of a room, and who is told.
use winbridge.Base.{◌≡◌, ◌≢◌, refl, String, [], ◌∷◌, Option, none, some, arith, eq_iff, eq_refl}
use winbridge.Base.Dict.{Dict, lookup, delete, values, lookup-insert, lookup-delete}
use winbridge.Protocol.Identity.{PairingTicket}
use winbridge.Relay.Rooms.{RelayPeer, RelayRoom, RoomRegistry, leave, leave_room, put_room}
use winbridge.Relay.Rooms.Shape.{HasShape, IsRegistry}

abbrev room_of : Dict RelayPeer → Option PairingTicket → RelayRoom
room_of peers ticket = record { peers = peers; pairing_ticket = ticket }

-- A departure from a room that is there, by its member `p`.
leave_member :
    (g : RoomRegistry) (session id : String) (room : RelayRoom) (p : RelayPeer)
    → lookup session g.rooms ≡ some room
    → lookup id room.peers ≡ some p
    → leave g session id ≡ (
      record g { rooms = put_room session room (leave_room id room.peers p).0 g.rooms },
      (leave_room id room.peers p).1,
    )
unfolding leave
leave_member g session id room p found member = rw (found, leave) (rw member)

leave_room_host :
    (session i : String) (h : RelayPeer) (rest : Dict RelayPeer)
    → HasShape session ((i, h) ∷ rest)
    → leave_room i ((i, h) ∷ rest) h
      ≡ ([], record { remaining_peers = values rest; removed_peers = values rest })
unfolding leave_room delete values
leave_room_host session i h [] w = ground (arith, eq_refl i, eq_iff h.peer_id i)
leave_room_host session i h ((j, v) ∷ []) w = ground (
  arith,
  eq_refl i,
  eq_iff h.peer_id i,
  eq_iff v.peer_id i,
  eq_iff j i,
  eq_iff j v.peer_id,
  eq_refl j,
)
leave_room_host session i h (a ∷ b ∷ more) w = absurd w

leave_room_viewer :
    (session i j : String) (h v : RelayPeer)
    → HasShape session ((i, h) ∷ (j, v) ∷ [])
    → leave_room j ((i, h) ∷ (j, v) ∷ []) v
      ≡ ((i, h) ∷ [], record { remaining_peers = h ∷ []; removed_peers = [] })
unfolding leave_room delete values
leave_room_viewer session i j h v w =
    ground (arith, eq_refl j, eq_iff i j, eq_iff h.peer_id j, eq_iff v.peer_id j)

lookup_head :
    (i : String) (h : RelayPeer) (rest : Dict RelayPeer) → lookup i ((i, h) ∷ rest) ≡ some h
unfolding lookup
lookup_head i h rest = rw (eq_refl i)

lookup_second : (i j : String) (h v : RelayPeer) → i ≢ j → lookup j ((i, h) ∷ (j, v) ∷ []) ≡ some v
unfolding lookup
lookup_second i j h v ne = ground (arith, eq_iff i j, eq_refl j)

-- When the host leaves, its room is deleted, and the peers behind it are returned both as those to
-- tell and as those to put out.
pub leave_host :
    (g : RoomRegistry) (session i : String) (h : RelayPeer) (rest : Dict RelayPeer)
    (ticket : Option PairingTicket)
    → IsRegistry g
    → lookup session g.rooms ≡ some (room_of ((i, h) ∷ rest) ticket)
    → (lookup session (leave g session i).0.rooms ≡ none)
      × ((leave g session i).1.removed_peers ≡ values rest)
      × ((leave g session i).1.remaining_peers ≡ values rest)
leave_host g session i h rest ticket w found =
    let room = room_of ((i, h) ∷ rest) ticket in
    let shape = (w session room found).shape in
    rw (leave_member g session i room h found (lookup_head i h rest)) (
      rw (leave_room_host session i h rest shape)
        (rw (lookup-delete session session g.rooms) (rw (eq_refl session) (refl, refl, refl))))

-- When the viewer leaves, the host stays, with its ticket, and is told; nobody is put out.
pub leave_viewer :
    (g : RoomRegistry) (session i j : String) (h v : RelayPeer) (ticket : Option PairingTicket)
    → IsRegistry g
    → lookup session g.rooms ≡ some (room_of ((i, h) ∷ (j, v) ∷ []) ticket)
    → (lookup session (leave g session j).0.rooms ≡ some (room_of ((i, h) ∷ []) ticket))
      × ((leave g session j).1.removed_peers ≡ [])
      × ((leave g session j).1.remaining_peers ≡ h ∷ [])
leave_viewer g session i j h v ticket w found =
    let room = room_of ((i, h) ∷ (j, v) ∷ []) ticket in
    let shape = (w session room found).shape in
    rw (leave_member g session j room v found (lookup_second i j h v shape.2)) (
      rw (leave_room_viewer session i j h v shape) (
        rw (lookup-insert session session (room_of ((i, h) ∷ []) ticket) g.rooms)
          (rw (eq_refl session) (refl, refl, refl))))
