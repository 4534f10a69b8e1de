-- ===== src/Relay/Rooms/Shape.antt =====
-- The rooms that the registry can hold: a host, and at most one viewer behind it.
use winbridge.Base.{
  ℕ, ◌≡◌, ◌≢◌, ◌⊎◌, String, List, [], ◌∷◌, Option, none, some, Result, ok, err, arith, str_eq,
  eq_iff, Option-cases, Result-cases, Bool-cases, inl, inr,
}
use winbridge.Base.Dict.{Dict, lookup, insert, delete, values, lookup-insert, lookup-delete}
use winbridge.Protocol.Session.{SessionRole, host, viewer}
use winbridge.Protocol.Identity.{PairingTicket}
use winbridge.Relay.Rooms.{
  RelayPeer, RelayRoom, RoomRegistry, RelayJoinResult, JoinInputs, admit_peer, join_room, join,
  leave, leave_room, put_room, find_role, or_new_room,
}

-- The host of a session, and a viewer behind it, each under its own id.
abbrev pub IsMember : String → SessionRole → String → RelayPeer → Type 0
IsMember session role id p = (p.role ≡ role) × (p.peer_id ≡ id) × (p.session_id ≡ session)

abbrev pub HasShape : String → Dict RelayPeer → Type 0
HasShape session [] = ⊥
HasShape session ((i, h) ∷ []) = IsMember session host i h
HasShape session ((i, h) ∷ (j, v) ∷ []) =
    IsMember session host i h × IsMember session viewer j v × (i ≢ j)
HasShape session (a ∷ b ∷ c ∷ more) = ⊥

-- A stored room has its shape and the host's ticket.
pub record IsRoom (session : String) (room : RelayRoom) : Type 0 where
  pub shape : HasShape session room.peers
  pub ticketed : room.pairing_ticket ≢ none

abbrev pub IsRegistry : RoomRegistry → Type 0
IsRegistry g = (s : String) (room : RelayRoom) → lookup s g.rooms ≡ some room → IsRoom s room

module _ (sha256_hex : String → String) where
  join_new-IsRoom :
      (ttl uses : ℕ) (peer : RelayPeer) (code : String) (inputs : JoinInputs)
      (r : RelayRoom × RelayJoinResult)
      → join_room sha256_hex ttl uses [] none peer code inputs ≡ ok r
      → IsRoom peer.session_id r.0
  unfolding join_room admit_peer find_role insert lookup values
  join_new-IsRoom ttl uses peer code inputs r e = record {
    shape = ground arith;
    ticketed = ground arith;
  }

  join_room-IsRoom :
      (ttl uses : ℕ) (peers : Dict RelayPeer) (ticket : Option PairingTicket) (peer : RelayPeer)
      (code : String) (inputs : JoinInputs) (r : RelayRoom × RelayJoinResult)
      → HasShape peer.session_id peers
      → join_room sha256_hex ttl uses peers ticket peer code inputs ≡ ok r
      → IsRoom peer.session_id r.0
  unfolding join_room find_role insert lookup values
  join_room-IsRoom ttl uses [] ticket peer code inputs r w e = absurd w
  join_room-IsRoom ttl uses ((i, h) ∷ []) ticket peer code inputs r w e = record {
    shape = ground (arith, eq_iff i peer.peer_id, eq_iff h.peer_id peer.peer_id);
    ticketed = ground arith;
  }
  join_room-IsRoom ttl uses ((i, h) ∷ (j, v) ∷ []) ticket peer code inputs r w e = absurd (
      ground (
        arith,
        eq_iff i peer.peer_id,
        eq_iff j peer.peer_id,
        eq_iff h.peer_id peer.peer_id,
        eq_iff v.peer_id peer.peer_id,
      ))
  join_room-IsRoom ttl uses (a ∷ b ∷ c ∷ more) ticket peer code inputs r w e = absurd w

  join_or_new-IsRoom :
      (g : RoomRegistry) (peer : RelayPeer) (code : String) (inputs : JoinInputs)
      (r : RelayRoom × RelayJoinResult)
      → IsRegistry g
      → join_room sha256_hex g.ticket_ttl_ms g.max_uses
          (or_new_room (lookup peer.session_id g.rooms)).peers
          (or_new_room (lookup peer.session_id g.rooms)).pairing_ticket
          peer
          code
          inputs
        ≡ ok r
      → IsRoom peer.session_id r.0
  join_or_new-IsRoom g peer code inputs r w e =
      elim (Option-cases (lookup peer.session_id g.rooms)) [
        | inl fresh ↦
            join_new-IsRoom g.ticket_ttl_ms g.max_uses peer code inputs r
              (rw (fresh, or_new_room) at e)
        | inr (room, found) ↦
            join_room-IsRoom g.ticket_ttl_ms g.max_uses room.peers room.pairing_ticket peer code
              inputs r (w peer.session_id room found).shape (rw (found, or_new_room) at e)
      ]

  -- A join that is accepted keeps the shape of every room.
  pub join-IsRegistry :
      (g : RoomRegistry) (peer : RelayPeer) (code : String) (inputs : JoinInputs)
      (r : RoomRegistry × RelayJoinResult)
      → IsRegistry g
      → join sha256_hex g peer code inputs ≡ ok r
      → IsRegistry r.0
  unfolding join
  join-IsRegistry g peer code inputs r w e s room found =
      elim (Result-cases (
        join_room sha256_hex g.ticket_ttl_ms g.max_uses
          (or_new_room (lookup peer.session_id g.rooms)).peers
          (or_new_room (lookup peer.session_id g.rooms)).pairing_ticket peer code inputs)) [
            | inl (bad, refused) ↦ absurd (ground arith)
            | inr (joined, accepted) ↦
                let held = join_or_new-IsRoom g peer code inputs joined w accepted in
                let stored : r.0.rooms ≡ insert peer.session_id joined.0 g.rooms = ground arith in
                let at_s = rw (stored, lookup-insert peer.session_id s joined.0 g.rooms) at found in
                elim (Bool-cases (str_eq peer.session_id s)) [
                  | inl same ↦
                      let here : joined.0 ≡ room = ground arith in
                      rw (← here, ← (eq_iff peer.session_id s).0 same) held
                  | inr other ↦ w s room (ground arith)
                ]
          ]

-- What a departure leaves of a room, host or viewer first.
leave_room-IsRoom :
    (session id : String) (peers : Dict RelayPeer) (leaving : RelayPeer)
    → HasShape session peers
    → lookup id peers ≡ some leaving
    → ((leave_room id peers leaving).0 ≡ []) ⊎ HasShape session (leave_room id peers leaving).0
unfolding leave_room lookup delete values
leave_room-IsRoom session id [] leaving w e = absurd w
leave_room-IsRoom session id ((i, h) ∷ []) leaving w e = inl (ground (arith, eq_iff i id))
leave_room-IsRoom session id ((i, h) ∷ (j, v) ∷ []) leaving w e = ground (
  arith,
  eq_iff i id,
  eq_iff j id,
  eq_iff h.peer_id id,
  eq_iff v.peer_id id,
  eq_iff i h.peer_id,
  eq_iff j v.peer_id,
  eq_iff i v.peer_id,
  eq_iff j h.peer_id,
)
leave_room-IsRoom session id (a ∷ b ∷ c ∷ more) leaving w e = absurd w

put_room-IsRegistry :
    (g : RoomRegistry) (session : String) (room : RelayRoom) (peers : Dict RelayPeer)
    → IsRegistry g
    → room.pairing_ticket ≢ none
    → (peers ≡ []) ⊎ HasShape session peers
    → IsRegistry (record g { rooms = put_room session room peers g.rooms })
put_room-IsRegistry g session room [] w t h s r found =
    w s r (ground (arith, lookup-delete session s g.rooms))
put_room-IsRegistry g session room (p ∷ ps) w t h s r found =
    let kept = record room { peers = p ∷ ps } in
    let at_s = rw (lookup-insert session s kept g.rooms) at found in
    elim (Bool-cases (str_eq session s)) [
      | inl same ↦
          let here : kept ≡ r = ground arith in
          let shape : HasShape session (p ∷ ps) = elim h [ inl e ↦ cc | inr held ↦ held ] in
          rw (← here, ← (eq_iff session s).0 same) (record { shape = shape; ticketed = t })
      | inr other ↦ w s r (ground arith)
    ]

-- So does a departure.
pub leave-IsRegistry :
    (g : RoomRegistry) (session id : String) → IsRegistry g → IsRegistry (leave g session id).0
unfolding leave
leave-IsRegistry g session id w = elim (Option-cases (lookup session g.rooms)) [
  | inl absent ↦ rw (absent, leave) w
  | inr (room, found) ↦ elim (Option-cases (lookup id room.peers)) [
    | inl stranger ↦ rw (found, leave) (rw stranger w)
    | inr (leaving, member) ↦
        let held = w session room found in
        rw (found, leave)
          (rw member (
            put_room-IsRegistry g session room (leave_room id room.peers leaving).0 w held.ticketed
              (leave_room-IsRoom session id room.peers leaving held.shape member)))
  ]
]

-- The calls that change a registry; a join that throws leaves it as it was.
pub data RegistryCall : Type 0 where
  joins : RelayPeer → String → JoinInputs → RegistryCall
  leaves : String → String → RegistryCall

abbrev pub after_join : RoomRegistry → Result (RoomRegistry × RelayJoinResult) → RoomRegistry
after_join g (ok r) = r.0
after_join g (err e) = g

module _ (sha256_hex : String → String) where
  unfoldable pub call : RoomRegistry → RegistryCall → RoomRegistry
  call g (joins peer code inputs) = after_join g (join sha256_hex g peer code inputs)
  call g (leaves session id) = (leave g session id).0

  unfoldable pub calls : RoomRegistry → List RegistryCall → RoomRegistry
  unfolding call
  calls g [] = g
  calls g (c ∷ cs) = calls (call g c) cs

  call-IsRegistry : (g : RoomRegistry) (c : RegistryCall) → IsRegistry g → IsRegistry (call g c)
  unfolding call
  call-IsRegistry g (joins peer code inputs) w =
      elim (Result-cases (join sha256_hex g peer code inputs)) [
        | inl (e, refused) ↦ rw (refused, after_join) w
        | inr (r, accepted) ↦
            rw (accepted, after_join) (join-IsRegistry sha256_hex g peer code inputs r w accepted)
      ]
  call-IsRegistry g (leaves session id) w = leave-IsRegistry g session id w

  -- Whatever joins and departures follow, accepted or not, every room stays one of a host with at most
  -- one viewer behind it, under their own ids, with a ticket.
  pub calls-IsRegistry :
      (g : RoomRegistry) (cs : List RegistryCall) → IsRegistry g → IsRegistry (calls g cs)
  unfolding calls
  calls-IsRegistry g [] w = w
  calls-IsRegistry g (c ∷ cs) w = calls-IsRegistry (call g c) cs (call-IsRegistry g c w)
