-- ===== src/Relay/Rooms/Join.antt =====
-- Who is let into a room, and what a join or a departure leaves alone.
use winbridge.Base.{
  ℕ, ◌≡◌, ◌≢◌, refl, String, [], ◌∷◌, Option, none, some, ok, arith, eq_iff, eq_refl, Option-cases,
  Result-cases, inl, inr,
}
use winbridge.Base.Dict.{Dict, lookup, insert, values, lookup-insert}
use winbridge.Protocol.Session.{host, viewer}
use winbridge.Protocol.Identity.{PairingTicket, consume_pairing_ticket, create_paired_device}
use winbridge.Protocol.Identity.Ticket.{
  IsUsable, spend, consume_pairing_ticket_iff, create_paired_device-eq-ok,
}
use winbridge.Relay.Rooms.{
  RelayPeer, RelayRoom, RoomRegistry, RelayJoinResult, JoinInputs, Admission, admit_viewer,
  admit_peer, join_room, join, find_role, catch_mismatch,
}
use winbridge.Relay.Rooms.Shape.{HasShape, IsRegistry}

module _ (sha256_hex : String → String) where
  -- What has been checked of a viewer that was let in.
  pub record IsLetIn (g : RoomRegistry) (peer : RelayPeer) (code : String) (now : ℕ)
      (after : RoomRegistry) : Type 0 where
    pub host_id : String
    pub host_peer : RelayPeer
    pub ticket : PairingTicket
    pub before :
        lookup peer.session_id g.rooms
        ≡ some (record { peers = (host_id, host_peer) ∷ []; pairing_ticket = some ticket })
    pub is_host : host_peer.role ≡ host
    pub other_id : host_id ≢ peer.peer_id
    pub usable : IsUsable sha256_hex ticket code now
    pub other_device : peer.device_id ≢ ticket.host_device_id
    pub joined :
        lookup peer.session_id after.rooms
        ≡ some (record {
          peers = (host_id, host_peer) ∷ (peer.peer_id, peer) ∷ [];
          pairing_ticket = some (spend ticket);
        })

  admit_viewer-eq-ok :
      (t : PairingTicket) (peer : RelayPeer) (code : String) (now : ℕ) (a : Admission)
      → catch_mismatch (admit_viewer sha256_hex t peer code now) ≡ ok a
      → IsUsable sha256_hex t code now × (peer.device_id ≢ t.host_device_id) × (a.ticket ≡ spend t)
  unfolding admit_viewer
  admit_viewer-eq-ok t peer code now a e =
      elim (Result-cases (consume_pairing_ticket sha256_hex t code now)) [
        | inl (bad, refused) ↦ absurd (ground arith)
        | inr (t', used) ↦ elim (Result-cases (create_paired_device t peer.device_id now)) [
          | inl (bad, refused) ↦ absurd (ground arith)
          | inr (d, paired) ↦
              let (usable, spent) = (consume_pairing_ticket_iff sha256_hex t t' code now).0 used in
              let other = (create_paired_device-eq-ok t peer.device_id now d paired).3 in
              (usable, other, ground arith)
        ]
      ]

  -- `join_room` for a viewer, on a room of the shape that rooms have.
  join_room_viewer :
      (ttl uses : ℕ) (peers : Dict RelayPeer) (ticket : Option PairingTicket) (peer : RelayPeer)
      (code : String) (inputs : JoinInputs) (r : RelayRoom × RelayJoinResult)
      → HasShape peer.session_id peers
      → peer.role ≡ viewer
      → join_room sha256_hex ttl uses peers ticket peer code inputs ≡ ok r
      → (i : String) × (h : RelayPeer) × (t : PairingTicket) × (peers ≡ (i, h) ∷ [])
        × (ticket ≡ some t)
        × (h.role ≡ host)
        × (i ≢ peer.peer_id)
        × IsUsable sha256_hex t code inputs.now
        × (peer.device_id ≢ t.host_device_id)
        × (r.0 ≡ record {
          peers = (i, h) ∷ (peer.peer_id, peer) ∷ [];
          pairing_ticket = some (spend t);
        })
  unfolding join_room find_role insert lookup values admit_peer
  join_room_viewer ttl uses [] ticket peer code inputs r w v e = absurd w
  join_room_viewer ttl uses ((i, h) ∷ []) none peer code inputs r w v e = absurd (ground arith)
  join_room_viewer ttl uses ((i, h) ∷ []) (some t) peer code inputs r w v e =
      elim (Result-cases (catch_mismatch (admit_viewer sha256_hex t peer code inputs.now))) [
        | inl (bad, refused) ↦ absurd (ground arith)
        | inr (a, admitted) ↦
            let (usable, other, spent) = admit_viewer-eq-ok t peer code inputs.now a admitted in
            (
              i,
              h,
              t,
              refl,
              refl,
              w.0,
              ground (arith, eq_iff i peer.peer_id),
              usable,
              other,
              ground (arith, eq_iff i peer.peer_id),
            )
      ]
  join_room_viewer ttl uses ((i, h) ∷ (j, u) ∷ []) ticket peer code inputs r w v e = absurd (
      ground (
        arith,
        eq_iff i peer.peer_id,
        eq_iff j peer.peer_id,
        eq_iff h.peer_id peer.peer_id,
        eq_iff u.peer_id peer.peer_id,
      ))
  join_room_viewer ttl uses (a ∷ b ∷ c ∷ more) ticket peer code inputs r w v e = absurd w

  join_new_room_viewer :
      (ttl uses : ℕ) (peer : RelayPeer) (code : String) (inputs : JoinInputs)
      (r : RelayRoom × RelayJoinResult)
      → peer.role ≡ viewer
      → join_room sha256_hex ttl uses [] none peer code inputs ≢ ok r
  unfolding join_room find_role insert lookup values admit_peer
  join_new_room_viewer ttl uses peer code inputs r v = ground arith

  -- A viewer is let in only beside a host, alone until then, whose ticket accepts the code, under
  -- another id and from another device; the ticket is then spent once and the host stays.
  pub join-IsLetIn :
      (g : RoomRegistry) (peer : RelayPeer) (code : String) (inputs : JoinInputs)
      (r : RoomRegistry × RelayJoinResult)
      → IsRegistry g
      → peer.role ≡ viewer
      → join sha256_hex g peer code inputs ≡ ok r
      → IsLetIn g peer code inputs.now r.0
  unfolding join
  join-IsLetIn g peer code inputs r w v e = elim (Option-cases (lookup peer.session_id g.rooms)) [
    | inl fresh ↦
        elim (Result-cases
          (join_room sha256_hex g.ticket_ttl_ms g.max_uses [] none peer code inputs)) [
            | inl (bad, refused) ↦ absurd (ground arith)
            | inr (joined, accepted) ↦
                absurd (
                  join_new_room_viewer g.ticket_ttl_ms g.max_uses peer code inputs joined v
                    accepted)
          ]
    | inr (room, found) ↦
        elim (Result-cases (
          join_room sha256_hex g.ticket_ttl_ms g.max_uses room.peers room.pairing_ticket peer code
            inputs)) [
              | inl (bad, refused) ↦ absurd (ground arith)
              | inr (joined, accepted) ↦
                  let (i, h, t, ep, et, is_host, other, usable, device, after) =
                    join_room_viewer g.ticket_ttl_ms g.max_uses room.peers room.pairing_ticket peer
                      code inputs joined (w peer.session_id room found).shape v accepted in
                  record {
                    host_id = i;
                    host_peer = h;
                    ticket = t;
                    before = ground arith;
                    is_host = is_host;
                    other_id = other;
                    usable = usable;
                    other_device = device;
                    joined = ground (
                      arith,
                      lookup-insert peer.session_id peer.session_id joined.0 g.rooms,
                      eq_refl peer.session_id,
                    );
                  }
            ]
  ]
