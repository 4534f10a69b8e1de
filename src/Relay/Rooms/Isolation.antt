-- ===== src/Relay/Rooms/Isolation.antt =====
-- apps/relay/src/rooms.ts: the sessions of one registry do not depend on each other.
use winbridge.Base.{
  ◌≡◌, ◌≢◌, refl, sym, subst, ◌∙◌, Failure, String, List, [], ◌∷◌, Result, ok, err, arith, eq_iff,
  eq_refl, str_eq, keep, Option-cases, Result-cases, Bool-cases, inl, inr,
}
use winbridge.Base.Dict.{Dict, lookup, insert, lookup-insert, lookup-delete}
use winbridge.Relay.Rooms.{
  RelayPeer, RelayRoom, RoomRegistry, RelayJoinResult, JoinInputs, join_room, join, leave,
  leave_room, put_room, or_new_room,
}
use winbridge.Relay.Rooms.Shape.{RegistryCall, joins, leaves, after_join, call, calls}

leave-other_session :
    (g : RoomRegistry) (session id other : String)
    → other ≢ session
    → lookup other (leave g session id).0.rooms ≡ lookup other g.rooms
unfolding leave
leave-other_session g session id other ne = elim (Option-cases (lookup session g.rooms)) [
  | inl absent ↦ rw (absent, leave)
  | inr (room, found) ↦ elim (Option-cases (lookup id room.peers)) [
    | inl stranger ↦ rw (found, leave) (rw stranger)
    | inr (leaving, member) ↦
        rw (found, leave) (rw member (put_room-other room (leave_room id room.peers leaving).0))
  ]
]
  where
    put_room-other :
        (room : RelayRoom) (peers : Dict RelayPeer)
        → lookup other (put_room session room peers g.rooms) ≡ lookup other g.rooms
    put_room-other room [] =
        ground (arith, lookup-delete session other g.rooms, eq_iff session other)
    put_room-other room (p ∷ ps) = ground (
      arith,
      lookup-insert session other (record room { peers = p ∷ ps }) g.rooms,
      eq_iff session other,
    )

-- What two registries have in common, as far as one session goes: the configuration, and the room.
pub record SameFor (session : String) (g h : RoomRegistry) : Type 0 where
  pub same_ttl : g.ticket_ttl_ms ≡ h.ticket_ttl_ms
  pub same_uses : g.max_uses ≡ h.max_uses
  pub same_room : lookup session g.rooms ≡ lookup session h.rooms

-- The session that a call names.
unfoldable pub session_of : RegistryCall → String
session_of (joins peer code inputs) = peer.session_id
session_of (leaves session id) = session

unfoldable pub calls_of : String → List RegistryCall → List RegistryCall
calls_of session = keep (λ c. str_eq (session_of c) session)

leave-config :
    (g : RoomRegistry) (session id : String)
    → ((leave g session id).0.ticket_ttl_ms ≡ g.ticket_ttl_ms)
      × ((leave g session id).0.max_uses ≡ g.max_uses)
unfolding leave
leave-config g session id = elim (Option-cases (lookup session g.rooms)) [
  | inl absent ↦ rw (absent, leave) (refl, refl)
  | inr (room, found) ↦ elim (Option-cases (lookup id room.peers)) [
    | inl stranger ↦ rw (found, leave) (rw stranger (refl, refl))
    | inr (leaving, member) ↦ rw (found, leave) (rw member (refl, refl))
  ]
]

put_room-same :
    (session : String) (room : RelayRoom) (peers : Dict RelayPeer) (g h : RoomRegistry)
    → lookup session (put_room session room peers g.rooms)
      ≡ lookup session (put_room session room peers h.rooms)
put_room-same session room [] g h = ground (
  arith,
  lookup-delete session session g.rooms,
  lookup-delete session session h.rooms,
  eq_refl session,
)
put_room-same session room (p ∷ ps) g h = ground (
  arith,
  lookup-insert session session (record room { peers = p ∷ ps }) g.rooms,
  lookup-insert session session (record room { peers = p ∷ ps }) h.rooms,
  eq_refl session,
)

leave-same :
    (g h : RoomRegistry) (session id : String)
    → lookup session g.rooms ≡ lookup session h.rooms
    → lookup session (leave g session id).0.rooms ≡ lookup session (leave h session id).0.rooms
unfolding leave
leave-same g h session id e = elim (Option-cases (lookup session g.rooms)) [
  | inl absent ↦ rw (absent, sym e ∙ absent, leave) e
  | inr (room, found) ↦
      let there = sym e ∙ found in
      elim (Option-cases (lookup id room.peers)) [
        | inl stranger ↦ rw (found, there, leave) (rw stranger e)
        | inr (leaving, member) ↦
            rw (found, there, leave)
              (rw member (put_room-same session room (leave_room id room.peers leaving).0 g h))
      ]
]

module _ (sha256_hex : String → String) where
  -- What a join makes of the room of its session.
  abbrev joined_room :
      RoomRegistry → RelayPeer → String → JoinInputs → Result (RelayRoom × RelayJoinResult)
  joined_room g peer code inputs =
      join_room sha256_hex g.ticket_ttl_ms g.max_uses
        (or_new_room (lookup peer.session_id g.rooms)).peers
        (or_new_room (lookup peer.session_id g.rooms)).pairing_ticket peer code inputs

  after_join-err :
      (g : RoomRegistry) (peer : RelayPeer) (code : String) (inputs : JoinInputs) (e : Failure)
      → joined_room g peer code inputs ≡ err e
      → after_join g (join sha256_hex g peer code inputs) ≡ g
  unfolding join
  after_join-err g peer code inputs e refused = rw (refused, after_join) refl

  after_join-ok :
      (g : RoomRegistry) (peer : RelayPeer) (code : String) (inputs : JoinInputs)
      (r : RelayRoom × RelayJoinResult)
      → joined_room g peer code inputs ≡ ok r
      → after_join g (join sha256_hex g peer code inputs)
        ≡ record g { rooms = insert peer.session_id r.0 g.rooms }
  unfolding join
  after_join-ok g peer code inputs r accepted = rw (accepted, after_join) refl

  joined_room-same :
      (g h : RoomRegistry) (peer : RelayPeer) (code : String) (inputs : JoinInputs)
      → SameFor peer.session_id g h
      → joined_room g peer code inputs ≡ joined_room h peer code inputs
  joined_room-same g h peer code inputs a = rw (a.same_ttl, a.same_uses, a.same_room) refl

  -- A call on one session, in two registries that agree for it.
  call-SameFor :
      (g h : RoomRegistry) (c : RegistryCall)
      → SameFor (session_of c) g h
      → SameFor (session_of c) (call sha256_hex g c) (call sha256_hex h c)
  unfolding call session_of
  call-SameFor g h (joins peer code inputs) a =
      elim (Result-cases (joined_room g peer code inputs)) [
        | inl (e, refused) ↦
            rw
              (
                after_join-err g peer code inputs e refused,
                after_join-err h peer code inputs e
                    (sym (joined_room-same g h peer code inputs a) ∙ refused),
              )
              a
        | inr (r, accepted) ↦
            rw
              (
                after_join-ok g peer code inputs r accepted,
                after_join-ok h peer code inputs r
                    (sym (joined_room-same g h peer code inputs a) ∙ accepted),
              )
              (record {
                same_ttl = a.same_ttl;
                same_uses = a.same_uses;
                same_room = ground (
                  arith,
                  lookup-insert peer.session_id peer.session_id r.0 g.rooms,
                  lookup-insert peer.session_id peer.session_id r.0 h.rooms,
                  eq_refl peer.session_id,
                );
              })
      ]
  call-SameFor g h (leaves session id) a =
      let (g_ttl, g_uses) = leave-config g session id in
      let (h_ttl, h_uses) = leave-config h session id in
      record {
        same_ttl = g_ttl ∙ a.same_ttl ∙ sym h_ttl;
        same_uses = g_uses ∙ a.same_uses ∙ sym h_uses;
        same_room = leave-same g h session id a.same_room;
      }

  -- A call on another session.
  call-other_session :
      (g h : RoomRegistry) (c : RegistryCall) (session : String)
      → session ≢ session_of c
      → SameFor session g h
      → SameFor session (call sha256_hex g c) h
  unfolding call session_of
  call-other_session g h (joins peer code inputs) session other a =
      elim (Result-cases (joined_room g peer code inputs)) [
        | inl (e, refused) ↦ rw (after_join-err g peer code inputs e refused) a
        | inr (r, accepted) ↦ rw (after_join-ok g peer code inputs r accepted) (record {
          same_ttl = a.same_ttl;
          same_uses = a.same_uses;
          same_room = ground (
            arith,
            lookup-insert peer.session_id session r.0 g.rooms,
            eq_iff peer.session_id session,
            a.same_room,
          );
        })
      ]
  call-other_session g h (leaves left id) session other a =
      let (g_ttl, g_uses) = leave-config g left id in
      record {
        same_ttl = g_ttl ∙ a.same_ttl;
        same_uses = g_uses ∙ a.same_uses;
        same_room = leave-other_session g left id session other ∙ a.same_room;
      }

  calls-SameFor :
      (g h : RoomRegistry) (cs : List RegistryCall) (session : String)
      → SameFor session g h
      → SameFor session (calls sha256_hex g cs) (calls sha256_hex h (calls_of session cs))
  unfolding calls calls_of
  calls-SameFor g h [] session a = a
  calls-SameFor g h (c ∷ cs) session a = elim (Bool-cases (str_eq (session_of c) session)) [
    | inl same ↦
        let at_c = (eq_iff (session_of c) session).0 same in
        let step =
          subst (λ x. SameFor x (call sha256_hex g c) (call sha256_hex h c)) at_c
            (call-SameFor g h c (subst (λ x. SameFor x g h) (sym at_c) a)) in
        rw same (calls-SameFor (call sha256_hex g c) (call sha256_hex h c) cs session step)
    | inr other ↦ rw other (
        calls-SameFor (call sha256_hex g c) h cs session (
          call-other_session g h c session
            (λ e. ground (arith, other, e, eq_iff (session_of c) session)) a))
  ]

  -- The room that a session has after any joins and departures, accepted or not, in any sessions, is
  -- the one that the calls on this session alone would have led to.
  pub calls-isolated :
      (g : RoomRegistry) (cs : List RegistryCall) (session : String)
      → lookup session (calls sha256_hex g cs).rooms
        ≡ lookup session (calls sha256_hex g (calls_of session cs)).rooms
  calls-isolated g cs session =
      let same : SameFor session g g = record {
        same_ttl = refl;
        same_uses = refl;
        same_room = refl;
      } in
      (calls-SameFor g g cs session same).same_room
