-- ===== src/Relay/Forwarding/Authority.antt =====
-- What a message that passes the checks says of its sender and its recipient.
use winbridge.Base.{
  non_empty, ◌≡◌, ◌⊎◌, inl, inr, refl, ap, true, String, List, [], ◌∷◌, Option, none, some, ok,
  arith, eq_iff,
}
use winbridge.Protocol.Session.{SessionRole, host, viewer, role_eq}
use winbridge.Protocol.Messages.{
  Body, hello, join_session, host_consent_required, host_consent_decision,
  session_authorization_request, session_authorization_decision, session_authorization_state,
  permission_revoked, relay_ready, peer_disconnected, signal, screen_frame, input_event,
  session_control, audit_event, ProtocolEnvelope,
}
use winbridge.Relay.Rooms.{RelayPeer, RoomRegistry, has_peer, peers_except}
use winbridge.Relay.Forwarding.{
  assert_registered_peer_can_forward, assert_single_recipient, assert_envelope_targets_recipient,
  assert_envelope_peer, assert_envelope_role, assert_registered_peer_still_in_room,
  assert_target_peer, assert_optional_target, assert_sender, check_forward,
}

-- The peer that a message names as its sender; none for the messages that only the relay makes and
-- for a join.
abbrev pub sender_of : Body → Option String
sender_of (hello id _ _ _ _) = some id
sender_of (host_consent_required viewer_id _ _) = some viewer_id
sender_of (host_consent_decision host_id _ _ _ _) = some host_id
sender_of (session_authorization_request viewer_id _ _) = some viewer_id
sender_of (session_authorization_decision _ host_id _ _ _ _ _) = some host_id
sender_of (session_authorization_state _ actor _ _ _ _ _) = some actor
sender_of (permission_revoked _ actor _ _) = some actor
sender_of (signal from _ _) = some from
sender_of (screen_frame _ from _ _ _ _ _ _ _ _) = some from
sender_of (input_event _ from _ _ _ _ _) = some from
sender_of (session_control _ actor _ _ _) = some actor
sender_of (audit_event _ actor _ _ _) = some actor
sender_of (join_session _ _ _ _) = none
sender_of (relay_ready _ _) = none
sender_of (peer_disconnected _ _ _) = none

-- The role that alone may send a message, where there is one.
abbrev pub author_role : Body → Option SessionRole
author_role (hello _ role _ _ _) = some role
author_role (signal _ _ _) = none
author_role (host_consent_required _ _ _) = some viewer
author_role (session_authorization_request _ _ _) = some viewer
author_role (input_event _ _ _ _ _ _ _) = some viewer
author_role (join_session _ _ _ _) = none
author_role (relay_ready _ _) = none
author_role (peer_disconnected _ _ _) = none
author_role _ = some host

-- The message names `p` as its sender, and is one that `p`'s role may send.
abbrev pub IsAuthentic : Option String → Option SessionRole → RelayPeer → Type 0
IsAuthentic sender role p = (sender ≡ some p.peer_id) × ((role ≡ none) ⊎ (role ≡ some p.role))

role_eq-eq : (a b : SessionRole) → role_eq a b ≡ true → a ≡ b
role_eq-eq host host h = refl
role_eq-eq viewer viewer h = refl
role_eq-eq host viewer h = cc
role_eq-eq viewer host h = cc

assert_sender-eq-ok :
    (role : SessionRole) (id : String) (p : RelayPeer)
    → assert_sender role id p ≡ ok tt
    → (id ≡ p.peer_id) × (role ≡ p.role)
unfolding assert_envelope_peer assert_envelope_role
assert_sender-eq-ok role id p h =
    (ground (arith, eq_iff id p.peer_id), ground (arith, role_eq-eq role p.role))

IsAuthentic-sender :
    (role : SessionRole) (id : String) (p : RelayPeer)
    → assert_sender role id p ≡ ok tt
    → IsAuthentic (some id) (some role) p
unfolding assert_envelope_peer assert_envelope_role
IsAuthentic-sender role id p h =
    let (same, own) = assert_sender-eq-ok role id p h in (ap some same, inr (ap some own))

-- A registered peer sends in its own name and in its own role, and sends nothing that only the
-- relay may make.
pub can_forward-IsAuthentic :
    (b : Body) (p : RelayPeer)
    → assert_registered_peer_can_forward b p ≡ ok tt
    → IsAuthentic (sender_of b) (author_role b) p
unfolding assert_registered_peer_can_forward
can_forward-IsAuthentic (join_session _ _ _ _) p h = cc
can_forward-IsAuthentic (relay_ready _ _) p h = cc
can_forward-IsAuthentic (peer_disconnected _ _ _) p h = cc
can_forward-IsAuthentic (hello id role _ _ _) p h =
    (ground (arith, eq_iff id p.peer_id), ground (arith, role_eq-eq role p.role))
can_forward-IsAuthentic (signal id _ _) p h = (ground (arith, eq_iff id p.peer_id), inl refl)
can_forward-IsAuthentic (host_consent_required id _ _) p h = IsAuthentic-sender viewer id p h
can_forward-IsAuthentic (host_consent_decision id _ _ _ _) p h = IsAuthentic-sender host id p h
can_forward-IsAuthentic (session_authorization_request id _ _) p h =
    IsAuthentic-sender viewer id p h
can_forward-IsAuthentic (session_authorization_decision _ id _ _ _ _ _) p h =
    IsAuthentic-sender host id p h
can_forward-IsAuthentic (session_authorization_state _ id _ _ _ _ _) p h =
    IsAuthentic-sender host id p h
can_forward-IsAuthentic (permission_revoked _ id _ _) p h = IsAuthentic-sender host id p h
can_forward-IsAuthentic (screen_frame _ id _ _ _ _ _ _ _ _) p h = IsAuthentic-sender host id p h
can_forward-IsAuthentic (input_event _ id _ _ _ _ _) p h = IsAuthentic-sender viewer id p h
can_forward-IsAuthentic (session_control _ id _ _ _) p h = IsAuthentic-sender host id p h
can_forward-IsAuthentic (audit_event _ id _ _ _) p h = IsAuthentic-sender host id p h

-- The role that a message is for, and the peer that it names as its recipient, where there is one.
abbrev pub recipient_role : Body → Option SessionRole
recipient_role (host_consent_required _ _ _) = some host
recipient_role (session_authorization_request _ _ _) = some host
recipient_role (input_event _ _ _ _ _ _ _) = some host
recipient_role (host_consent_decision _ _ _ _ _) = some viewer
recipient_role (session_authorization_decision _ _ _ _ _ _ _) = some viewer
recipient_role (screen_frame _ _ _ _ _ _ _ _ _ _) = some viewer
recipient_role _ = none

abbrev pub target_of : Body → Option String
target_of (host_consent_decision _ viewer_id _ _ _) = some viewer_id
target_of (session_authorization_decision _ _ viewer_id _ _ _ _) = some viewer_id
target_of (signal _ to _) = non_empty to
target_of (screen_frame _ _ to _ _ _ _ _ _ _) = non_empty to
target_of (input_event _ _ to _ _ _ _) = non_empty to
target_of _ = none

abbrev pub IsAddressed : Option SessionRole → Option String → RelayPeer → Type 0
IsAddressed role target q =
    ((role ≡ none) ⊎ (role ≡ some q.role)) × ((target ≡ none) ⊎ (target ≡ some q.peer_id))

optional_target-eq-ok :
    (to : Option String) (q : RelayPeer)
    → assert_optional_target to q ≡ ok tt
    → (non_empty to ≡ none) ⊎ (non_empty to ≡ some q.peer_id)
unfolding assert_target_peer
optional_target-eq-ok none q h = inl refl
optional_target-eq-ok (some id) q h = ground (arith, eq_iff id q.peer_id)

-- A message that passes the check of its target goes to a peer of the role that it is for, and to
-- the peer that it names.
pub targets_recipient-IsAddressed :
    (b : Body) (q : RelayPeer)
    → assert_envelope_targets_recipient b q ≡ ok tt
    → IsAddressed (recipient_role b) (target_of b) q
unfolding assert_envelope_targets_recipient
targets_recipient-IsAddressed (host_consent_required _ _ _) q h =
    (ground (arith, role_eq-eq q.role host), inl refl)
targets_recipient-IsAddressed (session_authorization_request _ _ _) q h =
    (ground (arith, role_eq-eq q.role host), inl refl)
targets_recipient-IsAddressed (host_consent_decision _ id _ _ _) q h =
    (ground (arith, role_eq-eq q.role viewer), ground (arith, eq_iff id q.peer_id))
targets_recipient-IsAddressed (session_authorization_decision _ _ id _ _ _ _) q h =
    (ground (arith, role_eq-eq q.role viewer), ground (arith, eq_iff id q.peer_id))
targets_recipient-IsAddressed (signal _ to _) q h = (inl refl, optional_target-eq-ok to q h)
targets_recipient-IsAddressed (screen_frame _ _ to _ _ _ _ _ _ _) q h =
    (ground (arith, role_eq-eq q.role viewer), optional_target-eq-ok to q (ground arith))
targets_recipient-IsAddressed (input_event _ _ to _ _ _ _) q h =
    (ground (arith, role_eq-eq q.role host), optional_target-eq-ok to q (ground arith))
targets_recipient-IsAddressed _ q h = (inl refl, inl refl)

assert_single_recipient-eq-ok :
    (ps : List RelayPeer) (q : RelayPeer) → assert_single_recipient ps ≡ ok q → ps ≡ q ∷ []
unfolding assert_single_recipient
assert_single_recipient-eq-ok [] q h = cc
assert_single_recipient-eq-ok (p ∷ []) q h = ground arith
assert_single_recipient-eq-ok (p ∷ r ∷ ps) q h = cc

pub check_forward-recipient :
    (rooms : RoomRegistry) (p : RelayPeer) (env : ProtocolEnvelope) (q : RelayPeer)
    → check_forward rooms p env ≡ ok q
    → (peers_except rooms p.session_id p.peer_id ≡ q ∷ [])
      × (env.session_id ≡ p.session_id)
      × (has_peer rooms p.session_id p.peer_id ≡ true)
      × (assert_registered_peer_can_forward env.body p ≡ ok tt)
      × (assert_envelope_targets_recipient env.body q ≡ ok tt)
unfolding check_forward assert_registered_peer_still_in_room
check_forward-recipient rooms p env q h = (
  ground (arith, assert_single_recipient-eq-ok (peers_except rooms p.session_id p.peer_id) q),
  ground (arith, eq_iff env.session_id p.session_id),
  ground arith,
  ground arith,
  ground arith,
)
