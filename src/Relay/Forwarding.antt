-- ===== src/Relay/Forwarding.antt =====
-- apps/relay/src/server.ts: who may send a message, and to whom it may go. The constructors of
-- `Body` are the cases of the source's two `switch` statements.
pub mod Authority
use winbridge.Base.{
  ℕ, Bool, true, false, String, List, [], ◌∷◌, Option, none, some, Result, ok, err, thrown, ◌>>=◌,
  ◌>>◌, guard, str_eq,
}
use winbridge.Protocol.Session.{SessionRole, host, viewer, role_eq}
use winbridge.Protocol.Messages.{
  Body, hello, join_session, host_consent_required, host_consent_decision,
  session_authorization_request, session_authorization_decision, session_authorization_state,
  permission_revoked, relay_ready, peer_disconnected, signal, screen_frame, input_event,
  session_control, audit_event, ProtocolEnvelope, Json, str, Entries, property,
}
use winbridge.Relay.Rooms.{RelayPeer, RoomRegistry, has_peer, peers_except}

abbrev pub stale_registered_peer_reason : String
stale_registered_peer_reason = "Registered peer is no longer in room"

unfoldable pub assert_envelope_peer : String → RelayPeer → Result (Unit {0})
assert_envelope_peer peer_id peer =
    guard (str_eq peer_id peer.peer_id)
      (thrown "Message peer identity does not match registered peer")

unfoldable pub assert_envelope_role : SessionRole → RelayPeer → Result (Unit {0})
assert_envelope_role role peer =
    guard (role_eq role peer.role) (thrown "Message role does not match registered peer")

unfoldable pub assert_registered_peer_still_in_room : RoomRegistry → RelayPeer → Result (Unit {0})
assert_registered_peer_still_in_room rooms peer =
    guard (has_peer rooms peer.session_id peer.peer_id) (thrown stale_registered_peer_reason)

-- The two tests of most cases, in the order role, peer.
abbrev pub assert_sender : SessionRole → String → RelayPeer → Result (Unit {0})
assert_sender role peer_id peer =
    assert_envelope_role role peer >> assert_envelope_peer peer_id peer

unfoldable pub assert_registered_peer_can_forward : Body → RelayPeer → Result (Unit {0})
unfolding assert_envelope_peer assert_envelope_role
assert_registered_peer_can_forward (join_session _ _ _ _) peer =
    err (thrown "Registered peers cannot send join-session messages")
assert_registered_peer_can_forward (relay_ready _ _) peer =
    err (thrown "Relay-ready messages are relay-originated")
assert_registered_peer_can_forward (peer_disconnected _ _ _) peer =
    err (thrown "Peer disconnect notices are relay-originated")
assert_registered_peer_can_forward (hello peer_id role _ _ _) peer =
    assert_envelope_peer peer_id peer >> assert_envelope_role role peer
assert_registered_peer_can_forward (host_consent_required viewer_peer_id _ _) peer =
    assert_sender viewer viewer_peer_id peer
assert_registered_peer_can_forward (host_consent_decision host_peer_id _ _ _ _) peer =
    assert_sender host host_peer_id peer
assert_registered_peer_can_forward (session_authorization_request viewer_peer_id _ _) peer =
    assert_sender viewer viewer_peer_id peer
assert_registered_peer_can_forward (session_authorization_decision _ host_peer_id _ _ _ _ _) peer =
    assert_sender host host_peer_id peer
assert_registered_peer_can_forward (signal from_peer_id _ _) peer =
    assert_envelope_peer from_peer_id peer
assert_registered_peer_can_forward (screen_frame _ from_peer_id _ _ _ _ _ _ _ _) peer =
    assert_sender host from_peer_id peer
assert_registered_peer_can_forward (input_event _ from_peer_id _ _ _ _ _) peer =
    assert_sender viewer from_peer_id peer
assert_registered_peer_can_forward (session_authorization_state _ actor_peer_id _ _ _ _ _) peer =
    assert_sender host actor_peer_id peer
assert_registered_peer_can_forward (permission_revoked _ actor_peer_id _ _) peer =
    assert_sender host actor_peer_id peer
assert_registered_peer_can_forward (session_control _ actor_peer_id _ _ _) peer =
    assert_sender host actor_peer_id peer
assert_registered_peer_can_forward (audit_event _ actor_peer_id _ _ _) peer =
    assert_sender host actor_peer_id peer

unfoldable pub assert_single_recipient : List RelayPeer → Result RelayPeer
assert_single_recipient (peer ∷ []) = ok peer
assert_single_recipient _ = err (thrown "No recipient peer is registered")

unfoldable pub assert_recipient_role : SessionRole → RelayPeer → Result (Unit {0})
assert_recipient_role role recipient =
    guard (role_eq recipient.role role)
      (thrown "Message target does not match registered recipient")

unfoldable pub assert_target_peer : String → RelayPeer → Result (Unit {0})
assert_target_peer peer_id recipient =
    guard (str_eq peer_id recipient.peer_id)
      (thrown "Message target does not match registered recipient")

-- `if (envelope.toPeerId) { … }`: an empty text counts as absent.
abbrev pub assert_optional_target : Option String → RelayPeer → Result (Unit {0})
assert_optional_target none recipient = ok tt
assert_optional_target (some peer_id) recipient = elim (str_eq peer_id "") [
  | true ↦ ok tt
  | false ↦ assert_target_peer peer_id recipient
]

unfoldable pub assert_envelope_targets_recipient : Body → RelayPeer → Result (Unit {0})
unfolding assert_recipient_role assert_target_peer
assert_envelope_targets_recipient (host_consent_required _ _ _) recipient =
    assert_recipient_role host recipient
assert_envelope_targets_recipient (session_authorization_request _ _ _) recipient =
    assert_recipient_role host recipient
assert_envelope_targets_recipient (host_consent_decision _ viewer_peer_id _ _ _) recipient =
    assert_recipient_role viewer recipient >> assert_target_peer viewer_peer_id recipient
assert_envelope_targets_recipient (session_authorization_decision _ _ viewer_peer_id _ _ _ _)
      recipient =
    assert_recipient_role viewer recipient >> assert_target_peer viewer_peer_id recipient
assert_envelope_targets_recipient (signal _ to_peer_id _) recipient =
    assert_optional_target to_peer_id recipient
assert_envelope_targets_recipient (screen_frame _ _ to_peer_id _ _ _ _ _ _ _) recipient =
    assert_recipient_role viewer recipient >> assert_optional_target to_peer_id recipient
assert_envelope_targets_recipient (input_event _ _ to_peer_id _ _ _ _) recipient =
    assert_recipient_role host recipient >> assert_optional_target to_peer_id recipient
assert_envelope_targets_recipient _ recipient = ok tt

-- `typeof authorizationId === "string" ? authorizationId : undefined`
abbrev pub text_of_json : Option Json → Option String
text_of_json (some (str s)) = some s
text_of_json _ = none

unfoldable pub forward_audit_authorization_id : Body → Option String
forward_audit_authorization_id (session_authorization_decision id _ _ _ _ _ _) = some id
forward_audit_authorization_id (session_authorization_state id _ _ _ _ _ _) = some id
forward_audit_authorization_id (permission_revoked id _ _ _) = some id
forward_audit_authorization_id (session_control id _ _ _ _) = some id
forward_audit_authorization_id (signal _ _ payload) =
    text_of_json (property "authorizationId" payload)
forward_audit_authorization_id (screen_frame id _ _ _ _ _ _ _ _ _) = some id
forward_audit_authorization_id (input_event id _ _ _ _ _ _) = some id
forward_audit_authorization_id _ = none

-- The checks of the message handler between decoding and the first audit record, for a registered
-- peer: the recipient, or why not.
unfoldable pub check_forward : RoomRegistry → RelayPeer → ProtocolEnvelope → Result RelayPeer
check_forward rooms peer envelope = do
  guard (str_eq envelope.session_id peer.session_id)
      (thrown "Message session does not match registered peer")
  assert_registered_peer_still_in_room rooms peer
  assert_registered_peer_can_forward envelope.body peer
  recipient ← assert_single_recipient (peers_except rooms peer.session_id peer.peer_id)
  assert_envelope_targets_recipient envelope.body recipient
  ok recipient
