-- ===== src/Tests/Units.antt =====
-- Tests of single functions.
use winbridge.Base.{◌≡◌, refl, true, false, [], ◌∷◌, some, ok, err, thrown}
use winbridge.Protocol.Reason.{is_authorization_reason, has_secret_bearing_audit_metadata}
use winbridge.Protocol.Identifier.{is_safe_identifier}
use winbridge.Protocol.Identity.{is_pairing_ticket, consume_pairing_ticket}
use winbridge.Relay.Rooms.{join}
use winbridge.Relay.Connection.Handler.{development_device_id_for_peer, on_message}
use winbridge.Relay.Connection.Delivery.{sent_on}
use winbridge.Tests.Data.{
  sample_sha, sample_ticket, spent_ticket, host_context, host_state, greeting_envelope,
}

reason_plain : is_authorization_reason "Host paused session" ≡ true
unfolding is_authorization_reason
reason_plain = refl

reason_password : is_authorization_reason "the password: hunter2" ≡ false
unfolding is_authorization_reason
reason_password = refl

reason_key_logger : has_secret_bearing_audit_metadata "see Key-Logger trace = x" ≡ true
unfolding has_secret_bearing_audit_metadata
reason_key_logger = refl

ticket_valid : is_pairing_ticket sample_ticket ≡ true
unfolding is_pairing_ticket is_safe_identifier winbridge.Protocol.Identity.is_pairing_code_salt
    winbridge.Protocol.Identity.is_pairing_code_hash
ticket_valid = refl

ticket_used : consume_pairing_ticket sample_sha sample_ticket "123-456" 200 ≡ ok spent_ticket
unfolding consume_pairing_ticket is_pairing_ticket is_safe_identifier
    winbridge.Protocol.Identity.is_pairing_code_salt
    winbridge.Protocol.Identity.is_pairing_code_hash
    winbridge.Protocol.Identity.is_pairing_ticket_expired
    winbridge.Protocol.Identity.hash_pairing_code winbridge.Protocol.Session.is_pairing_code
    winbridge.Protocol.Identity.pairing_code_hashes_match
    winbridge.Protocol.Identity.pairing_code_hash_digest
ticket_used = refl

ticket_wrong_code :
    consume_pairing_ticket sample_sha sample_ticket "123-457" 200
    ≡ err (thrown "Pairing code does not match ticket")
unfolding consume_pairing_ticket is_pairing_ticket is_safe_identifier
    winbridge.Protocol.Identity.is_pairing_code_salt
    winbridge.Protocol.Identity.is_pairing_code_hash
    winbridge.Protocol.Identity.is_pairing_ticket_expired
    winbridge.Protocol.Identity.hash_pairing_code winbridge.Protocol.Session.is_pairing_code
    winbridge.Protocol.Identity.pairing_code_hashes_match
    winbridge.Protocol.Identity.pairing_code_hash_digest
ticket_wrong_code = refl

device_of_short_id : development_device_id_for_peer "abc" ≡ "dev_abc_peer"
unfolding development_device_id_for_peer
device_of_short_id = refl

greeting_sent :
    sent_on (on_message sample_sha host_context 120 (ok greeting_envelope) host_state).0.effects
    ≡ (2, greeting_envelope) ∷ []
unfolding on_message winbridge.Relay.Connection.Handler.accept_message
    winbridge.Relay.Connection.Handler.forward_message winbridge.Relay.Forwarding.check_forward
    winbridge.Relay.Forwarding.assert_registered_peer_still_in_room winbridge.Relay.Rooms.has_peer
    winbridge.Base.Dict.lookup winbridge.Relay.Forwarding.assert_registered_peer_can_forward
    winbridge.Relay.Forwarding.assert_single_recipient winbridge.Relay.Rooms.peers_except
    winbridge.Base.Dict.values winbridge.Relay.Forwarding.assert_envelope_targets_recipient
    winbridge.Relay.Connection.Handler.send_forward
    winbridge.Relay.Connection.Monad.write_relay_audit winbridge.Relay.Connection.Handler.deliver
    winbridge.Relay.Connection.Handler.write_relay_delivery_audit
greeting_sent = refl
