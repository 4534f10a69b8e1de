-- ===== src/Relay/Connection/Audit.antt =====
-- The audit entries that the handlers of apps/relay/src/server.ts write.
use Prim.Native.String.{String}
use winbridge.Base.{
  non_empty, ℕ, Bool, ◌&&◌, not, Option, none, some, units, length, includes, str_eq, if◌then◌else◌,
}
use winbridge.Protocol.Identifier.{has_secret_bearing_protocol_identifier_metadata}
use winbridge.Protocol.Session.{SessionRole}
use winbridge.Protocol.Messages.{
  Body, join_session, ProtocolEnvelope, DeviceIdentity, Platform, TrustLevel, AuditOutcome,
  ReasonCode, type_text,
}
use winbridge.Protocol.Identity.{self_pairing_device_rejection_reason}
use winbridge.Relay.RateLimit.{RateLimitDecision}
use winbridge.Relay.Rooms.{
  RelayPeer, duplicate_relay_peer_join_reason, same_role_relay_peer_join_reason,
}
use winbridge.Relay.Forwarding.{forward_audit_authorization_id}

unfoldable pub is_relay_audit_identifier_safe : String → Option String → Bool
is_relay_audit_identifier_safe identifier none =
    not (has_secret_bearing_protocol_identifier_metadata identifier)
is_relay_audit_identifier_safe identifier (some pairing_code) =
    not (includes (units identifier) (units pairing_code))
    && not (has_secret_bearing_protocol_identifier_metadata identifier)

-- An identifier as the log shows it: in full, or its length alone.
pub data ShownIdentifier : Type 0 where
  shown : String → ShownIdentifier
  redacted : ℕ → ShownIdentifier

unfoldable pub show_identifier : String → Option String → ShownIdentifier
show_identifier identifier pairing_code =
    if is_relay_audit_identifier_safe identifier pairing_code
    then shown identifier
    else redacted (length (units identifier))

pub record RelayJoinAuditDeviceIdentity : Type 0 where
  pub created_at : ℕ
  pub platform : Platform
  pub trust_level : TrustLevel
  pub device_id : ShownIdentifier

unfoldable pub relay_audit_device_identity :
    DeviceIdentity → String → Bool → RelayJoinAuditDeviceIdentity
relay_audit_device_identity d pairing_code redact_device_id = record {
  created_at = d.created_at;
  platform = d.platform;
  trust_level = d.trust_level;
  device_id =
      if redact_device_id
      then redacted (length (units d.device_id))
      else show_identifier d.device_id (some pairing_code);
}

-- `relayJoinAuditDeviceIdentity` and `relayDeniedJoinAuditDeviceIdentity`
abbrev pub device_identity_detail :
    Option DeviceIdentity → String → Bool → Option RelayJoinAuditDeviceIdentity
device_identity_detail none pairing_code redact = none
device_identity_detail (some d) pairing_code redact =
    some (relay_audit_device_identity d pairing_code redact)

pub record PairingDenied : Type 0 where
  pub ticket_missing : Bool
  pub credential_mismatch : Bool
  pub ticket_expired : Bool
  pub ticket_consumed : Bool
  pub self_pairing : Bool
  pub duplicate_peer : Bool
  pub role_conflict : Bool

unfoldable pub pairing_denied_audit_detail : String → PairingDenied
pairing_denied_audit_detail reason = record {
  ticket_missing = str_eq reason "Host pairing ticket required";
  credential_mismatch = str_eq reason "Pairing code mismatch";
  ticket_expired = str_eq reason "Pairing ticket is expired";
  ticket_consumed = str_eq reason "Pairing ticket has no remaining uses";
  self_pairing = str_eq reason self_pairing_device_rejection_reason;
  duplicate_peer = str_eq reason duplicate_relay_peer_join_reason;
  role_conflict = str_eq reason same_role_relay_peer_join_reason;
}

-- Who tried to join: ids that are safe to log, and the lengths of those that are not.
pub record JoinAttribution : Type 0 where
  pub session_id : Option ShownIdentifier
  pub peer_id : Option ShownIdentifier
  pub device_identity : Option RelayJoinAuditDeviceIdentity

unfoldable pub join_denial_audit_attribution : String → Body → Bool → JoinAttribution
join_denial_audit_attribution session_id (join_session peer_id role pairing_code device) redact =
    record {
      session_id = some (show_identifier session_id (some pairing_code));
      peer_id = some (show_identifier peer_id (some pairing_code));
      device_identity = device_identity_detail device pairing_code redact;
    }
join_denial_audit_attribution session_id _ redact = record {
  session_id = none;
  peer_id = none;
  device_identity = none;
}

pub record ForwardDetail : Type 0 where
  pub message_type : String
  pub message_id : String
  pub recipient_role : SessionRole
  pub recipient_peer_id : ShownIdentifier
  pub authorization_id : Option String

unfoldable pub accepted_forward_audit_detail : ProtocolEnvelope → RelayPeer → ForwardDetail
accepted_forward_audit_detail envelope recipient = record {
  message_type = type_text envelope.body;
  message_id = envelope.message_id;
  recipient_role = recipient.role;
  recipient_peer_id = show_identifier recipient.peer_id none;
  authorization_id = non_empty (forward_audit_authorization_id envelope.body);
}

pub record DeliveryOutcome : Type 0 where
  pub target_count : ℕ
  pub sent_count : ℕ
  pub failed_count : ℕ

pub data AuditDetail : Type 0 where
  token_denied : (presented configured : Bool) → RateLimitDecision → AuditDetail
  join_denied : (message_type : String) → PairingDenied → JoinAttribution → AuditDetail
  join_accepted :
      (role : SessionRole) (room_size : ℕ) (created consumed recorded : Bool)
      (remaining_uses : Option ℕ) (device : Option RelayJoinAuditDeviceIdentity)
      → AuditDetail
  forwarded : ForwardDetail → AuditDetail
  delivery : ForwardDetail → DeliveryOutcome → AuditDetail
  rejected : (registered : Bool) → RateLimitDecision → AuditDetail
  disconnect :
      (role : SessionRole) (reason_code : ReasonCode) (notifications : DeliveryOutcome)
      (orphaned : ℕ)
      → AuditDetail

pub record AuditEntry : Type 0 where
  pub action : String
  pub outcome : AuditOutcome
  pub session_id : Option String
  pub peer_id : Option String
  pub reason : Option String
  pub detail : AuditDetail

pub data Effect : Type 0 where
  sends : (socket : ℕ) → ProtocolEnvelope → Effect
  sends_ready : (socket : ℕ) (peer_id : String) (room_size : ℕ) → Effect
  sends_notice : (socket : ℕ) (peer_id : String) → SessionRole → ReasonCode → Effect
  sends_error : (socket : ℕ) (reason : String) → Effect
  closes : (socket code : ℕ) (reason : String) → Effect
  records : AuditEntry → Effect
  warns : String → Effect
