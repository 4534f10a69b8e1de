-- ===== src/Protocol/Messages.antt =====
-- The protocol envelope of packages/protocol/src/messages.ts, as it is after decoding: the fields
-- that all messages share, and the body of each type. A number of JSON is kept as its text, and of
-- an input event only the kind is kept.
use winbridge.Base.{ℕ, Bool, String, List, Option, none, some, str_eq, if◌then◌else◌}
use winbridge.Protocol.Session.{SessionRole, Permission}
use winbridge.Protocol.Status.{Status}

mutual
  pub data Json : Type 0 where
    null : Json
    bool : Bool → Json
    num : String → Json
    str : String → Json
    arr : Items → Json
    obj : Entries → Json

  pub data Items : Type 0 where
    nil : Items
    cons : Json → Items → Items

  pub data Entries : Type 0 where
    end : Entries
    entry : String → Json → Entries → Entries

-- `payload[key]`
abbrev pub property : String → Entries → Option Json
property key end = none
property key (entry k v rest) = if str_eq k key then some v else property key rest

pub data Platform : Type 0 where
  windows linux macos unknown : Platform

pub data TrustLevel : Type 0 where
  unknown local_dev verified : TrustLevel

pub record DeviceIdentity : Type 0 where
  pub device_id : String
  pub display_name : String
  pub platform : Platform
  pub trust_level : TrustLevel
  pub created_at : ℕ

pub data ReasonCode : Type 0 where
  peer_closed heartbeat_timeout : ReasonCode

pub data ControlAction : Type 0 where
  pause resume terminate revoke_permission : ControlAction

pub data AuditOutcome : Type 0 where
  accepted denied failed : AuditOutcome

pub data InputKind : Type 0 where
  pointer_move pointer_down pointer_up pointer_wheel key_down key_up : InputKind

pub data ImageFormat : Type 0 where
  jpeg png : ImageFormat

pub data Body : Type 0 where
  hello :
      (peer_id : String) (role : SessionRole) (display_name : String) (capabilities : List String)
      (device_identity : Option DeviceIdentity)
      → Body
  join_session :
      (peer_id : String) (role : SessionRole) (pairing_code : String)
      (device_identity : Option DeviceIdentity)
      → Body
  host_consent_required :
      (viewer_peer_id viewer_display_name : String) (requested : List Permission) → Body
  host_consent_decision :
      (host_peer_id viewer_peer_id : String) (is_approved : Bool) (granted : List Permission)
      (reason : Option String)
      → Body
  session_authorization_request :
      (viewer_peer_id : String) (requested : List Permission) (reason : Option String) → Body
  session_authorization_decision :
      (authorization_id host_peer_id viewer_peer_id : String) (is_approved : Bool)
      (granted : List Permission) (expires_at : Option ℕ) (reason : Option String)
      → Body
  session_authorization_state :
      (authorization_id actor_peer_id : String) (status : Status) (visible_to_host : Bool)
      (permissions : List Permission) (expires_at : ℕ) (reason : Option String)
      → Body
  permission_revoked :
      (authorization_id actor_peer_id : String) (revoked_permission : Permission) (reason : String)
      → Body
  relay_ready : (peer_id : String) (room_size : ℕ) → Body
  peer_disconnected : (peer_id : String) (role : SessionRole) (reason_code : ReasonCode) → Body
  signal : (from_peer_id : String) (to_peer_id : Option String) (payload : Entries) → Body
  screen_frame :
      (authorization_id from_peer_id : String) (to_peer_id : Option String) (frame_id : String)
      (sequence captured_at : ℕ) (format : ImageFormat) (width height : ℕ) (data_base64 : String)
      → Body
  input_event :
      (authorization_id from_peer_id : String) (to_peer_id : Option String) (event_id : String)
      (sequence occurred_at : ℕ) (kind : InputKind)
      → Body
  session_control :
      (authorization_id actor_peer_id : String) (action : ControlAction)
      (permission : Option Permission) (reason : Option String)
      → Body
  audit_event :
      (event_id actor_peer_id action : String) (outcome : AuditOutcome) (detail : Entries) → Body

pub record ProtocolEnvelope : Type 0 where
  pub message_id : String
  pub session_id : String
  pub created_at : ℕ
  pub body : Body

-- `envelope.type`
abbrev pub type_text : Body → String
type_text (hello _ _ _ _ _) = "hello"
type_text (join_session _ _ _ _) = "join-session"
type_text (host_consent_required _ _ _) = "host-consent-required"
type_text (host_consent_decision _ _ _ _ _) = "host-consent-decision"
type_text (session_authorization_request _ _ _) = "session-authorization-request"
type_text (session_authorization_decision _ _ _ _ _ _ _) = "session-authorization-decision"
type_text (session_authorization_state _ _ _ _ _ _ _) = "session-authorization-state"
type_text (permission_revoked _ _ _ _) = "permission-revoked"
type_text (relay_ready _ _) = "relay-ready"
type_text (peer_disconnected _ _ _) = "peer-disconnected"
type_text (signal _ _ _) = "signal"
type_text (screen_frame _ _ _ _ _ _ _ _ _ _) = "screen-frame"
type_text (input_event _ _ _ _ _ _ _) = "input-event"
type_text (session_control _ _ _ _ _) = "session-control"
type_text (audit_event _ _ _ _ _) = "audit-event"
