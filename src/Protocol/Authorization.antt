-- ===== src/Protocol/Authorization.antt =====
-- packages/protocol/src/authorization.ts: the session authorization and its life. A time is the
-- number of milliseconds that `Date.parse` reads from its text; the optional fields that hold the
-- times of the transitions are a function of the field's name, as the source indexes them.
pub mod Schema
pub mod Transitions
pub mod Outcome
pub mod Consent
pub mod Approval
pub mod Life
pub mod History
pub mod Revocation
use winbridge.Base.{ℕ, Bool, true, false, String, List, Option}
use winbridge.Protocol.Session.{Permission}
use winbridge.Protocol.Status.{
  Status, pending, denied, approved, active, paused, revoked, terminated, expired,
}

-- `LifecycleTimestampField`
pub data Field : Type 0 where
  denied_at approved_at activated_at paused_at resumed_at revoked_at terminated_at expired_at :
      Field

abbrev pub field_eq : Field → Field → Bool
field_eq denied_at denied_at = true
field_eq approved_at approved_at = true
field_eq activated_at activated_at = true
field_eq paused_at paused_at = true
field_eq resumed_at resumed_at = true
field_eq revoked_at revoked_at = true
field_eq terminated_at terminated_at = true
field_eq expired_at expired_at = true
field_eq _ _ = false

abbrev pub field_text : Field → String
field_text denied_at = "deniedAt"
field_text approved_at = "approvedAt"
field_text activated_at = "activatedAt"
field_text paused_at = "pausedAt"
field_text resumed_at = "resumedAt"
field_text revoked_at = "revokedAt"
field_text terminated_at = "terminatedAt"
field_text expired_at = "expiredAt"

pub record SessionAuthorization : Type 0 where
  pub authorization_id : String
  pub session_id : String
  pub host_peer_id : String
  pub viewer_peer_id : String
  pub status : Status
  pub permissions : List Permission
  pub visible_to_host : Bool
  pub created_at : ℕ
  pub updated_at : ℕ
  pub expires_at : ℕ
  pub at : Field → Option ℕ
  pub reason : Option String

-- `grantBearingStatuses`
abbrev pub is_grant_bearing : Status → Bool
is_grant_bearing pending = true
is_grant_bearing approved = true
is_grant_bearing active = true
is_grant_bearing paused = true
is_grant_bearing _ = false

-- `terminalStatuses`
abbrev pub is_terminal : Status → Bool
is_terminal denied = true
is_terminal revoked = true
is_terminal terminated = true
is_terminal expired = true
is_terminal _ = false

-- `postActivationTerminalStatuses`
abbrev pub is_post_activation_terminal : Status → Bool
is_post_activation_terminal revoked = true
is_post_activation_terminal terminated = true
is_post_activation_terminal _ = false

-- `terminableStatuses`
abbrev pub is_terminable : Status → Bool
is_terminable active = true
is_terminable paused = true
is_terminable _ = false
