-- ===== src/Protocol/Status.antt =====
-- `SessionAuthorizationStatusSchema` of packages/protocol/src/authorization.ts.
use winbridge.Base.{Bool, true, false, String}

pub data Status : Type 0 where
  pending denied approved active paused revoked terminated expired : Status

abbrev pub status_eq : Status → Status → Bool
status_eq pending pending = true
status_eq denied denied = true
status_eq approved approved = true
status_eq active active = true
status_eq paused paused = true
status_eq revoked revoked = true
status_eq terminated terminated = true
status_eq expired expired = true
status_eq _ _ = false

abbrev pub status_text : Status → String
status_text pending = "pending"
status_text denied = "denied"
status_text approved = "approved"
status_text active = "active"
status_text paused = "paused"
status_text revoked = "revoked"
status_text terminated = "terminated"
status_text expired = "expired"
