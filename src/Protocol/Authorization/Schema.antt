-- ===== src/Protocol/Authorization/Schema.antt =====
-- `SessionAuthorizationSchema` of packages/protocol/src/authorization.ts: the shape of the fields,
-- and the issues of the refinement over them, in the order in which they are added.
use Prim.Native.String.{◌++◌ as str_append}
use winbridge.Base.{
  ℕ, Bool, true, false, ◌&&◌, ◌||◌, not, String, List, [], ◌∷◌, ◌++◌, Option, none, some, Result,
  ok, err, zod_error, ltb, leb, nat_eq, length, if◌then◌else◌,
}
use winbridge.Protocol.Identifier.{is_safe_identifier}
use winbridge.Protocol.Session.{
  PermissionListValidationOptions, is_permission_list, default_empty_message,
}
use winbridge.Protocol.Reason.{is_authorization_reason}
use winbridge.Protocol.Status.{
  Status, pending, denied, approved, active, paused, revoked, terminated, expired, status_eq,
  status_text,
}
use winbridge.Protocol.Authorization.{
  Field, denied_at, approved_at, activated_at, paused_at, resumed_at, revoked_at, terminated_at,
  expired_at, field_text, SessionAuthorization, is_grant_bearing, is_terminal,
  is_post_activation_terminal,
}

abbrev pub permission_options : PermissionListValidationOptions
permission_options = record {
  allow_empty = true;
  duplicate_message = "Session authorization permissions must be unique";
  empty_message = default_empty_message;
}

abbrev is_optional_reason : Option String → Bool
is_optional_reason none = true
is_optional_reason (some reason) = is_authorization_reason reason

-- `SessionAuthorizationBaseSchema`
unfoldable pub is_base : SessionAuthorization → Bool
is_base a =
    is_safe_identifier 8 a.authorization_id
    && is_safe_identifier 3 a.session_id
    && is_safe_identifier 3 a.host_peer_id
    && is_safe_identifier 3 a.viewer_peer_id
    && is_permission_list a.permissions permission_options
    && is_optional_reason a.reason

abbrev pub is_set {ℓ} : {A : Type ℓ} → Option A → Bool
is_set none = false
is_set (some a) = true

-- `if (bad) ctx.addIssue(…)`
abbrev pub issue_if : Bool → String → List String
issue_if true message = message ∷ []
issue_if false message = []

-- A loop over fields that may add issues for each.
abbrev pub each : List Field → (Field → List String) → List String
each [] f = []
each (x ∷ xs) f = f x ++ each xs f

abbrev pub lifecycle_timestamp_fields : List Field
lifecycle_timestamp_fields =
    denied_at ∷ approved_at ∷ activated_at ∷ paused_at ∷ resumed_at ∷ revoked_at ∷ terminated_at
    ∷ expired_at ∷ []

-- `laterValue < earlierValue`, where both are there.
abbrev pub is_before : Option ℕ → Option ℕ → Bool
is_before (some later) (some earlier) = ltb later earlier
is_before _ _ = false

unfoldable pub require_timestamp_not_before : SessionAuthorization → Field → Field → List String
require_timestamp_not_before a earlier later =
    issue_if (is_before (a.at later) (a.at earlier))
      (str_append (field_text later) (str_append " must not be before " (field_text earlier)))

abbrev pub after_approval : List Field
after_approval =
    activated_at ∷ paused_at ∷ resumed_at ∷ revoked_at ∷ terminated_at ∷ expired_at ∷ []

abbrev pub after_activation : List Field
after_activation = paused_at ∷ resumed_at ∷ revoked_at ∷ terminated_at ∷ expired_at ∷ []

-- The pairs of fields that only one status orders, earlier field first.
abbrev pub status_pairs : Status → List (Field × Field)
status_pairs active = (paused_at, resumed_at) ∷ []
status_pairs paused = (resumed_at, paused_at) ∷ []
status_pairs revoked = (paused_at, revoked_at) ∷ (resumed_at, revoked_at) ∷ []
status_pairs _ = []

abbrev pub each_pair : List (Field × Field) → (Field → Field → List String) → List String
each_pair [] f = []
each_pair ((x, y) ∷ ps) f = f x y ++ each_pair ps f

unfoldable pub validate_lifecycle_timestamp_sequence : SessionAuthorization → List String
validate_lifecycle_timestamp_sequence a =
    each after_approval (require_timestamp_not_before a approved_at)
    ++ (each after_activation (require_timestamp_not_before a activated_at)
        ++ (each_pair (status_pairs a.status) (require_timestamp_not_before a)
            ++ each (terminated_at ∷ expired_at ∷ []) (λ f.
              require_timestamp_not_before a paused_at f
              ++ (require_timestamp_not_before a resumed_at f
                  ++ require_timestamp_not_before a revoked_at f))))

-- A time of the life of `a` that lies before its creation or behind its last update.
abbrev pub range_issues : SessionAuthorization → Field → Option ℕ → List String
range_issues a f none = []
range_issues a f (some value) =
    issue_if (ltb value a.created_at) (str_append (field_text f) " must not be before createdAt")
    ++ issue_if (ltb a.updated_at value) (str_append (field_text f) " must not be after updatedAt")

unfoldable pub validate_timestamp_order : SessionAuthorization → List String
validate_timestamp_order a =
    issue_if (ltb a.updated_at a.created_at)
      "Session authorization updatedAt must not be before createdAt"
    ++ (issue_if (leb a.expires_at a.created_at)
          "Session authorization expiresAt must be after createdAt"
        ++ (each lifecycle_timestamp_fields (λ f. range_issues a f (a.at f))
            ++ validate_lifecycle_timestamp_sequence a))

unfoldable pub require_lifecycle_timestamp : SessionAuthorization → Status → Field → List String
require_lifecycle_timestamp a required f =
    issue_if (status_eq a.status required && not (is_set (a.at f))) (
      str_append (status_text a.status)
        (str_append " session authorization requires " (field_text f)))

unfoldable pub require_terminal_reason : SessionAuthorization → List String
require_terminal_reason a =
    issue_if (is_terminal a.status && not (is_set a.reason))
      (str_append (status_text a.status) " session authorization requires reason")

unfoldable pub is_post_activation_terminal_authorization : SessionAuthorization → Bool
is_post_activation_terminal_authorization a =
    is_post_activation_terminal a.status
    || (status_eq a.status expired && (a.visible_to_host || is_set (a.at activated_at)))

unfoldable pub require_post_activation_terminal_history : SessionAuthorization → List String
require_post_activation_terminal_history a =
    if is_post_activation_terminal_authorization a
    then issue_if (not (is_set (a.at approved_at)))
        (str_append (status_text a.status) " session authorization requires approvedAt")
      ++ (issue_if (not (is_set (a.at activated_at)))
            (str_append (status_text a.status) " session authorization requires activatedAt")
          ++ issue_if (not a.visible_to_host) (
              str_append (status_text a.status)
                " session authorization must preserve visible host history"))
    else []

abbrev pub forbidden_fields : Status → List Field
forbidden_fields pending =
    denied_at ∷ approved_at ∷ activated_at ∷ paused_at ∷ resumed_at ∷ revoked_at ∷ terminated_at
    ∷ expired_at ∷ []
forbidden_fields approved =
    denied_at ∷ activated_at ∷ paused_at ∷ resumed_at ∷ revoked_at ∷ terminated_at ∷ expired_at ∷ []
forbidden_fields denied =
    approved_at ∷ activated_at ∷ paused_at ∷ resumed_at ∷ revoked_at ∷ terminated_at ∷ expired_at
    ∷ []
forbidden_fields active = denied_at ∷ terminated_at ∷ expired_at ∷ []
forbidden_fields paused = denied_at ∷ terminated_at ∷ expired_at ∷ []
forbidden_fields revoked = denied_at ∷ terminated_at ∷ expired_at ∷ []
forbidden_fields terminated = denied_at ∷ expired_at ∷ []
forbidden_fields expired = denied_at ∷ terminated_at ∷ []

unfoldable pub reject_forbidden_lifecycle_timestamps : SessionAuthorization → List String
reject_forbidden_lifecycle_timestamps a = each (forbidden_fields a.status) (λ f.
    issue_if (is_set (a.at f)) (
      str_append (status_text a.status)
        (str_append " session authorization cannot include " (field_text f))))

abbrev pub must_be_visible : Status → Bool
must_be_visible active = true
must_be_visible paused = true
must_be_visible _ = false

abbrev pub cannot_be_visible : Status → Bool
cannot_be_visible pending = true
cannot_be_visible approved = true
cannot_be_visible denied = true
cannot_be_visible _ = false

-- The refinement's own checks of the permissions and of the visible flag.
unfoldable pub permission_issues : SessionAuthorization → List String
permission_issues a =
    issue_if (is_grant_bearing a.status && nat_eq (length a.permissions) 0)
      (str_append (status_text a.status) " session authorization requires at least one permission")
    ++ issue_if (is_terminal a.status && ltb 0 (length a.permissions))
        (str_append (status_text a.status) " session authorization cannot carry permissions")

unfoldable pub visibility_issues : SessionAuthorization → List String
visibility_issues a =
    issue_if (must_be_visible a.status && not a.visible_to_host)
      (str_append (status_text a.status) " session authorization must be visible to host")
    ++ issue_if (cannot_be_visible a.status && a.visible_to_host) (
        str_append (status_text a.status)
          " session authorization cannot be visible before activation")

-- The times that a status requires, in the order of the calls.
abbrev pub required_timestamps : List (Status × Field)
required_timestamps =
    (denied, denied_at)
    ∷ (approved, approved_at)
    ∷ (active, approved_at)
    ∷ (active, activated_at)
    ∷ (paused, approved_at)
    ∷ (paused, activated_at)
    ∷ (paused, paused_at)
    ∷ (revoked, revoked_at)
    ∷ (terminated, terminated_at)
    ∷ (expired, expired_at)
    ∷ []

abbrev pub required_issues : List (Status × Field) → SessionAuthorization → List String
required_issues [] a = []
required_issues ((s, f) ∷ rest) a = require_lifecycle_timestamp a s f ++ required_issues rest a

unfoldable pub resume_issues : SessionAuthorization → List String
resume_issues a =
    issue_if
      (status_eq a.status active && is_set (a.at paused_at) && not (is_set (a.at resumed_at)))
      "active session authorization with prior pause requires resumedAt"
    ++ issue_if (is_set (a.at resumed_at) && not (is_set (a.at paused_at)))
        "session authorization resumedAt requires pausedAt"

-- The callback of `superRefine`.
unfoldable pub authorization_issues : SessionAuthorization → List String
authorization_issues a =
    validate_timestamp_order a
    ++ (permission_issues a
        ++ (visibility_issues a
            ++ (required_issues required_timestamps a
                ++ (require_terminal_reason a
                    ++ (require_post_activation_terminal_history a
                        ++ (reject_forbidden_lifecycle_timestamps a ++ resume_issues a))))))

abbrev accepted_without : List String → SessionAuthorization → Result SessionAuthorization
accepted_without [] a = ok a
accepted_without (i ∷ is_) a = err (zod_error (i ∷ is_))

-- `SessionAuthorizationSchema.parse`
unfoldable pub parse_authorization : SessionAuthorization → Result SessionAuthorization
parse_authorization a =
    if is_base a then accepted_without (authorization_issues a) a else err (zod_error [])
