-- ===== src/Protocol/Session.antt =====
-- packages/protocol/src/session.ts: roles, permissions, pairing codes and session grants.
use winbridge.Base.{
  ℕ, ◌+◌, Bool, true, false, ◌&&◌, not, String, List, [], ◌∷◌, Option, none, some, Result, ok, err,
  thrown, zod_error, leb, nat_eq, units, length, any, all, if◌then◌else◌,
}
use winbridge.Protocol.Identifier.{is_safe_identifier}

pub data SessionRole : Type 0 where
  host viewer : SessionRole

abbrev pub role_eq : SessionRole → SessionRole → Bool
role_eq host host = true
role_eq viewer viewer = true
role_eq _ _ = false

pub data Permission : Type 0 where
  screen_view input_pointer input_keyboard clipboard_read clipboard_write file_transfer : Permission

abbrev pub permission_eq : Permission → Permission → Bool
permission_eq screen_view screen_view = true
permission_eq input_pointer input_pointer = true
permission_eq input_keyboard input_keyboard = true
permission_eq clipboard_read clipboard_read = true
permission_eq clipboard_write clipboard_write = true
permission_eq file_transfer file_transfer = true
permission_eq _ _ = false

abbrev pub permission_text : Permission → String
permission_text screen_view = "screen:view"
permission_text input_pointer = "input:pointer"
permission_text input_keyboard = "input:keyboard"
permission_text clipboard_read = "clipboard:read"
permission_text clipboard_write = "clipboard:write"
permission_text file_transfer = "file-transfer"

-- `UNAVAILABLE_PERMISSIONS`
abbrev pub is_unavailable : Permission → Bool
is_unavailable clipboard_read = true
is_unavailable clipboard_write = true
is_unavailable file_transfer = true
is_unavailable _ = false

abbrev pub includes_permission : List Permission → Permission → Bool
includes_permission ps p = any (permission_eq p) ps

abbrev pub max_permission_count : ℕ
max_permission_count = 16

-- `PermissionSchema.parse`, on a permission that is known.
unfoldable pub parse_permission : Permission → Result Permission
parse_permission p =
    if is_unavailable p
    then err (zod_error ("Permission requires an explicit capability review" ∷ []))
    else ok p

-- The issues of the entries, in order.
abbrev pub unavailable_issues : List Permission → List String
unavailable_issues [] = []
unavailable_issues (p ∷ ps) =
    if is_unavailable p
    then "Permission requires an explicit capability review" ∷ unavailable_issues ps
    else unavailable_issues ps

-- `BasePermissionListSchema` accepts: at most sixteen entries, each available.
abbrev pub is_base_permission_list : List Permission → Bool
is_base_permission_list ps =
    leb (length ps) max_permission_count && all (λ p. not (is_unavailable p)) ps

-- `new Set(permissions).size`, by dropping the entries that occur again.
abbrev pub set_size : List Permission → ℕ
set_size [] = 0
set_size (p ∷ ps) = if includes_permission ps p then set_size ps else set_size ps + 1

abbrev pub default_empty_message : String
default_empty_message = "Permission list requires at least one permission"

-- The options of a permission list, with the defaults of its optional fields.
pub record PermissionListValidationOptions : Type 0 where
  pub allow_empty : Bool
  pub duplicate_message : String
  pub empty_message : String

unfoldable pub get_permission_list_issue :
    List Permission → PermissionListValidationOptions → Option String
get_permission_list_issue ps options =
    if not options.allow_empty && nat_eq (length ps) 0
    then some options.empty_message
    else if not (nat_eq (set_size ps) (length ps))
    then some options.duplicate_message
    else none

abbrev pub issue_of : Option String → List String
issue_of none = []
issue_of (some message) = message ∷ []

unfoldable pub parse_permission_list :
    List Permission → PermissionListValidationOptions → Result (List Permission)
unfolding get_permission_list_issue
parse_permission_list ps options =
    if not (is_base_permission_list ps)
    then err (zod_error (unavailable_issues ps))
    else elim (get_permission_list_issue ps options) [
      | some issue ↦ err (thrown issue)
      | none ↦ ok ps
    ]

-- `createPermissionListSchema`: accepts, or not.
unfoldable pub is_permission_list : List Permission → PermissionListValidationOptions → Bool
unfolding get_permission_list_issue
is_permission_list ps options =
    is_base_permission_list ps
    && elim (get_permission_list_issue ps options) [ some issue ↦ false | none ↦ true ]

abbrev pub is_digit : ℕ → Bool
is_digit c = leb b'0' c && leb c b'9'

abbrev pub matches_pairing_code : List ℕ → Bool
matches_pairing_code (a ∷ b ∷ c ∷ dash ∷ d ∷ e ∷ f ∷ []) =
    is_digit a
    && is_digit b
    && is_digit c
    && nat_eq dash b'-'
    && is_digit d
    && is_digit e
    && is_digit f
matches_pairing_code _ = false

-- `PairingCodeSchema`
unfoldable pub is_pairing_code : String → Bool
is_pairing_code value = matches_pairing_code (units value)

-- The two flags are the literal `true` in every grant that the schema accepts.
pub record SessionGrant : Type 0 where
  pub session_id : String
  pub host_peer_id : String
  pub viewer_peer_id : String
  pub permissions : List Permission
  pub requires_host_approval : Bool
  pub visible_session_required : Bool
  pub expires_at : ℕ
  pub audit_id : String

abbrev pub session_grant_options : PermissionListValidationOptions
session_grant_options = record {
  allow_empty = false;
  duplicate_message = "Session grant permissions must be unique";
  empty_message = "Session grant requires at least one permission";
}

-- `SessionGrantSchema`
unfoldable pub is_session_grant : SessionGrant → Bool
is_session_grant g =
    is_safe_identifier 3 g.session_id
    && is_safe_identifier 3 g.host_peer_id
    && is_safe_identifier 3 g.viewer_peer_id
    && is_permission_list g.permissions session_grant_options
    && g.requires_host_approval
    && g.visible_session_required
    && is_safe_identifier 3 g.audit_id

unfoldable pub is_grant_expired : SessionGrant → ℕ → Bool
is_grant_expired g now = leb g.expires_at now

unfoldable pub assert_consent_bound_grant : SessionGrant → ℕ → Result SessionGrant
assert_consent_bound_grant g now =
    if not (is_session_grant g)
    then err (zod_error [])
    else if is_grant_expired g now
    then err (thrown "Session grant is expired")
    else ok g
