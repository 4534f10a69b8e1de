-- ===== src/Protocol/Reason.antt =====
-- `hasSecretBearingAuditMetadata` of packages/protocol/src/audit.ts, with `includeKeyAssignments`
-- false, and `AuthorizationReasonSchema` of packages/protocol/src/authorization.ts.
use winbridge.Base.{
  ℕ, Bool, true, false, ◌&&◌, ◌||◌, not, String, List, [], ◌∷◌, any, leb, nat_eq, units, length,
  trim, same_units, str_eq,
}
use winbridge.Protocol.TextSafety.{has_ascii_control_character, has_unsafe_text_format_control}
use winbridge.Protocol.Pattern.{
  Pattern, one, many, boundary, seq, alt, test, literal, opt, any_of, gap, spaces, spaces_1,
  non_spaces_1, gapped, fold_case,
}

abbrev pub safe_audit_reasons : List String
safe_audit_reasons =
    "Authorization expired" ∷ "Invalid relay token" ∷ "keylog denied" ∷ "Pairing code mismatch"
    ∷ "Relay token rate limit exceeded" ∷ []

-- `key[\s_-]*log(?:ger)?(?:[\s_-]*(?:content|data|output|trace))?`
abbrev key_log : Pattern
key_log = seq (gapped "key" "log") (
    seq (opt (literal "ger")) (
      opt (
        seq gap
          (any_of (literal "content" ∷ literal "data" ∷ literal "output" ∷ literal "trace" ∷ [])))))

abbrev marker : Pattern
marker = any_of (
    literal "token"
    ∷ literal "credential"
    ∷ literal "password"
    ∷ gapped "pass" "phrase"
    ∷ literal "secret"
    ∷ gapped "pairing" "code"
    ∷ gapped "api" "key"
    ∷ gapped "access" "key"
    ∷ literal "authorization"
    ∷ gapped "proxy" "authorization"
    ∷ gapped "authorization" "header"
    ∷ gapped "auth" "header"
    ∷ gapped "set" "cookie"
    ∷ gapped "session" "cookie"
    ∷ literal "cookie"
    ∷ gapped "private" "key"
    ∷ gapped "ssh" "key"
    ∷ literal "keystroke"
    ∷ seq (literal "raw") (seq gap (gapped "key" "log"))
    ∷ key_log
    ∷ literal "screenshot"
    ∷ gapped "screen" "data"
    ∷ gapped "screen" "content"
    ∷ [])

abbrev colon_or_equals : Pattern
colon_or_equals = alt (literal ":") (literal "=")

abbrev pub sensitive_reason_marker_pattern : Pattern
sensitive_reason_marker_pattern = seq boundary (
    seq marker
      (seq boundary (seq spaces (seq (alt colon_or_equals spaces_1) (seq spaces non_spaces_1)))))

abbrev content_words : Pattern
content_words = any_of (literal "text" ∷ literal "content" ∷ literal "contents" ∷ [])

abbrev diagnostic : Pattern
diagnostic = seq (literal "diagnostic") (opt (literal "s"))

abbrev dump_words : Pattern
dump_words = alt (literal "content") (literal "dump")

abbrev pub sensitive_remote_content_reason_pattern : Pattern
sensitive_remote_content_reason_pattern =
    alt
      (seq boundary (
        seq
          (any_of (
            seq (literal "clipboard") (opt (seq gap content_words))
            ∷ seq (literal "file") (
                seq gap (
                  any_of (
                    literal "content"
                    ∷ literal "data"
                    ∷ literal "bytes"
                    ∷ literal "transfer"
                    ∷ [])))
            ∷ seq diagnostic (opt (seq gap dump_words))
            ∷ []))
          (seq boundary (seq spaces (seq colon_or_equals (seq spaces non_spaces_1))))))
      (seq boundary (
        seq
          (any_of (
            seq (literal "clipboard") (seq gap content_words)
            ∷ seq (literal "file")
                (seq gap (any_of (literal "content" ∷ literal "data" ∷ literal "bytes" ∷ [])))
            ∷ seq diagnostic (seq gap dump_words)
            ∷ []))
          (seq boundary (seq spaces_1 non_spaces_1))))

-- `[a-z0-9._~+/=-]` under the flag `i`.
abbrev is_credential_unit : ℕ → Bool
is_credential_unit c =
    (leb b'a' (fold_case c) && leb (fold_case c) b'z')
    || (leb b'0' c && leb c b'9')
    || nat_eq c b'.'
    || nat_eq c b'_'
    || nat_eq c b'~'
    || nat_eq c b'+'
    || nat_eq c b'/'
    || nat_eq c b'='
    || nat_eq c b'-'

abbrev pub sensitive_reason_credential_pattern : Pattern
sensitive_reason_credential_pattern = seq boundary (
    seq (alt (literal "bearer") (literal "basic"))
      (seq spaces_1 (seq (one is_credential_unit) (many is_credential_unit))))

abbrev pub sensitive_reason_private_key_pattern : Pattern
sensitive_reason_private_key_pattern = seq (literal "-----BEGIN ") (
    seq (many (λ c. (leb b'a' (fold_case c) && leb (fold_case c) b'z') || nat_eq c b' '))
      (literal "PRIVATE KEY-----"))

unfoldable pub has_secret_bearing_audit_metadata : String → Bool
unfolding test
has_secret_bearing_audit_metadata value = elim (any (str_eq value) safe_audit_reasons) [
  | true ↦ false
  | false ↦
      test sensitive_reason_marker_pattern value
      || test sensitive_remote_content_reason_pattern value
      || test sensitive_reason_credential_pattern value
      || test sensitive_reason_private_key_pattern value
]

-- `AuthorizationReasonSchema`
unfoldable pub is_authorization_reason : String → Bool
unfolding has_ascii_control_character has_unsafe_text_format_control
    has_secret_bearing_audit_metadata
is_authorization_reason reason =
    leb 1 (length (units reason))
    && leb (length (units reason)) 240
    && not (nat_eq (length (trim (units reason))) 0)
    && same_units (units reason) (trim (units reason))
    && not (has_ascii_control_character reason)
    && not (has_unsafe_text_format_control reason)
    && not (has_secret_bearing_audit_metadata reason)
