-- ===== src/Protocol/Identifier.antt =====
-- `ProtocolIdentifierSchema` of packages/protocol/src/session.ts and
-- packages/protocol/src/identifier-metadata.ts. `toLowerCase` maps two more characters than A to Z
-- to an ASCII letter: the Kelvin sign, to k, and the dotted capital I, to an i before a combining
-- dot, which the replacement drops.
use winbridge.Base.{
  ℕ, ◌+◌, Bool, false, ◌&&◌, ◌||◌, not, String, List, [], ◌∷◌, leb, nat_eq, codes, units, length,
  any, all, includes, if◌then◌else◌,
}

abbrev pub protocol_identifier_max_length : ℕ
protocol_identifier_max_length = 128

abbrev pub is_letter_or_digit : ℕ → Bool
is_letter_or_digit c =
    (leb b'A' c && leb c b'Z') || (leb b'a' c && leb c b'z') || (leb b'0' c && leb c b'9')

abbrev pub is_identifier_unit : ℕ → Bool
is_identifier_unit c =
    is_letter_or_digit c || nat_eq c b'.' || nat_eq c b'_' || nat_eq c b':' || nat_eq c b'-'

-- `PROTOCOL_IDENTIFIER_PATTERN`
abbrev pub matches_identifier_pattern : List ℕ → Bool
matches_identifier_pattern [] = false
matches_identifier_pattern (c ∷ cs) = is_letter_or_digit c && all is_identifier_unit cs

-- The schema, with the least length as an argument: 3, or 8 behind `.min(8)`.
unfoldable pub is_protocol_identifier : ℕ → String → Bool
is_protocol_identifier least value =
    leb least (length (units value))
    && leb (length (units value)) protocol_identifier_max_length
    && matches_identifier_pattern (units value)

abbrev pub secret_bearing_protocol_identifier_markers : List String
secret_bearing_protocol_identifier_markers =
    "token" ∷ "credential" ∷ "password" ∷ "passphrase" ∷ "secret" ∷ "pairingcode" ∷ "apikey"
    ∷ "accesskey" ∷ "cookie" ∷ "privatekey" ∷ "sshkey" ∷ "authorization" ∷ "authorizationheader"
    ∷ "authheader" ∷ "proxyauthorization" ∷ []

abbrev pub lower_code : ℕ → ℕ
lower_code c =
    if leb b'A' c && leb c b'Z'
    then c + 32
    else if nat_eq c 0x212a
    then b'k'
    else if nat_eq c 0x130
    then b'i'
    else c

-- `value.toLowerCase().replace(/[^a-z0-9]/g, "")`
abbrev pub normalize_codes : List ℕ → List ℕ
normalize_codes [] = []
normalize_codes (c ∷ cs) =
    let rest = normalize_codes cs in
    let low = lower_code c in
    if (leb b'a' low && leb low b'z') || (leb b'0' low && leb low b'9') then low ∷ rest else rest

unfoldable pub has_secret_bearing_protocol_identifier_metadata : String → Bool
has_secret_bearing_protocol_identifier_metadata value =
    any (λ marker. includes (normalize_codes (codes value)) (codes marker))
      secret_bearing_protocol_identifier_markers

-- An identifier schema behind the refinement that refuses secret markers.
unfoldable pub is_safe_identifier : ℕ → String → Bool
unfolding is_protocol_identifier has_secret_bearing_protocol_identifier_metadata
is_safe_identifier least value =
    is_protocol_identifier least value
    && not (has_secret_bearing_protocol_identifier_metadata value)
