-- ===== src/Protocol/Identity.antt =====
-- packages/protocol/src/identity.ts: pairing tickets and paired devices. SHA-256 is Node's: a
-- parameter, the digest of a text in hexadecimal. Random salts and ids are arguments.
pub mod Ticket
use Prim.Native.String.{◌++◌ as str_append}
use winbridge.Base.{
  ℕ, ◌+◌, ◌-◌, ◌*◌, ◌≤◌, ◌≡◌, Bool, true, false, ◌&&◌, ◌||◌, not, String, List, [], ◌∷◌, Option,
  none, some, Result, ok, err, thrown, zod_error, ◌>>=◌, ◌>>◌, guard, ltb, leb, nat_eq, str_eq,
  units, length, all, if◌then◌else◌, same_units, is_prefix,
}
use winbridge.Protocol.Identifier.{is_safe_identifier}
use winbridge.Protocol.Session.{
  is_pairing_code, Permission, SessionGrant, is_session_grant, parse_permission,
  includes_permission,
}

pub record PairingTicket : Type 0 where
  pub pairing_id : String
  pub session_id : String
  pub host_device_id : String
  pub pairing_code_salt : String
  pub pairing_code_hash : String
  pub created_at : ℕ
  pub expires_at : ℕ
  pub remaining_uses : ℕ

pub record PairedDevice : Type 0 where
  pub pairing_id : String
  pub session_id : String
  pub host_device_id : String
  pub viewer_device_id : String
  pub paired_at : ℕ

abbrev pub max_pairing_ticket_ttl_ms : ℕ
max_pairing_ticket_ttl_ms = 2_147_483_647

abbrev pub max_pairing_ticket_max_uses : ℕ
max_pairing_ticket_max_uses = 10

abbrev pub self_pairing_device_rejection_reason : String
self_pairing_device_rejection_reason = "Paired device viewer must differ from host device"

abbrev pub is_hex : ℕ → Bool
is_hex c = (leb b'a' c && leb c b'f') || (leb b'0' c && leb c b'9')

-- The pattern of a prefix and `count` lower-case hexadecimal digits.
abbrev pub matches_hex : List ℕ → ℕ → List ℕ → Bool
matches_hex [] count cs = nat_eq (length cs) count && all is_hex cs
matches_hex (p ∷ ps) count [] = false
matches_hex (p ∷ ps) count (c ∷ cs) = nat_eq p c && matches_hex ps count cs

unfoldable pub is_pairing_code_salt : String → Bool
is_pairing_code_salt value = matches_hex (units "salt:") 32 (units value)

unfoldable pub is_pairing_code_hash : String → Bool
is_pairing_code_hash value = matches_hex (units "sha256:") 64 (units value)

-- `PairingTicketSchema`
unfoldable pub is_pairing_ticket : PairingTicket → Bool
is_pairing_ticket t =
    is_safe_identifier 8 t.pairing_id
    && is_safe_identifier 3 t.session_id
    && is_safe_identifier 8 t.host_device_id
    && is_pairing_code_salt t.pairing_code_salt
    && is_pairing_code_hash t.pairing_code_hash
    && leb t.remaining_uses 10

-- `PairedDeviceSchema`
unfoldable pub is_paired_device : PairedDevice → Bool
is_paired_device d =
    is_safe_identifier 8 d.pairing_id
    && is_safe_identifier 3 d.session_id
    && is_safe_identifier 8 d.host_device_id
    && is_safe_identifier 8 d.viewer_device_id

abbrev pub parse_pairing_ticket : PairingTicket → Result PairingTicket
parse_pairing_ticket t = guard (is_pairing_ticket t) (zod_error []) >> ok t

abbrev pub parse_paired_device : PairedDevice → Result PairedDevice
parse_paired_device d = guard (is_paired_device d) (zod_error []) >> ok d

unfoldable pub assert_bounded_integer : ℕ → ℕ → ℕ → String → Result (Unit {0})
assert_bounded_integer value least most message =
    guard (leb least value && leb value most) (thrown message)

-- The value of a hexadecimal digit, and the bytes of a text of such digits.
abbrev pub hex_value : ℕ → ℕ
hex_value c = if leb b'a' c then c - b'a' + 10 else c - b'0'

abbrev pub hex_bytes : List ℕ → List ℕ
hex_bytes (a ∷ b ∷ cs) = (hex_value a * 16 + hex_value b) ∷ hex_bytes cs
hex_bytes _ = []

abbrev pub drop_prefix : List ℕ → List ℕ → List ℕ
drop_prefix (p ∷ ps) (c ∷ cs) = drop_prefix ps cs
drop_prefix _ cs = cs

unfoldable pub pairing_code_hash_digest : String → Result (List ℕ)
pairing_code_hash_digest hash = do
  guard (is_pairing_code_hash hash) (zod_error [])
  ok (hex_bytes (drop_prefix (units "sha256:") (units hash)))

-- Both digests are 32 bytes long, so `timingSafeEqual` compares them.
unfoldable pub pairing_code_hashes_match : String → String → Result Bool
pairing_code_hashes_match stored candidate = do
  a ← pairing_code_hash_digest stored
  b ← pairing_code_hash_digest candidate
  ok (same_units a b)

unfoldable pub is_pairing_ticket_expired : PairingTicket → ℕ → Bool
is_pairing_ticket_expired t now = leb t.expires_at now

module _ (sha256_hex : String → String) where
  unfoldable pub hash_pairing_code : String → String → Result String
  hash_pairing_code pairing_code salt = do
    guard (is_pairing_code pairing_code) (zod_error [])
    guard (is_pairing_code_salt salt) (zod_error [])
    ok (str_append "sha256:" (sha256_hex (str_append salt (str_append ":" pairing_code))))

  -- `createPairingTicket`, with every optional field given.
  unfoldable pub create_pairing_ticket :
      (session_id host_device_id pairing_code : String) (ttl_ms max_uses now : ℕ)
      (pairing_id salt : String)
      → Result PairingTicket
  create_pairing_ticket session_id host_device_id pairing_code ttl_ms max_uses now pairing_id salt =
      do
        assert_bounded_integer ttl_ms 0 max_pairing_ticket_ttl_ms
            "Pairing ticket TTL must be an integer from 0 through 2147483647"
        assert_bounded_integer max_uses 1 max_pairing_ticket_max_uses
            "Pairing ticket max uses must be an integer from 1 through 10"
        hash ← hash_pairing_code pairing_code salt
        parse_pairing_ticket (record {
          pairing_id = pairing_id;
          session_id = session_id;
          host_device_id = host_device_id;
          pairing_code_salt = salt;
          pairing_code_hash = hash;
          created_at = now;
          expires_at = now + ttl_ms;
          remaining_uses = max_uses;
        })

  unfoldable pub consume_pairing_ticket : PairingTicket → String → ℕ → Result PairingTicket
  consume_pairing_ticket ticket pairing_code now = do
    guard (is_pairing_ticket ticket) (zod_error [])
    guard (not (is_pairing_ticket_expired ticket now)) (thrown "Pairing ticket is expired")
    guard (not (nat_eq ticket.remaining_uses 0)) (thrown "Pairing ticket has no remaining uses")
    candidate ← hash_pairing_code pairing_code ticket.pairing_code_salt
    matching ← pairing_code_hashes_match ticket.pairing_code_hash candidate
    guard matching (thrown "Pairing code does not match ticket")
    parse_pairing_ticket (record ticket { remaining_uses = ticket.remaining_uses - 1 })

unfoldable pub create_paired_device : PairingTicket → String → ℕ → Result PairedDevice
create_paired_device ticket viewer_device_id paired_at = do
  guard (is_pairing_ticket ticket) (zod_error [])
  guard (is_safe_identifier 8 viewer_device_id) (zod_error [])
  guard (not (str_eq viewer_device_id ticket.host_device_id))
      (thrown self_pairing_device_rejection_reason)
  guard (leb ticket.created_at paired_at)
      (thrown "Paired device timestamp must not be before pairing ticket creation")
  guard (ltb paired_at ticket.expires_at)
      (thrown "Paired device timestamp must be before pairing ticket expiration")
  parse_paired_device (record {
    pairing_id = ticket.pairing_id;
    session_id = ticket.session_id;
    host_device_id = ticket.host_device_id;
    viewer_device_id = viewer_device_id;
    paired_at = paired_at;
  })

unfoldable pub assert_remote_action_authorized : Permission → SessionGrant → ℕ → Result (Unit {0})
assert_remote_action_authorized permission grant now = do
  guard (is_session_grant grant) (zod_error [])
  guard (not (leb grant.expires_at now)) (thrown "Session grant is expired")
  parsed ← parse_permission permission
  guard (includes_permission grant.permissions parsed)
      (thrown "Session grant does not include requested permission")
