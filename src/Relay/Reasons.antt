-- ===== src/Relay/Reasons.antt =====
-- `safeRelayRejectionReason` of apps/relay/src/server.ts: what a peer and the audit log are told of
-- a failure. The message of a `ZodError` is the JSON text of its issues, so it contains what one
-- of its issues' messages contains.
use winbridge.Base.{
  ◌≡◌, refl, Bool, true, String, List, [], ◌∷◌, Failure, thrown, zod_error, any, includes, units,
  str_eq, if◌then◌else◌, if_both, Bool-cases, inl, inr,
}
use winbridge.Protocol.Identity.{self_pairing_device_rejection_reason}
use winbridge.Relay.Rooms.{duplicate_relay_peer_join_reason, same_role_relay_peer_join_reason}
use winbridge.Relay.Forwarding.{stale_registered_peer_reason}

abbrev pub generic_relay_rejection_reason : String
generic_relay_rejection_reason = "Invalid relay message"

abbrev pub relay_message_too_large_reason : String
relay_message_too_large_reason = "Relay message exceeds 65536 bytes"

abbrev pub safe_relay_rejection_reasons : List String
safe_relay_rejection_reasons =
    generic_relay_rejection_reason ∷ relay_message_too_large_reason ∷ "Host pairing ticket required"
    ∷ "Pairing code mismatch" ∷ "Pairing ticket is expired" ∷ "Pairing ticket has no remaining uses"
    ∷ self_pairing_device_rejection_reason ∷ duplicate_relay_peer_join_reason
    ∷ same_role_relay_peer_join_reason ∷ "Registered peers cannot send join-session messages"
    ∷ "Relay-ready messages are relay-originated" ∷ "Message session does not match registered peer"
    ∷ "Message peer identity does not match registered peer"
    ∷ "Message role does not match registered peer" ∷ "No recipient peer is registered"
    ∷ "Message target does not match registered recipient" ∷ stale_registered_peer_reason
    ∷ "Peer disconnect notices are relay-originated" ∷ "Signal payload must not be empty"
    ∷ "Signal payload must be 16384 bytes or less"
    ∷ "Signal payload kind must be bounded safe metadata"
    ∷ "Signal payload must not contain sensitive remote-assistance data" ∷ []

abbrev pub is_listed : String → Bool
is_listed reason = any (str_eq reason) safe_relay_rejection_reasons

abbrev pub message_includes : Failure → String → Bool
message_includes (thrown message) part = includes (units message) (units part)
message_includes (zod_error issues) part = any (λ issue. includes (units issue) (units part)) issues

-- The tests behind the one for a listed message.
unfoldable pub included_reason : Failure → String
included_reason e =
    if message_includes e "Signal payload must be 16384 bytes or less"
    then "Signal payload must be 16384 bytes or less"
    else if message_includes e "Signal payload must not be empty"
    then "Signal payload must not be empty"
    else if message_includes e "Signal payload kind must be bounded safe metadata"
    then "Signal payload kind must be bounded safe metadata"
    else if message_includes e "Signal payload must not contain sensitive remote-assistance data"
    then "Signal payload must not contain sensitive remote-assistance data"
    else generic_relay_rejection_reason

unfoldable pub safe_relay_rejection_reason : Failure → String
safe_relay_rejection_reason (thrown message) =
    if is_listed message then message else included_reason (thrown message)
safe_relay_rejection_reason (zod_error issues) = included_reason (zod_error issues)

abbrev Listed : String → Type 0
Listed reason = is_listed reason ≡ true

included_reason-listed : (e : Failure) → is_listed (included_reason e) ≡ true
unfolding included_reason
included_reason-listed e =
    if_both Listed (message_includes e "Signal payload must be 16384 bytes or less") refl (
      if_both Listed (message_includes e "Signal payload must not be empty") refl (
        if_both Listed (message_includes e "Signal payload kind must be bounded safe metadata") refl
          (if_both Listed
            (message_includes e "Signal payload must not contain sensitive remote-assistance data")
            refl refl)))

-- Whatever was thrown, the reason that leaves the relay is one of the listed texts.
pub safe_relay_rejection_reason-listed :
    (e : Failure) → is_listed (safe_relay_rejection_reason e) ≡ true
unfolding safe_relay_rejection_reason
safe_relay_rejection_reason-listed (thrown message) = elim (Bool-cases (is_listed message)) [
  | inl listed ↦ rw listed listed
  | inr other ↦ rw other (included_reason-listed (thrown message))
]
safe_relay_rejection_reason-listed (zod_error issues) = included_reason-listed (zod_error issues)
