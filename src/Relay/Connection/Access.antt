-- ===== src/Relay/Connection/Access.antt =====
-- The first lines of the listener of "connection" in apps/relay/src/server.ts: the shared token.
-- The query of the request's URL is a list of names and values. What is kept here is the limiter of
-- invalid tokens and the effects; the result says whether the listener goes on.
use winbridge.Base.{
  ℕ, ◌≡◌, ◌⊎◌, Bool, true, false, String, List, [], ◌∷◌, Option, none, some, Result, ok, err, ltb,
  str_eq, codes, same_units, length, keep, map, if◌then◌else◌, Failure,
}
use winbridge.Protocol.Identifier.{lower_code}
use winbridge.Protocol.Messages.{denied}
use winbridge.Relay.RateLimit.{Limiter, consume}
use winbridge.Relay.Connection.Audit.{token_denied, AuditEntry, Effect, closes, records}
use winbridge.Relay.Connection.Monad.{Sink}
use winbridge.Relay.Connection.Handler.{entry}

pub record RelayToken : Type 0 where
  pub presented : Bool
  pub value : Option String

-- `name.toLowerCase() === "token"`
unfoldable pub is_token_name : String → Bool
is_token_name name = same_units (map lower_code (codes name)) (codes "token")

abbrev pub token_entries : List (String × String) → List (String × String)
token_entries params = keep (λ e. is_token_name e.0) params

abbrev pub canonical_entries : List (String × String) → List (String × String)
canonical_entries entries = keep (λ e. str_eq e.0 "token") entries

-- The value, where both lists have one entry.
abbrev pub single_value : List (String × String) → List (String × String) → Option String
single_value (e ∷ []) ((name, v) ∷ []) = some v
single_value _ _ = none

unfoldable pub read_single_relay_token : List (String × String) → RelayToken
read_single_relay_token params =
    let entries = token_entries params in
    record {
      presented = ltb 0 (length entries);
      value = single_value entries (canonical_entries entries);
    }

pub record AccessState : Type 0 where
  pub invalid_token_limiter : Limiter
  pub effects : List Effect

abbrev pub denial_reason : Bool → String → String
denial_reason allowed reason = if allowed then reason else "Relay token rate limit exceeded"

-- One attempt is counted and recorded, and the socket is closed. A sink that throws leaves the
-- listener.
unfoldable pub deny_token :
    Sink
    → (socket : ℕ) → (presented configured : Bool) → (reason key : String) → (now : ℕ) → AccessState
    → AccessState × Result Bool
deny_token sink socket presented configured reason key now s =
    let r = consume s.invalid_token_limiter key now in
    let e = entry "relay.token.denied" denied none none (token_denied presented configured r.1) in
    elim (sink s.effects e) [
      | some failure ↦ (record s { invalid_token_limiter = r.0 }, err failure)
      | none ↦ (
        record {
          invalid_token_limiter = r.0;
          effects = closes socket 1008 (denial_reason r.1.allowed reason) ∷ records e ∷ s.effects;
        },
        ok false,
      )
    ]

abbrev pub is_value : Option String → String → Bool
is_value none token = false
is_value (some v) token = str_eq v token

-- `sharedToken` is absent, or a text that is not empty.
unfoldable pub check_access :
    Sink
    → (shared_token : Option String) → List (String × String)
    → (socket : ℕ) → (key : String) → (now : ℕ) → AccessState
    → AccessState × Result Bool
unfolding read_single_relay_token
check_access sink none params socket key now s =
    let token = read_single_relay_token params in
    elim token.presented [
      | true ↦ deny_token sink socket true false "Relay token is not configured" key now s
      | false ↦ (s, ok true)
    ]
check_access sink (some shared) params socket key now s =
    let token = read_single_relay_token params in
    elim (is_value token.value shared) [
      | true ↦ (s, ok true)
      | false ↦ deny_token sink socket token.presented true "Invalid relay token" key now s
    ]

-- What the query must hold for a connection to go on: no token in any spelling where none is
-- configured, else one token alone, spelled as such, with the shared value.
abbrev pub IsAdmitted : Option String → List (String × String) → Type 0
IsAdmitted none params = token_entries params ≡ []
IsAdmitted (some shared) params = token_entries params ≡ ("token", shared) ∷ []

-- A refusal. The attempt has been counted, under the key of the peer; where the sink took the record
-- of it, the listener stops with a close of the socket, and where it threw, it leaves with that.
pub record IsRefused (socket : ℕ) (key : String) (now : ℕ) (s : AccessState)
    (r : AccessState × Result Bool) : Type 0 where
  pub counted : r.0.invalid_token_limiter ≡ (consume s.invalid_token_limiter key now).0
  pub ended :
      ((r.1 ≡ ok false)
        × (reason : String) × (e : AuditEntry) × (e.action ≡ "relay.token.denied")
        × (e.outcome ≡ denied)
        × (r.0.effects ≡ closes socket 1008 reason ∷ records e ∷ s.effects))
      ⊎ ((failure : Failure) × (r.1 ≡ err failure) × (r.0.effects ≡ s.effects))
