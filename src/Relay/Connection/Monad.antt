-- ===== src/Relay/Connection/Monad.antt =====
-- A handler's state, and the steps that it is made of: they change the state, and may throw.
use winbridge.Base.{List, ◌∷◌, Option, none, some, Failure}
pub use winbridge.Base.Machine.{
  Machine, continue, handle, ◌>>=◌, ◌>>◌, pure, throw, lift, get, modify, try_catch,
}
use winbridge.Relay.RateLimit.{Limiter}
use winbridge.Relay.Rooms.{RelayPeer, RoomRegistry}
use winbridge.Relay.Connection.Audit.{AuditEntry, Effect, records}

pub record State : Type 0 where
  pub rooms : RoomRegistry
  pub invalid_message_limiter : Limiter
  pub registered_peer : Option RelayPeer
  pub effects : List Effect

abbrev pub M : Type 0 → Type 0
M A = Machine State A

abbrev pub emit : Effect → M (Unit {0})
emit e = modify λ s. record s { effects = e ∷ s.effects }

-- The audit sink: what it does with an entry may depend on all that was done before. `none` means
-- that the entry was written, and a failure that `write` threw it.
abbrev pub Sink : Type 0
Sink = List Effect → AuditEntry → Option Failure

abbrev pub written : Option Failure → AuditEntry → M (Unit {0})
written none entry = emit (records entry)
written (some e) entry = throw e

-- `writeRelayAudit`: what it hands to the sink. Its redaction of unsafe actor and session ids is not
-- modelled.
unfoldable pub write_relay_audit : Sink → AuditEntry → M (Unit {0})
write_relay_audit sink entry s = written (sink s.effects entry) entry s
