-- ===== src/Agent/Handler/Authority.antt =====
-- Who may make a runtime do what.
use winbridge.Base.{ℕ, ◌≡◌, false, String, some}
use winbridge.Protocol.Session.{host}
use winbridge.Protocol.Messages.{InputKind}
use winbridge.Agent.State.{Snapshot, Options, State}
use winbridge.Agent.Gates.{input_event_required_permission}
use winbridge.Agent.Gates.Grants.{Grants}

-- What has been checked of the session and of the message, before the native adapter applies it.
pub record Applies (now : ℕ) (opts : Options) (s : State) (kind : InputKind) (id from : String)
    (a : Snapshot) : Type 0 where
  pub is_host : opts.role ≡ host
  pub not_blocked : s.host_input_blocked ≡ false
  pub current : s.host_authorization ≡ some a
  pub grants : Grants now (input_event_required_permission kind) id from a
  pub observed : s.observed_peer_id ≡ some from
