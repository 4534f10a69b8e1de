-- ===== src/Agent/Decision.antt =====
-- apps/agent-shell/src/runtime.ts: how a host answers a request for authorization.
use winbridge.Base.{
  ℕ, ◌+◌, ◌*◌, suc, Bool, true, false, not, ◌&&◌, ◌||◌, String, List, [], Option, none, some, ok,
  any, if◌then◌else◌,
}
use winbridge.Base.Machine.{◌>>=◌, ◌>>◌, get, modify, when}
use winbridge.Protocol.Session.{viewer, Permission, includes_permission}
use winbridge.Protocol.Status.{denied, approved, active}
use winbridge.Protocol.Messages.{
  DeviceIdentity, session_authorization_decision, session_authorization_state, AuditOutcome,
}
use winbridge.Agent.State.{
  Snapshot, HostDecision, approve, deny, Options, activated, State, World, set_workflow,
}
use winbridge.Agent.Gates.{is_text, is_role, block_host}
use winbridge.Agent.Send.{M, send_protocol, prepare_development_audit_event}
use winbridge.Agent.Indicator.{emit_host_indicator_from_authorization}
use winbridge.Agent.Host.{set_host_authorization_snapshot, enable_host}
use winbridge.Agent.Controls.{can_send_delayed_host_workflow, given}
use winbridge.Agent.Timers.{schedule_host_timers}

-- What a host's decision provider gave: an answer, none that counts, or its timeout or failure.
pub data ProviderResult : Type 0 where
  answered : HostDecision → ProviderResult
  unanswered timed_out failed : ProviderResult

-- `resolveHostDecision`: the configured decision without a provider, else the provider's, which
-- fails closed.
abbrev pub resolve_host_decision : Option HostDecision → Option ProviderResult → HostDecision
resolve_host_decision none none = HostDecision.none
resolve_host_decision (some decision) none = decision
resolve_host_decision configured (some (answered approve)) = approve
resolve_host_decision configured (some (answered deny)) = deny
resolve_host_decision configured (some _) = HostDecision.none

unfoldable pub can_send_host_authorization_decision : World → State → String → Bool
unfolding can_send_delayed_host_workflow
can_send_host_authorization_decision w s viewer_id =
    can_send_delayed_host_workflow w s
    && s.recipient_available
    && is_role s.observed_peer_role viewer
    && is_text s.observed_peer_id viewer_id

unfoldable pub get_observed_viewer_device_identity : State → String → Option DeviceIdentity
get_observed_viewer_device_identity s viewer_id =
    if is_role s.observed_peer_role viewer && is_text s.observed_peer_id viewer_id
    then s.observed_peer_device_identity
    else none

-- Without a configured scope, all that was requested; with one, that scope if all of it was
-- requested.
unfoldable pub resolve_host_granted_permissions :
    Options → List Permission → Option (List Permission)
resolve_host_granted_permissions opts requested = elim opts.host_grant_permissions [
  | none ↦ some requested
  | some scope ↦ if any (λ p. not (includes_permission requested p)) scope then none else some scope
]

abbrev pub ttl_ms : Options → ℕ
ttl_ms opts = elim opts.authorization_ttl_ms [ none ↦ 10 * 60000 | some ms ↦ ms ]

abbrev pub granted_snapshot :
    String → String → Option DeviceIdentity → Bool → List Permission → ℕ → Snapshot
granted_snapshot id viewer_id identity is_active permissions expires_at = record {
  authorization_id = id;
  authority_peer_id = none;
  remote_peer_id = some viewer_id;
  viewer_device_identity = identity;
  status = if is_active then active else approved;
  visible_to_host = is_active;
  permissions = permissions;
  revoked_permissions = none;
  expires_at = some expires_at;
}

unfoldable pub deny_request : World → Options → String → M (Unit {0})
unfolding send_protocol prepare_development_audit_event set_host_authorization_snapshot
deny_request w opts viewer_id =
    prepare_development_audit_event w opts "agent-shell.authorization.denied" AuditOutcome.denied
    >>= λ audit.
        modify (
          set_host_authorization_snapshot (record {
            authorization_id = w.authorization_id;
            authority_peer_id = none;
            remote_peer_id = some viewer_id;
            viewer_device_identity = none;
            status = denied;
            visible_to_host = false;
            permissions = [];
            revoked_permissions = none;
            expires_at = none;
          }))
        >> send_protocol w (
            session_authorization_decision w.authorization_id opts.peer_id viewer_id false [] none
              (some (given opts.decision_reason "Host denied")))
        >> send_protocol w audit

-- The workflow of a new grant takes the next free place of the store.
abbrev pub new_workflow : List Permission → State → State
new_workflow granted s =
    record (set_workflow s.next_workflow
      (record { terminal_status = none; paused = false; permissions = granted }) s) {
        next_workflow = suc s.next_workflow;
      }

-- The second half of an approval, for a host that shows the session.
unfoldable pub activate_grant :
    World → Options → String → Option DeviceIdentity → List Permission → ℕ → M (Unit {0})
unfolding send_protocol prepare_development_audit_event set_host_authorization_snapshot
    emit_host_indicator_from_authorization schedule_host_timers
activate_grant w opts viewer_id identity granted expires_at =
    prepare_development_audit_event w opts "agent-shell.authorization.active" AuditOutcome.accepted
    >>= λ audit. get (λ s. s.next_workflow) >>= λ r.
        modify (
          set_host_authorization_snapshot
            (granted_snapshot w.authorization_id viewer_id identity true granted expires_at))
        >> modify (λ s. record (new_workflow granted s) { host_workflow_state = some r })
        >> emit_host_indicator_from_authorization w opts activated
        >> send_protocol w (
            session_authorization_state w.authorization_id opts.peer_id active true granted
              expires_at none)
        >> send_protocol w audit
        >> modify (enable_host granted)
        >> modify (schedule_host_timers w opts w.authorization_id expires_at r)

unfoldable pub approve_request :
    World → Options → String → Option DeviceIdentity → List Permission → M (Unit {0})
unfolding send_protocol prepare_development_audit_event set_host_authorization_snapshot
    activate_grant
approve_request w opts viewer_id identity granted =
    let expires_at = w.now + ttl_ms opts in
    prepare_development_audit_event w opts "agent-shell.authorization.approved"
      AuditOutcome.accepted
    >>= λ audit.
        modify (
          set_host_authorization_snapshot
            (granted_snapshot w.authorization_id viewer_id identity false granted expires_at))
        >> send_protocol w (
            session_authorization_decision w.authorization_id opts.peer_id viewer_id true granted
              (some expires_at) none)
        >> send_protocol w audit
        >> when opts.visible_to_host (activate_grant w opts viewer_id identity granted expires_at)

unfoldable pub answer :
    World → Options → String → List Permission → Option DeviceIdentity → HostDecision → M (Unit {0})
unfolding deny_request approve_request resolve_host_granted_permissions
answer w opts viewer_id requested identity HostDecision.none s = (s, ok tt)
answer w opts viewer_id requested identity deny s = deny_request w opts viewer_id s
answer w opts viewer_id requested identity approve s =
    elim (resolve_host_granted_permissions opts requested) [
      | none ↦ (s, ok tt)
      | some granted ↦ approve_request w opts viewer_id identity granted s
    ]

abbrev pub is_none : HostDecision → Bool
is_none HostDecision.none = true
is_none _ = false

-- `handleHostAuthorizationRequest`, from the moment that the decision is there.
unfoldable pub handle_host_authorization_request :
    World → Options → String → List Permission → HostDecision → M (Unit {0})
unfolding can_send_host_authorization_decision get_observed_viewer_device_identity answer
handle_host_authorization_request w opts viewer_id requested decision s =
    if is_none decision || not (can_send_host_authorization_decision w s viewer_id)
    then (s, ok tt)
    else answer w opts viewer_id requested (get_observed_viewer_device_identity s viewer_id)
        decision (block_host s)
