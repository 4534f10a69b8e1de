-- ===== src/Agent/Agreement.antt =====
-- A host's runtime and the viewer's that it answers: what the one sends keeps the other in step.
use winbridge.Base.{
  ℕ, ◌≡◌, ◌⊎◌, inl, inr, refl, true, false, String, List, [], ◌∷◌, none, some, ok, arith, str_eq,
  eq_iff, sym, ◌∙◌, ◌++◌, subst,
}
use winbridge.Protocol.Session.{viewer, Permission}
use winbridge.Protocol.Status.{Status}
use winbridge.Protocol.Messages.{
  Body, audit_event, session_control, ControlAction, AuditOutcome, Entries,
  session_authorization_state,
}
use winbridge.Agent.State.{Snapshot, Options, State, World}
use winbridge.Agent.Gates.{is_terminal_authorization_status}
use winbridge.Agent.Viewer.{
  revoked_list, control_change, update_viewer_authorization_state,
  update_viewer_authorization_after_session_control,
}
use winbridge.Agent.Viewer.Floor.{Apart}
use winbridge.Agent.Viewer.Report.{InStep, state-InStep}
use winbridge.Agent.Send.{send_protocol, prepare_development_audit_event}
use winbridge.Agent.Indicator.{emit_host_indicator_from_authorization, emit_host_indicator}
use winbridge.Agent.Host.{
  set_host_authorization_snapshot, workflow_snapshot, state_message, pause_host_authorization,
  resume_host_authorization, terminate_host_authorization,
}

module _ (w : World) (opts : Options) (id reason : String) (expires_at r : ℕ) (s : State) where
  abbrev audit_of : String → Body
  audit_of action =
      audit_event w.audit_event_id opts.peer_id action AuditOutcome.accepted (w.audit_detail action)

  pause-sent :
      (pause_host_authorization w opts id expires_at r reason s).1 ≡ ok tt
      → let t = (pause_host_authorization w opts id expires_at r reason s).0 in
        (t.sent
          ≡ audit_of "agent-shell.authorization.paused"
            ∷ state_message opts id Status.paused (s.workflows r).permissions expires_at reason
            ∷ session_control id opts.peer_id ControlAction.pause none (some reason)
            ∷ s.sent)
        × (t.host_authorization
            ≡ (set_host_authorization_snapshot
                (workflow_snapshot id Status.paused (s.workflows r).permissions expires_at)
                s).host_authorization)
  unfolding pause_host_authorization prepare_development_audit_event send_protocol
      emit_host_indicator_from_authorization emit_host_indicator set_host_authorization_snapshot
  pause-sent h = ground arith

  resume-sent :
      (resume_host_authorization w opts id expires_at r reason s).1 ≡ ok tt
      → let t = (resume_host_authorization w opts id expires_at r reason s).0 in
        (t.sent
          ≡ audit_of "agent-shell.authorization.resumed"
            ∷ state_message opts id Status.active (s.workflows r).permissions expires_at reason
            ∷ session_control id opts.peer_id ControlAction.resume none (some reason)
            ∷ s.sent)
        × (t.host_authorization
            ≡ (set_host_authorization_snapshot
                (workflow_snapshot id Status.active (s.workflows r).permissions expires_at)
                s).host_authorization)
  unfolding resume_host_authorization prepare_development_audit_event send_protocol
      emit_host_indicator_from_authorization emit_host_indicator set_host_authorization_snapshot
  resume-sent h = ground arith

  terminate-sent :
      (terminate_host_authorization w opts id expires_at r reason s).1 ≡ ok tt
      → let t = (terminate_host_authorization w opts id expires_at r reason s).0 in
        (t.sent
          ≡ audit_of "agent-shell.authorization.terminated"
            ∷ state_message opts id Status.terminated [] expires_at reason
            ∷ session_control id opts.peer_id ControlAction.terminate none (some reason)
            ∷ s.sent)
        × (t.host_authorization
            ≡ (set_host_authorization_snapshot
                (workflow_snapshot id Status.terminated [] expires_at)
                s).host_authorization)
  unfolding terminate_host_authorization prepare_development_audit_event send_protocol
      emit_host_indicator_from_authorization emit_host_indicator set_host_authorization_snapshot
  terminate-sent h = ground arith

-- What a viewer makes of messages, the oldest of which comes last.
unfoldable pub take_all : Options → List Body → State → State
unfolding update_viewer_authorization_state
take_all opts [] s = s
take_all opts (body ∷ bodies) s =
    update_viewer_authorization_state opts (take_all opts bodies s) body

-- What a viewer's snapshot has to be, for what follows: of this authorization of this host, not at
-- an end, and with none of the permissions among those that it has seen revoked.
pub record Follows (id host_id : String) (permissions : List Permission) (v : Snapshot)
    : Type 0 where
  pub same_id : v.authorization_id ≡ id
  pub by_host : v.authority_peer_id ≡ some host_id
  pub is_open : is_terminal_authorization_status v.status ≡ false
  pub unrevoked : Apart (revoked_list v) permissions

same_id : (a b : String) → a ≡ b → str_eq a b ≡ true
same_id a b e = ground (arith, eq_iff a b)

status-paused : is_terminal_authorization_status Status.paused ≡ false
unfolding is_terminal_authorization_status
status-paused = refl

-- A record of the audit says nothing of the viewer's authorization.
audit-lem :
    (opts : Options) (s : State) (event host_id action : String) (outcome : AuditOutcome)
    (detail : Entries)
    → (update_viewer_authorization_state opts s
        (audit_event event host_id action outcome detail)).viewer_authorization
      ≡ s.viewer_authorization
unfolding update_viewer_authorization_state
audit-lem opts s event host_id action outcome detail = ground arith

control-lem :
    (opts : Options) (s : State) (v : Snapshot) (id host_id reason : String)
    (action : ControlAction)
    → opts.role ≡ viewer
    → s.viewer_authorization ≡ some v
    → v.authorization_id ≡ id
    → (update_viewer_authorization_state opts s
        (session_control id host_id action none (some reason))).viewer_authorization
      ≡ some (control_change action none v)
unfolding update_viewer_authorization_state update_viewer_authorization_after_session_control
control-lem opts s v id host_id reason action is_viewer q e =
    rw (is_viewer, q, same_id v.authorization_id id e) refl

-- The three messages of a change: the control, the state and the record of the audit.
follow :
    (opts : Options) (s : State) (v a : Snapshot) (host_id reason event action : String)
    (outcome : AuditOutcome) (detail : Entries) (expires_at : ℕ) (control : ControlAction)
    → opts.role ≡ viewer
    → s.viewer_authorization ≡ some v
    → Follows a.authorization_id host_id a.permissions v
    → (is_terminal_authorization_status (control_change control none v).status ≡ false)
      ⊎ ((control_change control none v).status ≡ a.status)
    → (control_change control none v).authorization_id ≡ v.authorization_id
    → (control_change control none v).authority_peer_id ≡ v.authority_peer_id
    → revoked_list (control_change control none v) ≡ revoked_list v
    → a.expires_at ≡ some expires_at
    → let messages =
        audit_event event host_id action outcome detail
        ∷ session_authorization_state a.authorization_id host_id a.status a.visible_to_host
            a.permissions expires_at
            (some reason)
        ∷ session_control a.authorization_id host_id control none (some reason)
        ∷ [] in
      (b : Snapshot) × ((take_all opts messages s).viewer_authorization ≡ some b)
      × InStep host_id a b
unfolding take_all update_viewer_authorization_state
follow opts s v a host_id reason event action outcome detail expires_at control is_viewer q f g e_id
      e_by e_revoked end =
    let after =
      update_viewer_authorization_state opts s
        (session_control a.authorization_id host_id control none (some reason)) in
    let (b, got, in_step) =
      state-InStep opts after (control_change control none v) a host_id expires_at (some reason)
        is_viewer
        (control-lem opts s v a.authorization_id host_id reason control is_viewer q f.same_id)
        (e_id ∙ f.same_id) (e_by ∙ f.by_host) g
        (subst (λ ps. Apart ps a.permissions) (sym e_revoked) f.unrevoked) end in
    (b, audit-lem opts _ event host_id action outcome detail ∙ got, in_step)

-- One side has come from `s` to `t` and has sent some messages; the other, which takes them in from
-- its own state, has then what the first has: the id, the status, the visibility, the permissions and
-- the end of the authorization, in the name of this host.
unfoldable pub Agrees : Options → String → State → State → State → Type 0
Agrees viewer_opts host_id s t viewer_state =
    (messages : List Body) × (t.sent ≡ messages ++ s.sent)
    × (a : Snapshot) × (t.host_authorization ≡ some a)
    × (b : Snapshot) × ((take_all viewer_opts messages viewer_state).viewer_authorization ≡ some b)
    × InStep host_id a b

agree :
    (viewer_opts : Options) (s t viewer_state : State) (v a : Snapshot)
    (host_id reason event action : String) (outcome : AuditOutcome) (detail : Entries)
    (expires_at : ℕ) (control : ControlAction)
    → viewer_opts.role ≡ viewer
    → viewer_state.viewer_authorization ≡ some v
    → Follows a.authorization_id host_id a.permissions v
    → (is_terminal_authorization_status (control_change control none v).status ≡ false)
      ⊎ ((control_change control none v).status ≡ a.status)
    → (control_change control none v).authorization_id ≡ v.authorization_id
    → (control_change control none v).authority_peer_id ≡ v.authority_peer_id
    → revoked_list (control_change control none v) ≡ revoked_list v
    → a.expires_at ≡ some expires_at
    → (t.sent
        ≡ audit_event event host_id action outcome detail
          ∷ session_authorization_state a.authorization_id host_id a.status a.visible_to_host
              a.permissions expires_at
              (some reason)
          ∷ session_control a.authorization_id host_id control none (some reason)
          ∷ s.sent)
    → t.host_authorization ≡ (set_host_authorization_snapshot a s).host_authorization
    → Agrees viewer_opts host_id s t viewer_state
unfolding Agrees set_host_authorization_snapshot
agree viewer_opts s t viewer_state v a host_id reason event action outcome detail expires_at control
      is_viewer q f e_status e_id e_by e_revoked end sent current =
    let (b, got, in_step) =
      follow viewer_opts viewer_state v a host_id reason event action outcome detail expires_at
        control is_viewer q f e_status e_id e_by e_revoked end in
    (
      _,
      sent,
      _,
      current,
      b,
      got,
      record {
        same_id = in_step.same_id;
        by_host = in_step.by_host;
        same_status = in_step.same_status;
        same_visible = in_step.same_visible;
        same_permissions = in_step.same_permissions;
        same_end = in_step.same_end;
      },
    )

-- A host's runtime pauses its authorization without a throw: then it has sent messages, and a viewer
-- that takes them in, in their order, has what the host has now: the id, the status, the visibility,
-- the permissions and the end. Before, the viewer's snapshot was of this authorization of this host,
-- not at an end, and had none of the permissions of the workflow among those that it had seen
-- revoked.
pub pause-InStep :
    (w : World) (opts viewer_opts : Options) (id reason : String) (expires_at r : ℕ)
    (s viewer_state : State) (v : Snapshot)
    → viewer_opts.role ≡ viewer
    → viewer_state.viewer_authorization ≡ some v
    → Follows id opts.peer_id (s.workflows r).permissions v
    → (pause_host_authorization w opts id expires_at r reason s).1 ≡ ok tt
    → Agrees viewer_opts opts.peer_id s
        (pause_host_authorization w opts id expires_at r reason s).0
        viewer_state
pause-InStep w opts viewer_opts id reason expires_at r s viewer_state v is_viewer q f h =
    let (sent, current) = pause-sent w opts id reason expires_at r s h in
    agree viewer_opts s (pause_host_authorization w opts id expires_at r reason s).0 viewer_state v
      (workflow_snapshot id Status.paused (s.workflows r).permissions expires_at) opts.peer_id
      reason _ _ _ _ expires_at ControlAction.pause is_viewer q f (inl status-paused) refl refl refl
      refl sent current

-- A host's runtime resumes its authorization without a throw: then it has sent messages, and a viewer
-- that takes them in, in their order, has what the host has now: the id, the status, the visibility,
-- the permissions and the end. Before, the viewer's snapshot was of this authorization of this host,
-- not at an end, and had none of the permissions of the workflow among those that it had seen
-- revoked.
pub resume-InStep :
    (w : World) (opts viewer_opts : Options) (id reason : String) (expires_at r : ℕ)
    (s viewer_state : State) (v : Snapshot)
    → viewer_opts.role ≡ viewer
    → viewer_state.viewer_authorization ≡ some v
    → Follows id opts.peer_id (s.workflows r).permissions v
    → (resume_host_authorization w opts id expires_at r reason s).1 ≡ ok tt
    → Agrees viewer_opts opts.peer_id s
        (resume_host_authorization w opts id expires_at r reason s).0
        viewer_state
resume-InStep w opts viewer_opts id reason expires_at r s viewer_state v is_viewer q f h =
    let (sent, current) = resume-sent w opts id reason expires_at r s h in
    agree viewer_opts s (resume_host_authorization w opts id expires_at r reason s).0 viewer_state v
      (workflow_snapshot id Status.active (s.workflows r).permissions expires_at) opts.peer_id
      reason _ _ _ _ expires_at ControlAction.resume is_viewer q f (inl f.is_open) refl refl refl
      refl sent current

-- A host's runtime ends its authorization without a throw: then it has sent messages, and a viewer
-- that takes them in, in their order, has what the host has now: the id, the status, the visibility,
-- no permission, and the end. Before, the viewer's snapshot was of this authorization of this host
-- and not at an end.
pub terminate-InStep :
    (w : World) (opts viewer_opts : Options) (id reason : String) (expires_at r : ℕ)
    (s viewer_state : State) (v : Snapshot)
    → viewer_opts.role ≡ viewer
    → viewer_state.viewer_authorization ≡ some v
    → Follows id opts.peer_id [] v
    → (terminate_host_authorization w opts id expires_at r reason s).1 ≡ ok tt
    → Agrees viewer_opts opts.peer_id s
        (terminate_host_authorization w opts id expires_at r reason s).0
        viewer_state
terminate-InStep w opts viewer_opts id reason expires_at r s viewer_state v is_viewer q f h =
    let (sent, current) = terminate-sent w opts id reason expires_at r s h in
    agree viewer_opts s (terminate_host_authorization w opts id expires_at r reason s).0
      viewer_state v (workflow_snapshot id Status.terminated [] expires_at) opts.peer_id reason _ _
      _ _ expires_at ControlAction.terminate is_viewer q f (inr refl) refl refl refl refl sent
      current
