-- ===== src/Agent/Host/Safety.antt =====
-- When the native input and the native screen capture of a host are switched on.
use winbridge.Base.{
  not, ◌&&◌, ◌∙◌, if◌then◌else◌, List, Result, ok, err, ℕ, ◌≡◌, inl, inr, refl, Bool, true, false,
  String, Option, none, some, arith, eq_iff,
}
use winbridge.Base.Machine.{get, modify, Ends, Triple, triple, bind-Triple, Triple-state}
use winbridge.Protocol.Messages.{
  Body, permission_revoked, session_control, ControlAction, AuditOutcome,
}
use winbridge.Protocol.Session.{host, Permission}
use winbridge.Protocol.Status.{Status}
use winbridge.Agent.State.{
  Snapshot, Options, IndicatorState, Indicator, Cause, State, Workflow, World, set_workflow,
}
use winbridge.Agent.Viewer.{without}
use winbridge.Agent.Gates.{block_host}
use winbridge.Agent.Send.{send_protocol, send_protocol-cases, prepare_development_audit_event}
use winbridge.Agent.Indicator.{
  is_same_host_indicator, indicator_of, emit_host_indicator_from_authorization,
}
use winbridge.Agent.Host.{
  enable_host, is_final, revoked_status, state_message, workflow_snapshot,
  set_host_authorization_snapshot, pause_host_authorization, resume_host_authorization,
  revoke_host_permission, terminate_host_authorization, expire_host_authorization,
}

-- The snapshot is active and visible, and the indicator shows it so.
abbrev pub IsShown : Option Snapshot → Option Indicator → Type 0
IsShown (some a) (some i) =
    (a.status ≡ Status.active)
    × (a.visible_to_host ≡ true)
    × (i.state ≡ IndicatorState.active)
    × (i.authorization_id ≡ a.authorization_id)
IsShown _ _ = ⊥

-- Input and capture are off, or the host sees that they are on.
pub data IsSafe (s : State) : Type 0 where
  off : s.host_input_blocked ≡ true → s.host_screen_capture_blocked ≡ true → IsSafe s
  shown : IsShown s.host_authorization s.host_indicator → IsSafe s

unfoldable pub IsBlocked : State → Type 0
IsBlocked s = (s.host_input_blocked ≡ true) × (s.host_screen_capture_blocked ≡ true)

unfoldable pub ShownNow : State → Type 0
ShownNow s = IsShown s.host_authorization s.host_indicator

-- Between the new snapshot and its indicator.
unfoldable pub SetActive : State → Type 0
SetActive s =
    (a : Snapshot) × (s.host_authorization ≡ some a)
    × (a.status ≡ Status.active)
    × (a.visible_to_host ≡ true)

-- Input and capture are off; and if `b`, they may be switched on.
unfoldable pub Half : Bool → State → Type 0
Half b s =
    (s.host_input_blocked ≡ true)
    × (s.host_screen_capture_blocked ≡ true)
    × (b ≡ true → SetActive s)

unfoldable pub Ready : Bool → State → Type 0
Ready b s =
    (s.host_input_blocked ≡ true) × (s.host_screen_capture_blocked ≡ true) × (b ≡ true → ShownNow s)

module _ (w : World) (opts : Options) (h : opts.role ≡ host) where
  pub pause-IsSafe :
      (id reason : String) (expires_at r : ℕ) (s : State)
      → IsSafe s
      → IsSafe (pause_host_authorization w opts id expires_at r reason s).0
  unfolding pause_host_authorization
  pause-IsSafe id reason expires_at r s i = ground arith

  same-IsShown :
      (shown : Option Indicator) (a : Snapshot) (cause : Cause)
      → a.status ≡ Status.active
      → a.visible_to_host ≡ true
      → is_same_host_indicator shown (indicator_of a cause) ≡ true
      → IsShown (some a) shown
  unfolding is_same_host_indicator indicator_of
  same-IsShown none a cause active visible same = ground arith
  same-IsShown (some i) a cause active visible same =
      ground (arith, eq_iff i.authorization_id a.authorization_id)

  -- Once the indicator of an active and visible snapshot was emitted, it is shown.
  emit-IsShown :
      (s : State) (a : Snapshot) (cause : Cause)
      → s.host_authorization ≡ some a
      → a.status ≡ Status.active
      → a.visible_to_host ≡ true
      → let t = (emit_host_indicator_from_authorization w opts cause s).0 in
        IsShown t.host_authorization t.host_indicator
  unfolding emit_host_indicator_from_authorization
  emit-IsShown s a cause e active visible = ground (arith, same-IsShown s.host_indicator a cause)

  emitted :
      {A : Type 0} (r : State × Result A)
      → IsShown r.0.host_authorization r.0.host_indicator
      → Ends (λ _. ShownNow) IsSafe r
  unfolding ShownNow
  emitted (s, ok a) h = h
  emitted (s, err e) h = shown h

  emit-Triple :
      (cause : Cause)
      → Triple SetActive
          (emit_host_indicator_from_authorization w opts cause)
          (λ _. ShownNow)
          IsSafe
  unfolding SetActive
  emit-Triple cause = triple λ s (a, e, active, visible).
      emitted (emit_host_indicator_from_authorization w opts cause s)
        (emit-IsShown s a cause e active visible)

  pub send-Triple : (body : Body) → Triple IsSafe (send_protocol w body) (λ _. IsSafe) IsSafe
  unfolding send_protocol
  send-Triple body = triple λ s i. ground arith

  send_shown-Triple : (body : Body) → Triple ShownNow (send_protocol w body) (λ _. ShownNow) IsSafe
  unfolding send_protocol ShownNow
  send_shown-Triple body = triple λ s i. ground arith

  prepare-Triple :
      (action : String)
      → Triple IsSafe
          (prepare_development_audit_event w opts action AuditOutcome.accepted)
          (λ _. IsSafe)
          IsSafe
  unfolding prepare_development_audit_event
  prepare-Triple action = triple λ s i. ground arith

  get-Triple : (r : ℕ) → Triple IsSafe (get (λ s. s.workflows r)) (λ _. IsSafe) IsSafe
  get-Triple r = triple λ s i. i

  set_workflow-Triple :
      (r : ℕ) (workflow : Workflow)
      → Triple IsSafe (modify (set_workflow r workflow)) (λ _. IsSafe) IsSafe
  set_workflow-Triple r workflow = triple λ s i. ground arith

  SetActive-Triple :
      (id : String) (permissions : List Permission) (expires_at : ℕ) {P : State → Type 0}
      → Triple P
          (modify (
            set_host_authorization_snapshot
              (workflow_snapshot id Status.active permissions expires_at)))
          (λ _. SetActive)
          IsSafe
  unfolding SetActive set_host_authorization_snapshot
  SetActive-Triple id permissions expires_at = triple λ s i. (_, refl, refl, refl)

  enable-Triple :
      (permissions : List Permission)
      → Triple ShownNow (modify (enable_host permissions)) (λ _. IsSafe) IsSafe
  unfolding ShownNow
  enable-Triple permissions = triple λ s i. shown i

  resume-Triple :
      (id reason : String) (expires_at r : ℕ)
      → Triple IsSafe (resume_host_authorization w opts id expires_at r reason) (λ _. IsSafe) IsSafe
  unfolding resume_host_authorization
  resume-Triple id reason expires_at r =
      bind-Triple (prepare-Triple "agent-shell.authorization.resumed") λ audit.
        bind-Triple (get-Triple r) λ workflow.
          let message =
            state_message opts id Status.active workflow.permissions expires_at reason in
          let control = session_control id opts.peer_id ControlAction.resume none (some reason) in
          bind-Triple
            (bind-Triple
              (bind-Triple
                (bind-Triple
                  (bind-Triple
                    (bind-Triple (set_workflow-Triple r (record workflow { paused = false }))
                      λ _. send-Triple control)
                    λ _. SetActive-Triple id workflow.permissions expires_at)
                  λ _. emit-Triple Cause.resumed)
                λ _. send_shown-Triple message)
              λ _. send_shown-Triple audit)
            λ _. enable-Triple workflow.permissions

  pub resume-IsSafe :
      (id reason : String) (expires_at r : ℕ) (s : State)
      → IsSafe s
      → IsSafe (resume_host_authorization w opts id expires_at r reason s).0
  resume-IsSafe id reason expires_at r = Triple-state (resume-Triple id reason expires_at r)

  emit-blocked :
      (cause : Cause) (s : State)
      → let t = (emit_host_indicator_from_authorization w opts cause s).0 in
        (t.host_input_blocked ≡ s.host_input_blocked)
        × (t.host_screen_capture_blocked ≡ s.host_screen_capture_blocked)
  unfolding emit_host_indicator_from_authorization
  emit-blocked cause s = ground arith

  readied :
      {A : Type 0} (b : Bool) (r : State × Result A)
      → r.0.host_input_blocked ≡ true
      → r.0.host_screen_capture_blocked ≡ true
      → (b ≡ true → IsShown r.0.host_authorization r.0.host_indicator)
      → Ends (λ _. Ready b) IsSafe r
  unfolding Ready ShownNow
  readied b (s, ok a) input capture h = (input, capture, h)
  readied b (s, err e) input capture h = off input capture

  pub emit-Ready :
      (b : Bool) (cause : Cause)
      → Triple (Half b) (emit_host_indicator_from_authorization w opts cause) (λ _. Ready b) IsSafe
  unfolding Half SetActive
  emit-Ready b cause = triple λ s (input, capture, set).
      let (same_input, same_capture) = emit-blocked cause s in
      readied b (emit_host_indicator_from_authorization w opts cause s) (same_input ∙ input)
        (same_capture ∙ capture)
        λ yes. let (a, e, active, visible) = set yes in emit-IsShown s a cause e active visible

  pub send-Ready :
      (b : Bool) (body : Body) → Triple (Ready b) (send_protocol w body) (λ _. Ready b) IsSafe
  unfolding Ready ShownNow
  send-Ready b body = triple λ s (input, capture, set). elim (send_protocol-cases w body s) [
    | inl (e, stopped) ↦ rw stopped (off input capture)
    | inr went ↦ rw went (input, capture, set)
  ]

  set-Half :
      (id : String) (permissions : List Permission) (is_paused : Bool) (expires_at : ℕ)
      → Triple IsBlocked
          (modify (
            set_host_authorization_snapshot
              (workflow_snapshot id (revoked_status permissions is_paused) permissions expires_at)))
          (λ _. Half (not (is_final permissions) && not is_paused))
          IsSafe
  unfolding SetActive Half IsBlocked set_host_authorization_snapshot
  set-Half id permissions is_paused expires_at =
      triple λ s (input, capture). (input, capture, λ yes. (_, refl, ground arith, refl))

  pub enable-Ready :
      (permissions : List Permission) (b : Bool)
      → Triple
          (Ready b)
          (modify (λ s. if b then enable_host permissions s else s))
          (λ _. IsSafe)
          IsSafe
  unfolding Ready ShownNow
  enable-Ready permissions true = triple λ s (input, capture, set). shown (set refl)
  enable-Ready permissions false = triple λ s (input, capture, set). off input capture

  pub block-Triple : Triple IsSafe (modify block_host) (λ _. IsBlocked) IsSafe
  unfolding IsBlocked
  block-Triple = triple λ s i. (refl, refl)

  get-IsBlocked : (r : ℕ) → Triple IsBlocked (get (λ s. s.workflows r)) (λ _. IsBlocked) IsSafe
  get-IsBlocked r = triple λ s i. i

  pub prepare-IsBlocked :
      (action : String)
      → Triple IsBlocked
          (prepare_development_audit_event w opts action AuditOutcome.accepted)
          (λ _. IsBlocked)
          IsSafe
  unfolding prepare_development_audit_event IsBlocked
  prepare-IsBlocked action = triple λ s i. ground arith

  set_workflow-IsBlocked :
      (r : ℕ) (workflow : Workflow)
      → Triple IsBlocked (modify (set_workflow r workflow)) (λ _. IsBlocked) IsSafe
  unfolding IsBlocked
  set_workflow-IsBlocked r workflow = triple λ s i. i

  revoke-Triple :
      (id reason : String) (expires_at r : ℕ) (p : Permission)
      → Triple IsSafe (revoke_host_permission w opts id expires_at r p reason) (λ _. IsSafe) IsSafe
  unfolding revoke_host_permission
  revoke-Triple id reason expires_at r p =
      bind-Triple (bind-Triple block-Triple λ _. get-IsBlocked r) λ workflow.
        let remaining = without p workflow.permissions in
        let status = revoked_status remaining workflow.paused in
        let b = not (is_final remaining) && not workflow.paused in
        let ended = if is_final remaining then some Status.revoked else workflow.terminal_status in
        bind-Triple (prepare-IsBlocked "agent-shell.permission.revoked") λ audit.
          bind-Triple
            (bind-Triple
              (bind-Triple
                (bind-Triple
                  (bind-Triple
                    (bind-Triple
                      (bind-Triple
                        (set_workflow-IsBlocked r
                          (record workflow { permissions = remaining; terminal_status = ended }))
                        λ _. set-Half id remaining workflow.paused expires_at)
                      λ _.
                        emit-Ready b
                          (if is_final remaining then Cause.revoked else Cause.permission_revoked))
                    λ _. send-Ready b (
                      session_control id opts.peer_id ControlAction.revoke_permission (some p)
                        (some reason)))
                  λ _. send-Ready b (permission_revoked id opts.peer_id p reason))
                λ _. send-Ready b (state_message opts id status remaining expires_at reason))
              λ _. send-Ready b audit)
            λ _. enable-Ready remaining b

  pub revoke-IsSafe :
      (id reason : String) (expires_at r : ℕ) (p : Permission) (s : State)
      → IsSafe s
      → IsSafe (revoke_host_permission w opts id expires_at r p reason s).0
  revoke-IsSafe id reason expires_at r p = Triple-state (revoke-Triple id reason expires_at r p)

  pub terminate-IsSafe :
      (id reason : String) (expires_at r : ℕ) (s : State)
      → IsSafe s
      → IsSafe (terminate_host_authorization w opts id expires_at r reason s).0
  unfolding terminate_host_authorization
  terminate-IsSafe id reason expires_at r s i = ground arith

  pub expire-IsSafe :
      (id : String) (expires_at r : ℕ) (s : State)
      → IsSafe s
      → IsSafe (expire_host_authorization w opts id expires_at r s).0
  unfolding expire_host_authorization
  expire-IsSafe id expires_at r s i = ground arith
