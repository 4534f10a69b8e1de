-- ===== src/Agent/Steps/Answers.antt =====
-- The native input and capture, while a host answers a request.
use winbridge.Base.{
  ℕ, ◌+◌, ◌≡◌, refl, inl, inr, Option-cases, Bool, true, false, String, List, Option, none, some,
  arith,
}
use winbridge.Base.Machine.{
  get, modify, when, Triple, triple, bind-Triple, modify-Triple, Triple-state,
}
use winbridge.Protocol.Session.{host, Permission}
use winbridge.Protocol.Status.{Status}
use winbridge.Protocol.Messages.{
  DeviceIdentity, Body, session_authorization_decision, session_authorization_state,
}
use winbridge.Agent.State.{HostDecision, deny, approve, Options, State, World, Snapshot, activated}
use winbridge.Agent.Gates.{block_host}
use winbridge.Agent.Send.{M, send_protocol, send_protocol-cases}
use winbridge.Agent.Host.{set_host_authorization_snapshot}
use winbridge.Agent.Host.Safety.{
  IsSafe, off, IsBlocked, Half, SetActive, prepare-IsBlocked, emit-Ready, send-Ready, enable-Ready,
}
use winbridge.Agent.Timers.{schedule_host_timers}
use winbridge.Agent.Decision.{
  deny_request, approve_request, activate_grant, answer, resolve_host_granted_permissions,
  get_observed_viewer_device_identity, granted_snapshot, new_workflow,
  handle_host_authorization_request, ttl_ms,
}

module _ (w : World) (opts : Options) (h : opts.role ≡ host) where
  send-IsBlocked : (body : Body) → Triple IsBlocked (send_protocol w body) (λ _. IsBlocked) IsSafe
  unfolding IsBlocked
  send-IsBlocked body = triple λ s (input, capture). elim (send_protocol-cases w body s) [
    | inl (e, stopped) ↦ rw stopped (off input capture)
    | inr went ↦ rw went (input, capture)
  ]

  set-IsBlocked :
      (snapshot : Snapshot)
      → Triple IsBlocked (modify (set_host_authorization_snapshot snapshot)) (λ _. IsBlocked) IsSafe
  unfolding IsBlocked set_host_authorization_snapshot
  set-IsBlocked snapshot = modify-Triple λ s i. i

  blocked-IsSafe : (s : State) → IsBlocked s → IsSafe s
  unfolding IsBlocked
  blocked-IsSafe s (input, capture) = off input capture

  next-IsBlocked : Triple IsBlocked (get (λ s. s.next_workflow)) (λ _. IsBlocked) IsSafe
  next-IsBlocked = triple λ s i. i

  set-Half :
      (viewer_id : String) (identity : Option DeviceIdentity) (granted : List Permission)
      (expires_at : ℕ)
      → Triple IsBlocked
          (modify (
            set_host_authorization_snapshot
              (granted_snapshot w.authorization_id viewer_id identity true granted expires_at)))
          (λ _. Half true)
          IsSafe
  unfolding IsBlocked Half SetActive set_host_authorization_snapshot
  set-Half viewer_id identity granted expires_at =
      modify-Triple λ s (input, capture). (input, capture, λ yes. (_, refl, refl, refl))

  workflow-Half :
      (granted : List Permission) (r : ℕ)
      → Triple
          (Half true)
          (modify (λ s. record (new_workflow granted s) { host_workflow_state = some r }))
          (λ _. Half true)
          IsSafe
  unfolding Half SetActive
  workflow-Half granted r = modify-Triple λ s i. i

  schedule-IsSafe :
      (id : String) (expires_at r : ℕ) (s : State)
      → IsSafe s
      → IsSafe (schedule_host_timers w opts id expires_at r s)
  unfolding schedule_host_timers
  schedule-IsSafe id expires_at r s i = ground arith

  activate-Triple :
      (viewer_id : String) (identity : Option DeviceIdentity) (granted : List Permission)
      (expires_at : ℕ)
      → Triple IsBlocked
          (activate_grant w opts viewer_id identity granted expires_at)
          (λ _. IsSafe)
          IsSafe
  unfolding activate_grant
  activate-Triple viewer_id identity granted expires_at =
      bind-Triple (prepare-IsBlocked w opts h "agent-shell.authorization.active") λ audit.
        bind-Triple next-IsBlocked λ r.
          bind-Triple
            (bind-Triple
              (bind-Triple
                (bind-Triple
                  (bind-Triple
                    (bind-Triple (set-Half viewer_id identity granted expires_at)
                      λ _. workflow-Half granted r)
                    λ _. emit-Ready w opts h true activated)
                  λ _. send-Ready w opts h true (
                    session_authorization_state w.authorization_id opts.peer_id Status.active true
                      granted expires_at none))
                λ _. send-Ready w opts h true audit)
              λ _. enable-Ready w opts h granted true)
            λ _. modify-Triple (schedule-IsSafe w.authorization_id expires_at r)

  when-Triple :
      (b : Bool) (m : M (Unit {0}))
      → Triple IsBlocked m (λ _. IsSafe) IsSafe
      → Triple IsBlocked (when b m) (λ _. IsSafe) IsSafe
  when-Triple true m (triple k) = triple k
  when-Triple false m k = triple blocked-IsSafe

  approve-Triple :
      (viewer_id : String) (identity : Option DeviceIdentity) (granted : List Permission)
      → Triple IsBlocked (approve_request w opts viewer_id identity granted) (λ _. IsSafe) IsSafe
  unfolding approve_request
  approve-Triple viewer_id identity granted =
      let expires_at = w.now + ttl_ms opts in
      bind-Triple (prepare-IsBlocked w opts h "agent-shell.authorization.approved") λ audit.
        bind-Triple
          (bind-Triple
            (bind-Triple
              (set-IsBlocked
                (granted_snapshot w.authorization_id viewer_id identity false granted expires_at))
              λ _. send-IsBlocked (
                session_authorization_decision w.authorization_id opts.peer_id viewer_id true
                  granted (some expires_at) none))
            λ _. send-IsBlocked audit)
          λ _.
            when-Triple opts.visible_to_host
              (activate_grant w opts viewer_id identity granted expires_at)
              (activate-Triple viewer_id identity granted expires_at)

  deny-Triple :
      (viewer_id : String) → Triple IsBlocked (deny_request w opts viewer_id) (λ _. IsSafe) IsSafe
  unfolding deny_request IsBlocked
  deny-Triple viewer_id = triple λ s i. ground arith

  answer-IsSafe :
      (viewer_id : String) (requested : List Permission) (identity : Option DeviceIdentity)
      (decision : HostDecision) (s : State)
      → IsBlocked s
      → IsSafe (answer w opts viewer_id requested identity decision s).0
  unfolding answer
  answer-IsSafe viewer_id requested identity HostDecision.none s i = blocked-IsSafe s i
  answer-IsSafe viewer_id requested identity deny s i = Triple-state (deny-Triple viewer_id) s i
  answer-IsSafe viewer_id requested identity approve s i =
      elim (Option-cases (resolve_host_granted_permissions opts requested)) [
        | inl without' ↦ rw (without', answer) (blocked-IsSafe s i)
        | inr (granted, found) ↦
            rw (found, answer) (Triple-state (approve-Triple viewer_id identity granted) s i)
      ]

  pub handle-IsSafe :
      (viewer_id : String) (requested : List Permission) (decision : HostDecision) (s : State)
      → IsSafe s
      → IsSafe (handle_host_authorization_request w opts viewer_id requested decision s).0
  unfolding handle_host_authorization_request IsBlocked
  handle-IsSafe viewer_id requested decision s i =
      let k =
        answer-IsSafe viewer_id requested (get_observed_viewer_device_identity s viewer_id) decision
          (block_host s) (refl, refl) in
      ground arith
