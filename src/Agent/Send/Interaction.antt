-- ===== src/Agent/Send/Interaction.antt =====
-- What a runtime lets its own side send as an interaction with the other screen.
use winbridge.Base.{
  ℕ, ◌≡◌, ◌≢◌, ◌<◌, ◌⊎◌, ◌↔◌, inl, inr, refl, Bool, true, false, String, List, ◌∷◌, Option, none,
  some, Result, Failure, ok, err, arith, eq_iff, eq_refl, sym, ap, ◌∙◌, Result-cases, Option-cases,
  Bool-cases, guard, thrown, str_eq,
}
use winbridge.Base.Machine.{lift, modify, ◌>>◌}
use winbridge.Protocol.Session.{SessionRole, host, viewer, role_eq, Permission, screen_view}
use winbridge.Protocol.Messages.{Body, screen_frame, input_event}
use winbridge.Agent.State.{Snapshot, Options, State, World}
use winbridge.Agent.Gates.{input_event_required_permission}
use winbridge.Agent.Gates.Grants.{Grants}
use winbridge.Agent.Checks.{
  outcome, assert_remote_interaction_socket_ready, assert_interaction_send_authorized,
  assert_remote_interaction_peer_routing, assert_authorized_interaction,
}
use winbridge.Agent.Send.{
  sanitized, parse_remote_interaction_message, InputEventInput, ScreenFrameInput, addressee,
  send_development_input_event, send_development_screen_frame, send_remote_interaction, push,
}
use winbridge.Agent.Send.Allowed.{role_eq_sound, role_eq_refl}
use winbridge.Agent.Send.Routing.{
  IsAddressed, authorized-Grants, Grants-authorized, IsAddressed-cases, IsAddressed-routed, Routes,
  routed, Routes-routed,
}

-- What an interaction needs of the session's state, of the authorization, and of the schema, the
-- audit sink and the socket. `to` is the peer that the message names.
pub record Interacts (w : World) (opts : Options) (s : State) (wanted to : Option String)
    (peer_role : SessionRole) (current : Option Snapshot) (p : Permission) (id action : String)
    (body : Body) : Type 0 where
  pub peer : String
  pub observed : s.observed_peer_id ≡ some peer
  pub named : peer ≢ ""
  pub observed_role : s.observed_peer_role ≡ some peer_role
  pub addressed : IsAddressed wanted peer to
  pub to_other : to ≢ some opts.peer_id
  pub available : s.recipient_available ≡ true
  pub remote_connected : s.remote_peer_disconnected ≡ false
  pub local_connected : s.local_peer_disconnected ≡ false
  pub authorization : Snapshot
  pub is_current : current ≡ some authorization
  pub grants : Grants w.now p id peer authorization
  pub socket_open : w.socket ≡ some true
  pub valid : w.schema_failure body ≡ none
  pub recorded : w.audit_failure action ≡ none
  pub taken : w.send_failure body ≡ none

ready :
    (w : World) (s : State)
    → assert_remote_interaction_socket_ready w s ≡ ok tt
    → (w.socket ≡ some true)
      × (s.remote_peer_disconnected ≡ false)
      × (s.local_peer_disconnected ≡ false)
ready w s h = elim (Option-cases w.socket) [
  | inl q ↦ ground (arith, q)
  | inr (b, q) ↦ ground (arith, q)
]

five-cases :
    (a b c d e : Result (Unit {0})) (body : Body) (s : State)
    → let r = (lift a >> lift b >> lift c >> (lift d >> lift e >> modify (push body))) s in
      let Works = (a ≡ ok tt) × (b ≡ ok tt) × (c ≡ ok tt) × (d ≡ ok tt) × (e ≡ ok tt) in
      (Works × (r ≡ (push body s, ok tt))) ⊎ ((¬ Works) × (x : Failure) × (r ≡ (s, err x)))
five-cases (err x) b c d e body s = inr (λ h. ground (arith, h), x, refl)
five-cases (ok _) (err x) c d e body s = inr (λ h. ground (arith, h), x, refl)
five-cases (ok _) (ok _) (err x) d e body s = inr (λ h. ground (arith, h), x, refl)
five-cases (ok _) (ok _) (ok _) (err x) e body s = inr (λ h. ground (arith, h), x, refl)
five-cases (ok _) (ok _) (ok _) (ok _) (err x) body s = inr (λ h. ground (arith, h), x, refl)
five-cases (ok _) (ok _) (ok _) (ok _) (ok _) body s = inl ((refl, refl, refl, refl, refl), refl)

then-cases : (a b : Result (Unit {0})) → winbridge.Base.◌>>◌ a b ≡ ok tt → (a ≡ ok tt) × (b ≡ ok tt)
then-cases (ok _) (ok _) h = (refl, refl)
then-cases (ok _) (err e) h = ground (arith, h)
then-cases (err e) b h = ground (arith, h)

sanitized-ok : (a : Option Failure) → sanitized (outcome a) ≡ ok tt → a ≡ none
sanitized-ok none h = refl
sanitized-ok (some e) h = ground (arith, h)

parse-ok :
    (w : World) (body : Body)
    → parse_remote_interaction_message w body ≡ ok tt
    → w.schema_failure body ≡ none
parse-ok w body h = elim (Option-cases (w.schema_failure body)) [
  | inl q ↦ q
  | inr (e, q) ↦ ground (arith, q)
]

-- The checks of an interaction that names `to`, and the record, in the words of `Interacts`.
abbrev Passes :
    World
    → Options
    → State
    → Option String
    → SessionRole
    → Option Snapshot
    → Permission
    → String
    → String
    → Body
    → Type 0
Passes w opts s to role current p id action body =
    (assert_remote_interaction_socket_ready w s ≡ ok tt)
    × (parse_remote_interaction_message w body ≡ ok tt)
    × (winbridge.Base.◌>>◌ (assert_remote_interaction_peer_routing opts.peer_id to opts s role)
          (assert_authorized_interaction w.now current p id s)
        ≡ ok tt)
    × (sanitized (outcome (w.audit_failure action)) ≡ ok tt)
    × (sanitized (outcome (w.send_failure body)) ≡ ok tt)

Passes-Interacts :
    (w : World) (opts : Options) (s : State) (wanted : Option String) (role : SessionRole)
    (current : Option Snapshot) (p : Permission) (id action : String) (body : Body)
    → Passes w opts s (addressee wanted s) role current p id action body
    → Interacts w opts s wanted (addressee wanted s) role current p id action body
Passes-Interacts w opts s wanted role current p id action body (h, parsed, k, audited, sent) =
    let to = addressee wanted s in
    let (routing, allowed) =
      then-cases (assert_remote_interaction_peer_routing opts.peer_id to opts s role)
        (assert_authorized_interaction w.now current p id s) k in
    let (socket_open, remote, local) = ready w s h in
    let (peer, routes) = routed to opts s role routing in
    let (observed, named, observed_role, available, other, to_peer) = routes in
    let (a, is_current, grants) = authorized-Grants w.now current p id peer s observed allowed in
    record {
      peer = peer;
      observed = observed;
      named = named;
      observed_role = observed_role;
      addressed = IsAddressed-cases wanted peer s observed named to_peer;
      to_other = other;
      available = available;
      remote_connected = remote;
      local_connected = local;
      authorization = a;
      is_current = is_current;
      grants = grants;
      socket_open = socket_open;
      valid = parse-ok w body parsed;
      recorded = sanitized-ok (w.audit_failure action) audited;
      taken = sanitized-ok (w.send_failure body) sent;
    }

Interacts-Passes :
    (w : World) (opts : Options) (s : State) (wanted to : Option String) (role : SessionRole)
    (current : Option Snapshot) (p : Permission) (id action : String) (body : Body)
    → Interacts w opts s wanted to role current p id action body
    → Passes w opts s to role current p id action body
Interacts-Passes w opts s wanted to role current p id action body i =
    let to_peer = IsAddressed-routed wanted to i.peer i.addressed in
    let routes : Routes opts s to role i.peer =
      (i.observed, i.named, i.observed_role, i.available, i.to_other, rw i.observed to_peer) in
    let routing = Routes-routed to opts s role i.peer routes in
    let allowed =
      Grants-authorized w.now current p id i.peer s i.authorization i.observed i.is_current
        i.grants in
    (
      rw (i.socket_open, i.remote_connected, i.local_connected) refl,
      rw (i.valid, parse_remote_interaction_message) refl,
      rw (routing, allowed) refl,
      rw i.recorded refl,
      rw i.taken refl,
    )

-- An interaction that is checked goes out, and any other throws and changes nothing.
interaction-cases :
    (w : World) (opts : Options) (s : State) (wanted : Option String) (role : SessionRole)
    (current : Option Snapshot) (p : Permission) (id action : String) (body : Body)
    → assert_interaction_send_authorized w.now body opts s
      ≡ winbridge.Base.◌>>◌
          (assert_remote_interaction_peer_routing opts.peer_id (addressee wanted s) opts s role)
          (assert_authorized_interaction w.now current p id s)
    → let r = send_remote_interaction w opts action body s in
      let Allowed = Interacts w opts s wanted (addressee wanted s) role current p id action body in
      (Allowed × (r ≡ (push body s, ok tt))) ⊎ ((¬ Allowed) × (e : Failure) × (r ≡ (s, err e)))
unfolding send_remote_interaction
interaction-cases w opts s wanted role current p id action body checks =
    elim (five-cases (assert_remote_interaction_socket_ready w s)
      (parse_remote_interaction_message w body)
      (assert_interaction_send_authorized w.now body opts s)
      (sanitized (outcome (w.audit_failure action))) (sanitized (outcome (w.send_failure body)))
      body s) [
        | inl ((h, parsed, k, audited, sent), went) ↦ inl (
          Passes-Interacts w opts s wanted role current p id action body
              (h, parsed, sym checks ∙ k, audited, sent),
          went,
        )
        | inr (fails, e, stopped) ↦ inr (
          λ i.
              (let (h, parsed, k, audited, sent) =
                  Interacts-Passes w opts s wanted (addressee wanted s) role current p id action
                    body i in
                fails (h, parsed, checks ∙ k, audited, sent)),
          e,
          stopped,
        )
      ]

-- Whatever a viewer's side asks to send as an input event, exactly one of two: it goes out, or the
-- call throws and nothing is sent or changed. It goes out if the runtime is a viewer's, both peers
-- are connected, the observed peer is a host and the one that the event names, and the viewer's
-- current authorization is active, visible and unexpired, grants the permission that the event wants,
-- has the id that the event names and is bound to that host; and if the schema, the audit sink and
-- the open socket take it. An event names no peer only where the caller asked for an empty name.
pub input_event-Interacts :
    (w : World) (opts : Options) (input : InputEventInput) (s : State)
    → let r = send_development_input_event w opts input s in
      let to = addressee input.to_peer_id s in
      let body =
        input_event input.authorization_id opts.peer_id to input.event_id input.sequence
          input.occurred_at input.event in
      let Allowed =
        (opts.role ≡ viewer)
        × Interacts w opts s input.to_peer_id to host s.viewer_authorization
            (input_event_required_permission input.event)
            input.authorization_id
            "agent-shell.remote-interaction.input-event.sent"
            body in
      (Allowed × (r ≡ (push body s, ok tt))) ⊎ ((¬ Allowed) × (e : Failure) × (r ≡ (s, err e)))
unfolding send_development_input_event assert_interaction_send_authorized
input_event-Interacts w opts input s = elim (Bool-cases (role_eq opts.role viewer)) [
  | inr other ↦ inr (
    λ h. ground (arith, other, h.0, role_eq_refl viewer),
    thrown "Agent shell input-event send is only valid for viewer runtimes",
    rw other refl,
  )
  | inl same ↦
      elim (interaction-cases w opts s input.to_peer_id host s.viewer_authorization
        (input_event_required_permission input.event) input.authorization_id
        "agent-shell.remote-interaction.input-event.sent"
        (input_event input.authorization_id opts.peer_id (addressee input.to_peer_id s)
          input.event_id input.sequence input.occurred_at input.event)
        refl) [
          | inl (allowed, went) ↦ inl ((role_eq_sound opts.role viewer same, allowed), rw same went)
          | inr (fails, e, stopped) ↦ inr (λ h. fails h.1, e, rw same stopped)
        ]
]

-- Whatever a host's side asks to send as a screen frame, exactly one of two: it goes out, or the call
-- throws and nothing is sent or changed. It goes out if the runtime is a host's, both peers are
-- connected, the observed peer is a viewer and the one that the frame names, and the host's current
-- authorization is active, visible and unexpired, grants the view of the screen, has the id that the
-- frame names and is bound to that viewer; and if the schema, the audit sink and the open socket take
-- it. A frame names no peer only where the caller asked for an empty name.
pub screen_frame-Interacts :
    (w : World) (opts : Options) (input : ScreenFrameInput) (s : State)
    → let r = send_development_screen_frame w opts input s in
      let to = addressee input.to_peer_id s in
      let body =
        screen_frame input.authorization_id opts.peer_id to input.frame_id input.sequence
          input.captured_at input.format input.width input.height input.data_base64 in
      let Allowed =
        (opts.role ≡ host)
        × Interacts w opts s input.to_peer_id to viewer s.host_authorization screen_view
            input.authorization_id "agent-shell.remote-interaction.screen-frame.sent" body in
      (Allowed × (r ≡ (push body s, ok tt))) ⊎ ((¬ Allowed) × (e : Failure) × (r ≡ (s, err e)))
unfolding send_development_screen_frame assert_interaction_send_authorized
screen_frame-Interacts w opts input s = elim (Bool-cases (role_eq opts.role host)) [
  | inr other ↦ inr (
    λ h. ground (arith, other, h.0, role_eq_refl host),
    thrown "Agent shell screen-frame send is only valid for host runtimes",
    rw other refl,
  )
  | inl same ↦
      elim (interaction-cases w opts s input.to_peer_id viewer s.host_authorization screen_view
        input.authorization_id "agent-shell.remote-interaction.screen-frame.sent"
        (screen_frame input.authorization_id opts.peer_id (addressee input.to_peer_id s)
          input.frame_id input.sequence input.captured_at input.format input.width input.height
          input.data_base64)
        refl) [
          | inl (allowed, went) ↦ inl ((role_eq_sound opts.role host same, allowed), rw same went)
          | inr (fails, e, stopped) ↦ inr (λ h. fails h.1, e, rw same stopped)
        ]
]
