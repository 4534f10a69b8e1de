-- ===== src/Agent/Send/Allowed.antt =====
-- What a runtime lets its own side send.
use winbridge.Base.{
  ℕ, ◌≡◌, ◌⊎◌, inl, inr, refl, Bool, true, false, String, Option, none, some, Failure, ok, err,
  arith, eq_iff, eq_refl, Result-cases, guard, thrown,
}
use winbridge.Base.Machine.{lift, modify, ◌>>◌}
use winbridge.Protocol.Session.{SessionRole, viewer, role_eq}
use winbridge.Protocol.Messages.{
  Body, hello, host_consent_required, session_authorization_request, signal,
}
use winbridge.Agent.State.{Options, State, World}
use winbridge.Agent.Gates.{
  same_text, is_other, is_text, has_active_signal_authorization, signal_payload_authorization_id,
  snapshot_id, snapshot_remote,
}
use winbridge.Agent.Inbound.{signal_snapshot}
use winbridge.Agent.Checks.{is_open, outcome, check_public_send}
use winbridge.Agent.Send.{push, send_protocol, send_public_runtime_message}

-- What a caller may send through `send`: in its own name, and a signal under an authorization that
-- is active.
abbrev pub IsOwn : ℕ → Options → State → Body → Type 0
IsOwn now opts s (hello peer_id role _ _ _) = (peer_id ≡ opts.peer_id) × (role ≡ opts.role)
IsOwn now opts s (host_consent_required viewer_id _ _) =
    (opts.role ≡ viewer) × (viewer_id ≡ opts.peer_id)
IsOwn now opts s (session_authorization_request viewer_id _ _) =
    (opts.role ≡ viewer) × (viewer_id ≡ opts.peer_id)
IsOwn now opts s (signal from to payload) =
    (from ≡ opts.peer_id)
    × (is_text to opts.peer_id ≡ false)
    × (has_active_signal_authorization now (signal_snapshot opts s) ≡ true)
    × (is_other to (snapshot_remote (signal_snapshot opts s)) ≡ false)
    × (same_text (signal_payload_authorization_id payload) (snapshot_id (signal_snapshot opts s))
        ≡ true)
IsOwn now opts s _ = ⊥

-- What a send needs: of the message, of the session's state, and of the schema and the socket.
pub record IsSendable (w : World) (opts : Options) (s : State) (session_id : String) (body : Body)
    : Type 0 where
  pub own : IsOwn w.now opts s body
  pub same_session : session_id ≡ opts.session_id
  pub available : s.recipient_available ≡ true
  pub remote_connected : s.remote_peer_disconnected ≡ false
  pub local_connected : s.local_peer_disconnected ≡ false
  pub socket_open : w.socket ≡ some true
  pub valid : w.schema_failure body ≡ none
  pub taken : w.send_failure body ≡ none

pub role_eq_sound : (a b : SessionRole) → role_eq a b ≡ true → a ≡ b
role_eq_sound a b h = ground arith

pub role_eq_refl : (a : SessionRole) → role_eq a a ≡ true
role_eq_refl a = ground arith

check-IsOwn :
    (w : World) (opts : Options) (s : State) (session_id : String) (body : Body)
    → check_public_send w opts s session_id body ≡ ok tt
    → IsOwn w.now opts s body
      × (session_id ≡ opts.session_id)
      × (s.recipient_available ≡ true)
      × (s.remote_peer_disconnected ≡ false)
      × (s.local_peer_disconnected ≡ false)
unfolding check_public_send
check-IsOwn w opts s session_id (hello peer_id role name caps identity) h = ground (
  arith,
  eq_iff session_id opts.session_id,
  eq_iff peer_id opts.peer_id,
  role_eq_sound role opts.role,
)
check-IsOwn w opts s session_id (host_consent_required viewer_id name requested) h = ground (
  arith,
  eq_iff session_id opts.session_id,
  eq_iff viewer_id opts.peer_id,
  role_eq_sound opts.role viewer,
)
check-IsOwn w opts s session_id (session_authorization_request viewer_id requested reason) h =
    ground (
      arith,
      eq_iff session_id opts.session_id,
      eq_iff viewer_id opts.peer_id,
      role_eq_sound opts.role viewer,
    )
check-IsOwn w opts s session_id (signal from to payload) h =
    ground (arith, eq_iff session_id opts.session_id, eq_iff from opts.peer_id)
check-IsOwn w opts s session_id _ h = ground arith

check_public_send-ok :
    (w : World) (opts : Options) (s : State) (session_id : String) (body : Body)
    → w.socket ≡ some true
    → IsOwn w.now opts s body
    → session_id ≡ opts.session_id
    → s.recipient_available ≡ true
    → s.remote_peer_disconnected ≡ false
    → s.local_peer_disconnected ≡ false
    → check_public_send w opts s session_id body ≡ ok tt
unfolding check_public_send
check_public_send-ok w opts s session_id (hello peer_id role name caps identity) o (e, f) i a r l =
    rw (o, e, f, i, a, r, l, eq_refl opts.session_id, eq_refl opts.peer_id, role_eq_refl opts.role)
      refl
check_public_send-ok w opts s session_id (host_consent_required viewer_id name requested) o (f, e) i
      a r l =
    rw (o, e, f, i, a, r, l, eq_refl opts.session_id, eq_refl opts.peer_id) refl
check_public_send-ok w opts s session_id (session_authorization_request viewer_id requested reason)
      o (f, e) i a r l =
    rw (o, e, f, i, a, r, l, eq_refl opts.session_id, eq_refl opts.peer_id) refl
check_public_send-ok w opts s session_id (signal from to payload) o (e, f, g, h, k) i a r l =
    rw (o, e, f, g, h, k, i, a, r, l, eq_refl opts.session_id, eq_refl opts.peer_id) refl
check_public_send-ok w opts s session_id _ o own i a r l = ground (arith, own)

written-cases :
    (socket : Option Bool) (a b : Option Failure) (message : String) (f : State → State) (s : State)
    → let r =
        (lift (guard (is_open socket) (thrown message))
            >> lift (outcome a)
            >> lift (outcome b)
            >> modify f)
          s in
      let Works = (socket ≡ some true) × (a ≡ none) × (b ≡ none) in
      ((e : Failure) × (¬ Works) × (r ≡ (s, err e))) ⊎ (Works × (r ≡ (f s, ok tt)))
written-cases none a b message f s = inl (_, λ h. ground (arith, h), refl)
written-cases (some false) a b message f s = inl (_, λ h. ground (arith, h), refl)
written-cases (some true) (some e) b message f s = inl (e, λ h. ground (arith, h), refl)
written-cases (some true) none (some e) message f s = inl (e, λ h. ground (arith, h), refl)
written-cases (some true) none none message f s = inr ((refl, refl, refl), refl)

-- A message is written to an open socket that takes it, once the schema accepts it.
send_protocol-outcome :
    (w : World) (body : Body) (s : State)
    → let Works =
        (w.socket ≡ some true) × (w.schema_failure body ≡ none) × (w.send_failure body ≡ none) in
      ((e : Failure) × (¬ Works) × (send_protocol w body s ≡ (s, err e)))
      ⊎ (Works × (send_protocol w body s ≡ (push body s, ok tt)))
unfolding send_protocol
send_protocol-outcome w body s =
    written-cases w.socket (w.schema_failure body) (w.send_failure body)
      "Agent shell socket is not open" (push body) s

-- Whatever a caller hands to `send`, exactly one of two: the message is sendable, and goes out, or it
-- is not, and the call throws and changes nothing. A message is sendable if it is of the runtime's
-- session, the peers are connected, the socket is open and takes it, the schema accepts it, and it is
-- one of four: a hello with the runtime's own peer id and role; a request of consent or of
-- authorization by a viewer in its own name; or a signal of its own, under an authorization that is
-- active and that the signal names, not to itself and to nobody but the other peer of that
-- authorization.
pub send-IsSendable :
    (w : World) (opts : Options) (s : State) (session_id : String) (body : Body)
    → let r = send_public_runtime_message w opts session_id body s in
      (IsSendable w opts s session_id body × (r ≡ (push body s, ok tt)))
      ⊎ ((¬ IsSendable w opts s session_id body) × (e : Failure) × (r ≡ (s, err e)))
unfolding send_public_runtime_message
send-IsSendable w opts s session_id body =
    elim (Result-cases (check_public_send w opts s session_id body)) [
      | inl (e, q) ↦ inr (
        λ h. ground (
          arith,
          q,
          check_public_send-ok w opts s session_id body h.socket_open h.own h.same_session
              h.available h.remote_connected h.local_connected,
        ),
        e,
        rw q refl,
      )
      | inr (u, q) ↦ elim (send_protocol-outcome w body s) [
        | inl (e, refused, stopped) ↦
            inr (λ h. refused (h.socket_open, h.valid, h.taken), e, rw q (rw stopped refl))
        | inr ((socket_open, valid, taken), went) ↦
            (let (own, session, recipient, remote, local) =
                check-IsOwn w opts s session_id body q in
              inl (
                record {
                  own = own;
                  same_session = session;
                  available = recipient;
                  remote_connected = remote;
                  local_connected = local;
                  socket_open = socket_open;
                  valid = valid;
                  taken = taken;
                },
                rw q (rw went refl),
              ))
      ]
    ]
