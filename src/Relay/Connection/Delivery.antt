-- ===== src/Relay/Connection/Delivery.antt =====
-- What a handler sends on to a peer, and when.
use winbridge.Base.{
  ℕ, ◌≡◌, ◌⊎◌, inl, inr, refl, ◌∙◌, true, String, List, [], ◌∷◌, Option, none, some, Result, ok,
  err, Failure, arith, guard, leb, if◌then◌else◌, Result-cases, Option-cases, Bool-cases,
}
use winbridge.Protocol.Messages.{Body, join_session, ProtocolEnvelope}
use winbridge.Relay.Rooms.{RelayPeer, peers_except, has_peer}
use winbridge.Relay.Forwarding.{check_forward}
use winbridge.Relay.Forwarding.Authority.{
  check_forward-recipient, IsAuthentic, IsAddressed, sender_of, author_role, recipient_role,
  target_of, can_forward-IsAuthentic, targets_recipient-IsAddressed,
}
use winbridge.Relay.Connection.Audit.{
  AuditEntry, Effect, sends, records, ForwardDetail, accepted_forward_audit_detail,
}
use winbridge.Relay.Connection.Monad.{
  State, M, ◌>>=◌, ◌>>◌, pure, lift, modify, Sink, write_relay_audit, written, continue, handle,
}
use winbridge.Relay.Connection.Handler.{
  Context, max_relay_message_bytes, dispatch_message, forward_entry, send_forward, deliver,
  deliver_to, register_first_message, deny_join, RegisteredJoin, join_first, announce_join,
  assert_join_identity_pairing_identifiers_secret_safe, first_message, write_relay_delivery_audit,
  forward_message, accept_message, reject_message, on_message, consume_invalid_message,
}

-- The envelopes that were sent on, newest first, each with its socket.
abbrev pub sent_on : List Effect → List (ℕ × ProtocolEnvelope)
sent_on [] = []
sent_on (sends socket envelope ∷ es) = (socket, envelope) ∷ sent_on es
sent_on (_ ∷ es) = sent_on es

-- A step that sends nothing on.
abbrev IsQuiet : {A : Type 0} → M A → Type 0
IsQuiet m = (s : State) → sent_on (m s).0.effects ≡ sent_on s.effects

write_relay_audit-IsQuiet :
    (sink : Sink) (entry : AuditEntry) → IsQuiet (write_relay_audit sink entry)
unfolding write_relay_audit
write_relay_audit-IsQuiet sink entry s = ground arith

continue-sent_on :
    {A B : Type 0} (r : State × Result A) (f : A → M B) (es : List (ℕ × ProtocolEnvelope))
    → sent_on r.0.effects ≡ es
    → ((a : A) → IsQuiet (f a))
    → sent_on (continue r f).0.effects ≡ es
continue-sent_on (s, ok a) f es h q = q a s ∙ h
continue-sent_on (s, err x) f es h q = h

bind-IsQuiet :
    {A B : Type 0} (m : M A) (f : A → M B)
    → IsQuiet m
    → ((a : A) → IsQuiet (f a))
    → IsQuiet (m >>= f)
bind-IsQuiet m f hm hf s = continue-sent_on (m s) f (sent_on s.effects) (hm s) hf

handle-sent_on :
    {A : Type 0} (r : State × Result A) (h : Failure → M A) (es : List (ℕ × ProtocolEnvelope))
    → sent_on r.0.effects ≡ es
    → ((e : Failure) → IsQuiet (h e))
    → sent_on (handle r h).0.effects ≡ es
handle-sent_on (s, ok a) h es e q = e
handle-sent_on (s, err x) h es e q = q x s ∙ e

module _ (sha256_hex : String → String) (ctx : Context) where
  register_first_message-IsQuiet :
      (id : String) (b : Body) → IsQuiet (register_first_message sha256_hex ctx id b)
  unfolding register_first_message
  register_first_message-IsQuiet id (join_session _ _ _ _) s = ground arith
  register_first_message-IsQuiet id _ s = refl

  deny_join-IsQuiet :
      (env : ProtocolEnvelope) (e : Failure) → IsQuiet (deny_join sha256_hex ctx env e)
  unfolding deny_join
  deny_join-IsQuiet env e s = grind (arith, write_relay_audit-IsQuiet)

  join_first-IsQuiet : (env : ProtocolEnvelope) → IsQuiet (join_first sha256_hex ctx env)
  unfolding join_first
  join_first-IsQuiet env s =
      handle-sent_on
        (continue (register_first_message sha256_hex ctx env.session_id env.body s)
          (λ j. modify (λ s'. record s' { registered_peer = some j.peer }) >> pure j))
        (deny_join sha256_hex ctx env) (sent_on s.effects)
        (continue-sent_on (register_first_message sha256_hex ctx env.session_id env.body s)
          (λ j. modify (λ s'. record s' { registered_peer = some j.peer }) >> pure j)
          (sent_on s.effects) (register_first_message-IsQuiet env.session_id env.body s)
          (λ j s'. refl))
        (deny_join-IsQuiet env)

  announce_join-IsQuiet : (j : RegisteredJoin) → IsQuiet (announce_join sha256_hex ctx j)
  unfolding announce_join
  announce_join-IsQuiet j s = grind (arith, write_relay_audit-IsQuiet)

  first_message-IsQuiet : (env : ProtocolEnvelope) → IsQuiet (first_message sha256_hex ctx env)
  unfolding first_message
  first_message-IsQuiet env s =
      continue-sent_on
        (s, assert_join_identity_pairing_identifiers_secret_safe env.session_id env.body)
        (λ u. join_first sha256_hex ctx env >>= announce_join sha256_hex ctx) (sent_on s.effects)
        refl
        (λ u.
          bind-IsQuiet (join_first sha256_hex ctx env) (announce_join sha256_hex ctx)
            (join_first-IsQuiet env) announce_join-IsQuiet)

  write_relay_delivery_audit-IsQuiet :
      (p : RelayPeer) (d : _) (o : _) → IsQuiet (write_relay_delivery_audit sha256_hex ctx p d o)
  unfolding write_relay_delivery_audit
  write_relay_delivery_audit-IsQuiet p d o s = grind (arith, write_relay_audit-IsQuiet)

  reject_message-IsQuiet : (e : Failure) → IsQuiet (reject_message sha256_hex ctx e)
  unfolding reject_message consume_invalid_message
  reject_message-IsQuiet e s = grind (arith, write_relay_audit-IsQuiet)

  -- The last steps of a forward, behind the record that the sink took.
  deliver_one :
      (p q : RelayPeer) (env : ProtocolEnvelope) (d : ForwardDetail) (s : State)
      → sent_on
          (continue
            (deliver ctx.is_open (q ∷ []) (λ k. sends k env) s)
            (write_relay_delivery_audit sha256_hex ctx p d)).0.effects
        ≡ (if ctx.is_open q.socket then (q.socket, env) ∷ sent_on s.effects else sent_on s.effects)
  unfolding deliver
  deliver_one p q env d s =
      write_relay_delivery_audit-IsQuiet p d
        (deliver_to ctx.is_open (q ∷ []) (λ k. sends k env) s.effects).1
        (record s { effects = (deliver_to ctx.is_open (q ∷ []) (λ k. sends k env) s.effects).0 })
      ∙ ground arith

  -- What a registered peer's message may send on: the message, to the one recipient that the checks
  -- give, over an open socket, once the sink has taken the record of it.
  abbrev IsForwarded : RelayPeer → ProtocolEnvelope → State → List Effect → Type 0
  IsForwarded p env s after =
      (q : RelayPeer) × (check_forward s.rooms p env ≡ ok q)
      × (ctx.is_open q.socket ≡ true)
      × (ctx.sink s.effects (forward_entry p env q) ≡ none)
      × (sent_on after ≡ (q.socket, env) ∷ sent_on s.effects)

  abbrev sent_after : State × Result (Unit {0}) → List (ℕ × ProtocolEnvelope)
  sent_after r = sent_on r.0.effects

  send_forward_lost :
      (ps : List RelayPeer) (p q : RelayPeer) (env : ProtocolEnvelope) (s : State) (e : Failure)
      → ctx.sink s.effects (forward_entry p env q) ≡ some e
      → sent_after (send_forward sha256_hex ctx ps p env q s) ≡ sent_on s.effects
  unfolding send_forward write_relay_audit
  send_forward_lost ps p q env s e lost = rw (lost, written)

  send_forward_taken :
      (p q : RelayPeer) (env : ProtocolEnvelope) (s : State)
      → ctx.sink s.effects (forward_entry p env q) ≡ none
      → sent_after (send_forward sha256_hex ctx (q ∷ []) p env q s)
        ≡ (if ctx.is_open q.socket then (q.socket, env) ∷ sent_on s.effects else sent_on s.effects)
  unfolding send_forward write_relay_audit
  send_forward_taken p q env s taken =
      rw (taken, written)
        (deliver_one p q env (accepted_forward_audit_detail env q)
          (record s { effects = records (forward_entry p env q) ∷ s.effects }))

  forward_message_passed :
      (p q : RelayPeer) (env : ProtocolEnvelope) (s : State)
      → check_forward s.rooms p env ≡ ok q
      → forward_message sha256_hex ctx p env s
        ≡ send_forward sha256_hex ctx (peers_except s.rooms p.session_id p.peer_id) p env q s
  unfolding forward_message
  forward_message_passed p q env s passed = rw (passed, lift)

  forward_message_refused :
      (p : RelayPeer) (env : ProtocolEnvelope) (s : State) (e : Failure)
      → check_forward s.rooms p env ≡ err e
      → forward_message sha256_hex ctx p env s ≡ (s, err e)
  unfolding forward_message
  forward_message_refused p env s e refused = rw (refused, lift)

  forward_sends :
      (p : RelayPeer) (env : ProtocolEnvelope) (s : State)
      → (sent_after (forward_message sha256_hex ctx p env s) ≡ sent_on s.effects)
        ⊎ IsForwarded p env s (forward_message sha256_hex ctx p env s).0.effects
  forward_sends p env s = elim (Result-cases (check_forward s.rooms p env)) [
    | inl (e, refused) ↦ inl (rw (forward_message_refused p env s e refused))
    | inr (q, passed) ↦ rw (forward_message_passed p q env s passed) (
        rw ((check_forward-recipient s.rooms p env q passed).0)
          (elim (Option-cases (ctx.sink s.effects (forward_entry p env q))) [
            | inr (e, lost) ↦ inl (send_forward_lost (q ∷ []) p q env s e lost)
            | inl taken ↦ elim (Bool-cases (ctx.is_open q.socket)) [
              | inl open_ ↦
                  inr (q, passed, open_, taken, rw open_ at (send_forward_taken p q env s taken))
              | inr shut ↦ inl (rw shut at (send_forward_taken p q env s taken))
            ]
          ]))
  ]

  -- A delivery and what stands behind it: the message came over the sender's own connection, within
  -- its session, in its own name and role, from a peer that is still in the room, to the one other
  -- peer there, which is of the role and id that the message is for; its record was taken first.
  pub record IsDelivery (s : State) (p : RelayPeer) (env : ProtocolEnvelope) (q : RelayPeer)
      : Type 0 where
    pub own_connection : s.registered_peer ≡ some p
    pub same_session : env.session_id ≡ p.session_id
    pub present : has_peer s.rooms p.session_id p.peer_id ≡ true
    pub authentic : IsAuthentic (sender_of env.body) (author_role env.body) p
    pub only_other : peers_except s.rooms p.session_id p.peer_id ≡ q ∷ []
    pub addressed : IsAddressed (recipient_role env.body) (target_of env.body) q
    pub recorded : ctx.sink s.effects (forward_entry p env q) ≡ none
    pub open_socket : ctx.is_open q.socket ≡ true

  dispatch_sends :
      (peer : Option RelayPeer) (env : ProtocolEnvelope) (s : State)
      → (sent_after (dispatch_message sha256_hex ctx peer env s) ≡ sent_on s.effects)
        ⊎ ((p : RelayPeer) × (peer ≡ some p)
            × IsForwarded p env s (dispatch_message sha256_hex ctx peer env s).0.effects)
  dispatch_sends none env s = inl (first_message-IsQuiet env s)
  dispatch_sends (some p) env s = elim (forward_sends p env s) [
    | inl quiet ↦ inl quiet
    | inr sent ↦ inr (p, refl, sent)
  ]

  accept_message_decoded :
      (bytes : ℕ) (env : ProtocolEnvelope) (s : State)
      → leb bytes max_relay_message_bytes ≡ true
      → accept_message sha256_hex ctx bytes (ok env) s
        ≡ dispatch_message sha256_hex ctx s.registered_peer env s
  unfolding accept_message
  accept_message_decoded bytes env s small = rw (small, guard)

  accept_sends :
      (bytes : ℕ) (decoded : Result ProtocolEnvelope) (s : State)
      → (sent_after (accept_message sha256_hex ctx bytes decoded s) ≡ sent_on s.effects)
        ⊎ ((p : RelayPeer) × (env : ProtocolEnvelope) × (decoded ≡ ok env)
            × (s.registered_peer ≡ some p)
            × IsForwarded p env s (accept_message sha256_hex ctx bytes decoded s).0.effects)
  unfolding accept_message
  accept_sends bytes (err e) s = inl (ground arith)
  accept_sends bytes (ok env) s = elim (Bool-cases (leb bytes max_relay_message_bytes)) [
    | inr large ↦ inl (rw (large, guard))
    | inl small ↦
        rw (accept_message_decoded bytes env s small)
          (elim (dispatch_sends s.registered_peer env s) [
            | inl quiet ↦ inl quiet
            | inr (p, registered, sent) ↦ inr (p, env, refl, registered, sent)
          ])
  ]

  on_message-sent_on :
      (bytes : ℕ) (decoded : Result ProtocolEnvelope) (s : State)
      → sent_after (on_message sha256_hex ctx bytes decoded s)
        ≡ sent_after (accept_message sha256_hex ctx bytes decoded s)
  unfolding on_message
  on_message-sent_on bytes decoded s =
      handle-sent_on (accept_message sha256_hex ctx bytes decoded s) (reject_message sha256_hex ctx)
        (sent_after (accept_message sha256_hex ctx bytes decoded s)) refl reject_message-IsQuiet

  IsForwarded-IsDelivery :
      (p : RelayPeer) (env : ProtocolEnvelope) (s : State) (after : List Effect)
      → s.registered_peer ≡ some p
      → IsForwarded p env s after
      → (q : RelayPeer) × IsDelivery s p env q
        × (sent_on after ≡ (q.socket, env) ∷ sent_on s.effects)
  IsForwarded-IsDelivery p env s after registered (q, passed, open_, taken, sent) =
      let (only, same, present, may_send, may_go) =
        check_forward-recipient s.rooms p env q passed in
      (
        q,
        record {
          own_connection = registered;
          same_session = same;
          present = present;
          authentic = can_forward-IsAuthentic env.body p may_send;
          only_other = only;
          addressed = targets_recipient-IsAddressed env.body q may_go;
          recorded = taken;
          open_socket = open_;
        },
        sent,
      )

  -- A message that arrives is sent on to nobody, or once, unchanged, as a delivery.
  pub on_message-IsDelivery :
      (bytes : ℕ) (decoded : Result ProtocolEnvelope) (s : State)
      → (sent_on (on_message sha256_hex ctx bytes decoded s).0.effects ≡ sent_on s.effects)
        ⊎ ((p : RelayPeer) × (env : ProtocolEnvelope) × (q : RelayPeer) × (decoded ≡ ok env)
            × IsDelivery s p env q
            × (sent_on (on_message sha256_hex ctx bytes decoded s).0.effects
                ≡ (q.socket, env) ∷ sent_on s.effects))
  on_message-IsDelivery bytes decoded s =
      rw (on_message-sent_on bytes decoded s) (elim (accept_sends bytes decoded s) [
        | inl quiet ↦ inl quiet
        | inr (p, env, arrived, registered, forwarded_) ↦
            let (q, delivery_, sent) =
              IsForwarded-IsDelivery p env s
                (accept_message sha256_hex ctx bytes decoded s).0.effects registered forwarded_ in
            inr (p, env, q, arrived, delivery_, sent)
      ])
