-- ===== src/Relay/Connection/Closing.antt =====
-- How a connection ends: what a close does to the registry, and what leaves a handler.
use winbridge.Base.{
  ℕ, ◌≡◌, inl, inr, refl, String, List, none, some, Result, ok, err, Failure, arith, leb,
  Bool-cases,
}
use winbridge.Protocol.Messages.{ProtocolEnvelope, ReasonCode}
use winbridge.Relay.Rooms.{RelayPeer, leave}
use winbridge.Relay.Connection.Audit.{AuditEntry, Effect}
use winbridge.Relay.Connection.Monad.{State, M, write_relay_audit, handle}
use winbridge.Relay.Connection.Handler.{
  Context, max_relay_message_bytes, deliver, close_registered, on_close, accept_message,
  reject_message, on_message, consume_invalid_message,
}

handle-ok :
    (r : State × Result (Unit {0})) (h : Failure → M (Unit {0}))
    → ((e : Failure) (s : State) → (h e s).1 ≡ ok tt)
    → (handle r h).1 ≡ ok tt
handle-ok (s, ok a) h q = refl
handle-ok (s, err e) h q = q e s

module _ (sha256_hex : String → String) (ctx : Context) where
  -- The close of a registered connection is the `leave` of its peer's id: the room that is left does
  -- not depend on the socket on which the peer was registered. Nothing is thrown.
  pub on_close-leave :
      (reason : ReasonCode) (s : State) (p : RelayPeer)
      → s.registered_peer ≡ some p
      → ((on_close sha256_hex ctx reason s).0.rooms ≡ (leave s.rooms p.session_id p.peer_id).0)
        × ((on_close sha256_hex ctx reason s).1 ≡ ok tt)
  unfolding on_close close_registered deliver write_relay_audit
  on_close-leave reason s p registered = ground arith

  -- A sink that takes every entry.
  abbrev pub TakesAll : Type 0
  TakesAll = (es : List Effect) (entry : AuditEntry) → ctx.sink es entry ≡ none

  write-ok :
      TakesAll → (entry : AuditEntry) (s : State) → (write_relay_audit ctx.sink entry s).1 ≡ ok tt
  unfolding write_relay_audit
  write-ok takes entry s = rw (takes s.effects entry) refl

  reject_message-ok :
      TakesAll → (e : Failure) (s : State) → (reject_message sha256_hex ctx e s).1 ≡ ok tt
  unfolding reject_message consume_invalid_message
  reject_message-ok takes e s = grind (arith, write-ok takes)

  -- With a sink that takes every entry, the handler of a message throws nothing, whatever arrives.
  pub on_message-ok :
      (bytes : ℕ) (decoded : Result ProtocolEnvelope) (s : State)
      → TakesAll
      → (on_message sha256_hex ctx bytes decoded s).1 ≡ ok tt
  unfolding on_message
  on_message-ok bytes decoded s takes =
      handle-ok (accept_message sha256_hex ctx bytes decoded s) (reject_message sha256_hex ctx)
        (reject_message-ok takes)

  -- What the sink throws at the record of a rejected message leaves the handler: the sender gets no
  -- error, and the connection is not closed.
  pub on_message-escapes :
      (bytes : ℕ) (f e : Failure) (s : State)
      → ((es : List Effect) (entry : AuditEntry) → ctx.sink es entry ≡ some e)
      → ((on_message sha256_hex ctx bytes (err f) s).1 ≡ err e)
        × ((on_message sha256_hex ctx bytes (err f) s).0.effects ≡ s.effects)
  unfolding on_message accept_message reject_message consume_invalid_message write_relay_audit
  on_message-escapes bytes f e s throws = elim (Bool-cases (leb bytes max_relay_message_bytes)) [
    | inl small ↦ rw small (rw (throws _ _) (refl, refl))
    | inr large ↦ rw large (rw (throws _ _) (refl, refl))
  ]
