-- ===== src/Relay/Connection/Handler.antt =====
-- apps/relay/src/server.ts: `socket.on("message", …)` and `socket.on("close", …)`.
use Prim.Native.String.{◌++◌ as str_append}
use winbridge.Base.{
  ℕ, zero, suc, ◌+◌, Bool, true, false, ◌||◌, not, String, List, [], ◌∷◌, Option, none, some,
  Result, ok, err, Failure, thrown, zod_error, guard, leb, str_eq, units, length, if◌then◌else◌,
}
use winbridge.Protocol.Identifier.{has_secret_bearing_protocol_identifier_metadata}
use winbridge.Protocol.Messages.{
  Body, join_session, ProtocolEnvelope, DeviceIdentity, AuditOutcome, accepted, denied, failed,
  ReasonCode, type_text,
}
use winbridge.Protocol.Identity.{self_pairing_device_rejection_reason}
use winbridge.Relay.RateLimit.{RateLimitDecision, consume}
use winbridge.Relay.Rooms.{RelayPeer, RelayJoinResult, JoinInputs, join, leave, size, peers_except}
use winbridge.Relay.Forwarding.{check_forward}
use winbridge.Relay.Reasons.{
  generic_relay_rejection_reason, relay_message_too_large_reason, safe_relay_rejection_reason,
}
use winbridge.Relay.Connection.Audit.{
  AuditEntry, AuditDetail, join_denied, join_accepted, forwarded, delivery, rejected, disconnect,
  DeliveryOutcome, ForwardDetail, RelayJoinAuditDeviceIdentity, Effect, sends, sends_ready,
  sends_notice, sends_error, closes, warns, accepted_forward_audit_detail,
  pairing_denied_audit_detail, join_denial_audit_attribution, device_identity_detail,
}
use winbridge.Relay.Connection.Monad.{
  M, ◌>>=◌, ◌>>◌, pure, throw, lift, get, modify, emit, try_catch, Sink, write_relay_audit,
}

abbrev pub max_relay_message_bytes : ℕ
max_relay_message_bytes = 65_536

-- The first `n` characters of a text.
unfoldable pub take_text : ℕ → String → String
take_text zero s = String.[]
take_text (suc n) String.[] = String.[]
take_text (suc n) (String.◌∷◌ c s) = String.◌∷◌ c (take_text n s)

unfoldable pub development_device_id_for_peer : String → String
unfolding take_text
development_device_id_for_peer peer_id =
    let candidate = str_append "dev_" peer_id in
    let padded =
      if leb 8 (length (units candidate)) then candidate else str_append candidate "_peer" in
    if leb (length (units padded)) 128 then padded else take_text 128 padded

-- `deviceIdentity?.deviceId ?? developmentDeviceIdForPeer(peerId)`
abbrev pub device_id_of : Option DeviceIdentity → String → String
device_id_of none peer_id = development_device_id_for_peer peer_id
device_id_of (some d) peer_id = d.device_id

unfoldable pub assert_join_identity_pairing_identifiers_secret_safe :
    String → Body → Result (Unit {0})
assert_join_identity_pairing_identifiers_secret_safe session_id
      (join_session peer_id role pairing_code device) =
    guard
      (not (
        has_secret_bearing_protocol_identifier_metadata session_id
        || has_secret_bearing_protocol_identifier_metadata (device_id_of device peer_id)))
      (thrown generic_relay_rejection_reason)
assert_join_identity_pairing_identifiers_secret_safe session_id _ = ok tt

-- The peer that a join registers, found again in the room's list.
unfoldable pub find_peer : String → List RelayPeer → Option RelayPeer
find_peer peer_id [] = none
find_peer peer_id (p ∷ ps) = if str_eq p.peer_id peer_id then some p else find_peer peer_id ps

abbrev pub or_throw {ℓ} : {A : Type ℓ} → Option A → String → Result A
or_throw none message = err (thrown message)
or_throw (some a) message = ok a

-- A join with its peer and the identity that the audit log shows.
pub record RegisteredJoin : Type 0 where
  pub peer : RelayPeer
  pub result : RelayJoinResult
  pub device_identity : Option RelayJoinAuditDeviceIdentity

abbrev pub is_some {ℓ} : {A : Type ℓ} → Option A → Bool
is_some none = false
is_some (some a) = true

abbrev pub peer_id_or : Option RelayPeer → String → String
peer_id_or none key = key
peer_id_or (some p) key = p.peer_id

abbrev pub session_of : Option RelayPeer → Option String
session_of none = none
session_of (some p) = some p.session_id

abbrev pub id_of : Option RelayPeer → Option String
id_of none = none
id_of (some p) = some p.peer_id

-- The loop that sends to each peer and counts.
abbrev pub count_sent : Bool → DeliveryOutcome → DeliveryOutcome
count_sent open_ o = record {
  target_count = o.target_count + 1;
  sent_count = if open_ then o.sent_count + 1 else o.sent_count;
  failed_count = if open_ then o.failed_count else o.failed_count + 1;
}

unfoldable pub deliver_to :
    (ℕ → Bool) → List RelayPeer → (ℕ → Effect) → List Effect → List Effect × DeliveryOutcome
deliver_to is_open [] effect before =
    (before, record { target_count = 0; sent_count = 0; failed_count = 0 })
deliver_to is_open (p ∷ ps) effect before =
    let rest =
      deliver_to is_open ps effect
        (if is_open p.socket then effect p.socket ∷ before else before) in
    (rest.0, count_sent (is_open p.socket) rest.1)

unfoldable pub deliver : (ℕ → Bool) → List RelayPeer → (ℕ → Effect) → M DeliveryOutcome
unfolding deliver_to
deliver is_open peers effect s =
    let sent = deliver_to is_open peers effect s.effects in
    (record s { effects = sent.0 }, ok sent.1)

-- What a handler is given from outside.
pub record Context : Type 0 where
  pub socket : ℕ
  pub remote_key : String
  pub is_open : ℕ → Bool
  pub sink : Sink
  pub inputs : JoinInputs

abbrev registered_join :
    RelayPeer → RelayJoinResult → Option DeviceIdentity → String → RegisteredJoin
registered_join peer result device pairing_code = record {
  peer = peer;
  result = result;
  device_identity = device_identity_detail device pairing_code false;
}

abbrev pub entry :
    String → AuditOutcome → Option RelayPeer → Option String → AuditDetail → AuditEntry
entry action outcome peer reason detail = record {
  action = action;
  outcome = outcome;
  session_id = session_of peer;
  peer_id = id_of peer;
  reason = reason;
  detail = detail;
}

-- What is recorded before a message is sent on.
abbrev pub forward_entry : RelayPeer → ProtocolEnvelope → RelayPeer → AuditEntry
forward_entry peer envelope recipient =
    entry "relay.message.forwarded" accepted (some peer) none
      (forwarded (accepted_forward_audit_detail envelope recipient))

-- The detail of a join that was accepted, in a room of `room_size`.
abbrev join_accepted_detail : RegisteredJoin → ℕ → AuditDetail
join_accepted_detail j room_size =
    join_accepted j.peer.role room_size j.result.ticket_created j.result.ticket_consumed
      (is_some j.result.paired_device) j.result.ticket_remaining_uses j.device_identity

-- `rateLimit` is the decision of one call of the limiter.
unfoldable pub consume_invalid_message : String → ℕ → M RateLimitDecision
consume_invalid_message key now s =
    let r = consume s.invalid_message_limiter key now in
    (record s { invalid_message_limiter = r.0 }, ok r.1)

module _ (sha256_hex : String → String) (ctx : Context) where
  unfoldable pub register_first_message : String → Body → M RegisteredJoin
  register_first_message session_id (join_session peer_id role pairing_code device) = do
    rooms ← get (λ s. s.rooms)
    let peer : RelayPeer = record {
      peer_id = peer_id;
      role = role;
      session_id = session_id;
      device_id = device_id_of device peer_id;
      socket = ctx.socket;
    }
    joined ← lift (join sha256_hex rooms peer pairing_code ctx.inputs)
    modify (λ s. record s { rooms = joined.0 })
    found ← lift (or_throw (find_peer peer_id joined.1.peers) "Peer was not registered")
    pure (registered_join found joined.1 device pairing_code)
  register_first_message session_id _ = throw (zod_error [])

  -- The inner `catch`: the denial is recorded, and the failure thrown again.
  unfoldable pub deny_join : ProtocolEnvelope → Failure → M RegisteredJoin
  deny_join envelope error = do
    let reason = safe_relay_rejection_reason error
    write_relay_audit ctx.sink (
        entry "relay.peer.join.denied" denied none (some reason) (
          join_denied (type_text envelope.body) (pairing_denied_audit_detail reason) (
            join_denial_audit_attribution envelope.session_id envelope.body
              (str_eq reason self_pairing_device_rejection_reason))))
    throw error

  -- The inner `try` and `catch`.
  unfoldable pub join_first : ProtocolEnvelope → M RegisteredJoin
  join_first envelope =
      try_catch
        (do
          j ← register_first_message envelope.session_id envelope.body
          modify (λ s. record s { registered_peer = some j.peer })
          pure j)
        (deny_join envelope)

  unfoldable pub announce_join : RegisteredJoin → M (Unit {0})
  announce_join joined = do
    room_size ← get (λ s. size s.rooms joined.peer.session_id)
    emit (sends_ready ctx.socket joined.peer.peer_id room_size)
    write_relay_audit ctx.sink (
        entry "relay.peer.join.accepted" accepted (some joined.peer) none
          (join_accepted_detail joined room_size))

  -- The branch of a connection that has not registered a peer.
  unfoldable pub first_message : ProtocolEnvelope → M (Unit {0})
  first_message envelope = do
    lift (assert_join_identity_pairing_identifiers_secret_safe envelope.session_id envelope.body)
    joined ← join_first envelope
    announce_join joined

  -- `writeRelayDeliveryAudit`: a sink that throws is only warned of.
  unfoldable pub write_relay_delivery_audit :
      RelayPeer → ForwardDetail → DeliveryOutcome → M (Unit {0})
  write_relay_delivery_audit peer detail outcome =
      try_catch
        (write_relay_audit ctx.sink (
          entry "relay.message.delivery" (if leb outcome.failed_count 0 then accepted else failed)
            (some peer) none (delivery detail outcome)))
        (λ error. emit (warns "[winbridge-relay] Forward delivery audit failed after send attempt"))

  -- What follows the checks: the record, the delivery and the record of the delivery.
  unfoldable pub send_forward :
      List RelayPeer → RelayPeer → ProtocolEnvelope → RelayPeer → M (Unit {0})
  send_forward recipient_peers peer envelope recipient = do
    write_relay_audit ctx.sink (forward_entry peer envelope recipient)
    outcome ← deliver ctx.is_open recipient_peers (λ socket. sends socket envelope)
    write_relay_delivery_audit peer (accepted_forward_audit_detail envelope recipient) outcome

  -- The branch of a registered peer.
  unfoldable pub forward_message : RelayPeer → ProtocolEnvelope → M (Unit {0})
  forward_message peer envelope = do
    rooms ← get (λ s. s.rooms)
    recipient ← lift (check_forward rooms peer envelope)
    send_forward (peers_except rooms peer.session_id peer.peer_id) peer envelope recipient

  abbrev pub dispatch_message : Option RelayPeer → ProtocolEnvelope → M (Unit {0})
  dispatch_message none envelope = first_message envelope
  dispatch_message (some peer) envelope = forward_message peer envelope

  -- The outer `try` block.
  unfoldable pub accept_message : ℕ → Result ProtocolEnvelope → M (Unit {0})
  accept_message message_bytes decoded = do
    lift (guard (leb message_bytes max_relay_message_bytes) (thrown relay_message_too_large_reason))
    envelope ← lift decoded
    peer ← get (λ s. s.registered_peer)
    dispatch_message peer envelope

  abbrev emit_if : Bool → Effect → M (Unit {0})
  emit_if true effect = emit effect
  emit_if false effect = pure tt

  -- The outer `catch` block. What it throws leaves the handler.
  unfoldable pub reject_message : Failure → M (Unit {0})
  reject_message error = do
    let reason = safe_relay_rejection_reason error
    peer ← get (λ s. s.registered_peer)
    decision ← consume_invalid_message (peer_id_or peer ctx.remote_key) ctx.inputs.now
    write_relay_audit ctx.sink (
        entry "relay.message.rejected" failed peer (some reason) (rejected (is_some peer) decision))
    emit_if (ctx.is_open ctx.socket) (sends_error ctx.socket reason)
    emit_if (not decision.allowed) (closes ctx.socket 1008 "Relay message rate limit exceeded")

  -- The handler of "message".
  unfoldable pub on_message : ℕ → Result ProtocolEnvelope → M (Unit {0})
  on_message message_bytes decoded = try_catch (accept_message message_bytes decoded) reject_message

  -- `for (const peer of removedPeers) peer.close(1000, …)`, each on a socket that is open.
  abbrev close_orphans : List RelayPeer → List Effect → List Effect
  close_orphans [] before = before
  close_orphans (p ∷ ps) before =
      close_orphans ps
        (if ctx.is_open p.socket then closes p.socket 1000 "Host disconnected" ∷ before else before)

  unfoldable pub close_registered : RelayPeer → ReasonCode → M (Unit {0})
  close_registered peer reason_code = do
    rooms ← get (λ s. s.rooms)
    let left = leave rooms peer.session_id peer.peer_id
    modify (λ s. record s { rooms = left.0 })
    outcome ←
        deliver ctx.is_open left.1.remaining_peers
          (λ socket. sends_notice socket peer.peer_id peer.role reason_code)
    modify (λ s. record s { effects = close_orphans left.1.removed_peers s.effects })
    try_catch
        (write_relay_audit ctx.sink (
          entry "relay.peer.disconnect" accepted (some peer) none
            (disconnect peer.role reason_code outcome (length left.1.removed_peers))))
        (λ error. emit (warns "[winbridge-relay] Disconnect audit failed after close cleanup"))

  abbrev close_peer : ReasonCode → Option RelayPeer → M (Unit {0})
  close_peer reason_code none = pure tt
  close_peer reason_code (some p) = close_registered p reason_code

  -- The handler of "close", behind the heartbeat's own cleanup.
  unfoldable pub on_close : ReasonCode → M (Unit {0})
  on_close reason_code = do peer ← get (λ s. s.registered_peer); close_peer reason_code peer
