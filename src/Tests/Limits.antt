-- ===== src/Tests/Limits.antt =====
-- Runs of the limiter, of a ticket and of a heartbeat, as instances of the theorems on them.
use winbridge.Base.{
  ℕ, ◌+◌, ◌≤◌, ◌<◌, ◌≡◌, ◌≢◌, ◌↔◌, arith, refl, true, false, String, List, [], ◌∷◌, ok,
}
use winbridge.Protocol.Identity.{
  PairedDevice, create_pairing_ticket, consume_pairing_ticket, create_paired_device,
}
use winbridge.Protocol.Identity.Ticket.{
  IsUsable, spend, consume_pairing_ticket_iff, consume-create, attempts, attempts_bounded,
  create_paired_device-eq-ok,
}
use winbridge.Relay.RateLimit.{Limiter, new_limiter}
use winbridge.Relay.RateLimit.Window.{History, Monotone, times, decisions, spec_decisions}
use winbridge.Relay.RateLimit.Bound.{
  accepted, window_count, accepted_bounded, consume_refines_history,
}
use winbridge.Relay.Heartbeat.{
  HeartbeatEvent, interval, fire, pong, PeerHeartbeat, start_peer_heartbeat, heartbeat_run,
}
use winbridge.Relay.Heartbeat.Timeout.{Missed, timed_out-Missed, silence-timed_out, spent-stays}
use winbridge.Tests.Data.{sample_sha, sample_salt, sample_ticket, spent_ticket}

abbrev two_limits : Limiter
two_limits = record { limit = 2; window_ms = 1_000; attempts = [] }

abbrev four_attempts : History
four_attempts = ("a", 10) ∷ ("a", 20) ∷ ("b", 20) ∷ ("a", 30) ∷ ("a", 1_015) ∷ []

two_limits_new : new_limiter 2 1_000 ≡ ok two_limits
unfolding new_limiter
two_limits_new = refl

in_order : Monotone 0 four_attempts
in_order = (omega arith, (omega arith, (omega arith, (omega arith, (omega arith, tt)))))

accepted_bounded_example :
    window_count 1_000 1_015 (times "a" (accepted two_limits [] four_attempts)) ≤ 2
accepted_bounded_example =
    accepted_bounded 2 1_000 two_limits four_attempts "a" 1_015 two_limits_new in_order

consume_refines_history_example :
    decisions two_limits four_attempts ≡ spec_decisions 2 1_000 [] four_attempts
consume_refines_history_example =
    consume_refines_history 2 1_000 two_limits four_attempts two_limits_new in_order

consume_pairing_ticket_iff_example :
    (consume_pairing_ticket sample_sha sample_ticket "123-456" 200 ≡ ok spent_ticket)
    ↔ (IsUsable sample_sha sample_ticket "123-456" 200 × (spent_ticket ≡ spend sample_ticket))
consume_pairing_ticket_iff_example =
    consume_pairing_ticket_iff sample_sha sample_ticket spent_ticket "123-456" 200

sample_created :
    create_pairing_ticket sample_sha "session-1" "device-host-1" "123-456" 300_000 1 100
      "pairing-0001" sample_salt
    ≡ ok sample_ticket
unfolding create_pairing_ticket winbridge.Protocol.Identity.assert_bounded_integer
    winbridge.Protocol.Identity.hash_pairing_code winbridge.Protocol.Session.is_pairing_code
    winbridge.Protocol.Identity.is_pairing_code_salt winbridge.Protocol.Identity.is_pairing_ticket
    winbridge.Protocol.Identifier.is_safe_identifier
    winbridge.Protocol.Identity.is_pairing_code_hash
sample_created = refl

consume-create_example :
    consume_pairing_ticket sample_sha sample_ticket "123-456" 200 ≡ ok (spend sample_ticket)
consume-create_example =
    consume-create sample_sha "session-1" "device-host-1" "123-456" 300_000 1 100 "pairing-0001"
      sample_salt sample_ticket 200 sample_created (omega arith)

abbrev three_tries : List (String × ℕ)
three_tries = ("123-457", 150) ∷ ("123-456", 200) ∷ ("123-456", 250) ∷ []

attempts_bounded_example :
    (attempts sample_sha sample_ticket three_tries).1
      + (attempts sample_sha sample_ticket three_tries).0.remaining_uses
    ≡ 1
attempts_bounded_example = attempts_bounded sample_sha sample_ticket three_tries

abbrev paired : PairedDevice
paired = record {
  pairing_id = "pairing-0001";
  session_id = "session-1";
  host_device_id = "device-host-1";
  viewer_device_id = "device-viewer-1";
  paired_at = 200;
}

paired_created : create_paired_device sample_ticket "device-viewer-1" 200 ≡ ok paired
unfolding create_paired_device winbridge.Protocol.Identity.is_pairing_ticket
    winbridge.Protocol.Identifier.is_safe_identifier
    winbridge.Protocol.Identity.is_pairing_code_salt
    winbridge.Protocol.Identity.is_pairing_code_hash winbridge.Protocol.Identity.is_paired_device
paired_created = refl

create_paired_device-eq-ok_example :
    (paired.viewer_device_id ≡ "device-viewer-1")
    × (paired.host_device_id ≡ sample_ticket.host_device_id)
    × (paired.session_id ≡ sample_ticket.session_id)
    × (◌≢◌ {A = String} "device-viewer-1" sample_ticket.host_device_id)
    × (paired.pairing_id ≡ sample_ticket.pairing_id)
    × (paired.paired_at ≡ 200)
    × (sample_ticket.created_at ≤ paired.paired_at)
    × (paired.paired_at < sample_ticket.expires_at)
create_paired_device-eq-ok_example =
    create_paired_device-eq-ok sample_ticket "device-viewer-1" 200 paired paired_created

abbrev silent_events : List HeartbeatEvent
silent_events = interval true 100 ∷ pong 105 ∷ interval true 200 ∷ interval true 205 ∷ fire 210 ∷ []

silent_ends : (heartbeat_run 10 silent_events (start_peer_heartbeat 50)).timed_out ≡ true
unfolding heartbeat_run
silent_ends = refl

timed_out-Missed_example : Missed 10 silent_events
timed_out-Missed_example = timed_out-Missed 10 50 silent_events silent_ends

silence-timed_out_example :
    (heartbeat_run 10
      (interval true 200 ∷ interval true 205 ∷ fire 210 ∷ pong 220 ∷ [])
      (start_peer_heartbeat 50)).timed_out
    ≡ true
silence-timed_out_example =
    silence-timed_out 10 200 210 (interval true 205 ∷ []) (pong 220 ∷ []) (start_peer_heartbeat 50)
      refl (omega arith) (refl, tt)

-- The timeout came a millisecond early.
abbrev stuck : PeerHeartbeat
stuck = heartbeat_run 10 (interval true 200 ∷ fire 209 ∷ []) (start_peer_heartbeat 50)

stuck_spent : stuck.armed ≡ false
unfolding heartbeat_run
stuck_spent = refl

stuck_awaits : stuck.state.awaiting_pong ≡ true
unfolding heartbeat_run
stuck_awaits = refl

abbrev later_events : List HeartbeatEvent
later_events = interval true 300 ∷ interval true 400 ∷ fire 9_000 ∷ []

spent-stays_example : heartbeat_run 10 later_events stuck ≡ stuck
spent-stays_example =
    spent-stays 10 later_events stuck stuck_spent stuck_awaits (refl, (refl, (refl, tt)))
