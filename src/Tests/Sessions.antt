-- ===== src/Tests/Sessions.antt =====
-- A session from the host's join to the close, as instances of the theorems on the relay.
use winbridge.Base.{
  ◌↔◌, eq_iff, arith, ℕ, ◌≡◌, ◌≢◌, ◌⊎◌, inl, inr, refl, subst, Bool, true, false, String, List, [],
  ◌∷◌, Option, none, some, Result, ok, err, Failure, thrown,
}
use winbridge.Base.Dict.{lookup, values}
use winbridge.Protocol.Session.{host, viewer}
use winbridge.Protocol.Identity.{PairedDevice}
use winbridge.Protocol.Messages.{ProtocolEnvelope, peer_closed}
use winbridge.Relay.Rooms.{RelayPeer, RoomRegistry, RelayJoinResult, join, leave}
use winbridge.Relay.Rooms.Shape.{IsRegistry, RegistryCall, joins, leaves, calls, calls-IsRegistry}
use winbridge.Relay.Rooms.Join.{IsLetIn, join-IsLetIn}
use winbridge.Relay.Rooms.Isolation.{calls_of, calls-isolated}
use winbridge.Relay.Rooms.Leave.{leave_host, leave_viewer}
use winbridge.Relay.Forwarding.{
  assert_registered_peer_can_forward, assert_envelope_targets_recipient,
}
use winbridge.Relay.Forwarding.Authority.{
  sender_of, author_role, IsAuthentic, can_forward-IsAuthentic, recipient_role, target_of,
  IsAddressed, targets_recipient-IsAddressed,
}
use winbridge.Relay.Reasons.{
  is_listed, safe_relay_rejection_reason, safe_relay_rejection_reason-listed,
}
use winbridge.Relay.Connection.Handler.{Context, on_message, on_close}
use winbridge.Relay.Connection.Delivery.{sent_on, IsDelivery, on_message-IsDelivery}
use winbridge.Relay.Connection.Access.{AccessState, check_access}
use winbridge.Relay.Connection.Closing.{on_close-leave, on_message-ok, on_message-escapes}
use winbridge.Tests.Data.{
  takes_all, new_limits, sample_sha, spent_ticket, host_peer, viewer_peer, empty_registry,
  host_registry, full_registry, host_room, full_room, join_inputs, viewer_inputs, host_context,
  host_state, greeting, greeting_envelope,
}

abbrev viewer_device : PairedDevice
viewer_device = record {
  pairing_id = "pairing-0001";
  session_id = "session-1";
  host_device_id = "device-host-1";
  viewer_device_id = "device-viewer-1";
  paired_at = 200;
}

abbrev viewer_result : RelayJoinResult
viewer_result = record {
  peers = host_peer ∷ viewer_peer ∷ [];
  ticket_created = false;
  ticket_consumed = true;
  ticket_remaining_uses = some 0;
  paired_device = some viewer_device;
}

viewer_joins :
    join sample_sha host_registry viewer_peer "123-456" viewer_inputs
    ≡ ok (full_registry, viewer_result)
unfolding join winbridge.Relay.Rooms.join_room lookup winbridge.Relay.Rooms.find_role values
    winbridge.Relay.Rooms.admit_peer winbridge.Relay.Rooms.admit_viewer
    winbridge.Protocol.Identity.consume_pairing_ticket winbridge.Protocol.Identity.is_pairing_ticket
    winbridge.Protocol.Identity.is_pairing_code_salt
    winbridge.Protocol.Identity.is_pairing_code_hash
    winbridge.Protocol.Identity.is_pairing_ticket_expired
    winbridge.Protocol.Identity.hash_pairing_code
    winbridge.Protocol.Identity.pairing_code_hashes_match
    winbridge.Protocol.Identity.pairing_code_hash_digest
    winbridge.Protocol.Identity.assert_bounded_integer
    winbridge.Protocol.Identity.create_paired_device
    winbridge.Protocol.Identity.create_pairing_ticket winbridge.Protocol.Identity.is_paired_device
    winbridge.Protocol.Identifier.is_safe_identifier winbridge.Protocol.Session.is_pairing_code
    winbridge.Base.Dict.insert
viewer_joins = refl

empty-IsRegistry : IsRegistry empty_registry
unfolding lookup
empty-IsRegistry s room e = absurd cc

abbrev host_calls : List RegistryCall
host_calls = joins host_peer "123-456" join_inputs ∷ []

abbrev both_calls : List RegistryCall
both_calls = joins host_peer "123-456" join_inputs ∷ joins viewer_peer "123-456" viewer_inputs ∷ []

host_calls_lead : calls sample_sha empty_registry host_calls ≡ host_registry
unfolding calls winbridge.Relay.Rooms.Shape.call join winbridge.Relay.Rooms.join_room lookup
    winbridge.Relay.Rooms.find_role values winbridge.Relay.Rooms.admit_peer
    winbridge.Relay.Rooms.admit_viewer winbridge.Protocol.Identity.consume_pairing_ticket
    winbridge.Protocol.Identity.is_pairing_ticket winbridge.Protocol.Identity.is_pairing_code_salt
    winbridge.Protocol.Identity.is_pairing_code_hash
    winbridge.Protocol.Identity.is_pairing_ticket_expired
    winbridge.Protocol.Identity.hash_pairing_code
    winbridge.Protocol.Identity.pairing_code_hashes_match
    winbridge.Protocol.Identity.pairing_code_hash_digest
    winbridge.Protocol.Identity.assert_bounded_integer
    winbridge.Protocol.Identity.create_paired_device
    winbridge.Protocol.Identity.create_pairing_ticket winbridge.Protocol.Identity.is_paired_device
    winbridge.Protocol.Identifier.is_safe_identifier winbridge.Protocol.Session.is_pairing_code
    winbridge.Base.Dict.insert
host_calls_lead = refl

both_calls_lead : calls sample_sha empty_registry both_calls ≡ full_registry
unfolding calls winbridge.Relay.Rooms.Shape.call join winbridge.Relay.Rooms.join_room lookup
    winbridge.Relay.Rooms.find_role values winbridge.Relay.Rooms.admit_peer
    winbridge.Relay.Rooms.admit_viewer winbridge.Protocol.Identity.consume_pairing_ticket
    winbridge.Protocol.Identity.is_pairing_ticket winbridge.Protocol.Identity.is_pairing_code_salt
    winbridge.Protocol.Identity.is_pairing_code_hash
    winbridge.Protocol.Identity.is_pairing_ticket_expired
    winbridge.Protocol.Identity.hash_pairing_code
    winbridge.Protocol.Identity.pairing_code_hashes_match
    winbridge.Protocol.Identity.pairing_code_hash_digest
    winbridge.Protocol.Identity.assert_bounded_integer
    winbridge.Protocol.Identity.create_paired_device
    winbridge.Protocol.Identity.create_pairing_ticket winbridge.Protocol.Identity.is_paired_device
    winbridge.Protocol.Identifier.is_safe_identifier winbridge.Protocol.Session.is_pairing_code
    winbridge.Base.Dict.insert
both_calls_lead = refl

host_registry-IsRegistry : IsRegistry host_registry
host_registry-IsRegistry =
    subst IsRegistry host_calls_lead
      (calls-IsRegistry sample_sha empty_registry host_calls empty-IsRegistry)

full_registry-IsRegistry : IsRegistry full_registry
full_registry-IsRegistry =
    subst IsRegistry both_calls_lead
      (calls-IsRegistry sample_sha empty_registry both_calls empty-IsRegistry)

calls-IsRegistry_example : IsRegistry (calls sample_sha empty_registry both_calls)
calls-IsRegistry_example = calls-IsRegistry sample_sha empty_registry both_calls empty-IsRegistry

join-IsLetIn_example : IsLetIn sample_sha host_registry viewer_peer "123-456" 200 full_registry
join-IsLetIn_example =
    join-IsLetIn sample_sha host_registry viewer_peer "123-456" viewer_inputs
      (full_registry, viewer_result) host_registry-IsRegistry refl viewer_joins

-- Another host, of another session, comes and goes between the two of the first.
abbrev mixed_calls : List RegistryCall
mixed_calls =
    joins host_peer "123-456" join_inputs
    ∷ joins (record host_peer { peer_id = "host-2"; session_id = "session-2" }) "123-456"
        join_inputs
    ∷ joins viewer_peer "123-456" viewer_inputs
    ∷ leaves "session-2" "host-2"
    ∷ []

calls-isolated_example :
    lookup "session-1" (calls sample_sha empty_registry mixed_calls).rooms
    ≡ lookup "session-1" (calls sample_sha empty_registry (calls_of "session-1" mixed_calls)).rooms
calls-isolated_example = calls-isolated sample_sha empty_registry mixed_calls "session-1"

mixed_calls_of : calls_of "session-1" mixed_calls ≡ both_calls
unfolding calls_of winbridge.Relay.Rooms.Isolation.session_of
mixed_calls_of = refl

host_found : lookup "session-1" full_registry.rooms ≡ some full_room
unfolding lookup
host_found = refl

leave_host_example :
    (lookup "session-1" (leave full_registry "session-1" "host-1").0.rooms ≡ none)
    × ((leave full_registry "session-1" "host-1").1.removed_peers
        ≡ values (("viewer-1", viewer_peer) ∷ []))
    × ((leave full_registry "session-1" "host-1").1.remaining_peers
        ≡ values (("viewer-1", viewer_peer) ∷ []))
leave_host_example =
    leave_host full_registry "session-1" "host-1" host_peer (("viewer-1", viewer_peer) ∷ [])
      (some spent_ticket) full_registry-IsRegistry host_found

leave_viewer_example :
    (lookup "session-1" (leave full_registry "session-1" "viewer-1").0.rooms
      ≡ some (record host_room { pairing_ticket = some spent_ticket }))
    × ((leave full_registry "session-1" "viewer-1").1.removed_peers ≡ [])
    × ((leave full_registry "session-1" "viewer-1").1.remaining_peers ≡ host_peer ∷ [])
leave_viewer_example =
    leave_viewer full_registry "session-1" "host-1" "viewer-1" host_peer viewer_peer
      (some spent_ticket) full_registry-IsRegistry host_found

on_message-IsDelivery_example :
    (sent_on (on_message sample_sha host_context 120 (ok greeting_envelope) host_state).0.effects
      ≡ [])
    ⊎ ((p : RelayPeer) × (env : ProtocolEnvelope) × (q : RelayPeer) × (ok greeting_envelope
          ≡ ok env)
        × IsDelivery sample_sha host_context host_state p env q
        × (sent_on
              (on_message sample_sha host_context 120 (ok greeting_envelope) host_state).0.effects
            ≡ (q.socket, env) ∷ []))
on_message-IsDelivery_example =
    on_message-IsDelivery sample_sha host_context 120 (ok greeting_envelope) host_state

on_message-ok_example :
    (on_message sample_sha host_context 120 (ok greeting_envelope) host_state).1 ≡ ok tt
on_message-ok_example =
    on_message-ok sample_sha host_context 120 (ok greeting_envelope) host_state (λ es e. refl)

abbrev broken_context : Context
broken_context = record host_context { sink = λ es e. some (thrown "disk full") }

on_message-escapes_example :
    ((on_message sample_sha broken_context 120 (err (thrown "not JSON")) host_state).1
      ≡ err (thrown "disk full"))
    × ((on_message sample_sha broken_context 120 (err (thrown "not JSON")) host_state).0.effects
        ≡ [])
on_message-escapes_example =
    on_message-escapes sample_sha broken_context 120 (thrown "not JSON") (thrown "disk full")
      host_state (λ es e. refl)

on_close-leave_example :
    ((on_close sample_sha host_context peer_closed host_state).0.rooms
      ≡ (leave full_registry "session-1" "host-1").0)
    × ((on_close sample_sha host_context peer_closed host_state).1 ≡ ok tt)
on_close-leave_example =
    on_close-leave sample_sha host_context peer_closed host_state host_peer refl

greeting_passes : assert_registered_peer_can_forward greeting host_peer ≡ ok tt
unfolding assert_registered_peer_can_forward
greeting_passes = refl

greeting_goes : assert_envelope_targets_recipient greeting viewer_peer ≡ ok tt
unfolding assert_envelope_targets_recipient
greeting_goes = refl

can_forward-IsAuthentic_example : IsAuthentic (sender_of greeting) (author_role greeting) host_peer
can_forward-IsAuthentic_example = can_forward-IsAuthentic greeting host_peer greeting_passes

targets_recipient-IsAddressed_example :
    IsAddressed (recipient_role greeting) (target_of greeting) viewer_peer
targets_recipient-IsAddressed_example =
    targets_recipient-IsAddressed greeting viewer_peer greeting_goes

safe_relay_rejection_reason-listed_example :
    is_listed (safe_relay_rejection_reason (thrown "ENOENT: /home/host/secret.key")) ≡ true
safe_relay_rejection_reason-listed_example =
    safe_relay_rejection_reason-listed (thrown "ENOENT: /home/host/secret.key")

abbrev one_token : List (String × String)
one_token = ("token", "s3cret") ∷ ("v", "1") ∷ []

abbrev access_state : AccessState
access_state = record { invalid_token_limiter = new_limits; effects = [] }

one_token_passes :
    check_access takes_all (some "s3cret") one_token 1 "192.0.2.1" 50 access_state
    ≡ (access_state, ok true)
unfolding check_access winbridge.Relay.Connection.Access.is_token_name
one_token_passes = refl
