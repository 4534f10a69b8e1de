-- ===== src/Relay/Heartbeat/Timeout.antt =====
-- When a heartbeat ends a connection: only for a ping without an answer, and, where the timeout
-- comes in time, for each.
use winbridge.Base.{
  ℕ, ◌+◌, ◌≤◌, ◌≡◌, refl, sym, ap, subst, ◌∙◌, Bool, true, false, ◌&&◌, List, [], ◌∷◌, ◌++◌, some,
  arith, leb, ◌⊎◌, inl, inr, Bool-cases, Option-cases, All,
}
use winbridge.Relay.Heartbeat.{
  RelayHeartbeatState, PeerHeartbeat, HeartbeatEvent, interval, fire, pong, start_peer_heartbeat,
  send_heartbeat, terminate_for_timeout, on_pong, is_heartbeat_timed_out, heartbeat_step,
  heartbeat_run,
}

abbrev pub is_pong : HeartbeatEvent → Bool
is_pong (pong now) = true
is_pong _ = false

abbrev pub is_interval : HeartbeatEvent → Bool
is_interval (interval socket_open now) = true
is_interval _ = false

-- A ping of time `t` waits in vain: no pong comes before the timeout fires, late enough.
pub data Unanswered (timeout_ms t : ℕ) : List HeartbeatEvent → Type 0 where
  fires :
      (now : ℕ) (es : List HeartbeatEvent)
      → t + timeout_ms ≤ now
      → Unanswered timeout_ms t (fire now ∷ es)
  waits :
      (e : HeartbeatEvent) (es : List HeartbeatEvent)
      → is_pong e ≡ false
      → Unanswered timeout_ms t es
      → Unanswered timeout_ms t (e ∷ es)

-- Somewhere in the events, a ping is sent and waits in vain.
pub data Missed (timeout_ms : ℕ) : List HeartbeatEvent → Type 0 where
  pinged :
      (t : ℕ) (es : List HeartbeatEvent)
      → Unanswered timeout_ms t es
      → Missed timeout_ms (interval true t ∷ es)
  later :
      (e : HeartbeatEvent) (es : List HeartbeatEvent)
      → Missed timeout_ms es
      → Missed timeout_ms (e ∷ es)

-- Why a run from `h` ends the connection.
abbrev Cause : ℕ → PeerHeartbeat → List HeartbeatEvent → Type 0
Cause timeout_ms h es =
    Missed timeout_ms es
    ⊎ ((t : ℕ) × (h.state.awaiting_pong ≡ true)
        × (h.state.last_ping_at ≡ some t)
        × Unanswered timeout_ms t es)

-- A step keeps the heartbeat, up to the timer, or sends a ping, or ends the connection, or takes a
-- pong.
interval_step :
    (timeout_ms : ℕ) (open_ : Bool) (now : ℕ) (h : PeerHeartbeat)
    → (heartbeat_step timeout_ms (interval open_ now) h ≡ h)
      ⊎ ((open_ ≡ true)
          × (h.state.awaiting_pong ≡ false)
          × ((heartbeat_step timeout_ms (interval open_ now) h).timed_out ≡ h.timed_out)
          × ((heartbeat_step timeout_ms (interval open_ now) h).state.last_ping_at ≡ some now))
unfolding heartbeat_step send_heartbeat
interval_step timeout_ms open_ now h = ground arith

fire_step :
    (timeout_ms : ℕ) (now : ℕ) (h : PeerHeartbeat)
    → (((heartbeat_step timeout_ms (fire now) h).state ≡ h.state)
        × ((heartbeat_step timeout_ms (fire now) h).timed_out ≡ h.timed_out))
      ⊎ ((t : ℕ) × (h.state.awaiting_pong ≡ true)
          × (h.state.last_ping_at ≡ some t)
          × (t + timeout_ms ≤ now))
unfolding heartbeat_step terminate_for_timeout is_heartbeat_timed_out
fire_step timeout_ms now h = elim (Option-cases h.state.last_ping_at) [
  | inl never ↦ inl (ground arith, ground arith)
  | inr (t, pinged_) ↦ elim (Bool-cases (h.state.awaiting_pong && leb (t + timeout_ms) now)) [
    | inl late ↦ inr (t, ground arith, pinged_, ground arith)
    | inr early ↦ inl (ground arith, ground arith)
  ]
]

pong_step :
    (timeout_ms : ℕ) (now : ℕ) (h : PeerHeartbeat)
    → ((heartbeat_step timeout_ms (pong now) h).timed_out ≡ h.timed_out)
      × ((heartbeat_step timeout_ms (pong now) h).state.awaiting_pong ≡ false)
unfolding heartbeat_step on_pong
pong_step timeout_ms now h = (refl, refl)

cause :
    (timeout_ms : ℕ) (es : List HeartbeatEvent) (h : PeerHeartbeat)
    → h.timed_out ≡ false
    → (heartbeat_run timeout_ms es h).timed_out ≡ true
    → Cause timeout_ms h es
unfolding heartbeat_run
cause timeout_ms [] h live ended = ground arith
cause timeout_ms (interval open_ now ∷ es) h live ended =
    let e = interval open_ now in
    let next = heartbeat_step timeout_ms e h in
    elim (interval_step timeout_ms open_ now h) [
      | inl same ↦
          let keeps : next.timed_out ≡ false =
            ap (λ (k : PeerHeartbeat). k.timed_out) same ∙ live in
          elim (cause timeout_ms es next keeps ended) [
            | inl missed ↦ inl (later e es missed)
            | inr (t, awaits, last, u) ↦ inr (
              t,
              sym (ap (λ (k : PeerHeartbeat). k.state.awaiting_pong) same) ∙ awaits,
              sym (ap (λ (k : PeerHeartbeat). k.state.last_ping_at) same) ∙ last,
              waits e es refl u,
            )
          ]
      | inr (opened, idle, keeps, last) ↦ elim (cause timeout_ms es next (keeps ∙ live) ended) [
        | inl missed ↦ inl (later e es missed)
        | inr (t, awaits, last', u) ↦
            let same : now ≡ t = ground arith in
            inl (
              subst (λ o. Missed timeout_ms (interval o now ∷ es)) (sym opened)
                (pinged now es (subst (λ r. Unanswered timeout_ms r es) (sym same) u)))
      ]
    ]
cause timeout_ms (fire now ∷ es) h live ended =
    let next = heartbeat_step timeout_ms (fire now) h in
    elim (fire_step timeout_ms now h) [
      | inl (same, keeps) ↦ elim (cause timeout_ms es next (keeps ∙ live) ended) [
        | inl missed ↦ inl (later (fire now) es missed)
        | inr (t, awaits, last, u) ↦ inr (
          t,
          sym (ap (λ (k : RelayHeartbeatState). k.awaiting_pong) same) ∙ awaits,
          sym (ap (λ (k : RelayHeartbeatState). k.last_ping_at) same) ∙ last,
          waits (fire now) es refl u,
        )
      ]
      | inr (t, awaits, last, late) ↦ inr (t, awaits, last, fires now es late)
    ]
cause timeout_ms (pong now ∷ es) h live ended =
    let next = heartbeat_step timeout_ms (pong now) h in
    let (keeps, idle) = pong_step timeout_ms now h in
    elim (cause timeout_ms es next (keeps ∙ live) ended) [
      | inl missed ↦ inl (later (pong now) es missed)
      | inr (t, awaits, last, u) ↦ ground arith
    ]

-- A heartbeat that ends the connection sent a ping that no pong answered before the timeout fired,
-- and the timeout fired no earlier than its delay after the ping.
pub timed_out-Missed :
    (timeout_ms start : ℕ) (es : List HeartbeatEvent)
    → (heartbeat_run timeout_ms es (start_peer_heartbeat start)).timed_out ≡ true
    → Missed timeout_ms es
timed_out-Missed timeout_ms start es ended =
    elim (cause timeout_ms es (start_peer_heartbeat start) refl ended) [
      | inl missed ↦ missed
      | inr (t, awaits, last, u) ↦ ground arith
    ]

-- Once a timeout is spent and a pong is still awaited, nothing but a pong changes the heartbeat: no
-- ping is sent, no timeout is armed, and the connection is not ended.
pub spent-stays :
    (timeout_ms : ℕ) (es : List HeartbeatEvent) (h : PeerHeartbeat)
    → h.armed ≡ false
    → h.state.awaiting_pong ≡ true
    → All (λ e. is_pong e ≡ false) es
    → heartbeat_run timeout_ms es h ≡ h
unfolding heartbeat_run heartbeat_step send_heartbeat terminate_for_timeout
spent-stays timeout_ms [] h spent awaits silent = refl
spent-stays timeout_ms (interval open_ now ∷ es) h spent awaits (q, silent) =
    let rest = spent-stays timeout_ms es h spent awaits silent in ground arith
spent-stays timeout_ms (fire now ∷ es) h spent awaits (q, silent) =
    let rest = spent-stays timeout_ms es h spent awaits silent in ground arith
spent-stays timeout_ms (pong now ∷ es) h spent awaits (q, silent) = ground arith

stays_ended :
    (timeout_ms : ℕ) (es : List HeartbeatEvent) (h : PeerHeartbeat)
    → h.timed_out ≡ true
    → (heartbeat_run timeout_ms es h).timed_out ≡ true
unfolding heartbeat_run heartbeat_step send_heartbeat terminate_for_timeout on_pong
stays_ended timeout_ms [] h ended = ended
stays_ended timeout_ms (interval open_ now ∷ es) h ended =
    stays_ended timeout_ms es (send_heartbeat open_ now h) (ground arith)
stays_ended timeout_ms (fire now ∷ es) h ended =
    stays_ended timeout_ms es (terminate_for_timeout timeout_ms now h) (ground arith)
stays_ended timeout_ms (pong now ∷ es) h ended = stays_ended timeout_ms es (on_pong now h) ended

late_fire :
    (timeout_ms t now : ℕ) (h : PeerHeartbeat)
    → h.armed ≡ true
    → h.state.awaiting_pong ≡ true
    → h.state.last_ping_at ≡ some t
    → t + timeout_ms ≤ now
    → (heartbeat_step timeout_ms (fire now) h).timed_out ≡ true
unfolding heartbeat_step terminate_for_timeout is_heartbeat_timed_out
late_fire timeout_ms t now h armed awaits last late = ground arith

waiting_run :
    (timeout_ms t now : ℕ) (ticks es : List HeartbeatEvent) (h : PeerHeartbeat)
    → h.armed ≡ true
    → h.state.awaiting_pong ≡ true
    → h.state.last_ping_at ≡ some t
    → t + timeout_ms ≤ now
    → All (λ e. is_interval e ≡ true) ticks
    → (heartbeat_run timeout_ms (ticks ++ fire now ∷ es) h).timed_out ≡ true
unfolding heartbeat_run heartbeat_step send_heartbeat terminate_for_timeout is_heartbeat_timed_out
waiting_run timeout_ms t now [] es h armed awaits last late silent =
    stays_ended timeout_ms es (heartbeat_step timeout_ms (fire now) h)
      (late_fire timeout_ms t now h armed awaits last late)
waiting_run timeout_ms t now (interval open_ u ∷ ticks) es h armed awaits last late (q, silent) =
    let rest = waiting_run timeout_ms t now ticks es h armed awaits last late silent in ground arith
waiting_run timeout_ms t now (fire u ∷ ticks) es h armed awaits last late (q, silent) = ground arith
waiting_run timeout_ms t now (pong u ∷ ticks) es h armed awaits last late (q, silent) = ground arith

-- A ping that is sent on an open socket, with no pong and no firing before the timeout fires, no
-- earlier than its delay after the ping, ends the connection, whatever follows.
pub silence-timed_out :
    (timeout_ms t now : ℕ) (ticks es : List HeartbeatEvent) (h : PeerHeartbeat)
    → h.state.awaiting_pong ≡ false
    → t + timeout_ms ≤ now
    → All (λ e. is_interval e ≡ true) ticks
    → (heartbeat_run timeout_ms (interval true t ∷ (ticks ++ fire now ∷ es)) h).timed_out ≡ true
unfolding heartbeat_run heartbeat_step send_heartbeat
silence-timed_out timeout_ms t now ticks es h idle late silent =
    waiting_run timeout_ms t now ticks es (send_heartbeat true t h) (ground arith) (ground arith)
      (ground arith) late silent
