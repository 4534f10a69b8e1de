-- ===== src/Relay/Connection.antt =====
-- apps/relay/src/server.ts: the handlers of one WebSocket connection. The state is what a handler
-- can change: the rooms, the limiter of invalid messages, the peer that the connection registered,
-- and everything sent, closed, logged or recorded so far, newest first. The audit sink, whether a
-- socket is open, the clock and the random ids come from outside. A message arrives with its size
-- and the outcome of `decodeProtocolEnvelope`.
pub mod Monad
pub mod Audit
pub mod Handler
pub mod Access
pub mod Delivery
pub mod Closing
