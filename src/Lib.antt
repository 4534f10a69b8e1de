-- ===== src/Lib.antt =====
-- winbridge: remote assistance with a host's consent. A relay (apps/relay) brings one host and one
-- viewer of a session together over WebSockets and forwards their messages; the protocol package
-- (packages/protocol) says what a session, a pairing ticket, an authorization and a message are.
-- An agent (apps/agent-shell) runs on each side: the host's grants and withdraws the authorization and
-- applies input, the viewer's follows it. This library models the relay's state and handlers, the
-- protocol's authorization and the agent's runtime, and proves what they keep.
--
-- How the parts interact. A connection's first message must be a join: the handler has the
-- registry of rooms admit the peer, which makes a ticket for a host and uses the host's ticket for a
-- viewer. Each later message passes the checks of its sender, its target and its room, is recorded,
-- and is sent to the one other peer. What throws is answered with a listed reason, recorded, and
-- counted by a limiter. The close of a connection removes its peer. The host and the viewer move a
-- session authorization through its transitions, and test it before each action.
--
-- Which file models which part:
--   Base, Base/*: lists, texts, JavaScript's Map, thrown errors and Boolean tests
--   Protocol/TextSafety: packages/protocol/src/text-safety.ts
--   Protocol/Identifier: packages/protocol/src/identifier-metadata.ts, and the identifiers' schemas
--   Protocol/Session: packages/protocol/src/session.ts
--   Protocol/Identity: packages/protocol/src/identity.ts; Identity/Ticket proves
--   Protocol/Status, Protocol/Authorization: packages/protocol/src/authorization.ts, with the schema
--     (SessionAuthorizationSchema) in Authorization/Schema and createPendingSessionAuthorization to
--     assertSessionActionAuthorized in Authorization/Transitions; Outcome, Consent, Approval,
--     Life, History and Revocation prove
--   Protocol/Messages: the types of packages/protocol/src/messages.ts
--   Protocol/Pattern, Protocol/Reason: the patterns of packages/protocol/src/audit.ts, by a matcher
--     for regular expressions, and AuthorizationReasonSchema
--   Relay/RateLimit: apps/relay/src/rate-limit.ts; Window and Bound prove
--   Relay/Heartbeat: apps/relay/src/heartbeat.ts and startPeerHeartbeat of apps/relay/src/server.ts;
--     Timeout proves
--   Relay/Rooms: apps/relay/src/rooms.ts; Shape, Join, Leave and Isolation prove
--   Relay/Forwarding: assertRegisteredPeerCanForward, assertEnvelopeTargetsRecipient and the checks
--     around them, of apps/relay/src/server.ts; Authority proves
--   Relay/Reasons: safeRelayRejectionReason of the same file
--   Relay/Connection: the listeners of "message" and "close" of the same file (Handler), what they
--     record (Audit), how they change their state and throw (Monad), and the token check of a new
--     connection (Access, with its theorem); Delivery and Closing prove
--   Agent: apps/agent-shell/src/runtime.ts. State has AgentShellSessionState, the options and the
--     outside; Gates the tests of a snapshot and the blocks of the native adapters; Inbound the filters
--     of handleMessage; Viewer updateViewerAuthorizationState and its revocation floor; Checks the
--     assertions before a send; Send the sends and the signal probes; Indicator the host's indicator
--     and status; Host pauseHostAuthorization, resumeHostAuthorization, revokeHostPermission,
--     terminateHostAuthorization and the expiration; Controls the local controls of a host; Timers the
--     scheduled steps; Decision handleHostAuthorizationRequest; Handler handleMessage, the close of
--     the socket, stop and leave; Steps all of these as steps in any order. Their child modules, and
--     Agreement on a host and a viewer together, prove
--   Base/Machine: the monad of state and thrown errors in which the handlers are written
--   Tests: concrete runs
--
-- Bounds. A time is a number of milliseconds since 1970, before the year 10000, where toISOString
-- and Date.parse undo each other. All recursion is on the structure of its input; no fuel is used. A
-- text is its code points, without lone surrogates, and is measured in UTF-16 units where the source
-- does. A schema's refusal carries the messages of the source's own refinements where a later step
-- can read them; those that zod makes are left out.
--
-- From outside come, as parameters or arguments: SHA-256, the random salts and ids, the clock, the
-- audit sink (which may throw), whether a socket is open, and the outcome of
-- decodeProtocolEnvelope. Sending on an open socket does not throw for the relay. For the agent all
-- that the outside says in one step is a World: the clock, the socket, the fresh ids, and which of
-- the schema, the socket, the listeners and the sinks throw.
--
-- Not modelled: the codec and the refinements of the message schemas, the redaction of audit
-- details and the file sinks, the start of the relay's server, its listener for transport errors,
-- the capture loop, the redaction and the viewer's status of the agent's runtime, its prompts and
-- command lines, and the Windows workers.
pub mod Agent
pub mod Base
pub mod Protocol
pub mod Relay
pub mod Tests
