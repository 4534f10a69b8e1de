-- ===== src/Agent.antt =====
-- apps/agent-shell/src/runtime.ts: the runtime of the agent shell, host or viewer.
pub mod State
pub mod Gates
pub mod Inbound
pub mod Viewer
pub mod Checks
pub mod Send
pub mod Indicator
pub mod Host
pub mod Controls
pub mod Timers
pub mod Decision
pub mod Handler
pub mod Steps
pub mod Agreement
