-- ===== src/Bridge.antt =====
-- src/ai/openai/codex/bridge: the router between one app server and its frontends. The state is in
-- State, what leaves the bridge in Io, and the handlers in Frontends, Forward, Provider and Local.
pub mod State
pub mod Io
pub mod Frontends
pub mod Ids
pub mod ReadOnly
pub mod Forward
pub mod Control
pub mod Local
pub mod Provider
pub mod Lifecycle
pub mod Quiet
pub mod Invariant
pub mod Routing
