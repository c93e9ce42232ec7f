-- ===== src/Sdk.antt =====
-- src/ai/openai/codex/frontend: the frontend's own CodexBridge, which speaks to the bridge. The
-- members are in State, what it sends in Send, and what it receives in Receive.
pub mod State
pub mod Send
pub mod Receive
pub mod Request
pub mod Pending
pub mod Keeping
pub mod Sessions
pub mod Wire
