-- ===== src/Anthropic.antt =====
-- src/ai/providers/anthropic/AnthropicProvider.cpp: the class MessageStream, which turns the server's
-- events into those of a model provider. State has the members, Values reads JSON, Blocks and Events
-- handle the events.
pub mod Values
pub mod State
pub mod Blocks
pub mod Events
pub mod Order
pub mod Keeping
pub mod Calls
pub mod Sessions
