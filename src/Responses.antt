-- ===== src/Responses.antt =====
-- src/ai/openai/codex/model/ResponsesAdapter.cpp: a provider's events as a stream of Responses
-- events. CustomInput decodes freeform tool input, Stream sends, Blocks and Finish handle the events.
pub mod CustomInput
pub mod Pieces
pub mod Decoding
pub mod Stream
pub mod Blocks
pub mod Finish
pub mod Invariant
pub mod Keeping
pub mod Ending
pub mod Terminal
