-- ===== src/Codex.antt =====
-- lib/proxy/codex-transform.js: the Responses API of the Codex CLI over Chat Completions upstreams.
pub mod Request
pub mod Requests
pub mod Stream
pub mod Chunks
pub mod Running
pub mod Runs
pub mod Outputs
pub mod ToolCalls
pub mod LateText
