-- ===== src/Policy.antt =====
-- lib/model-policy.js: which models a provider serves, and which is sent.
pub mod Models
pub mod Wire
pub mod Valid
