-- ===== src/Hop.antt =====
-- lib/proxy/hop-credentials.js: the tokens that let a command line tool's process use a route.
pub mod Routes
pub mod Keys
pub mod Credentials
pub mod Access
pub mod Parts
pub mod Normal
pub mod Returned
pub mod Stable
pub mod Injective
pub mod Grants
pub mod Issue
pub mod Issued
pub mod Coherence
pub mod Unmanaged
pub mod Sessions
