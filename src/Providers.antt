-- ===== src/Providers.antt =====
-- lib/store.js: the provider accounts.
pub mod Config
pub mod Build
pub mod Summary
pub mod Store
pub mod Imports
pub mod Accounts
pub mod Deletes
pub mod Keys
pub mod Reimport
pub mod Direct
