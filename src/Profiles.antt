-- ===== src/Profiles.antt =====
-- lib/route-profile-store.js: the route profiles.
pub mod Profile
pub mod Store
pub mod Saved
