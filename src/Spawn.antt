-- ===== src/Spawn.antt =====
-- lib/spawn-env.js: the environment of a command line tool that the router starts.
pub mod CodexHome
pub mod Resolve
pub mod Child
pub mod Owned
pub mod Closed
