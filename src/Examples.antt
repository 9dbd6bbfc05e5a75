-- ===== src/Examples.antt =====
-- The theorems at concrete inputs, and runs of the models as tests.
mod Files
mod Preferences
mod Stores
mod Streams
mod Hops
mod Locks
mod Usage
mod Accounts
mod Requests
mod Proxied
