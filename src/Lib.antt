-- ===== src/Lib.antt =====
-- A verification library for cli-provider-router, a local router that lends
-- provider accounts to command line coding tools. It models the parts that keep
-- the router's own state and that translate between wire protocols, as
-- functions that can be run, and proves what the rest of the router relies on.
--
-- The parts and their files:
--
-- * lib/atomic-json.js is Atomic.antt. A disk is a function from the names of
--   one JSON file's generations (the file, its temporary file, its rolling
--   backups) to what is found there: nothing, a document, or text that does not
--   parse. A write is the list of file system calls writeJsonAtomic makes;
--   which of them fail is a parameter, so a failure and a crash can be put
--   after any call. Atomic/Rotation, Atomic/Crash and Atomic/Recovery prove.
-- * lib/durable-store.js is Durable.antt: the envelope with its schema version
--   and revision, load, save and mutate over the disk of Atomic.antt, all inside
--   the file lock. A validator or callback of a client is a parameter.
--   Durable/Laws and Durable/Updates prove.
--   Lock.antt is the file lock itself: every file system call of every contender
--   is one step, in any order; Lock/Exclusion and Lock/Progress prove.
-- * lib/settings-store.js is Settings.antt, over the durable store of Durable.antt;
--   Settings/Merge and Settings/Updates prove.
-- * lib/takeover-state.js is Takeover.antt: the three state files and the guard
--   that refuses to stop the service; Takeover/Guard proves.
-- * lib/proxy/codex-transform.js is Codex/: Codex/Stream.antt is the state of
--   chatStreamToResponses with what opens and closes an item, Codex/Chunks what a
--   line of the provider's stream does to it; Codex/Stream/Counts and
--   Codex/Stream/Protocol are the invariant, Codex/Running its steps.
--   Codex/Request.antt is responsesToChat, of which Codex/Requests proves.
--   Codex/Runs follows whole streams, Codex/ToolCalls parallel tool calls,
--   Codex/Outputs and Codex/LateText what the completed response lists.
-- * lib/proxy/hop-credentials.js is Hop/: Hop/Routes and Hop/Keys are the routes,
--   their keys and the token of a request, Hop/Credentials and Hop/Access the
--   store's operations on what its file holds. SHA-256, random values and the
--   clock are parameters. Hop/Parts, Hop/Normal, Hop/Returned, Hop/Stable and
--   Hop/Injective prove of routes, Hop/Grants, Hop/Issue, Hop/Issued,
--   Hop/Coherence, Hop/Unmanaged and Hop/Sessions of the store.
-- * lib/usage-ledger.js is Ledger/: Ledger/Event is normalizeUsageEvent,
--   Ledger/Shards the directory of shard files, append, the policy and prune,
--   Ledger/Query and Ledger/Rollup the reports. The index of event identifiers
--   that a process keeps in memory is apart from the directory that processes
--   share. A write of a line may come to any part of it, and throw after it or not;
--   text without a newline stays at the end of the file, and the next write is
--   glued to it. Date.parse, the date of a time and localeCompare are parameters.
--   Ledger/Once and Ledger/Appends prove of append, Ledger/Retention of prune,
--   Ledger/Order and Ledger/Totals of the reports.
-- * lib/route-profile-store.js is Profiles/: Profiles/Profile is
--   normalizeRouteProfile, Profiles/Store the store over Durable.antt;
--   Profiles/Saved proves.
-- * lib/store.js is Providers/: Providers/Config and Providers/Build are the
--   helpers on a provider's settings, Providers/Summary what is shown of one,
--   Providers/Store, Providers/Accounts and Providers/Imports the operations over
--   Durable.antt, Providers/Direct where a Codex provider is reached without its
--   command line tool. A store asks a reference resolver before a delete,
--   which is an argument of createStore or set by setReferenceResolver, and which no
--   code of the repository sets; Providers/Deletes proves of a delete by a store whose
--   resolver is the route profiles', Providers/Keys and Providers/Reimport of imports.
-- * lib/spawn-env.js is Spawn/: Spawn/CodexHome the files of a Codex home,
--   Spawn/Resolve resolveSpawnEnv, Spawn/Child buildChildEnv; Spawn/Owned and
--   Spawn/Closed prove. The lists of lib/constants.js stand where they are used.
-- * lib/routing.js is Routing/: Routing/Proxied is the environment of a Claude child
--   behind the proxy and the auth.json of a Codex home; Routing/Hidden proves.
-- * lib/model-policy.js is Policy/: Policy/Models the models and aliases of a
--   provider, Policy/Valid whether it can be asked for a model, Policy/Wire which
--   model is sent, and what is proved of it.
-- * Prelude.antt passes on the library names and the helpers of Prelude/;
--   Json.antt holds JSON values and the conversions JavaScript makes of them.
-- * Examples/ runs the models at concrete inputs.
--
-- The durable stores stand on the atomic files, and the takeover state reads and
-- writes its files through them as well. A delete of a provider asks a resolver
-- which profiles refer to it, if the store has one; the environment of a child is made from the
-- settings of its provider. The translation of requests and streams stands alone.
--
-- Bounds. A text is a list of UTF-16 code units; numbers are natural numbers, so
-- that JavaScript's rounding above 2^53 is outside. Letters are put in lower case
-- as ASCII letters. Loops run over a list or over the number of backups; only the
-- printing of a number in Json.antt takes fuel, the number's successor, which
-- bounds its digits. A lock contender makes one step at a time, so its retries
-- need no bound.
--
-- Not modelled: the HTTP servers and the sending of requests, the takeover of
-- other tools' configuration files, the web pages, the command line, and the
-- packing scripts, which are input and output around these parts; JSON.parse,
-- TOML.parse, URL, dates and the file system, which are parameters.

pub mod Prelude
pub mod Json
pub mod Atomic
pub mod Codex
pub mod Durable
pub mod Examples
pub mod Hop
pub mod Ledger
pub mod Lock
pub mod Policy
pub mod Profiles
pub mod Providers
pub mod Routing
pub mod Settings
pub mod Spawn
pub mod Takeover
