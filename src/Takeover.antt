-- ===== src/Takeover.antt =====
-- lib/takeover-state.js: the persisted takeover records of CC-Switch and of the two native CLIs,
-- and the guard that keeps the service from stopping while one of them is active.
pub mod Guard
use cli_provider_router.Prelude.{
  Bool, true, false, not, ◌&&◌, ◌||◌, Option, none, some, List, [], ◌∷◌, if◌then◌else◌, Text, codes,
  is_empty, lower, mem_text, Result, ok, err, ◌>>=◌, any, keep,
}
use cli_provider_router.Json.{Json, null, arr, obj, Fields, lookup, truthy, or_blank, to_text}
use cli_provider_router.Atomic.{Entry, absent, denied, failing, blank, malformed, document}

pub data Kind : Type 0 where
  ccswitch direct_cli : Kind

pub data Cli : Type 0 where
  claude codex : Cli

-- The three state files: ccSwitchStateFile, and claude.json and codex.json of the direct state.
pub record Files : Type 0 where
  pub cc_switch : Entry
  pub claude_state : Entry
  pub codex_state : Entry

-- The codes TAKEOVER_STATE_UNREADABLE and TAKEOVER_STATE_INVALID.
pub data StateFault : Type 0 where
  unreadable invalid : StateFault

-- `readStateStrict`: the fields of the state's object, or `none` for null.
unfoldable pub read_state_strict : Entry → Result StateFault (Option Fields)
read_state_strict absent = ok none
read_state_strict denied = err unreadable
read_state_strict failing = err unreadable
read_state_strict blank = err invalid
read_state_strict malformed = err invalid
read_state_strict (document (obj fs)) = ok (some fs)
read_state_strict (document v) = err invalid

abbrev pub active_phases : List Text
active_phases =
    codes "applying"
    ∷ codes "active"
    ∷ codes "restoring"
    ∷ codes "conflict"
    ∷ codes "rollback-required"
    ∷ []

abbrev pub inactive_phases : List Text
inactive_phases = codes "inactive" ∷ codes "restored" ∷ codes "full-restored" ∷ []

abbrev pub is_array : Option Json → Bool
is_array (some (arr vs)) = true
is_array _ = false

abbrev pub is_set : Option Json → Bool
is_set none = false
is_set (some v) = truthy v

-- `state.status || state.phase || ''`.
abbrev pub status_or_phase : Fields → Json
status_or_phase fs =
    if is_set (lookup (codes "status") fs)
    then or_blank (lookup (codes "status") fs)
    else or_blank (lookup (codes "phase") fs)

-- The list that a state of this kind keeps of what was changed.
abbrev pub changes_key : Kind → Text
changes_key direct_cli = codes "appliedFiles"
changes_key ccswitch = codes "changes"

unfoldable pub state_phase : Option Fields → Kind → Text
state_phase none kind = codes "inactive"
state_phase (some fs) kind =
    let explicit = lower (to_text (status_or_phase fs)) in
    if not (is_empty explicit)
    then explicit
    else if is_set (lookup (codes "snapshotId") fs) || is_array (lookup (changes_key kind) fs)
    then codes "active"
    else codes "inactive"

abbrev pub is_some {ℓ} : {A : Type ℓ} → Option A → Bool
is_some none = false
is_some (some a) = true

unfoldable pub is_active_state : Option Fields → Kind → Bool
is_active_state state kind =
    if mem_text (state_phase state kind) active_phases
    then true
    else if mem_text (state_phase state kind) inactive_phases
    then false
    else is_some state

pub data Owner : Type 0 where
  of_cc_switch : Owner
  of_cli : Cli → Owner

pub record Status : Type 0 where
  pub owner : Owner
  pub state : Option Fields
  pub phase : Text
  pub active : Bool

abbrev pub kind_of : Owner → Kind
kind_of of_cc_switch = ccswitch
kind_of (of_cli c) = direct_cli

abbrev pub file_of : Files → Owner → Entry
file_of d of_cc_switch = d.cc_switch
file_of d (of_cli claude) = d.claude_state
file_of d (of_cli codex) = d.codex_state

-- `ccSwitch` and `direct`.
unfoldable pub status_of : Files → Owner → Result StateFault Status
status_of d o = do
  state ← read_state_strict (file_of d o)
  ok (record {
    owner = o;
    state = state;
    phase = state_phase state (kind_of o);
    active = is_active_state state (kind_of o);
  })

-- The command-line argument; `none` is the error "cli must be claude or codex".
unfoldable pub cli_of : Text → Option Cli
cli_of t =
    if mem_text t (codes "claude" ∷ [])
    then some claude
    else if mem_text t (codes "codex" ∷ [])
    then some codex
    else none

pub record Summary : Type 0 where
  pub active : Bool
  pub entries : List Status
  pub active_entries : List Status

unfoldable pub summary : Files → Result StateFault Summary
summary d = do
  cc ← status_of d of_cc_switch
  first ← status_of d (of_cli claude)
  second ← status_of d (of_cli codex)
  let entries : List Status = cc ∷ first ∷ second ∷ []
  ok (record {
    active = any (λ e. e.active) entries;
    entries = entries;
    active_entries = keep (λ e. e.active) entries;
  })

abbrev pub with_file : Files → Owner → Entry → Files
with_file d of_cc_switch e = record d { cc_switch = e }
with_file d (of_cli claude) e = record d { claude_state = e }
with_file d (of_cli codex) e = record d { codex_state = e }

-- `writeCcSwitch` replaces the file whatever it held.
pub write_cc_switch : Files → Json → Files
write_cc_switch d state = with_file d of_cc_switch (document state)

-- `writeDirect` and `removeDirect` read the present state first, and throw if that fails.
unfoldable pub write_direct : Files → Cli → Json → Result StateFault Files
write_direct d c state = do
  present ← status_of d (of_cli c)
  ok (with_file d (of_cli c) (document state))

unfoldable pub remove_direct : Files → Cli → Result StateFault Files
remove_direct d c = do present ← status_of d (of_cli c); ok (with_file d (of_cli c) absent)

-- The errors of `assertCanStop`: a state that cannot be read, and ACTIVE_TAKEOVER with the
-- takeovers that would be stranded.
pub data StopFault : Type 0 where
  fault : StateFault → StopFault
  active_takeover : List Status → StopFault

unfoldable pub assert_can_stop : Files → Result StopFault Summary
assert_can_stop d = elim (summary d) [
  | err e ↦ err (fault e)
  | ok s ↦ if s.active then err (active_takeover s.active_entries) else ok s
]
