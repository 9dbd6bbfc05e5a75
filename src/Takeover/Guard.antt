-- ===== src/Takeover/Guard.antt =====
-- lib/takeover-state.js: the lifecycle guard fails closed.
use cli_provider_router.Prelude.{
  ◌≡◌, refl, sym, ap, ◌∙◌, ◌↔◌, inl, inr, true, false, Option, none, some, ◌⊎◌, Result-cases, [],
  ◌∷◌, arith, Text, codes, mem_text, mem_text-cons, text_eq, ◌≢◌, ok,
}
use cli_provider_router.Json.{obj, Fields}
use cli_provider_router.Atomic.{Entry, document}
use cli_provider_router.Takeover.{
  Kind, Cli, claude, codex, Files, read_state_strict, active_phases, inactive_phases, state_phase,
  is_active_state, Owner, of_cc_switch, of_cli, file_of, kind_of, Status, status_of, Summary,
  summary, with_file, write_direct, assert_can_stop,
}

-- The phases that are known to be inactive are not among the active ones.
phases_disjoint : (t : Text) → mem_text t inactive_phases ≡ true → mem_text t active_phases ≡ false
phases_disjoint t h = elim (mem_text-cons t _ _ h) [
  | inl e ↦ rw e (unfold mem_text text_eq in refl)
  | inr h' ↦ elim (mem_text-cons t _ _ h') [
    | inl e ↦ rw e (unfold mem_text text_eq in refl)
    | inr h'' ↦ elim (mem_text-cons t _ _ h'') [
      | inl e ↦ rw e (unfold mem_text text_eq in refl)
      | inr impossible ↦ absurd (unfold mem_text in ground arith)
    ]
  ]
]

-- A persisted state is inactive only in one of the three phases that are known to be inactive: an
-- unknown phase counts as active.
is_active_state_unknown :
    (fs : Fields) (kind : Kind)
    → (is_active_state (some fs) kind ≡ false)
      ↔ (mem_text (state_phase (some fs) kind) inactive_phases ≡ true)
unfolding is_active_state
is_active_state_unknown fs kind = ground (arith, phases_disjoint (state_phase (some fs) kind))

-- A file that can be read and has no state, or a state in one of the phases known to be inactive.
abbrev pub IsIdle : Files → Owner → Type 0
IsIdle d o =
    (state : Option Fields) × (read_state_strict (file_of d o) ≡ ok state)
    × ((state ≡ none)
        ⊎ (mem_text (state_phase state (kind_of o))
              (codes "inactive" ∷ codes "restored" ∷ codes "full-restored" ∷ [])
            ≡ true))

inactive_state :
    (state : Option Fields) (kind : Kind)
    → is_active_state state kind ≡ false
    → (state ≡ none) ⊎ (mem_text (state_phase state kind) inactive_phases ≡ true)
inactive_state none kind h = inl refl
inactive_state (some fs) kind h = inr ((is_active_state_unknown fs kind).0 h)

idle_state :
    (state : Option Fields) (kind : Kind)
    → (state ≡ none) ⊎ (mem_text (state_phase state kind) inactive_phases ≡ true)
    → is_active_state state kind ≡ false
unfolding is_active_state state_phase mem_text text_eq
idle_state none kind h = refl
idle_state (some fs) kind (inl e) = absurd (ground (arith, e))
idle_state (some fs) kind (inr h) = (is_active_state_unknown fs kind).1 h

status-IsIdle :
    (d : Files) (o : Owner) (t : Status) → status_of d o ≡ ok t → t.active ≡ false → IsIdle d o
unfolding status_of
status-IsIdle d o t h i = elim (Result-cases (read_state_strict (file_of d o))) [
  | inr x ↦ ground arith
  | inl (state, r) ↦ (state, r, inactive_state state (kind_of o) (ground arith))
]

IsIdle-status :
    (d : Files) (o : Owner)
    → IsIdle d o
    → (t : Status) × (status_of d o ≡ ok t) × (t.active ≡ false)
unfolding status_of
IsIdle-status d o (state, r, h) = rw r (_, refl, idle_state state (kind_of o) h)

module _ (d : Files) where
  guarded :
      (s : Summary)
      → assert_can_stop d ≡ ok s
      → (o : Owner) → (t : Status) × (status_of d o ≡ ok t) × (t.active ≡ false)
  unfolding assert_can_stop summary
  guarded s h of_cc_switch = ground arith
  guarded s h (of_cli claude) = ground arith
  guarded s h (of_cli codex) = ground arith

  allowed :
      ((o : Owner) → (t : Status) × (status_of d o ≡ ok t) × (t.active ≡ false))
      → (s : Summary) × (assert_can_stop d ≡ ok s)
  unfolding assert_can_stop summary
  allowed all =
      let (a, p, i) = all of_cc_switch in
      let (b, q, j) = all (of_cli claude) in
      let (c, r, k) = all (of_cli codex) in
      (record { active = false; entries = a ∷ b ∷ c ∷ []; active_entries = [] }, ground arith)

-- The guard lets the service stop exactly when all three state files can be read and each of them
-- holds no state, or a state whose phase is inactive, restored or full-restored.
pub assert_can_stop_iff :
    (d : Files) → ((s : Summary) × (assert_can_stop d ≡ ok s)) ↔ ((o : Owner) → IsIdle d o)
assert_can_stop_iff d = (
  λ (s, h) o. (let (t, e, i) = guarded d s h o in status-IsIdle d o t e i),
  λ all. allowed d (λ o. IsIdle-status d o (all o)),
)

file_of-with_file_self : (d : Files) (o : Owner) (e : Entry) → file_of (with_file d o e) o ≡ e
file_of-with_file_self d of_cc_switch e = refl
file_of-with_file_self d (of_cli claude) e = refl
file_of-with_file_self d (of_cli codex) e = refl

file_of-with_file :
    (d : Files) (o p : Owner) (e : Entry) → p ≢ o → file_of (with_file d o e) p ≡ file_of d p
file_of-with_file d of_cc_switch of_cc_switch e h = absurd (h refl)
file_of-with_file d (of_cli claude) (of_cli claude) e h = absurd (h refl)
file_of-with_file d (of_cli codex) (of_cli codex) e h = absurd (h refl)
file_of-with_file d of_cc_switch (of_cli claude) e h = refl
file_of-with_file d of_cc_switch (of_cli codex) e h = refl
file_of-with_file d (of_cli claude) of_cc_switch e h = refl
file_of-with_file d (of_cli claude) (of_cli codex) e h = refl
file_of-with_file d (of_cli codex) of_cc_switch e h = refl
file_of-with_file d (of_cli codex) (of_cli claude) e h = refl

-- A write for a CLI that succeeds is read back, and leaves the other owners' files as they were.
write_direct_lem :
    (d d' : Files) (c : Cli) (fs : Fields)
    → write_direct d c (obj fs) ≡ ok d'
    → (read_state_strict (file_of d' (of_cli c)) ≡ ok (some fs))
      × ((o : Owner) → o ≢ of_cli c → file_of d' o ≡ file_of d o)
unfolding write_direct read_state_strict
write_direct_lem d d' c fs h =
    let e : with_file d (of_cli c) (document (obj fs)) ≡ d' = ground arith in
    (
      ap (λ x. read_state_strict (file_of x (of_cli c))) (sym e)
          ∙ ap read_state_strict (file_of-with_file_self d (of_cli c) (document (obj fs))),
      λ o other.
          ap (λ x. file_of x o) (sym e)
          ∙ file_of-with_file d (of_cli c) o (document (obj fs)) other,
    )
