-- ===== src/Durable/Changes.antt =====
-- lib/durable-store.js, `mutate`: what a read-modify-write that returns has loaded and left behind.
use cli_provider_router.Prelude.{
  ℕ, ◌+◌, ◌≡◌, sym, ap, ◌∙◌, inl, inr, Bool, true, false, none, some, arith, Result, ok, err,
  Result-cases, subst,
}
use cli_provider_router.Json.{Json}
use cli_provider_router.Atomic.{Disk, Step}
use cli_provider_router.Durable.{
  Schema, Current, Outcome, unchanged, next, shapeless, Mutated, load, settle, mutate,
}
use cli_provider_router.Durable.Laws.{IsPlainKey, written, load-envelope_of}
use cli_provider_router.Durable.Updates.{commit-ok}

module _ (works : Step → Bool) (s : Schema) where
  -- A callback that gave null has left the payload, and one that gave a next payload has it stored.
  abbrev pub IsSettled :
      {E : Type 0} {R : Type 0} → Result E (Outcome R) → ℕ → Disk → Mutated R → Type 0
  IsSettled (ok unchanged) revision d m =
      m ≡ record { changed = false; revision = revision; result = none }
  IsSettled (ok (next payload r)) revision d m =
      (m ≡ record { changed = true; revision = revision + 1; result = some r })
      × (load works s d ≡ (d, ok (written s payload (revision + 1))))
  IsSettled (ok shapeless) revision d m = ⊥
  IsSettled (err e) revision d m = ⊥

  settle-IsSettled :
      {E : Type 0} {R : Type 0} (plain : IsPlainKey s) (outcome : Result E (Outcome R))
      (revision now : ℕ) (d : Disk) (m : Mutated R)
      → (settle works s outcome revision now d).1 ≡ ok m
      → IsSettled outcome revision (settle works s outcome revision now d).0 m
  unfolding settle
  settle-IsSettled plain (ok unchanged) revision now d m h = ground arith
  settle-IsSettled plain (ok shapeless) revision now d m h = ground arith
  settle-IsSettled plain (err e) revision now d m h = ground arith
  settle-IsSettled {E} {R} plain (ok (next payload r)) revision now d m h =
      let answer : Mutated R = record {
        changed = true;
        revision = revision + 1;
        result = some r;
      } in
      let (same, there) = commit-ok works s {E = E} payload (revision + 1) now answer m d h in
      (same, load-envelope_of works s plain payload (revision + 1) now _ there)

  -- A mutate that returns has loaded a document, and settles what its callback gave for it.
  pub mutate-IsSettled :
      {E : Type 0} {R : Type 0} (plain : IsPlainKey s) (fn : Json → ℕ → Bool → Result E (Outcome R))
      (now : ℕ) (d : Disk) (m : Mutated R)
      → (mutate works s fn now d).1 ≡ ok m
      → (c : Current) × ((load works s d).1 ≡ ok c)
        × IsSettled (fn c.payload c.revision c.is_present) c.revision (mutate works s fn now d).0 m
  unfolding mutate
  mutate-IsSettled {E} {R} plain fn now d m h = elim (Result-cases (load works s d).1) [
    | inr (x, e) ↦ ground arith
    | inl (c, e) ↦
        let outcome = fn c.payload c.revision c.is_present in
        let same : mutate works s fn now d
            ≡ settle works s outcome c.revision now (load works s d).0 =
          rw (e, mutate) in
        (
          c,
          e,
          subst (λ z. IsSettled outcome c.revision z.0 m) (sym same)
              (settle-IsSettled plain outcome c.revision now (load works s d).0 m
                (ap (λ z. z.1) (sym same) ∙ h)),
        )
  ]
