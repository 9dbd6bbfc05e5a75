-- ===== src/Settings/Updates.antt =====
-- lib/settings-store.js, update and getAll: what is read after an update.
use cli_provider_router.Prelude.{
  ℕ, ◌+◌, ◌≡◌, refl, sym, ap, ◌∙◌, subst, inl, inr, Bool, true, some, Option-cases, Text, text_eq,
  text_ne, ok, err, Result-cases, arith,
}
use cli_provider_router.Json.{obj, Fields, lookup}
use cli_provider_router.Atomic.{Disk, Step, StateError, primary, document}
use cli_provider_router.Durable.{Current, Mutated, envelope_of, load, commit, mutate, settle}
use cli_provider_router.Durable.Laws.{IsPlainKey, written, load-envelope_of}
use cli_provider_router.Durable.Updates.{commit-ok}
use cli_provider_router.Settings.{
  settings_schema, insert_all, own_fields, merged, update_callback, result_of, get_all, update,
}
use cli_provider_router.Settings.Merge.{
  over, Distinct, insert_all-Distinct, lookup-insert_all, insert_all-none,
}

settings_plain : IsPlainKey settings_schema
unfolding text_eq
settings_plain = record {
  not_schema = text_ne _ _ refl;
  not_version = text_ne _ _ refl;
  not_revision = text_ne _ _ refl;
  not_updated = text_ne _ _ refl;
}

module _ (works : Step → Bool) (defaults : Fields) where
  abbrev answer_of : Fields → Current → Mutated Fields
  answer_of patch c = record {
    changed = true;
    revision = c.revision + 1;
    result = some (merged defaults c.payload patch);
  }

  mutate_commits :
      (patch : Fields) (now : ℕ) (d : Disk) (c : Current)
      → (load works settings_schema d).1 ≡ ok c
      → mutate works settings_schema (update_callback defaults patch) now d
        ≡ commit works settings_schema {E = ⊥}
            (obj (merged defaults c.payload patch))
            (c.revision + 1)
            now
            (answer_of patch c)
            (load works settings_schema d).0
  unfolding mutate settle
  mutate_commits patch now d c e = rw (e, mutate)

  update_refused :
      (patch : Fields) (now : ℕ) (d : Disk) (after : Fields) (x : StateError)
      → (load works settings_schema d).1 ≡ err x
      → (update works defaults (obj patch) now d).1 ≡ ok after
      → ⊥
  unfolding update mutate
  update_refused patch now d after x e h = ground arith

  update_commits :
      (patch : Fields) (now : ℕ) (d : Disk) (c : Current)
      → (load works settings_schema d).1 ≡ ok c
      → update works defaults (obj patch) now d ≡ (
          let (d', done) =
            commit works settings_schema {E = ⊥}
              (obj (merged defaults c.payload patch))
              (c.revision + 1)
              now
              (answer_of patch c)
              (load works settings_schema d).0 in
          (d', result_of done))
  unfolding update
  update_commits patch now d c e = rw (mutate_commits patch now d c e) refl

  -- An update that returns has loaded a document, and the next load gives the merged settings.
  update_loaded :
      (patch after : Fields) (now : ℕ) (d : Disk)
      → (update works defaults (obj patch) now d).1 ≡ ok after
      → (c : Current) × ((load works settings_schema d).1 ≡ ok c)
        × (after ≡ merged defaults c.payload patch)
        × (load works settings_schema (update works defaults (obj patch) now d).0 ≡ (
          (update works defaults (obj patch) now d).0,
          ok (written settings_schema (obj after) (c.revision + 1)),
        ))
  update_loaded patch after now d h = elim (Result-cases (load works settings_schema d).1) [
    | inr (x, e) ↦ absurd (update_refused patch now d after x e h)
    | inl (c, e) ↦
        let go = update_commits patch now d c e in
        let m = merged defaults c.payload patch in
        let d0 = (load works settings_schema d).0 in
        elim (Result-cases
          (commit works settings_schema {E = ⊥} (obj m) (c.revision + 1) now (answer_of patch c)
            d0).1) [
              | inr (x, f) ↦ absurd (ground (arith, h, f, ap (λ x. x.1) go))
              | inl (a, f) ↦
                  let (is_answer, there) =
                    commit-ok works settings_schema {E = ⊥} (obj m) (c.revision + 1) now
                      (answer_of patch c) a d0 f in
                  (
                    c,
                    e,
                    ground (arith, h, f, ap (λ x. x.1) go, is_answer),
                    load-envelope_of works settings_schema settings_plain (obj after)
                        (c.revision + 1) now (update works defaults (obj patch) now d).0
                        (ap (λ x. x.0 primary) go
                          ∙ there
                          ∙ ap
                              (λ a'.
                                document
                                  (envelope_of settings_schema (obj a') (c.revision + 1) now))
                              (ground (arith, h, f, ap (λ x. x.1) go, is_answer))),
                  )
            ]
  ]

  get_all_loaded :
      (d : Disk) (c : Current)
      → (load works settings_schema d).1 ≡ ok c
      → (get_all works defaults d).1 ≡ ok (insert_all defaults (own_fields c.payload))
  unfolding get_all
  get_all_loaded d c e = rw (e, get_all)

  get_all_again :
      (d : Disk) (c : Current)
      → load works settings_schema d ≡ (d, ok c)
      → get_all works defaults d ≡ (d, ok (insert_all defaults (own_fields c.payload)))
  unfolding get_all
  get_all_again d c e = rw (e, get_all)

  -- What the merged settings hold, and what reading them over the defaults gives.
  lookup-merged :
      (k : Text) (base patch : Fields)
      → Distinct defaults
      → Distinct patch
      → let before = insert_all defaults base in
        let after = insert_all before patch in
        (lookup k (insert_all defaults after) ≡ over (lookup k patch) (lookup k before))
        × (lookup k after ≡ lookup k (insert_all defaults after))
  lookup-merged k base patch dd dp =
      let before = insert_all defaults base in
      let after = insert_all before patch in
      let full = insert_all-Distinct before patch (insert_all-Distinct defaults base dd) in
      let whole = lookup-insert_all k defaults after full in
      let part = lookup-insert_all k before patch dp in
      elim (Option-cases (lookup k after)) [
        | inl n ↦ ground (
          arith,
          n,
          whole,
          part,
          insert_all-none k defaults base (insert_all-none k before patch n),
        )
        | inr (v, e) ↦ ground (arith, e, whole, part)
      ]

  -- After an update that returns, provided neither the defaults nor the patch name a setting twice,
  -- getAll gives at every name the patch's value, or else what it gave before, and so does the
  -- result of the update.
  pub update-get_all :
      (patch after : Fields) (now : ℕ) (d : Disk)
      → Distinct defaults
      → Distinct patch
      → (update works defaults (obj patch) now d).1 ≡ ok after
      → (before : Fields) × (again : Fields) × ((get_all works defaults d).1 ≡ ok before)
        × (get_all works defaults (update works defaults (obj patch) now d).0
            ≡ ((update works defaults (obj patch) now d).0, ok again))
        × ((k : Text)
            → (lookup k again ≡ over (lookup k patch) (lookup k before))
              × (lookup k after ≡ lookup k again))
  unfolding merged
  update-get_all patch after now d dd dp h =
      let (c, e, same, l) = update_loaded patch after now d h in
      (
        insert_all defaults (own_fields c.payload),
        insert_all defaults after,
        get_all_loaded d c e,
        get_all_again _ _ l,
        λ k.
            subst
              (λ a.
                (lookup k (insert_all defaults a)
                  ≡ over (lookup k patch) (lookup k (insert_all defaults (own_fields c.payload))))
                × (lookup k a ≡ lookup k (insert_all defaults a)))
              (sym same) (lookup-merged k (own_fields c.payload) patch dd dp),
      )
