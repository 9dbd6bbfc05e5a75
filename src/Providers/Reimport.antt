-- ===== src/Providers/Reimport.antt =====
-- lib/store.js, importFromCcSwitch: an import that is repeated adds nothing.
use cli_provider_router.Prelude.{
  ℕ, ◌+◌, ◌≡◌, refl, sym, ap, ◌∙◌, inl, inr, Bool, true, ◌||◌, Bool-cases, Option, List, [], ◌∷◌,
  ◌++◌, length, length-append, All, Text, text_eq_refl, mem_text, arith,
}
use cli_provider_router.Json.{Json, obj}
use cli_provider_router.Providers.Store.{app_types}
use cli_provider_router.Providers.Imports.{
  Imported, row_key, has_key, replace_last, merge_entry, Import, entry_of, import_row, import_rows,
  import_list,
}
use cli_provider_router.Providers.Keys.{
  has_key-append, has_key-replace_last, length-replace_last, entry-key, merged-key,
}

module _ (parse : Text → Option Json) (now : ℕ) where
  -- Whether an import so far has the key, among the old items or the new ones.
  abbrev Has : Text → Import → Type 0
  Has k s = (has_key k s.old || has_key k s.added) ≡ true

  abbrev is_imported : Imported → Bool
  is_imported r = mem_text r.app_type app_types

  import_row-Has :
      (k : Text) (r : Imported) (s : Import) → Has k s → Has k (import_row parse now r s)
  unfolding import_row
  import_row-Has k r s h = ground (
    arith,
    h,
    has_key-replace_last k (row_key r) (merge_entry (entry_of parse now r)) s.old
        (merged-key parse now r),
    has_key-append k s.added (obj (entry_of parse now r) ∷ []),
  )

  row_key-Has :
      (r : Imported) (s : Import)
      → is_imported r ≡ true
      → Has (row_key r) (import_row parse now r s)
  unfolding import_row has_key
  row_key-Has r s m = ground (
    arith,
    m,
    has_key-replace_last (row_key r) (row_key r) (merge_entry (entry_of parse now r)) s.old
        (merged-key parse now r),
    has_key-append (row_key r) s.added (obj (entry_of parse now r) ∷ []),
    entry-key parse now r,
    text_eq_refl (row_key r),
  )

  import_rows-Has :
      (k : Text) (rs : List Imported) (s : Import) → Has k s → Has k (import_rows parse now rs s)
  unfolding import_rows
  import_rows-Has k [] s h = h
  import_rows-Has k (r ∷ rs) s h =
      import_rows-Has k rs (import_row parse now r s) (import_row-Has k r s h)

  abbrev Covers : Import → Imported → Type 0
  Covers s r = is_imported r ≡ true → Has (row_key r) s

  import_rows_cover :
      (rs : List Imported) (s : Import) → All (Covers (import_rows parse now rs s)) rs
  unfolding import_rows
  import_rows_cover [] s = tt
  import_rows_cover (r ∷ rs) s = (
    λ m. import_rows-Has (row_key r) rs (import_row parse now r s) (row_key-Has r s m),
    import_rows_cover rs (import_row parse now r s),
  )

  -- Each row that counts stands in the list already.
  abbrev Known : List Json → Imported → Type 0
  Known vs r = is_imported r ≡ true → has_key (row_key r) vs ≡ true

  weaken-Known :
      (rs : List Imported) (vs ws : List Json)
      → ((k : Text) → has_key k vs ≡ has_key k ws)
      → All (Known vs) rs
      → All (Known ws) rs
  weaken-Known [] vs ws same h = tt
  weaken-Known (r ∷ rs) vs ws same h =
      (λ m. sym (same (row_key r)) ∙ h.0 m, weaken-Known rs vs ws same h.1)

  import_row-Known :
      (r : Imported) (s : Import)
      → Known s.old r
      → let s' = import_row parse now r s in
        (s'.added ≡ s.added)
        × (s'.imported ≡ s.imported)
        × (length s'.old ≡ length s.old)
        × ((k : Text) → has_key k s.old ≡ has_key k s'.old)
  unfolding import_row
  import_row-Known r s h = elim (Bool-cases (is_imported r)) [
    | inr n ↦ rw n (refl, refl, refl, λ k. refl)
    | inl y ↦
        let there = h y in
        let change = merge_entry (entry_of parse now r) in
        rw (y, there)
          (
            refl,
            refl,
            length-replace_last (row_key r) change s.old,
            λ k. sym (has_key-replace_last k (row_key r) change s.old (merged-key parse now r)),
          )
  ]

  import_rows-Known :
      (rs : List Imported) (s : Import)
      → All (Known s.old) rs
      → let s' = import_rows parse now rs s in
        (s'.added ≡ s.added) × (s'.imported ≡ s.imported) × (length s'.old ≡ length s.old)
  unfolding import_rows
  import_rows-Known [] s h = (refl, refl, refl)
  import_rows-Known (r ∷ rs) s h =
      let (added, imported, size, keys) = import_row-Known r s h.0 in
      let s' = import_row parse now r s in
      let (added', imported', size') =
        import_rows-Known rs s' (weaken-Known rs s.old s'.old keys h.1) in
      (added' ∙ added, imported' ∙ imported, size' ∙ size)

  import_row_size :
      (r : Imported) (s : Import)
      → let s' = import_row parse now r s in
        length (s'.old ++ s'.added) + s.imported ≡ length (s.old ++ s.added) + s'.imported
  unfolding import_row
  import_row_size r s = ground (
    arith,
    length-append s.old s.added,
    length-append s.old (s.added ++ (obj (entry_of parse now r) ∷ [])),
    length-append s.added (obj (entry_of parse now r) ∷ []),
    length-append (replace_last (row_key r) (merge_entry (entry_of parse now r)) s.old) s.added,
    length-replace_last (row_key r) (merge_entry (entry_of parse now r)) s.old,
  )

  import_rows_size :
      (rs : List Imported) (s : Import)
      → let s' = import_rows parse now rs s in
        length (s'.old ++ s'.added) + s.imported ≡ length (s.old ++ s.added) + s'.imported
  unfolding import_rows
  import_rows_size [] s = refl
  import_rows_size (r ∷ rs) s =
      omega (arith, import_row_size r s, import_rows_size rs (import_row parse now r s))

  covered-Known :
      (rs : List Imported) (s : Import) → All (Covers s) rs → All (Known (s.old ++ s.added)) rs
  covered-Known [] s h = tt
  covered-Known (r ∷ rs) s h =
      (λ m. has_key-append (row_key r) s.old s.added ∙ h.0 m, covered-Known rs s h.1)

-- An import that is repeated with the same rows, at once or later, adds no provider and leaves the
-- list as long as it was, and the first import made it longer by as many providers as it reports.
pub import_again :
    (parse : Text → Option Json) (now later : ℕ) (rs : List Imported) (vs : List Json)
    → let (ws, imported, updated) = import_list parse now rs vs in
      let (xs, imported', updated') = import_list parse later rs ws in
      (imported' ≡ 0) × (length xs ≡ length ws) × (length ws ≡ length vs + imported)
unfolding import_list
import_again parse now later rs vs =
    let s : Import = record { old = vs; added = []; imported = 0; updated = 0 } in
    let a = import_rows parse now rs s in
    let ws = a.old ++ a.added in
    let s' : Import = record { old = ws; added = []; imported = 0; updated = 0 } in
    let known = covered-Known parse now rs a (import_rows_cover parse now rs s) in
    let (added, imported, size) = import_rows-Known parse later rs s' known in
    (
      imported,
      length-append (import_rows parse later rs s').old (import_rows parse later rs s').added
          ∙ omega (arith, size, ap length added),
      omega (arith, import_rows_size parse now rs s, length-append vs []),
    )
