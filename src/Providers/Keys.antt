-- ===== src/Providers/Keys.antt =====
-- lib/store.js, importFromCcSwitch: the keys of the providers, which an import keeps.
use cli_provider_router.Prelude.{
  ℕ, ◌≡◌, refl, sym, ap, ◌∙◌, inl, inr, false, ◌||◌, Bool-cases, Option, some, if◌then◌else◌, List,
  [], ◌∷◌, ◌++◌, length, Text, codes, text_eq, text_eq_sound, arith,
}
use cli_provider_router.Json.{Json, str, obj, Fields, lookup, to_text}
use cli_provider_router.Durable.{insert_field}
use cli_provider_router.Ledger.Query.{printed}
use cli_provider_router.Settings.{insert_all, own_fields}
use cli_provider_router.Settings.Merge.{over, Distinct, lookup-insert_field, lookup-insert_all}
use cli_provider_router.Providers.Imports.{
  Imported, key_of, row_key, has_key, replace_last, merged_settings, merge_entry, entry_of,
}

pub has_key-append :
    (k : Text) (xs ys : List Json) → has_key k (xs ++ ys) ≡ (has_key k xs || has_key k ys)
unfolding has_key
has_key-append k [] ys = refl
has_key-append k (x ∷ xs) ys = ground (arith, has_key-append k xs ys)

-- A change that keeps the key of what it changes keeps the keys of the list, and its length.
pub has_key-replace_last :
    (j k : Text) (change : Json → Json) (vs : List Json)
    → ((v : Json) → key_of (change v) ≡ k)
    → has_key j (replace_last k change vs) ≡ has_key j vs
unfolding has_key replace_last
has_key-replace_last j k change [] c = refl
has_key-replace_last j k change (v ∷ vs) c = elim (Bool-cases (has_key k vs)) [
  | inl y ↦ ground (arith, y, has_key-replace_last j k change vs c)
  | inr n ↦ elim (Bool-cases (text_eq (key_of v) k)) [
    | inl e ↦
        rw (n, e) (ap (λ x. text_eq x j || has_key j vs) (c v ∙ sym (text_eq_sound (key_of v) k e)))
    | inr m ↦ ground (arith, n, m, has_key-replace_last j k change vs c)
  ]
]

pub length-replace_last :
    (k : Text) (change : Json → Json) (vs : List Json)
    → length (replace_last k change vs) ≡ length vs
unfolding replace_last
length-replace_last k change [] = refl
length-replace_last k change (v ∷ vs) = ground (arith, length-replace_last k change vs)

module _ (parse : Text → Option Json) (now : ℕ) where
  pub entry-key : (r : Imported) → key_of (obj (entry_of parse now r)) ≡ row_key r
  unfolding key_of row_key entry_of lookup text_eq to_text
  entry-key r = refl

  entry-Distinct : (r : Imported) → Distinct (entry_of parse now r)
  unfolding entry_of lookup text_eq
  entry-Distinct r = (refl, (refl, (refl, (refl, (refl, (refl, tt))))))

  -- What an import writes over an item, under a name other than that of the settings.
  merged_field :
      (k : Text) (r : Imported) (settings : Json) (fs : Fields) (v : Json)
      → text_eq (codes "settingsConfig") k ≡ false
      → lookup k (entry_of parse now r) ≡ some v
      → lookup k
          (insert_field (codes "settingsConfig") settings (insert_all fs (entry_of parse now r)))
        ≡ some v
  merged_field k r settings fs v n e =
      lookup-insert_field k (codes "settingsConfig") settings (insert_all fs (entry_of parse now r))
      ∙ ap (λ b. if b then some settings else lookup k (insert_all fs (entry_of parse now r))) n
      ∙ lookup-insert_all k fs (entry_of parse now r) (entry-Distinct r)
      ∙ ap (λ o. over o (lookup k fs)) e

  entry_app_type :
      (r : Imported) → lookup (codes "appType") (entry_of parse now r) ≡ some (str r.app_type)
  unfolding lookup entry_of text_eq
  entry_app_type r = refl

  entry_id : (r : Imported) → lookup (codes "id") (entry_of parse now r) ≡ some (str r.id)
  unfolding lookup entry_of text_eq
  entry_id r = refl

  other_names :
      (text_eq (codes "settingsConfig") (codes "appType") ≡ false)
      × (text_eq (codes "settingsConfig") (codes "id") ≡ false)
  unfolding text_eq
  other_names = (refl, refl)

  pub merged-key :
      (r : Imported) (prev : Json) → key_of (merge_entry (entry_of parse now r) prev) ≡ row_key r
  unfolding key_of row_key merge_entry to_text
  merged-key r prev =
      let settings = merged_settings (entry_of parse now r) prev in
      let fs = own_fields prev in
      let app_type =
        merged_field (codes "appType") r settings fs (str r.app_type) other_names.0
          (entry_app_type r) in
      let id = merged_field (codes "id") r settings fs (str r.id) other_names.1 (entry_id r) in
      let v =
        insert_field (codes "settingsConfig") settings (insert_all fs (entry_of parse now r)) in
      ap (λ o. printed o ++ codes ":" ++ printed (lookup (codes "id") v)) app_type
      ∙ ap (λ o. r.app_type ++ codes ":" ++ printed o) id
