-- ===== src/Settings/Merge.antt =====
-- lib/settings-store.js, `{ ...defaults, ...current, ...patch }`: what a merged object holds.
use cli_provider_router.Prelude.{
  ◌≡◌, refl, sym, ap, ◌∙◌, subst, inl, inr, true, false, Bool-cases, Option, none, some, Text,
  text_eq, text_eq_refl, text_eq_sound, text_eq_iff, if◌then◌else◌, arith,
}
use cli_provider_router.Json.{Json, Fields, end, field, lookup}
use cli_provider_router.Durable.{insert_field}
use cli_provider_router.Settings.{insert_all}

-- `a`, or else `b`.
abbrev pub over : {A : Type 0} → Option A → Option A → Option A
over none b = b
over (some x) b = some x

-- No name is there twice.
abbrev pub Distinct : Fields → Type 0
Distinct end = Unit
Distinct (field k v fs) = (lookup k fs ≡ none) × Distinct fs

same :
    (j k : Text) (v w : Json) (fs : Fields)
    → lookup j (field k v fs) ≡ (if text_eq k j then some v else lookup j (field k w fs))
unfolding lookup
same j k v w fs = ground arith

-- A name that is not `k` leaves `k` to the others.
other : (j i k : Text) → text_eq i k ≡ false → text_eq i j ≡ true → text_eq k j ≡ false
other j i k n e = ground (arith, text_eq_iff i k, text_eq_iff i j, text_eq_iff k j)

pub lookup-insert_field :
    (j k : Text) (v : Json) (fs : Fields)
    → lookup j (insert_field k v fs) ≡ (if text_eq k j then some v else lookup j fs)
unfolding lookup insert_field
lookup-insert_field j k v end = refl
lookup-insert_field j k v (field i w fs) = elim (Bool-cases (text_eq i k)) [
  | inl e ↦ rw e (
      subst
        (λ x. lookup j (field x v fs) ≡ (if text_eq k j then some v else lookup j (field x w fs)))
        (sym (text_eq_sound i k e)) (same j k v w fs))
  | inr n ↦ rw n (ground (arith, other j i k n, lookup-insert_field j k v fs))
]

pub insert_field-Distinct :
    (k : Text) (v : Json) (fs : Fields) → Distinct fs → Distinct (insert_field k v fs)
unfolding insert_field lookup
insert_field-Distinct k v end d = (refl, tt)
insert_field-Distinct k v (field i w fs) d = elim (Bool-cases (text_eq i k)) [
  | inl e ↦ rw e d
  | inr n ↦ rw n (
    lookup-insert_field i k v fs ∙ ground (arith, other i i k n (text_eq_refl i), d.0),
    insert_field-Distinct k v fs d.1,
  )
]

pub insert_all-Distinct : (fs more : Fields) → Distinct fs → Distinct (insert_all fs more)
unfolding insert_all
insert_all-Distinct fs end d = d
insert_all-Distinct fs (field k v more) d =
    insert_all-Distinct (insert_field k v fs) more (insert_field-Distinct k v fs d)

pub lookup-insert_all :
    (j : Text) (fs more : Fields)
    → Distinct more
    → lookup j (insert_all fs more) ≡ over (lookup j more) (lookup j fs)
unfolding insert_all lookup
lookup-insert_all j fs end d = refl
lookup-insert_all j fs (field k v more) d = elim (Bool-cases (text_eq k j)) [
  | inl e ↦
      let gone : lookup j more ≡ none =
        subst (λ x. lookup x more ≡ none) (text_eq_sound k j e) d.0 in
      lookup-insert_all j (insert_field k v fs) more d.1
      ∙ rw (gone, e) (lookup-insert_field j k v fs ∙ rw e refl)
  | inr n ↦
      lookup-insert_all j (insert_field k v fs) more d.1
      ∙ rw n (ap (over (lookup j more)) (lookup-insert_field j k v fs ∙ rw n refl))
]

-- What was there before is not lost.
pub insert_all-none :
    (j : Text) (fs more : Fields) → lookup j (insert_all fs more) ≡ none → lookup j fs ≡ none
unfolding insert_all
insert_all-none j fs end h = h
insert_all-none j fs (field k v more) h =
    let before = insert_all-none j (insert_field k v fs) more h in
    ground (arith, lookup-insert_field j k v fs)
