-- ===== src/Ledger/Order.antt =====
-- lib/usage-ledger.js, query: the order and the limit of what is returned.
use mathlib.Core.List.{Perm, perm_middle}
use mathlib.Core.List.Perm
use cli_provider_router.Prelude.{
  ◌++◌, keep, err, ℕ, zero, suc, ◌-◌, ◌≤◌, ◌≡◌, refl, ap, subst, inl, inr, Bool, true, false,
  Bool-cases, Option, none, some, leb, ◌==◌, if◌then◌else◌, List, [], ◌∷◌, length, drop, All, Text,
  codes, ok, Result-cases, arith,
}
use cli_provider_router.Json.{Json, Fields, lookup, to_number}
use cli_provider_router.Ledger.Event.{Event, is_nullish, json_or_null}
use cli_provider_router.Ledger.Shards.{Shard, read_all}
use cli_provider_router.Ledger.Query.{
  event_matches, filter_events, not_after, insert_sorted, sort_events, slice_last, limit_of, query,
}

-- Nothing in the list occurred before `t`, and no item before the one in front of it.
abbrev pub IsAfter : ℕ → Event → Type 0
IsAfter t e = t ≤ e.occurred_at

abbrev pub IsOrdered : List Event → Type 0
IsOrdered [] = Unit
IsOrdered (e ∷ es) = All (IsAfter e.occurred_at) es × IsOrdered es

length-drop {ℓ} : {A : Type ℓ} (n : ℕ) (xs : List A) → length (drop n xs) ≡ length xs - n
length-drop zero xs = omega arith
length-drop (suc n) [] = omega arith
length-drop (suc n) (x ∷ xs) = omega (arith, length-drop n xs)

All-weaken : (t u : ℕ) (es : List Event) → t ≤ u → All (IsAfter u) es → All (IsAfter t) es
All-weaken t u [] h a = tt
All-weaken t u (e ∷ es) h a = (omega (arith, h, a.0), All-weaken t u es h a.1)

take_drop {ℓ} : {A : Type ℓ} (n : ℕ) (xs : List A) → (front : List A) × (xs ≡ front ++ drop n xs)
take_drop zero xs = ([], refl)
take_drop (suc n) [] = ([], refl)
take_drop (suc n) (x ∷ xs) = (let (front, e) = take_drop n xs in (x ∷ front, ap (λ ys. x ∷ ys) e))

-- How many events a limit leaves of so many.
abbrev pub limited : Option ℕ → ℕ → ℕ
limited none n = n
limited (some l) n = if l == 0 then n else if leb l n then l else n

module _ (parse_date : Text → Option ℕ) (iso_date : ℕ → Text) (before : Text → Text → Bool) where
  insert_sorted-perm :
      (e : Event) (es : List Event) → Perm (insert_sorted parse_date iso_date before e es) (e ∷ es)
  unfolding insert_sorted
  insert_sorted-perm e [] = Perm.refl (e ∷ [])
  insert_sorted-perm e (f ∷ fs) = elim (Bool-cases (not_after parse_date iso_date before e f)) [
    | inl y ↦ rw y (Perm.refl (e ∷ f ∷ fs))
    | inr n ↦ rw n (Perm.trans (Perm.cons f (insert_sorted-perm e fs)) (perm_middle (f ∷ []) fs))
  ]

  sort_events-perm : (es : List Event) → Perm (sort_events parse_date iso_date before es) es
  unfolding sort_events
  sort_events-perm [] = Perm.refl []
  sort_events-perm (e ∷ es) =
      Perm.trans (insert_sorted-perm e _) (Perm.cons e (sort_events-perm es))

  insert_sorted-All :
      (P : Event → Type 0) (e : Event) (es : List Event)
      → P e
      → All P es
      → All P (insert_sorted parse_date iso_date before e es)
  unfolding insert_sorted
  insert_sorted-All P e [] p h = (p, tt)
  insert_sorted-All P e (f ∷ fs) p h =
      elim (Bool-cases (not_after parse_date iso_date before e f)) [
        | inl y ↦ rw y (p, h)
        | inr n ↦ rw n (h.0, insert_sorted-All P e fs p h.1)
      ]

  not_after-le :
      (e f : Event)
      → ((not_after parse_date iso_date before e f ≡ true) → e.occurred_at ≤ f.occurred_at)
        × ((not_after parse_date iso_date before e f ≡ false) → f.occurred_at ≤ e.occurred_at)
  unfolding not_after
  not_after-le e f = ground arith

  insert_sorted-IsOrdered :
      (e : Event) (es : List Event)
      → IsOrdered es
      → IsOrdered (insert_sorted parse_date iso_date before e es)
  unfolding insert_sorted
  insert_sorted-IsOrdered e [] h = (tt, tt)
  insert_sorted-IsOrdered e (f ∷ fs) h =
      elim (Bool-cases (not_after parse_date iso_date before e f)) [
        | inl y ↦
            let le = (not_after-le e f).0 y in
            rw y ((le, All-weaken e.occurred_at f.occurred_at fs le h.0), h)
        | inr n ↦
            let le = (not_after-le e f).1 n in
            rw n (
              insert_sorted-All (IsAfter f.occurred_at) e fs le h.0,
              insert_sorted-IsOrdered e fs h.1,
            )
      ]

  sort_events-IsOrdered : (es : List Event) → IsOrdered (sort_events parse_date iso_date before es)
  unfolding sort_events
  sort_events-IsOrdered [] = tt
  sort_events-IsOrdered (e ∷ es) = insert_sorted-IsOrdered e _ (sort_events-IsOrdered es)

  -- Whether the filters let an event through.
  abbrev pub is_match : Fields → Event → Bool
  is_match filters e = elim (event_matches parse_date iso_date before filters e) [
    | ok m ↦ m
    | err x ↦ false
  ]

  filter_events-keep :
      (filters : Fields) (es matched : List Event)
      → filter_events parse_date iso_date before filters es ≡ ok matched
      → matched ≡ keep (is_match filters) es
  unfolding filter_events
  filter_events-keep filters [] matched h = ground arith
  filter_events-keep filters (e ∷ es) matched h =
      elim (Result-cases (event_matches parse_date iso_date before filters e)) [
        | inr x ↦ ground arith
        | inl (m, r) ↦ elim (Result-cases (filter_events parse_date iso_date before filters es)) [
          | inr x ↦ ground arith
          | inl (rest, q) ↦ ground (arith, r, q, filter_events-keep filters es rest q)
        ]
      ]

  -- A limit leaves the end of the list, as long as it says.
  abbrev pub IsEnd : Option ℕ → List Event → List Event → Type 0
  IsEnd l all es =
      (earlier : List Event) × (all ≡ earlier ++ es) × (length es ≡ limited l (length all))

  slice_last_lem :
      (l : Option ℕ) (es : List Event) → IsEnd l es (slice_last parse_date iso_date before l es)
  unfolding slice_last
  slice_last_lem none es = ([], refl, refl)
  slice_last_lem (some n) es = elim (Bool-cases (n == 0)) [
    | inl z ↦ rw z ([], refl, refl)
    | inr z ↦
        let (front, e) = take_drop (length es - n) es in
        rw z (front, e, ground (arith, length-drop (length es - n) es, z))
  ]

  -- The number that a limit is read as; a limit that is missing or null is none.
  abbrev pub limit_number : Option Json → Option ℕ
  limit_number l = if is_nullish l then none else to_number (json_or_null l)

  limit_of_lem :
      (l : Option Json) (es : List Event)
      → IsEnd (limit_number l) es (limit_of parse_date iso_date before l es)
  unfolding limit_of
  limit_of_lem l es = elim (Bool-cases (is_nullish l)) [
    | inl y ↦ rw y ([], refl, refl)
    | inr x ↦ rw x (slice_last_lem (to_number (json_or_null l)) es)
  ]

  -- A query that returns gives the end of a list that has just the events that match the filters, none
  -- before one that occurred earlier: all of it without a limit or with one that is no number or is 0,
  -- and else as many as the limit says, or all where there are not so many.
  pub query_lem :
      (filters : Fields) (shards : List Shard) (es : List Event)
      → query parse_date iso_date before filters shards ≡ ok es
      → (source : List Event) × (matched : List Event) × (all : List Event) × (read_all shards
          ≡ ok source)
        × (filter_events parse_date iso_date before filters source ≡ ok matched)
        × (matched ≡ keep (is_match filters) source)
        × Perm all matched
        × IsOrdered all
        × IsEnd (limit_number (lookup (codes "limit") filters)) all es
  unfolding query
  query_lem filters shards es h = elim (Result-cases (read_all shards)) [
    | inr x ↦ ground arith
    | inl (source, r) ↦
        elim (Result-cases (filter_events parse_date iso_date before filters source)) [
          | inr x ↦ ground arith
          | inl (matched, q) ↦
              let sorted = sort_events parse_date iso_date before matched in
              let limit = lookup (codes "limit") filters in
              let same : limit_of parse_date iso_date before limit sorted ≡ es = ground arith in
              (
                source,
                matched,
                sorted,
                r,
                q,
                filter_events-keep filters source matched q,
                sort_events-perm matched,
                sort_events-IsOrdered matched,
                subst (IsEnd (limit_number limit) sorted) same (limit_of_lem limit sorted),
              )
        ]
  ]
