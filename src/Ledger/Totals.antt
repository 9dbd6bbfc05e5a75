-- ===== src/Ledger/Totals.antt =====
-- lib/usage-ledger.js, rollup: no event is lost or counted twice, and the ratios are in range.
use Prim.Native.Nat.{◌*◌, ◌/◌}
use native.Mathlib.Nat.{div-lt_iff_lt-mul}
use cli_provider_router.Prelude.{
  ℕ, zero, suc, ◌+◌, ◌≤◌, ◌<◌, ◌≡◌, refl, sym, subst, text_eq_sound, Option-cases, inl, inr, Bool,
  true, false, Option, none, some, List, [], ◌∷◌, length, map, All, Text, codes, text_eq, ok,
  Result-cases, arith,
}
use cli_provider_router.Json.{Json, Fields, end}
use cli_provider_router.Ledger.Event.{Event}
use cli_provider_router.Ledger.Shards.{Shard}
use cli_provider_router.Ledger.Query.{query}
use cli_provider_router.Ledger.Rollup.{
  Row, empty_row, count_status, count_tokens, count_event, count_in, rounded, coverage_ratio,
  avg_latency, group_of, group_keys, rows_of, rollup,
}

-- The sum of a number over a list.
abbrev pub sum_of {ℓ} : {A : Type ℓ} → (A → ℕ) → List A → ℕ
sum_of f [] = 0
sum_of f (x ∷ xs) = f x + sum_of f xs

abbrev pub tokens_of : Event → ℕ
tokens_of e = elim e.tokens [ none ↦ 0 | some t ↦ t.total ]

-- The counters of a row agree with one another.
abbrev pub IsBalanced : Row → Type 0
IsBalanced r =
    (r.observed + r.unobservable ≡ r.events) × (r.successful + r.failed ≤ r.events) × (0 < r.events)

exclusive : (s : Text) → text_eq s (codes "error") ≡ true → text_eq s (codes "success") ≡ false
unfolding text_eq
exclusive s h =
    subst (λ t. text_eq t (codes "success") ≡ false) (sym (text_eq_sound s (codes "error") h)) refl

count_event_lem :
    (e : Event) (r : Row)
    → ((count_event e r).events ≡ r.events + 1)
      × ((count_event e r).total_tokens ≡ r.total_tokens + tokens_of e)
      × ((count_event e r).latency_ms ≡ r.latency_ms + e.latency_ms)
      × ((count_event e r).observed + (count_event e r).unobservable
          ≡ r.observed + r.unobservable + 1)
      × ((count_event e r).successful + (count_event e r).failed ≤ r.successful + r.failed + 1)
unfolding count_event count_status count_tokens
count_event_lem e r = elim (Option-cases e.tokens) [
  | inl n ↦ ground (arith, n, exclusive e.status)
  | inr (t, y) ↦ ground (arith, y, exclusive e.status)
]

count_in_lem :
    (g : Fields) (e : Event) (rs : List Row)
    → (sum_of (λ r. r.events) (count_in g e rs) ≡ sum_of (λ r. r.events) rs + 1)
      × (sum_of (λ r. r.total_tokens) (count_in g e rs)
          ≡ sum_of (λ r. r.total_tokens) rs + tokens_of e)
      × (sum_of (λ r. r.latency_ms) (count_in g e rs)
          ≡ sum_of (λ r. r.latency_ms) rs + e.latency_ms)
unfolding count_in
count_in_lem g e [] = ground (arith, count_event_lem e (empty_row g))
count_in_lem g e (r ∷ rs) = ground (arith, count_event_lem e r, count_in_lem g e rs)

count_in-IsBalanced :
    (g : Fields) (e : Event) (rs : List Row) → All IsBalanced rs → All IsBalanced (count_in g e rs)
unfolding count_in
count_in-IsBalanced g e [] h = ground (arith, count_event_lem e (empty_row g))
count_in-IsBalanced g e (r ∷ rs) h = ground (arith, count_event_lem e r, count_in-IsBalanced g e rs)

rounded-le : (n d : ℕ) → n ≤ d * 10000 → rounded n d ≤ 10000
rounded-le n zero h = omega arith
rounded-le n (suc d) h =
    let q = (2 * n + suc d) / (2 * suc d) in
    let small : q < 10001 = (div-lt_iff_lt-mul (omega arith)).1 (omega arith) in
    omega (arith, small)

-- What a row of the answer shows.
abbrev pub IsFair : Row × ℕ × ℕ → Type 0
IsFair (r, ratio, latency) = IsBalanced r × (ratio ≤ 10000)

-- The rows count the events, their tokens and latencies, each once.
abbrev pub Counts : List Event → List (Row × ℕ × ℕ) → Type 0
Counts es rows =
    (sum_of (λ (x : Row × ℕ × ℕ). x.0.events) rows ≡ length es)
    × (sum_of (λ (x : Row × ℕ × ℕ). x.0.total_tokens) rows ≡ sum_of tokens_of es)
    × (sum_of (λ (x : Row × ℕ × ℕ). x.0.latency_ms) rows ≡ sum_of (λ e. e.latency_ms) es)
    × All IsFair rows

module _ (parse_date : Text → Option ℕ) (iso_date : ℕ → Text) (before : Text → Text → Bool) where
  rows_of_lem :
      (keys : List Text) (es : List Event) (rows : List Row)
      → All IsBalanced rows
      → let out = rows_of parse_date iso_date before keys es rows in
        (sum_of (λ r. r.events) out ≡ sum_of (λ r. r.events) rows + length es)
        × (sum_of (λ r. r.total_tokens) out
            ≡ sum_of (λ r. r.total_tokens) rows + sum_of tokens_of es)
        × (sum_of (λ r. r.latency_ms) out
            ≡ sum_of (λ r. r.latency_ms) rows + sum_of (λ e. e.latency_ms) es)
        × All IsBalanced out
  unfolding rows_of
  rows_of_lem keys [] rows h = ground arith
  rows_of_lem keys (e ∷ es) rows h =
      let g = group_of parse_date iso_date before e keys end in
      ground (
        arith,
        count_in_lem g e rows,
        rows_of_lem keys es (count_in g e rows) (count_in-IsBalanced g e rows h),
      )

  abbrev shown : Row → Row × ℕ × ℕ
  shown r = (r, coverage_ratio r, avg_latency r)

  sum_of-shown :
      (f : Row → ℕ) (rows : List Row)
      → sum_of (λ (x : Row × ℕ × ℕ). f x.0) (map shown rows) ≡ sum_of f rows
  sum_of-shown f [] = refl
  sum_of-shown f (r ∷ rows) = omega (arith, sum_of-shown f rows)

  map-IsFair : (rows : List Row) → All IsBalanced rows → All IsFair (map shown rows)
  unfolding coverage_ratio
  map-IsFair [] h = tt
  map-IsFair (r ∷ rows) h =
      ((h.0, rounded-le (r.observed * 10000) r.events (omega (arith, h.0.0))), map-IsFair rows h.1)

  -- The rows of a rollup count each event of the query exactly once, with its tokens and latency; in
  -- each row the observed and the unobservable events make up all of them, no more are successes and
  -- failures than there are events, none is empty, and the ratio of coverage is at most one.
  pub rollup_conserves :
      (filters : Fields) (group_by : Option Json) (shards : List Shard) (rows : List (Row × ℕ × ℕ))
      → rollup parse_date iso_date before filters group_by shards ≡ ok rows
      → (es : List Event) × (query parse_date iso_date before filters shards ≡ ok es)
        × Counts es rows
  unfolding rollup
  rollup_conserves filters group_by shards rows h =
      elim (Result-cases (query parse_date iso_date before filters shards)) [
        | inr x ↦ ground arith
        | inl (es, e) ↦
            let out = rows_of parse_date iso_date before (group_keys group_by) es [] in
            let same : map shown out ≡ rows = ground arith in
            let (events, tokens, latency, fair) = rows_of_lem (group_keys group_by) es [] tt in
            (
              es,
              e,
              subst (Counts es) same (
                ground (arith, events, sum_of-shown (λ r. r.events) out),
                ground (arith, tokens, sum_of-shown (λ r. r.total_tokens) out),
                ground (arith, latency, sum_of-shown (λ r. r.latency_ms) out),
                map-IsFair out fair,
              ),
            )
      ]
