-- ===== src/Ledger/Retention.antt =====
-- lib/usage-ledger.js, prune: no event inside the retention is lost.
use Prim.Native.Nat.{◌*◌, ◌/◌}
use cli_provider_router.Prelude.{
  ℕ, ◌+◌, ◌-◌, ◌<◌, ◌≡◌, refl, ap, ◌∙◌, subst, inl, inr, Bool, true, not, ◌||◌, Bool-cases, Option,
  none, some, Option-cases, leb, ◌==◌, if◌then◌else◌, List, [], ◌∷◌, length, keep, All, ok, arith,
}
use cli_provider_router.Json.{Json, num, to_number}
use cli_provider_router.Hop.Routes.{or_field}
use cli_provider_router.Ledger.Event.{json_or_null}
use cli_provider_router.Ledger.Shards.{
  Line, entry, torn, cut, Shard, day_ms, Ledger, is_expired, Pruned, prune,
}

-- Each event stands in the shard of its day.
abbrev pub IsOfDay : ℕ → Line → Type 0
IsOfDay day torn = Unit
IsOfDay day (cut none) = Unit
IsOfDay day (cut (some e)) = e.occurred_at / day_ms ≡ day
IsOfDay day (entry e) = e.occurred_at / day_ms ≡ day

abbrev pub IsDated : Shard → Type 0
IsDated s = All (IsOfDay s.day) s.lines

-- How many events occurred at a time or later.
abbrev pub recent_line : ℕ → Line → ℕ
recent_line t torn = 0
recent_line t (cut none) = 0
recent_line t (cut (some e)) = if leb t e.occurred_at then 1 else 0
recent_line t (entry e) = if leb t e.occurred_at then 1 else 0

abbrev pub recent_lines : ℕ → List Line → ℕ
recent_lines t [] = 0
recent_lines t (l ∷ ls) = recent_line t l + recent_lines t ls

abbrev pub recent : ℕ → List Shard → ℕ
recent t [] = 0
recent t (s ∷ ss) = recent_lines t s.lines + recent t ss

expired_lines :
    (t day : ℕ) (ls : List Line)
    → day * day_ms + 86399999 < t
    → All (IsOfDay day) ls
    → recent_lines t ls ≡ 0
expired_lines t day [] h a = refl
expired_lines t day (torn ∷ ls) h a = omega (arith, expired_lines t day ls h a.1)
expired_lines t day (cut none ∷ ls) h a = omega (arith, expired_lines t day ls h a.1)
expired_lines t day (cut (some e) ∷ ls) h a = ground (arith, expired_lines t day ls h a.1, a.0)
expired_lines t day (entry e ∷ ls) h a = ground (arith, expired_lines t day ls h a.1, a.0)

recent-keep :
    (t : ℕ) (ss : List Shard)
    → All IsDated ss
    → recent t (keep (λ s. not (is_expired t s)) ss) ≡ recent t ss
recent-keep t [] a = refl
recent-keep t (s ∷ ss) a = elim (Bool-cases (is_expired t s)) [
  | inl y ↦
      ground (arith, y, recent-keep t ss a.1, expired_lines t s.day s.lines (ground (arith, y)) a.0)
  | inr n ↦ ground (arith, n, recent-keep t ss a.1)
]

-- The shards that are reported hold no event of the retention.
abbrev pub IsStale : ℕ → Shard → Type 0
IsStale t s = recent_lines t s.lines ≡ 0

keep-IsStale : (t : ℕ) (ss : List Shard) → All IsDated ss → All (IsStale t) (keep (is_expired t) ss)
keep-IsStale t [] a = tt
keep-IsStale t (s ∷ ss) a = elim (Bool-cases (is_expired t s)) [
  | inl y ↦ rw y (expired_lines t s.day s.lines (ground (arith, y)) a.0, keep-IsStale t ss a.1)
  | inr n ↦ rw n (keep-IsStale t ss a.1)
]

-- A prune that returns loses no event that occurred within the retention, reports only shards that
-- hold none, and with dryRun changes nothing, provided each event stands in the shard of its day.
pub prune_keeps_recent :
    (requested : Option Json) (policy_days : ℕ) (dry_run : Bool) (now : ℕ) (l : Ledger) (p : Pruned)
    → All IsDated l.shards
    → (prune requested policy_days dry_run now l).1 ≡ ok p
    → let after = (prune requested policy_days dry_run now l).0 in
      let cutoff = now - p.retention_days * day_ms in
      (recent cutoff after.shards ≡ recent cutoff l.shards)
      × All (IsStale cutoff) p.removed
      × (dry_run ≡ true → after ≡ l)
unfolding prune
prune_keeps_recent requested policy_days dry_run now l p a h =
    elim (Option-cases (to_number (json_or_null (or_field requested (some (num policy_days)))))) [
      | inl n ↦ ground arith
      | inr (days, y) ↦ elim (Bool-cases (days == 0)) [
        | inl z ↦ ground arith
        | inr z ↦
            let asked : p.retention_days ≡ days = ground arith in
            let cutoff = now - p.retention_days * day_ms in
            let gone : keep (is_expired cutoff) l.shards ≡ p.removed = ground arith in
            elim (Bool-cases
              (dry_run || length (keep (is_expired (now - days * day_ms)) l.shards) == 0)) [
                | inl b ↦
                    let same : (prune requested policy_days dry_run now l).0 ≡ l = ground arith in
                    (
                      ap (λ k. recent cutoff k.shards) same,
                      subst (All (IsStale cutoff)) gone (keep-IsStale cutoff l.shards a),
                      λ d. same,
                    )
                | inr b ↦
                    let same : (prune requested policy_days dry_run now l).0 ≡ record {
                      index = none;
                      shards = keep (λ s. not (is_expired cutoff s)) l.shards;
                    } =
                      ground arith in
                    (
                      ap (λ k. recent cutoff k.shards) same ∙ recent-keep cutoff l.shards a,
                      subst (All (IsStale cutoff)) gone (keep-IsStale cutoff l.shards a),
                      λ d. ground arith,
                    )
              ]
      ]
    ]
