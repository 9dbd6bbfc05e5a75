-- ===== src/Ledger/Once.antt =====
-- lib/usage-ledger.js, append: how often an event identifier stands in lines and in shards, and what a
-- write adds.

use cli_provider_router.Prelude.{
  ℕ, Bool, ◌>>=◌, length, ◌+◌, ◌≤◌, ◌<◌, ◌==◌, ◌&&◌, ◌≡◌, refl, subst, ◌⊎◌, inl, inr, true, false,
  ◌||◌, Bool-cases, Option, none, some, ltb, if◌then◌else◌, List, [], ◌∷◌, ◌++◌, Text, text_eq,
  text_eq_refl, text_eq_sound, is_empty, mem_text, ok, Result-cases, arith,
}
use cli_provider_router.Ledger.Event.{Event}
use cli_provider_router.Ledger.Shards.{
  Line, entry, torn, cut, Written, no_text, a_part, no_newline, a_line, new_line, glued_line,
  add_to_lines, Shard, read_lines, ids_of, read_ids, ensure_event_index, append_line, Ledger,
}

-- How often an identifier stands in lines, and in the whole directory.
abbrev pub count_line : Text → Line → ℕ
count_line id torn = 0
count_line id (cut none) = 0
count_line id (cut (some e)) = if text_eq e.event_id id then 1 else 0
count_line id (entry e) = if text_eq e.event_id id then 1 else 0

abbrev pub count_lines : Text → List Line → ℕ
count_lines id [] = 0
count_lines id (l ∷ ls) = count_line id l + count_lines id ls

abbrev pub count_id : Text → List Shard → ℕ
count_id id [] = 0
count_id id (s ∷ ss) = count_lines id s.lines + count_id id ss

-- How often an identifier comes to stand in the directory by a write of so much.
abbrev pub count_written : Text → Written → Event → ℕ
count_written id no_text e = 0
count_written id a_part e = 0
count_written id no_newline e = if text_eq e.event_id id then 1 else 0
count_written id a_line e = if text_eq e.event_id id then 1 else 0

count-new_line :
    (id : Text) (w : Written) (e : Event) → count_lines id (new_line w e) ≡ count_written id w e
unfolding new_line
count-new_line id no_text e = refl
count-new_line id a_part e = refl
count-new_line id no_newline e = omega arith
count-new_line id a_line e = omega arith

count-glued_line :
    (id : Text) (w : Written) (o : Option Event)
    → count_lines id (glued_line w o) ≤ count_line id (cut o)
unfolding glued_line
count-glued_line id no_text o = omega arith
count-glued_line id a_part o = omega arith
count-glued_line id no_newline o = omega arith
count-glued_line id a_line o = omega arith

-- Whether the file ends in text without a newline.
abbrev pub ends_cut : List Line → Bool
ends_cut [] = false
ends_cut (cut o ∷ []) = true
ends_cut (l ∷ ls) = ends_cut ls

-- Whether the file that an event of the day is appended to does.
abbrev pub is_cut_at : ℕ → List Shard → Bool
is_cut_at day [] = false
is_cut_at day (s ∷ ss) =
    let rest = is_cut_at day ss in
    if ltb day s.day then false else if s.day == day && s.is_jsonl then ends_cut s.lines else rest

count-add_to_lines :
    (id : Text) (w : Written) (e : Event) (ls : List Line)
    → (count_lines id (add_to_lines w e ls) ≤ count_lines id ls + count_written id w e)
      × (ends_cut ls ≡ false
          → count_lines id (add_to_lines w e ls) ≡ count_lines id ls + count_written id w e)
unfolding add_to_lines
count-add_to_lines id w e [] = ground (arith, count-new_line id w e)
count-add_to_lines id w e (cut o ∷ []) = ground (arith, count-glued_line id w o)
count-add_to_lines id w e (cut o ∷ l ∷ ls) = ground (arith, count-add_to_lines id w e (l ∷ ls))
count-add_to_lines id w e (torn ∷ ls) = ground (arith, count-add_to_lines id w e ls)
count-add_to_lines id w e (entry f ∷ ls) = ground (arith, count-add_to_lines id w e ls)

-- A write adds an identifier at most as often as it stands in what is written, and just as often where
-- it does not come after text without a newline.
pub count_id-append_line :
    (id : Text) (day : ℕ) (w : Written) (e : Event) (ss : List Shard)
    → (count_id id (append_line day w e ss) ≤ count_id id ss + count_written id w e)
      × (is_cut_at day ss ≡ false
          → count_id id (append_line day w e ss) ≡ count_id id ss + count_written id w e)
unfolding append_line
count_id-append_line id day w e [] = ground (arith, count-new_line id w e)
count_id-append_line id day w e (s ∷ ss) = ground (
  arith,
  count-new_line id w e,
  count-add_to_lines id w e s.lines,
  count_id-append_line id day w e ss,
)

cut_then :
    (o : Option Event) (ls : List Line)
    → 0 < length ls
    → ends_cut ls ≡ false
    → ends_cut (cut o ∷ ls) ≡ false
cut_then o [] p h = ground arith
cut_then o (l ∷ ls) p h = h

length-add_to_lines : (e : Event) (ls : List Line) → 0 < length (add_to_lines a_line e ls)
unfolding add_to_lines new_line glued_line
length-add_to_lines e [] = omega arith
length-add_to_lines e (cut o ∷ []) = omega arith
length-add_to_lines e (cut o ∷ l ∷ ls) = omega arith
length-add_to_lines e (torn ∷ ls) = omega arith
length-add_to_lines e (entry f ∷ ls) = omega arith

-- A whole line leaves the file with a newline at its end.
ends_cut-add_to_lines :
    (e : Event) (ls : List Line) → ends_cut ls ≡ false → ends_cut (add_to_lines a_line e ls) ≡ false
unfolding add_to_lines new_line
ends_cut-add_to_lines e [] h = refl
ends_cut-add_to_lines e (cut o ∷ []) h = ground arith
ends_cut-add_to_lines e (cut o ∷ l ∷ ls) h =
    cut_then o (add_to_lines a_line e (l ∷ ls)) (length-add_to_lines e (l ∷ ls))
      (ends_cut-add_to_lines e (l ∷ ls) h)
ends_cut-add_to_lines e (torn ∷ ls) h = ends_cut-add_to_lines e ls h
ends_cut-add_to_lines e (entry f ∷ ls) h = ends_cut-add_to_lines e ls h

pub is_cut_at-append_line :
    (day : ℕ) (e : Event) (ss : List Shard)
    → is_cut_at day ss ≡ false
    → is_cut_at day (append_line day a_line e ss) ≡ false
unfolding append_line new_line
is_cut_at-append_line day e [] h = ground arith
is_cut_at-append_line day e (s ∷ ss) h =
    ground (arith, ends_cut-add_to_lines e s.lines, is_cut_at-append_line day e ss)

-- The identifiers of what is read are those that stand in the directory.
mem_text-append :
    (t : Text) (xs ys : List Text) → mem_text t (xs ++ ys) ≡ (mem_text t xs || mem_text t ys)
unfolding mem_text
mem_text-append t [] ys = refl
mem_text-append t (x ∷ xs) ys = ground (arith, mem_text-append t xs ys)

ids_of-append : (es fs : List Event) → ids_of (es ++ fs) ≡ ids_of es ++ ids_of fs
unfolding ids_of
ids_of-append [] fs = refl
ids_of-append (e ∷ es) fs = ground (arith, ids_of-append es fs)

ids_of-cons :
    (id : Text) (e : Event) (fs : List Event)
    → is_empty id ≡ false
    → (text_eq e.event_id id ≡ true) ⊎ (mem_text id (ids_of fs) ≡ true)
    → mem_text id (ids_of (e ∷ fs)) ≡ true
unfolding ids_of mem_text
ids_of-cons id e fs n (inr there) = ground (arith, there)
ids_of-cons id e fs n (inl here) =
    let same : e.event_id ≡ id = text_eq_sound e.event_id id here in
    ground (arith, same, text_eq_refl id)

-- A line that reads as an event, where the rest of the lines has the property.
event-ids :
    (id : Text) (e : Event) (ls : List Line) (es : List Event)
    → is_empty id ≡ false
    → (read_lines ls >>= λ fs. ok (e ∷ fs)) ≡ ok es
    → 0 < count_line id (entry e) + count_lines id ls
    → ((fs : List Event)
        → read_lines ls ≡ ok fs
        → 0 < count_lines id ls
        → mem_text id (ids_of fs) ≡ true)
    → mem_text id (ids_of es) ≡ true
event-ids id e ls es n h c rest = elim (Result-cases (read_lines ls)) [
  | inr x ↦ ground arith
  | inl (fs, r) ↦
      let same : e ∷ fs ≡ es = ground arith in
      subst (λ xs. mem_text id (ids_of xs) ≡ true) same
        (ids_of-cons id e fs n (elim (Bool-cases (text_eq e.event_id id)) [
          | inl y ↦ inl y
          | inr x ↦ inr (rest fs r (ground (arith, c, x)))
        ]))
]

read_lines-ids :
    (id : Text) (ls : List Line) (es : List Event)
    → is_empty id ≡ false
    → read_lines ls ≡ ok es
    → 0 < count_lines id ls
    → mem_text id (ids_of es) ≡ true
unfolding read_lines
read_lines-ids id [] es n h c = ground arith
read_lines-ids id (torn ∷ ls) es n h c = ground arith
read_lines-ids id (cut none ∷ ls) es n h c = ground arith
read_lines-ids id (cut (some e) ∷ ls) es n h c =
    event-ids id e ls es n h c (λ fs r p. read_lines-ids id ls fs n r p)
read_lines-ids id (entry e ∷ ls) es n h c =
    event-ids id e ls es n h c (λ fs r p. read_lines-ids id ls fs n r p)

read_ids-mem :
    (id : Text) (ss : List Shard)
    → is_empty id ≡ false
    → (read_ids ss).1 ≡ true
    → 0 < count_id id ss
    → mem_text id (read_ids ss).0 ≡ true
unfolding read_ids
read_ids-mem id [] n h c = ground arith
read_ids-mem id (s ∷ ss) n h c = elim (Result-cases (read_lines s.lines)) [
  | inr x ↦ ground arith
  | inl (es, r) ↦
      let both = mem_text-append id (ids_of es) (read_ids ss).0 in
      let rest : (read_ids ss).1 ≡ true = ground arith in
      elim (Bool-cases (ltb 0 (count_lines id s.lines))) [
        | inl y ↦ ground (arith, both, read_lines-ids id s.lines es n r (ground (arith, y)))
        | inr x ↦ ground (arith, both, read_ids-mem id ss n rest (ground (arith, x, c)))
      ]
]

-- No identifier stands twice, and the index of the process has every one that stands in the
-- directory; a process that has not read its index can read all of the directory.
abbrev pub IsIndexed : List Text → List Shard → Type 0
IsIndexed index ss =
    (id : Text) → is_empty id ≡ false → 0 < count_id id ss → mem_text id index ≡ true

abbrev pub IsUsable : Option (List Text) → List Shard → Type 0
IsUsable none ss = (read_ids ss).1 ≡ true
IsUsable (some index) ss = IsIndexed index ss

abbrev pub IsOnce : Ledger → Type 0
IsOnce l =
    ((id : Text) → is_empty id ≡ false → count_id id l.shards ≤ 1) × IsUsable l.index l.shards

pub ensure-IsIndexed :
    (i : Option (List Text)) (ss : List Shard)
    → IsUsable i ss
    → ((ensure_event_index i ss).1 ≡ true) × IsIndexed (ensure_event_index i ss).0 ss
unfolding ensure_event_index
ensure-IsIndexed none ss h = (h, λ id n c. read_ids-mem id ss n h c)
ensure-IsIndexed (some index) ss h = (refl, h)
