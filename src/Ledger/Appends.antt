-- ===== src/Ledger/Appends.antt =====
-- lib/usage-ledger.js, append: how often an event identifier comes to stand in the directory.
use Prim.Native.Nat.{◌/◌}
use cli_provider_router.Prelude.{
  ℕ, ◌+◌, ◌≤◌, ◌≡◌, refl, sym, subst, inl, inr, Bool, true, false, Bool-cases, none, some, List, [],
  ◌∷◌, Text, All, text_eq, text_eq_refl, text_eq_sound, text_eq_iff, is_empty, mem_text, ok, err,
  Result-cases, arith,
}
use cli_provider_router.Json.{Fields}
use cli_provider_router.Ledger.Event.{Event, normalize_event}
use cli_provider_router.Ledger.Shards.{
  Shard, LedgerError, day_ms, ensure_event_index, append_line, Written, no_text, a_part, no_newline,
  a_line, Write, unopened, thrown, returned, whole, Ledger, write_event, insert_event, append,
  read_lines, read_ids, unreadable_shard, write_failed,
}
use cli_provider_router.Ledger.Once.{
  count_id, count_written, count_id-append_line, IsIndexed, IsOnce, ensure-IsIndexed, is_cut_at,
  is_cut_at-append_line,
}

written_one : (id : Text) (w : Written) (e : Event) → count_written id w e ≤ 1
written_one id no_text e = omega arith
written_one id a_part e = omega arith
written_one id no_newline e = ground arith
written_one id a_line e = ground arith

written_other :
    (id : Text) (w : Written) (e : Event) → text_eq e.event_id id ≡ false → count_written id w e ≡ 0
written_other id no_text e x = refl
written_other id a_part e x = refl
written_other id no_newline e x = ground arith
written_other id a_line e x = ground arith

-- The new identifier stands in no shard, and then at most once.
stored_once :
    (w : Written) (e : Event) (ss : List Shard) (index : List Text) (id : Text)
    → IsIndexed index ss
    → mem_text e.event_id index ≡ false
    → is_empty id ≡ false
    → count_id id ss ≤ 1
    → count_id id (append_line (e.occurred_at / day_ms) w e ss) ≤ 1
stored_once w e ss index id h m k c =
    let more = (count_id-append_line id (e.occurred_at / day_ms) w e ss).0 in
    elim (Bool-cases (text_eq e.event_id id)) [
      | inl y ↦
          let unseen : mem_text id index ≡ false =
            subst (λ t. mem_text t index ≡ false) (text_eq_sound e.event_id id y) m in
          let one = written_one id w e in ground (arith, unseen, h id k, more, one)
      | inr x ↦ let none_written = written_other id w e x in ground (arith, more, none_written)
    ]

-- The index with the new identifier has every identifier of the directory with the new text.
stored_index :
    (w : Written) (e : Event) (ss : List Shard) (index : List Text)
    → IsIndexed index ss
    → IsIndexed (e.event_id ∷ index) (append_line (e.occurred_at / day_ms) w e ss)
unfolding mem_text
stored_index w e ss index h id k c =
    let more = (count_id-append_line id (e.occurred_at / day_ms) w e ss).0 in
    ground (
      arith,
      h id k,
      text_eq_iff e.event_id id,
      text_eq_iff id e.event_id,
      more,
      written_other id w e,
    )

-- Whether a write leaves the event in the file and throws all the same.
abbrev pub is_unreported : Write → Bool
is_unreported unopened = false
is_unreported (returned w) = false
is_unreported (thrown no_text) = false
is_unreported (thrown a_part) = false
is_unreported (thrown no_newline) = true
is_unreported (thrown a_line) = true

thrown_nothing :
    (w : Written) (id : Text) (e : Event)
    → is_unreported (thrown w) ≡ false
    → count_written id w e ≡ 0
thrown_nothing no_text id e h = refl
thrown_nothing a_part id e h = refl
thrown_nothing no_newline id e h = ground arith
thrown_nothing a_line id e h = ground arith

write_event-IsOnce :
    (w : Write) (e : Event) (index : List Text) (ss : List Shard)
    → is_unreported w ≡ false
    → ((id : Text) → is_empty id ≡ false → count_id id ss ≤ 1)
    → IsIndexed index ss
    → mem_text e.event_id index ≡ false
    → IsOnce (write_event w e index ss).0
unfolding write_event
write_event-IsOnce unopened e index ss u h g m = (h, g)
write_event-IsOnce (returned w) e index ss u h g m =
    (λ id k. stored_once w e ss index id g m k (h id k), stored_index w e ss index g)
write_event-IsOnce (thrown w) e index ss u h g m =
    let day = e.occurred_at / day_ms in
    (
      λ id k.
          (let more = (count_id-append_line id day w e ss).0 in
            ground (arith, h id k, more, thrown_nothing w id e u)),
      λ id k c.
          (let more = (count_id-append_line id day w e ss).0 in
            g id k (ground (arith, c, more, thrown_nothing w id e u))),
    )

insert_event-IsOnce :
    (w : Write) (e : Event) (l : Ledger)
    → is_unreported w ≡ false
    → IsOnce l
    → IsOnce (insert_event w e l).0
unfolding insert_event
insert_event-IsOnce w e l u h =
    let (whole_index, g) = ensure-IsIndexed l.index l.shards h.1 in
    let index = (ensure_event_index l.index l.shards).0 in
    elim (Bool-cases (mem_text e.event_id index)) [
      | inl y ↦
          let same : (insert_event w e l).0 ≡ record { index = some index; shards = l.shards } =
            ground arith in
          subst IsOnce (sym same) (h.0, g)
      | inr x ↦
          let same : (insert_event w e l).0 ≡ (write_event w e index l.shards).0 = ground arith in
          subst IsOnce (sym same) (write_event-IsOnce w e index l.shards u h.0 g x)
    ]

-- One call of append by a process.
pub record Call : Type 0 where
  pub write : Write
  pub now : ℕ
  pub fresh : Text
  pub input : Fields

abbrev pub appends : List Call → Ledger → Ledger
appends [] l = l
appends (c ∷ cs) l = appends cs (append c.write c.now c.fresh c.input l).0

append-IsOnce :
    (c : Call) (l : Ledger)
    → is_unreported c.write ≡ false
    → IsOnce l
    → IsOnce (append c.write c.now c.fresh c.input l).0
unfolding append
append-IsOnce c l u h = elim (Result-cases (normalize_event c.now c.fresh true c.input)) [
  | inr (x, r) ↦
      let same : (append c.write c.now c.fresh c.input l).0 ≡ l = ground arith in
      subst IsOnce (sym same) h
  | inl (e, r) ↦
      let same : (append c.write c.now c.fresh c.input l).0 ≡ (insert_event c.write e l).0 =
        ground arith in
      subst IsOnce (sym same) (insert_event-IsOnce c.write e l u h)
]

-- However many events one process appends, in whatever order, and whichever of its writes fail, break
-- off or come after text without a newline, no event identifier comes to stand twice in the directory,
-- provided that no write throws after it has written all of the event's text, that none stood twice
-- before, and that the index which the process has read has every identifier that stands there or,
-- where it has not read its index, every shard can be read.
pub appends-IsOnce :
    (cs : List Call) (l : Ledger)
    → All (λ c. is_unreported c.write ≡ false) cs
    → IsOnce l
    → IsOnce (appends cs l)
appends-IsOnce [] l u h = h
appends-IsOnce (c ∷ cs) l u h = appends-IsOnce cs _ u.1 (append-IsOnce c l u.0 h)

-- What two writes of a whole line add, the first of them reported or not.
written_twice :
    (e : Event) (ss : List Shard)
    → let day = e.occurred_at / day_ms in
      is_cut_at day ss ≡ false
      → count_id e.event_id (append_line day a_line e (append_line day a_line e ss))
        ≡ count_id e.event_id ss + 2
written_twice e ss h =
    let day = e.occurred_at / day_ms in
    let once = append_line day a_line e ss in
    ground (
      arith,
      text_eq_refl e.event_id,
      (count_id-append_line e.event_id day a_line e ss).1 h,
      (count_id-append_line e.event_id day a_line e once).1 (is_cut_at-append_line day e ss h),
    )

-- Two processes that share a directory and have both read their index before either appended an
-- event that neither index has: each reports that it stored the event, and it stands twice more,
-- provided that the file of its day does not end in text without a newline.
pub stale_index_stores_twice :
    (e : Event) (first second : List Text) (ss : List Shard)
    → mem_text e.event_id first ≡ false
    → mem_text e.event_id second ≡ false
    → is_cut_at (e.occurred_at / day_ms) ss ≡ false
    → let (l, stored) = insert_event whole e (record { index = some first; shards = ss }) in
      let (k, again) = insert_event whole e (record { index = some second; shards = l.shards }) in
      (stored ≡ ok true)
      × (again ≡ ok true)
      × (count_id e.event_id k.shards ≡ count_id e.event_id ss + 2)
unfolding insert_event write_event ensure_event_index
stale_index_stores_twice e first second ss m n h = ground (arith, m, n, written_twice e ss h)

-- Where a whole line is written and fsync or close throws after it, the append reports a failure; the
-- process's next append of the same event is accepted, and the event stands twice more than before
-- both, provided that the file of its day did not end in text without a newline.
pub unreported_stores_twice :
    (e : Event) (index : List Text) (ss : List Shard)
    → mem_text e.event_id index ≡ false
    → is_cut_at (e.occurred_at / day_ms) ss ≡ false
    → let (l, first) =
        insert_event (thrown a_line) e (record { index = some index; shards = ss }) in
      let (k, second) = insert_event whole e l in
      (first ≡ err write_failed)
      × (second ≡ ok true)
      × (count_id e.event_id k.shards ≡ count_id e.event_id ss + 2)
unfolding insert_event write_event ensure_event_index
unreported_stores_twice e index ss m h = ground (arith, m, written_twice e ss h)

-- Where the first shard cannot be read, the first append of a process that has not read its index is
-- refused and writes nothing; the next append of the process is accepted and stores its event once
-- more, however often the event stands there already, provided that the file of its day does not end
-- in text without a newline.
pub torn_shard_stores_again :
    (w : Write) (e : Event) (s : Shard) (ss : List Shard) (x : LedgerError)
    → read_lines s.lines ≡ err x
    → is_cut_at (e.occurred_at / day_ms) (s ∷ ss) ≡ false
    → let (l, first) = insert_event w e (record { index = none; shards = s ∷ ss }) in
      let (k, second) = insert_event whole e l in
      (first ≡ err unreadable_shard)
      × (l.shards ≡ s ∷ ss)
      × (second ≡ ok true)
      × (count_id e.event_id k.shards ≡ count_id e.event_id (s ∷ ss) + 1)
unfolding insert_event write_event ensure_event_index read_ids mem_text
torn_shard_stores_again w e s ss x h u =
    let stored = (count_id-append_line e.event_id (e.occurred_at / day_ms) a_line e (s ∷ ss)).1 u in
    ground (arith, text_eq_refl e.event_id, stored)
