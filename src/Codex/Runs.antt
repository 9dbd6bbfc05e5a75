-- ===== src/Codex/Runs.antt =====
-- lib/proxy/codex-transform.js: whole streams, as lines pushed one after another and an end.
use cli_provider_router.Prelude.{
  ℕ, ◌≡◌, refl, sym, subst, inl, inr, Bool, true, false, Option, none, some, List, [], ◌∷◌, arith,
  Text, codes, text_eq, length, Bool-cases, Option-cases,
}
use cli_provider_router.Json.{Json}
use cli_provider_router.Codex.Stream.{State, initial, finish}
use cli_provider_router.Codex.Stream.Protocol.{
  WellFormed, ending_count, initial-WellFormed, finish-WellFormed, finish_closes_all, AllClosed,
}
use cli_provider_router.Codex.Stream.Counts.{
  added, closed, endings, sent, calls_added, calls_closed, messages_added, messages_closed,
}
use cli_provider_router.Codex.Chunks.{push_payload, push_line, payload_of}
use cli_provider_router.Codex.Running.{Running, push_chunk-Running}

module _ (i : ℕ) where
  -- The invariant at any time of a stream that is not failed.
  pub record Lives (s : State) : Type 0 where
    pub well_formed : WellFormed i (ending_count s.finished) s
    pub settled : s.finished ≡ true → AllClosed i s.events

  counted :
      (s : State) {b c : Bool}
      → b ≡ c
      → WellFormed i (ending_count b) s
      → WellFormed i (ending_count c) s
  counted s e w = subst (λ x. WellFormed i (ending_count x) s) e w

  Running-Lives : (s : State) → Running i s → Lives s
  Running-Lives s (w, r) = record {
    well_formed = counted s (sym r) w;
    settled = λ over. absurd (ground (arith, over, r));
  }

  finish_again : (s : State) → s.finished ≡ true → finish [] s ≡ s
  unfolding finish
  finish_again s over = ground arith

  -- The end without an error, at any time.
  finish-Lives : (s : State) → Lives s → Lives (finish [] s)
  finish-Lives s l = elim (Bool-cases s.finished) [
    | inl over ↦ subst Lives (sym (finish_again s over)) l
    | inr running ↦
        let (w, over) = finish-WellFormed i [] s l.well_formed in
        record {
          well_formed = counted _ (sym over) w;
          settled = λ _. finish_closes_all i s running (counted s running l.well_formed);
        }
  ]

module _ (parse_json : Text → Option Json) where
  -- Lines pushed one after another.
  unfoldable pub run : List Text → State → State
  run [] s = s
  run (line ∷ lines) s = run lines (push_line parse_json line s).0

module _ (i : ℕ) (parse_json : Text → Option Json) where
  push_payload-Lives :
      (t : Text) (s : State) → Running i s → Lives i (push_payload parse_json t s).0
  unfolding push_payload
  push_payload-Lives t s h = elim (Bool-cases (text_eq t (codes "[DONE]"))) [
    | inl e ↦ rw e (finish-Lives i s (Running-Lives i s h))
    | inr e ↦ elim (Option-cases (parse_json t)) [
      | inl p ↦ rw (e, p) (Running-Lives i s h)
      | inr (v, p) ↦ rw (e, p) (Running-Lives i _ (push_chunk-Running i v s h))
    ]
  ]

  push_line_over :
      (line : Text) (s : State) → s.finished ≡ true → push_line parse_json line s ≡ (s, true)
  unfolding push_line
  push_line_over line s over = ground arith

  push_line_running :
      (line : Text) (s : State)
      → s.finished ≡ false
      → push_line parse_json line s
        ≡ elim (payload_of line) [ none ↦ (s, true) | some t ↦ push_payload parse_json t s ]
  unfolding push_line
  push_line_running line s running = ground arith

  push_line-Lives : (line : Text) (s : State) → Lives i s → Lives i (push_line parse_json line s).0
  push_line-Lives line s l = elim (Bool-cases s.finished) [
    | inl over ↦ subst (λ r. Lives i r.0) (sym (push_line_over line s over)) l
    | inr running ↦
        subst (λ r. Lives i r.0) (sym (push_line_running line s running))
          (read (payload_of line) running)
  ]
    where
      read :
          (o : Option Text)
          → s.finished ≡ false
          → Lives i (
              let r : State × Bool = elim o [
                | none ↦ (s, true)
                | some t ↦ push_payload parse_json t s
              ] in
              r.0)
      read none running = l
      read (some t) running = push_payload-Lives t s (counted i s running l.well_formed, running)

  run-Lives : (lines : List Text) (s : State) → Lives i s → Lives i (run parse_json lines s)
  unfolding run
  run-Lives [] s l = l
  run-Lives (line ∷ lines) s l = run-Lives lines _ (push_line-Lives line s l)

  initial-Lives : (rid : Text) → Lives i (initial rid)
  initial-Lives rid =
      Running-Lives i (initial rid) (initial-WellFormed i rid, unfold initial in refl)

module _ (parse_json : Text → Option Json) where
  -- Whatever lines come in, and with or without an error at the end, the response ends exactly
  -- once, and the text deltas that were sent make up the text that is kept.
  pub stream_ends_once :
      (rid error : Text) (lines : List Text)
      → let s = finish error (run parse_json lines (initial rid)) in
        (endings s.events ≡ 1) × (sent s.events ≡ s.text_acc) × (s.finished ≡ true)
  stream_ends_once rid error lines =
      let l = run-Lives 0 parse_json lines (initial rid) (initial-Lives 0 parse_json rid) in
      let (w, over) = finish-WellFormed 0 error _ l.well_formed in (w.ended, w.kept, over)

  -- A stream that ends without an error has closed the items that it announced: at each output index as
  -- many calls as were announced there, each with its index and arguments in the event before, and as
  -- many messages as were announced. Its response lists as many items as were announced.
  pub stream_closes_items :
      (rid : Text) (lines : List Text)
      → let s = finish [] (run parse_json lines (initial rid)) in
        ((i : ℕ) → calls_added i s.events ≡ calls_closed i s.events)
        × (messages_added s.events ≡ messages_closed s.events)
        × (added s.events ≡ closed s.events)
        × (added s.events ≡ length s.output_items)
  stream_closes_items rid lines =
      (λ i. (all_closed i).0.1, (all_closed 0).0.2, (all_closed 0).0.0, (all_closed 0).1)
    where
      all_closed :
          (i : ℕ)
          → let s = finish [] (run parse_json lines (initial rid)) in
            AllClosed i s.events × (added s.events ≡ length s.output_items)
      all_closed i =
          let lives = run-Lives i parse_json lines (initial rid) (initial-Lives i parse_json rid) in
          let over = (finish-WellFormed i [] _ lives.well_formed).1 in
          let l = finish-Lives i _ lives in (l.settled over, l.well_formed.announced)
