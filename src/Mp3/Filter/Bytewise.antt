-- ===== src/Mp3/Filter/Bytewise.antt =====
-- src/format_mp3.c: the filter, which works on runs of bytes, against an automaton that reads byte by byte.
use checkedc_icecast.Base.{
  ℕ, zero, suc, ◌+◌, ◌-◌, ◌^◌, ◌≤◌, ◌<◌, ◌≡◌, refl, sym, ap, ◌∙◌, inl, inr, [], ◌∷◌, ◌++◌, Option,
  none, some, ltb, leb, Bytes, arith, length, take, drop, leb→le, ltb→lt, Bool-cases, length-drop,
}
use checkedc_icecast.Mp3.Filter.{
  Filter, Filtered, kept, ended, mp3_block, begin_block, metadata_remaining, assign_metadata,
  finish_block, after_block, end_stream, prepend, filter_loop, filter_bytes,
  filter_shoutcast_metadata,
}
use checkedc_icecast.Mp3.Filter.Runs.{
  IsFilter, close_block, follow, bytewise, prepend-nil, audio_run, begin_block_facts,
  bytewise-begin, whole_block, mp3_block-room, all_audio, all_block,
}

pub finish_block-interval :
    (s : Filter) (block : Bytes) (told : Filter)
    → finish_block s block ≡ some told
    → told.interval ≡ s.interval
unfolding finish_block assign_metadata filter_shoutcast_metadata
finish_block-interval s block told h = ground arith

pub after_block-IsFilter : (s : Filter) → s.interval < 2 ^ 31 → IsFilter (after_block s)
unfolding after_block
after_block-IsFilter s h = omega arith

pub begin_block-IsFilter : (s : Filter) (b : ℕ) → IsFilter s → IsFilter (begin_block s b)
unfolding begin_block
begin_block-IsFilter s b h = ground arith

remaining_pos : (s : Filter) → IsFilter s → 0 < s.build_len → 0 < metadata_remaining s
unfolding metadata_remaining
remaining_pos s i h = omega (arith, i.building h)

-- The loop behind a whole block, where it does what the automaton does on the rest.
past_block :
    (s : Filter) (o : Option Filter) (rest : Bytes) (loop : Filter → Bytes → Filtered)
    → ((told : Filter)
        → o ≡ some told
        → loop (after_block told) rest ≡ bytewise (after_block told) rest)
    → (elim o as (λ _. Filtered) [
      | none ↦ ended (end_stream s)
      | some told ↦ loop (after_block told) rest
    ])
      ≡ follow (close_block s o) (λ t. bytewise t rest)
unfolding close_block follow
past_block s none rest loop h = refl
past_block s (some told) rest loop h = h told refl ∙ sym (prepend-nil _)

pub bytewise-nil : (s : Filter) → kept s [] ≡ bytewise s []
unfolding bytewise
bytewise-nil s = refl

-- With a round for each byte, the loop over runs does what the automaton does.
pub filter_loop-bytewise :
    (fuel : ℕ) (s : Filter) (bytes : Bytes)
    → IsFilter s
    → length bytes < fuel
    → filter_loop fuel s bytes ≡ bytewise s bytes
unfolding filter_loop
filter_loop-bytewise zero s bytes i h = absurd (omega arith)
filter_loop-bytewise (suc fuel) s [] i h = bytewise-nil s
filter_loop-bytewise (suc fuel) s (src ∷ bytes) i h =
    let all = src ∷ bytes in
    let block = mp3_block s in
    let begun = begin_block s src in
    let remaining = metadata_remaining begun in
    let room = mp3_block-room s i in
    let facts = begin_block_facts s src in
    let begun_is = begin_block-IsFilter s src i in
    elim (Bool-cases (leb (length all) block)) [
      | inl a ↦
          rw (filter_loop, a)
            (sym (all_audio s all (omega (arith, leb→le (length all) block a, room))))
      | inr a ↦ elim (Bool-cases (ltb 0 block)) [
        | inl c ↦
            let s1 : Filter = record s { offset = s.offset + block } in
            let long : block < length all = ground arith in
            let more : 0 < block = ltb→lt 0 block c in
            rw (filter_loop, a, c)
              (ap (prepend (take block all)) (
                  filter_loop-bytewise fuel s1 (drop block all)
                    (omega (arith, i.within, i.is_int, i.building, room))
                    (omega (arith, length-drop block all)))
                ∙ sym (audio_run block s all (omega (arith, room)) (omega arith)))
        | inr c ↦
            let full : s.interval ≤ s.offset = ground (arith, room) in
            let begun_full : begun.interval ≤ begun.offset = omega (arith, facts) in
            elim (Bool-cases (ltb (length all) remaining)) [
              | inl d ↦
                  rw (filter_loop, a, c, d)
                    (sym (
                      bytewise-begin s src bytes full
                      ∙ all_block begun all begun_full facts.0 (ltb→lt (length all) remaining d)))
              | inr d ↦
                  let n = remaining - 1 in
                  let same : suc n ≡ remaining =
                    omega (arith, remaining_pos begun begun_is facts.0) in
                  let some_left : 0 < remaining = remaining_pos begun begun_is facts.0 in
                  let enough : remaining ≤ length all = ground arith in
                  let whole = begun.build ++ (take n all ++ 0 ∷ []) in
                  rw (filter_loop, a, c, d)
                    (past_block begun (finish_block begun whole) (drop remaining all)
                        (filter_loop fuel)
                        (λ told e.
                          filter_loop-bytewise fuel (after_block told) (drop remaining all)
                            (after_block-IsFilter told (
                              omega
                                (arith, finish_block-interval begun whole told e, facts, i.is_int)))
                            (omega (arith, length-drop remaining all)))
                      ∙ ap
                          (λ k.
                            follow (close_block begun (finish_block begun whole))
                              (λ t. bytewise t (drop k all)))
                          (sym same)
                      ∙ sym (
                          bytewise-begin s src bytes full
                          ∙ whole_block begun all n begun_full facts.0 (sym same) (omega arith)))
            ]
      ]
    ]

-- For a filter that is well formed, the loop over runs of bytes ends within one more round than there
-- are bytes, and does what an automaton does that reads byte by byte.
pub filter_bytes-bytewise :
    (s : Filter) (bytes : Bytes) → IsFilter s → filter_bytes s bytes ≡ bytewise s bytes
unfolding filter_bytes
filter_bytes-bytewise s bytes i = filter_loop-bytewise (suc (length bytes)) s bytes i (omega arith)
