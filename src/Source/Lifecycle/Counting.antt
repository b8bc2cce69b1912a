-- ===== src/Source/Lifecycle/Counting.antt =====
-- src/connection.c, src/source.c and src/slave.c: every act at a source keeps the count.
use checkedc_icecast.Base.{
  ℕ, ◌+◌, ◌≤◌, ◌<◌, ◌≡◌, refl, sym, ap, ◌∙◌, inl, inr, Bool, true, false, Option, some, Bytes,
  Bool-cases, if_false, arith,
}
use checkedc_icecast.Base.Number.{ℤ, pos, ltb_ℤ}
use checkedc_icecast.Httpp.Tree.{VarTree}
use checkedc_icecast.Httpp.Vars.{HttpParser}
use checkedc_icecast.Source.Lifecycle.{
  FormatType, Place, reserved, waiting, streaming, shut_down, idle, SourceEntry, completed, refused,
  connection_complete_source, Act, starts, not_connected, completes, called_back, killed, ends,
  cleaned_up, act_in,
}
use checkedc_icecast.Source.Lifecycle.Places.{
  is_counted, one_if, IsRight, Keeps, left_active, IsFine, complete-IsFine, IsStill,
  start_relay-IsStill, relay_cleanup-IsStill, not_opened-IsStill, after_shutdown-IsStill, plain,
  callback-IsFine, shutdown-IsFine,
}

refused_not : (message : Bytes) → ¬ (refused message ≡ completed)
refused_not message h = cc

module _ (T : VarTree) (source_limit : ℕ) where
  open T use {Tree}

  room_left :
      (k : ℕ) (sources : ℤ) (plugin : FormatType → Bool) (parser : HttpParser Tree)
      → sources ≡ pos k
      → connection_complete_source T source_limit sources plugin parser ≡ completed
      → k < source_limit
  unfolding connection_complete_source
  room_left k sources plugin parser s h = elim (Bool-cases (ltb_ℤ sources (pos source_limit))) [
    | inl b ↦
        let e : ltb_ℤ (pos k) (pos source_limit) ≡ true =
          ap (λ z. ltb_ℤ z (pos source_limit)) (sym s) ∙ b in
        ground arith
    | inr b ↦ absurd (refused_not _ (sym (if_false _ _ _ b) ∙ h))
  ]

  -- A source that an act leaves as it is.
  same-IsFine :
      (k : ℕ) (sources : ℤ) (source : SourceEntry)
      → IsRight source
      → sources ≡ pos (k + one_if (is_counted source.place))
      → k + one_if (is_counted source.place) ≤ source_limit
      → IsFine source_limit k source.mount (sources, some source)
  unfolding IsFine Keeps left_active
  same-IsFine k sources source r s l = ((refl, r), s, l)

  -- The source of a thread that does not run moves, or goes.
  moved-IsFine :
      (k : ℕ) (sources : ℤ) (source : SourceEntry) (left : Option SourceEntry)
      → is_counted source.place ≡ false
      → IsStill source left
      → sources ≡ pos (k + one_if (is_counted source.place))
      → k + one_if (is_counted source.place) ≤ source_limit
      → IsFine source_limit k source.mount (sources, left)
  unfolding IsFine IsStill one_if left_active
  moved-IsFine k sources source left r m s l =
      let none_runs : one_if (is_counted source.place) ≡ left_active left = ap one_if r ∙ sym m.1 in
      (m.0, s ∙ ap (λ n. pos (k + n)) none_runs, omega arith)

  killed-IsFine :
      (k : ℕ) (sources : ℤ) (source : SourceEntry)
      → sources ≡ pos (k + one_if (is_counted source.place))
      → k + one_if (is_counted source.place) ≤ source_limit
      → IsFine source_limit k source.mount (sources, some (record source { running = false }))
  unfolding IsFine Keeps IsRight left_active
  killed-IsFine k sources source s l = ((refl, λ e. refl), s, l)

  pub act-IsFine :
      (place : Place) (act : Act T) (k : ℕ) (sources : ℤ) (source : SourceEntry)
      → source.place ≡ place
      → IsRight source
      → sources ≡ pos (k + one_if (is_counted source.place))
      → k + one_if (is_counted source.place) ≤ source_limit
      → IsFine source_limit k source.mount (act_in T source_limit place act sources source)
  unfolding act_in is_counted
  act-IsFine place killed k sources source p r s l = killed-IsFine k sources source s l
  act-IsFine idle starts k sources source p r s l =
      let off = ap is_counted p in
      moved-IsFine k sources source _ off (start_relay-IsStill source.owner source off r) s l
  act-IsFine idle cleaned_up k sources source p r s l =
      let off = ap is_counted p in
      moved-IsFine k sources source _ off (relay_cleanup-IsStill source.owner source off r) s l
  act-IsFine idle other k sources source p r s l = same-IsFine k sources source r s l
  act-IsFine reserved not_connected k sources source p r s l =
      let off = ap is_counted p in
      moved-IsFine k sources source _ off (not_opened-IsStill source.owner source off r) s l
  act-IsFine reserved (completes plugin parser) k sources source p r s l =
      let off = ap is_counted p in
      let now : sources ≡ pos k = s ∙ ap pos (ap (λ b. k + one_if b) off ∙ plain k) in
      complete-IsFine source_limit k sources source _ off r
        (λ h. room_left k sources plugin parser now h) now (omega arith)
  act-IsFine reserved other k sources source p r s l = same-IsFine k sources source r s l
  act-IsFine waiting (called_back error) k sources source p r s l =
      callback-IsFine source_limit k sources source error (ap is_counted p) s l
  act-IsFine waiting other k sources source p r s l = same-IsFine k sources source r s l
  act-IsFine streaming ends k sources source p r s l =
      shutdown-IsFine source_limit k sources source (ap is_counted p) s l
  act-IsFine streaming other k sources source p r s l = same-IsFine k sources source r s l
  act-IsFine shut_down cleaned_up k sources source p r s l =
      let off = ap is_counted p in
      moved-IsFine k sources source _ off (after_shutdown-IsStill source.owner source off r) s l
  act-IsFine shut_down other k sources source p r s l = same-IsFine k sources source r s l
