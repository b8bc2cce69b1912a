-- ===== src/Source/Lifecycle/Places.antt =====
-- src/connection.c, src/source.c and src/slave.c: what each change makes of a source that counts.
use checkedc_icecast.Base.{
  ℕ, ◌+◌, ◌≤◌, ◌<◌, ◌≡◌, refl, sym, ap, ◌∙◌, Bool, true, false, List, [], ◌∷◌, Option, none, some,
  Bytes, arith,
}
use checkedc_icecast.Base.Number.{ℤ, pos, ◌-ℤ◌}
use checkedc_icecast.Auth.Counted.{plus_one, minus_one}
use checkedc_icecast.Source.Lifecycle.{
  Owner, of_client, of_file, of_relay, Place, reserved, waiting, streaming, shut_down, idle,
  SourceEntry, has_mount, Completion, completed, refused, After, completed_place, refuse, complete,
  source_client_callback, source_shutdown, after_shutdown, start_relay, relay_cleanup, not_opened,
}

-- From completion up to source_shutdown, or to the error that source_client_callback finds.
unfoldable pub is_counted : Place → Bool
is_counted reserved = false
is_counted waiting = true
is_counted streaming = true
is_counted shut_down = false
is_counted idle = false

unfoldable pub one_if : Bool → ℕ
one_if true = 1
one_if false = 0

unfoldable pub active_sources : List SourceEntry → ℕ
active_sources [] = 0
active_sources (source ∷ tree) = one_if (is_counted source.place) + active_sources tree

-- A source that no thread serves does not run.
unfoldable pub IsRight : SourceEntry → Type 0
IsRight source = is_counted source.place ≡ false → source.running ≡ false

unfoldable pub IsDistinct : List SourceEntry → Type 0
IsDistinct [] = Unit
IsDistinct (source ∷ tree) = (has_mount source.mount tree ≡ false) × IsDistinct tree

-- What is left of a source has its mount.
unfoldable pub Keeps : Bytes → Option SourceEntry → Type 0
Keeps mount none = Unit
Keeps mount (some source) = (source.mount ≡ mount) × IsRight source

unfoldable pub left_active : Option SourceEntry → ℕ
left_active none = 0
left_active (some source) = one_if (is_counted source.place)

-- Behind an act at a source with `k` other sources that run.
unfoldable pub IsFine : ℕ → ℕ → Bytes → After → Type 0
IsFine source_limit k mount (sources, left) =
    Keeps mount left
    × (sources ≡ pos (k + left_active left))
    × (k + left_active left ≤ source_limit)

refuse-Keeps :
    (owner : Owner) (source : SourceEntry)
    → is_counted source.place ≡ false
    → IsRight source
    → Keeps source.mount (refuse owner source) × (left_active (refuse owner source) ≡ 0)
unfolding Keeps IsRight is_counted left_active one_if refuse
refuse-Keeps of_client source r h = (tt, refl)
refuse-Keeps of_file source r h = ((refl, λ e. h r), refl)
refuse-Keeps of_relay source r h = ((refl, λ e. h r), refl)

active : (owner : Owner) → is_counted (completed_place owner) ≡ true
unfolding is_counted completed_place
active of_client = refl
active of_file = refl
active of_relay = refl

pub complete-IsFine :
    (source_limit k : ℕ) (sources : ℤ) (source : SourceEntry) (answer : Completion)
    → is_counted source.place ≡ false
    → IsRight source
    → (answer ≡ completed → k < source_limit)
    → sources ≡ pos k
    → k ≤ source_limit
    → IsFine source_limit k source.mount (complete sources source answer)
unfolding IsFine Keeps IsRight left_active complete one_if
complete-IsFine source_limit k sources source completed r g h s l =
    let free = h refl in
    let on = active source.owner in
    let one : one_if (is_counted (completed_place source.owner)) ≡ 1 = ap one_if on in
    (
      (refl, λ e. absurd (cc (sym on ∙ e))),
      plus_one sources k s ∙ ap pos (omega arith),
      omega arith,
    )
complete-IsFine source_limit k sources source (refused message) r g h s l =
    let q = refuse-Keeps source.owner source r g in (q.0, s ∙ ap pos (omega arith), omega arith)

-- What is left of a source that did not run does not run.
unfoldable pub IsStill : SourceEntry → Option SourceEntry → Type 0
IsStill source left = Keeps source.mount left × (left_active left ≡ 0)

same-IsStill :
    (source : SourceEntry)
    → is_counted source.place ≡ false
    → IsRight source
    → IsStill source (some source)
unfolding IsStill Keeps left_active one_if
same-IsStill source r h = ((refl, h), ap one_if r)

pub start_relay-IsStill :
    (owner : Owner) (source : SourceEntry)
    → is_counted source.place ≡ false
    → IsRight source
    → IsStill source (some (start_relay owner source))
unfolding IsStill Keeps IsRight is_counted left_active one_if start_relay
start_relay-IsStill of_client source r h = same-IsStill source r h
start_relay-IsStill of_file source r h = same-IsStill source r h
start_relay-IsStill of_relay source r h = ((refl, λ e. h r), refl)

pub relay_cleanup-IsStill :
    (owner : Owner) (source : SourceEntry)
    → is_counted source.place ≡ false
    → IsRight source
    → IsStill source (relay_cleanup owner source)
unfolding IsStill Keeps left_active one_if relay_cleanup
relay_cleanup-IsStill of_client source r h = same-IsStill source r h
relay_cleanup-IsStill of_file source r h = same-IsStill source r h
relay_cleanup-IsStill of_relay source r h = (tt, refl)

pub not_opened-IsStill :
    (owner : Owner) (source : SourceEntry)
    → is_counted source.place ≡ false
    → IsRight source
    → IsStill source (some (not_opened owner source))
unfolding IsStill Keeps IsRight is_counted left_active one_if not_opened
not_opened-IsStill of_client source r h = same-IsStill source r h
not_opened-IsStill of_file source r h = same-IsStill source r h
not_opened-IsStill of_relay source r h = ((refl, λ e. h r), refl)

pub after_shutdown-IsStill :
    (owner : Owner) (source : SourceEntry)
    → is_counted source.place ≡ false
    → IsRight source
    → IsStill source (after_shutdown owner source)
unfolding IsStill Keeps IsRight is_counted left_active one_if after_shutdown
after_shutdown-IsStill of_client source r h = (tt, refl)
after_shutdown-IsStill of_file source r h = (tt, refl)
after_shutdown-IsStill of_relay source r h = ((refl, λ e. h r), refl)

pub plain : (k : ℕ) → k + one_if false ≡ k
unfolding one_if
plain k = omega arith

-- One source less.
fewer :
    (k : ℕ) (sources : ℤ) (running : Bool)
    → running ≡ true
    → sources ≡ pos (k + one_if running)
    → sources -ℤ pos 1 ≡ pos (k + 0)
unfolding one_if
fewer k sources running r s =
    minus_one sources (k + 0) (s ∙ ap (λ b. pos (k + one_if b)) r ∙ ap pos (omega arith))

pub callback-IsFine :
    (source_limit k : ℕ) (sources : ℤ) (source : SourceEntry) (error : Bool)
    → is_counted source.place ≡ true
    → sources ≡ pos (k + one_if (is_counted source.place))
    → k + one_if (is_counted source.place) ≤ source_limit
    → IsFine source_limit k source.mount (source_client_callback sources source error)
unfolding IsFine Keeps IsRight is_counted left_active one_if source_client_callback
callback-IsFine source_limit k sources source true r s l =
    (tt, fewer k sources (is_counted source.place) r s, omega arith)
callback-IsFine source_limit k sources source false r s l =
    let one : one_if (is_counted source.place) ≡ 1 = ap one_if r in
    ((refl, λ e. absurd cc), s ∙ ap pos (omega arith), omega arith)

pub shutdown-IsFine :
    (source_limit k : ℕ) (sources : ℤ) (source : SourceEntry)
    → is_counted source.place ≡ true
    → sources ≡ pos (k + one_if (is_counted source.place))
    → k + one_if (is_counted source.place) ≤ source_limit
    → IsFine source_limit k source.mount (source_shutdown sources source)
unfolding IsFine Keeps IsRight is_counted left_active source_shutdown one_if
shutdown-IsFine source_limit k sources source r s l =
    ((refl, λ e. refl), fewer k sources (is_counted source.place) r s, omega arith)
