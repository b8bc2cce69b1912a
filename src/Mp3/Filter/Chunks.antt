-- ===== src/Mp3/Filter/Chunks.antt =====
-- src/format_mp3.c: where the bytes of a source are cut into buffers makes no difference.
use checkedc_icecast.Base.{
  ℕ, ◌^◌, ◌<◌, ◌≡◌, refl, sym, ap, ◌∙◌, inl, inr, List, [], ◌∷◌, ◌++◌, Option, none, some, ltb,
  Bytes, arith, length-append, Bool-cases, ltb→lt,
}
use checkedc_icecast.Mp3.Filter.{
  Filter, Filtered, kept, ended, begin_block, metadata_remaining, prepend, filter_bytes,
}
use checkedc_icecast.Mp3.Filter.Bytewise.{
  finish_block-interval, after_block-IsFilter, begin_block-IsFilter,
}
use checkedc_icecast.Mp3.Filter.Runs.{
  IsFilter, close_block, block_byte, one_byte, follow, bytewise, prepend-nil, prepend-append,
}

-- The state that a call leaves is one to go on from.
abbrev Sound : Filtered → Type 0
Sound (kept s audio) = IsFilter s
Sound (ended s) = Unit

close_block-Sound :
    (s : Filter) (o : Option Filter)
    → ((told : Filter) → o ≡ some told → told.interval < 2 ^ 31)
    → Sound (close_block s o)
unfolding close_block
close_block-Sound s none h = tt
close_block-Sound s (some told) h = after_block-IsFilter told (h told refl)

more-IsFilter :
    (s : Filter) (b : ℕ)
    → IsFilter s
    → 1 < metadata_remaining s
    → IsFilter (record s { build = s.build ++ b ∷ [] })
unfolding metadata_remaining
more-IsFilter s b i h = omega (arith, i.within, i.is_int, length-append s.build (b ∷ []))

block_byte-Sound : (s : Filter) (b : ℕ) → IsFilter s → Sound (block_byte s b)
unfolding block_byte
block_byte-Sound s b i = elim (Bool-cases (ltb 1 (metadata_remaining s))) [
  | inl e ↦ rw e (more-IsFilter s b i (ltb→lt 1 (metadata_remaining s) e))
  | inr e ↦ rw e (
      close_block-Sound s _
        (λ told f. omega (arith, finish_block-interval s (s.build ++ 0 ∷ []) told f, i.is_int)))
]

one_byte-Sound : (s : Filter) (b : ℕ) → IsFilter s → Sound (one_byte s b)
unfolding one_byte
one_byte-Sound s b i = elim (Bool-cases (ltb s.offset s.interval)) [
  | inl e ↦ rw e (omega (arith, ltb→lt s.offset s.interval e, i.within, i.is_int, i.building))
  | inr e ↦ rw e (block_byte-Sound (begin_block s b) b (begin_block-IsFilter s b i))
]

follow-prepend :
    (audio : Bytes) (r : Filtered) (f : Filter → Filtered)
    → follow (prepend audio r) f ≡ prepend audio (follow r f)
unfolding follow prepend
follow-prepend audio (kept s rest) f = prepend-append audio rest (f s)
follow-prepend audio (ended s) f = refl

follow_assoc :
    (r : Filtered) (f g : Filter → Filtered)
    → follow (follow r f) g ≡ follow r (λ t. follow (f t) g)
unfolding follow
follow_assoc (kept s audio) f g = follow-prepend audio (f s) g
follow_assoc (ended s) f g = refl

follow_same :
    (r : Filtered) (f g : Filter → Filtered)
    → Sound r
    → ((t : Filter) → IsFilter t → f t ≡ g t)
    → follow r f ≡ follow r g
unfolding follow
follow_same (kept s audio) f g h k = ap (prepend audio) (k s h)
follow_same (ended s) f g h k = refl

pub bytewise-append :
    (s : Filter) (xs ys : Bytes)
    → IsFilter s
    → bytewise s (xs ++ ys) ≡ follow (bytewise s xs) (λ t. bytewise t ys)
unfolding bytewise follow
bytewise-append s [] ys i = sym (prepend-nil _)
bytewise-append s (b ∷ xs) ys i =
    follow_same (one_byte s b) _ _ (one_byte-Sound s b i) (λ t j. bytewise-append t xs ys j)
    ∙ sym (follow_assoc (one_byte s b) _ _)

-- One call of the filter for each buffer, until the stream ends.
pub feed : Filter → List Bytes → Filtered
feed s [] = kept s []
feed s (buffer ∷ buffers) = follow (filter_bytes s buffer) (λ t. feed t buffers)
