-- ===== src/Fserve/MimeTypes/Lines.antt =====
-- src/fserve.c: the lines of the file of content types.
use checkedc_icecast.Base.{
  ℕ, ◌≡◌, ◌≢◌, refl, sym, ap, ◌∙◌, Bool, true, false, ◌||◌, List, [], ◌∷◌, ◌++◌, none, some, ◌==◌,
  Bytes, All, append_assoc, append-nil, if_true, if_false, arith,
}
use checkedc_icecast.Fserve.MimeTypes.{
  is_gap, ends_type, ends_word, cut_type, extensions, is_skipped, mapped, mime_line,
}

unfoldable pub IsWord : Bytes → Type 0
IsWord w = All (λ c. ends_word c ≡ false) w

-- A type and its extensions, with what stands behind the NUL of its line.
pub record Entry : Type 0 where
  pub type : Bytes
  pub ext : Bytes
  pub exts : List Bytes
  pub behind : Bytes

-- Each extension behind a blank, then the end of the line.
unfoldable pub render_exts : List Bytes → Bytes → Bytes
render_exts [] behind = b'\n' ∷ 0 ∷ behind
render_exts (ext ∷ exts) behind = b' ' ∷ (ext ++ render_exts exts behind)

unfoldable pub render : Entry → Bytes
render e = e.type ++ render_exts (e.ext ∷ e.exts) e.behind

unfoldable pub AreExts : List Bytes → Type 0
AreExts [] = Unit
AreExts (ext ∷ exts) = (ext ≢ []) × IsWord ext × AreExts exts

word_ends :
    (w v t : Bytes) (c : ℕ)
    → IsWord v
    → ends_word c ≡ true
    → extensions (some w) (v ++ c ∷ t) ≡ (w ++ v) ∷ extensions none t
unfolding extensions IsWord
word_ends w [] t c h e = if_true _ _ _ e ∙ ap (λ x. x ∷ extensions none t) (sym (append-nil w))
word_ends w (x ∷ v) t c h e =
    if_false _ _ _ h.0
    ∙ word_ends (w ++ x ∷ []) v t c h.1 e
    ∙ ap (λ y. y ∷ extensions none t) (append_assoc w (x ∷ []) v)

none_of : (a b c : Bool) → (a || (b || c)) ≡ false → ((a || b) ≡ false) × (c ≡ false)
none_of false b c h = ground (arith, h)
none_of true b c h = absurd cc

starts_word :
    (x c : ℕ) (v t : Bytes)
    → IsWord (x ∷ v)
    → ends_word c ≡ true
    → extensions none (x ∷ (v ++ c ∷ t)) ≡ (x ∷ v) ∷ extensions none t
unfolding extensions IsWord ends_word is_gap
starts_word x c v t h e =
    let n = none_of (is_gap x) (x == b'\n') (x == 0) h.0 in
    if_false _ _ _ n.0 ∙ if_false _ _ _ n.1 ∙ word_ends (x ∷ []) v t c h.1 e

newline : ends_word b'\n' ≡ true
unfolding ends_word is_gap
newline = refl

blank : ends_word b' ' ≡ true
unfolding ends_word is_gap
blank = refl

at_end : (behind : Bytes) → extensions none (0 ∷ behind) ≡ []
unfolding extensions is_gap
at_end behind = refl

extensions-render :
    (ext : Bytes) (exts : List Bytes) (behind : Bytes)
    → AreExts (ext ∷ exts)
    → extensions none (ext ++ render_exts exts behind) ≡ ext ∷ exts
unfolding render_exts AreExts
extensions-render [] exts behind h = absurd (h.0 refl)
extensions-render (x ∷ v) [] behind h =
    starts_word x b'\n' v (0 ∷ behind) h.1 newline ∙ ap (λ l. (x ∷ v) ∷ l) (at_end behind)
extensions-render (x ∷ v) (ext ∷ exts) behind h =
    starts_word x b' ' v (ext ++ render_exts exts behind) h.1 blank
    ∙ ap (λ l. (x ∷ v) ∷ l) (extensions-render ext exts behind h.2)

unfoldable pub IsType : Bytes → Type 0
IsType type = All (λ c. ends_type c ≡ false) type × (is_skipped type ≡ false)

cut_type-render :
    (type rest : Bytes)
    → All (λ c. ends_type c ≡ false) type
    → cut_type (type ++ b' ' ∷ rest) ≡ (type, some rest)
unfolding cut_type is_gap ends_type
cut_type-render [] rest h = refl
cut_type-render (x ∷ type) rest h =
    let n = neither (is_gap x) (x == 0) h.0 in
    if_false _ _ _ n.0
    ∙ if_false _ _ _ n.1
    ∙ ap (λ r. (x ∷ r.0, r.1)) (cut_type-render type rest h.1)
  where
    neither : (a b : Bool) → (a || b) ≡ false → (a ≡ false) × (b ≡ false)
    neither false b h = (refl, h)
    neither true b h = absurd cc

skips_same : (type t : Bytes) → is_skipped type ≡ false → is_skipped (type ++ t) ≡ false
unfolding is_skipped
skips_same [] t h = absurd cc
skips_same (x ∷ type) t h = h

pub mime_line-render :
    (type ext : Bytes) (exts : List Bytes) (behind : Bytes)
    → IsType type
    → AreExts (ext ∷ exts)
    → mime_line (type ++ render_exts (ext ∷ exts) behind) ≡ (type, ext ∷ exts)
unfolding mime_line mapped IsType render_exts
mime_line-render type ext exts behind h k =
    if_false _ _ _ (skips_same type _ h.1)
    ∙ ap mapped (cut_type-render type (ext ++ render_exts exts behind) h.0)
    ∙ ap (λ l. (type, l)) (extensions-render ext exts behind k)
