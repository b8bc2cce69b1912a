-- ===== src/Util/Path/Traversal.antt =====
-- src/util.c: which paths verify_path lets through, and what a normalised URI looks like.
use mathlib.Core.Bool.{false≢true}
use mathlib.Core.Path.{subst}
use checkedc_icecast.Base.{
  ℕ, ◌≡◌, refl, sym, ap, ◌∙◌, ◌↔◌, ◌⊎◌, inl, inr, Bool, true, false, ◌||◌, [], ◌∷◌, ◌++◌, Option,
  none, some, arith, ◌==◌, if◌then◌else◌, Bool-cases, Option-cases, Bytes, IsText, c_string,
  c_string-IsText,
}
use checkedc_icecast.Util.Url.{util_url_escape, util_url_unescape, emit}
use checkedc_icecast.Util.Url.RoundTrip.{unescape-literal, is_literal, unescape-escape}
use checkedc_icecast.Util.Path.{
  is_separator, verify_from, verify_path, accept_decoded, util_normalise_uri,
  util_get_path_from_uri, util_get_path_from_normalised_uri,
}

-- Dots, perhaps none, and then a separator.
pub data DotsThenSeparator : Bytes → Type 0 where
  close : {c : ℕ} {p : Bytes} → is_separator c ≡ true → DotsThenSeparator (c ∷ p)
  dot : {c : ℕ} {p : Bytes} → c ≡ b'.' → DotsThenSeparator p → DotsThenSeparator (c ∷ p)

-- Somewhere a component between two separators is empty or has only dots.
pub data Traverses : Bytes → Type 0 where
  here : {c : ℕ} {p : Bytes} → is_separator c ≡ true → DotsThenSeparator p → Traverses (c ∷ p)
  later : {c : ℕ} {p : Bytes} → Traverses p → Traverses (c ∷ p)

dots-refused :
    {p : Bytes} (dir dots : Bool)
    → dir || dots ≡ true
    → DotsThenSeparator p
    → verify_from dir dots p ≡ false
unfolding verify_from is_separator
dots-refused dir dots h (close e) = ground arith
dots-refused dir dots h (dot {c} {p} e d) = ground (arith, dots-refused false true refl d)

Traverses-refused : {p : Bytes} (dir dots : Bool) → Traverses p → verify_from dir dots p ≡ false
unfolding verify_from
Traverses-refused dir dots (here {c} {p} e d) = ground (arith, dots-refused true false refl d)
Traverses-refused dir dots (later {c} {p} t) = ground (
  arith,
  Traverses-refused true dots t,
  Traverses-refused false (if dir || dots then c == b'.' else dots) t,
)

separator_step :
    (c : ℕ) (p : Bytes) (dir dots : Bool)
    → is_separator c ≡ true
    → verify_from dir dots (c ∷ p) ≡ false
    → (dir || dots ≡ true) ⊎ (verify_from true false p ≡ false)
unfolding verify_from
separator_step c p dir true e h = inl (ground arith)
separator_step c p true false e h = inl refl
separator_step c p false false e h = inr (ground arith)

char_step :
    (c : ℕ) (p : Bytes) (dir dots : Bool)
    → is_separator c ≡ false
    → verify_from dir dots (c ∷ p) ≡ verify_from false (if dir || dots then c == b'.' else dots) p
unfolding verify_from
char_step c p dir dots e = rw e

dot_step :
    (c : ℕ) (dir dots : Bool)
    → (if dir || dots then c == b'.' else dots) ≡ true
    → (dir || dots ≡ true) × (c ≡ b'.')
dot_step c dir dots h = ground arith

separator-cases :
    (c : ℕ) (p : Bytes) (dir dots : Bool)
    → is_separator c ≡ true
    → (verify_from true false p ≡ false → Traverses p ⊎ ((true ≡ true) × DotsThenSeparator p))
    → (dir || dots ≡ true) ⊎ (verify_from true false p ≡ false)
    → Traverses (c ∷ p) ⊎ ((dir || dots ≡ true) × DotsThenSeparator (c ∷ p))
separator-cases c p dir dots e ih (inl open_run) = inr (open_run, close e)
separator-cases c p dir dots e ih (inr h) = elim (ih h) [
  | inl t ↦ inl (later t)
  | inr (_, d) ↦ inl (here e d)
]

char-cases :
    (c : ℕ) (p : Bytes) (dir dots : Bool)
    → Traverses p ⊎ (((if dir || dots then c == b'.' else dots) ≡ true) × DotsThenSeparator p)
    → Traverses (c ∷ p) ⊎ ((dir || dots ≡ true) × DotsThenSeparator (c ∷ p))
char-cases c p dir dots (inl t) = inl (later t)
char-cases c p dir dots (inr (e, d)) =
    let found = dot_step c dir dots e in inr (found.0, dot found.1 d)

refused-cases :
    (p : Bytes) (dir dots : Bool)
    → verify_from dir dots p ≡ false
    → Traverses p ⊎ ((dir || dots ≡ true) × DotsThenSeparator p)
unfolding verify_from
refused-cases [] dir dots h = absurd (false≢true (sym h))
refused-cases (c ∷ p) dir dots h = elim (Bool-cases (is_separator c)) [
  | inl e ↦
      separator-cases c p dir dots e (refused-cases p true false) (separator_step c p dir dots e h)
  | inr e ↦ char-cases c p dir dots (refused-cases p false _ (sym (char_step c p dir dots e) ∙ h))
]

-- verify_path lets a path through exactly when no component between two separators is empty or
-- made of dots only.
pub verify_path-Traverses : (p : Bytes) → (verify_path p ≡ true) ↔ (¬ Traverses p)
unfolding verify_path
verify_path-Traverses p = (
  λ h t. absurd (false≢true (sym (Traverses-refused false false t) ∙ h)),
  λ free. elim (Bool-cases (verify_from false false p)) [
    | inl e ↦ e
    | inr e ↦ elim (refused-cases p false false e) [
      | inl t ↦ absurd (free t)
      | inr (f, _) ↦ absurd (false≢true f)
    ]
  ],
)

accepted :
    (o : Option Bytes) (p : Bytes)
    → accept_decoded o ≡ some p
    → (d : Bytes) × (o ≡ some d) × (p ≡ c_string d) × (verify_path p ≡ true)
unfolding accept_decoded
accepted none p h = cc
accepted (some d) p h = elim (Bool-cases (verify_path (c_string d))) [
  | inl e ↦ let same : p ≡ c_string d = ground arith in (d, refl, same, rw same e)
  | inr e ↦ absurd (ground arith)
]

slash-literal : is_literal b'/' ≡ true
unfolding is_literal
slash-literal = refl

emit-some :
    (c : ℕ) (o : Option Bytes) {d : Bytes}
    → emit c o ≡ some d
    → (r : Bytes) × (o ≡ some r) × (d ≡ c ∷ r)
unfolding emit
emit-some c none h = cc
emit-some c (some r) h = (r, refl, cc)

slash-decoded :
    (uri : Bytes) {d : Bytes}
    → util_url_unescape (b'/' ∷ uri) ≡ some d
    → (r : Bytes) × (util_url_unescape uri ≡ some r) × (d ≡ b'/' ∷ r)
slash-decoded uri h =
    emit-some b'/' (util_url_unescape uri) (sym (unescape-literal b'/' uri slash-literal) ∙ h)

normalised :
    (uri p : Bytes)
    → util_normalise_uri uri ≡ some p
    → (u : Bytes) × (accept_decoded (util_url_unescape (b'/' ∷ u)) ≡ some p)
unfolding util_normalise_uri
normalised [] p h = cc
normalised (c ∷ u) p h = elim (Bool-cases (c == b'/')) [
  | inl e ↦
      let same : c ≡ b'/' = ground arith in
      (u, sym (ap (λ (x : ℕ). accept_decoded (util_url_unescape (x ∷ u))) same) ∙ test e)
  | inr e ↦ absurd (ground arith)
]
  where
    test : c == b'/' ≡ true → accept_decoded (util_url_unescape (c ∷ u)) ≡ some p
    test e = ground arith

-- What util_normalise_uri gives begins with `/`, and has no component between two separators that
-- is empty or made of dots only.
pub normalise_uri-confined :
    (uri p : Bytes)
    → util_normalise_uri uri ≡ some p
    → (r : Bytes) × (p ≡ b'/' ∷ r) × (¬ Traverses p)
unfolding c_string
normalise_uri-confined uri p h =
    let n = normalised uri p h in
    let a = accepted (util_url_unescape (b'/' ∷ n.0)) p n.1 in
    let d = slash-decoded n.0 a.1 in
    (c_string d.0, a.2 ∙ ap c_string d.2, (verify_path-Traverses p).0 a.3)

-- A path that util_get_path_from_uri gives is the web root followed by a path that begins with `/`
-- and has no component between two separators that is empty or made of dots only.
pub path_from_uri_confined :
    (webroot uri full : Bytes)
    → util_get_path_from_uri webroot uri ≡ some full
    → (p : Bytes) × (full ≡ webroot ++ b'/' ∷ p) × (¬ Traverses (b'/' ∷ p))
unfolding util_get_path_from_uri util_get_path_from_normalised_uri
path_from_uri_confined webroot uri full h = elim (Option-cases (util_normalise_uri uri)) [
  | inl e ↦ absurd (ground arith)
  | inr (p, e) ↦
      let n = normalise_uri-confined uri p e in
      (n.0, full_is p e ∙ ap (◌++◌ webroot) n.1, λ t. n.2 (subst Traverses (sym n.1) t))
]
  where
    full_is : (p : Bytes) → util_normalise_uri uri ≡ some p → full ≡ webroot ++ p
    full_is p e = ground arith

accepts : (p : Bytes) → IsText p → ¬ Traverses p → accept_decoded (some p) ≡ some p
unfolding accept_decoded
accepts p h free = rw (c_string-IsText p h, (verify_path-Traverses p).1 free)

-- A C string that begins with `/` and has no component between two separators that is empty or made
-- of dots only is what util_normalise_uri gives for its escaped text.
pub normalise_uri-escape :
    (s : Bytes)
    → IsText s
    → ¬ Traverses (b'/' ∷ s)
    → util_normalise_uri (b'/' ∷ util_url_escape s) ≡ some (b'/' ∷ s)
unfolding util_normalise_uri emit accept_decoded
normalise_uri-escape s h free =
    rw (unescape-literal b'/' (util_url_escape s) slash-literal, unescape-escape s h)
      (accepts (b'/' ∷ s) (omega arith, h) free)
