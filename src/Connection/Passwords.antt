-- ===== src/Connection/Passwords.antt =====
-- src/connection.c: who is let in.
use mathlib.Core.Path.{subst}
use checkedc_icecast.Base.{
  some_path, if_true, if_false, ℕ, suc, ◌-◌, ◌≤◌, ◌≡◌, ◌≢◌, ◌⊎◌, refl, sym, ap, ◌∙◌, inl, inr, Bool,
  true, false, ◌&&◌, [], ◌∷◌, ◌++◌, Option, none, some, ◌==◌, ==_iff, if◌then◌else◌, Bytes, codes,
  bytes_eq, bytes_eq_sound, c_string, str_chr, has_prefix, length, length-append, take, drop,
  take-append, take_all, All, IsText, Bool-cases, arith,
}
use checkedc_icecast.Base.Number.{pos, negsuc, pos_part}
use checkedc_icecast.Httpp.Tree.{VarTree}
use checkedc_icecast.Httpp.Vars.{HttpParser, var_protocol, httpp_getvar}
use checkedc_icecast.Util.Base64.{util_base64_encode, util_base64_decode}
use checkedc_icecast.Util.Base64.RoundTrip.{base64_decode-encode}
use checkedc_icecast.Connection.{
  IceConfig, var_icypassword, check_userpass, check_decoded, check_header, check_icy, check_ice,
  is_icy, as_int, check_pass_http, check_pass_icy, check_pass_ice, check_source,
  connection_check_pass,
}

-- The header that a client sends for a name and a password.
abbrev pub basic : Bytes → Bytes → Bytes
basic user pass = codes "Basic " ++ util_base64_encode (user ++ b':' ∷ pass)

-- A name has no colon.
abbrev pub IsName : Bytes → Type 0
IsName user = All (λ c. c ≢ b':') user

chr-name :
    (user pass : Bytes) → IsName user → str_chr (user ++ b':' ∷ pass) b':' ≡ some (b':' ∷ pass)
unfolding str_chr
chr-name [] pass h = refl
chr-name (c ∷ user) pass h = ground (arith, h.0, chr-name user pass h.1)

take-name :
    (user pass : Bytes)
    → take (length (user ++ b':' ∷ pass) - length (b':' ∷ pass)) (user ++ b':' ∷ pass) ≡ user
take-name user pass =
    ap (λ n. take n (user ++ b':' ∷ pass)) (omega (arith, length-append user (b':' ∷ pass)))
    ∙ take-append (length user) user (b':' ∷ pass) (omega arith)
    ∙ take_all (length user) user (omega arith)

pub check-basic :
    (user pass right_user right_pass : Bytes)
    → IsText (user ++ b':' ∷ pass)
    → IsName user
    → check_header (some (basic user pass)) right_user right_pass
      ≡ (bytes_eq user right_user && bytes_eq pass right_pass)
unfolding check_header check_decoded check_userpass has_prefix
check-basic user pass right_user right_pass t h =
    let d = base64_decode-encode (user ++ b':' ∷ pass) t in
    ap (λ o. check_decoded o right_user right_pass) d.1
    ∙ ap (λ s. check_userpass s (str_chr s b':') right_user right_pass) d.2
    ∙ ap (λ o. check_userpass (user ++ b':' ∷ pass) o right_user right_pass) (chr-name user pass h)
    ∙ ap (λ u. bytes_eq u right_user && bytes_eq pass right_pass) (take-name user pass)

none-some : (t : Bytes) → ¬ (none ≡ some t)
none-some t e =
    omega (arith, ap (λ (o : Option Bytes). elim o as (λ _. ℕ) [ none ↦ 0 | some x ↦ 1 ]) e)

chr-split :
    (s t : Bytes) (c : ℕ)
    → str_chr s c ≡ some t
    → (take (length s - length t) s ++ t ≡ s) × (c ∷ drop 1 t ≡ t) × (length t ≤ length s)
unfolding str_chr
chr-split [] t c e = absurd (none-some t e)
chr-split (d ∷ s) t c e = elim (Bool-cases (d == c)) [
  | inl h ↦
      subst
        (λ x.
          (take (length (d ∷ s) - length x) (d ∷ s) ++ x ≡ d ∷ s)
          × (c ∷ drop 1 x ≡ x)
          × (length x ≤ length (d ∷ s)))
        (some_path (d ∷ s) t (sym (ap (λ b. if b then some (d ∷ s) else str_chr s c) h) ∙ e))
        (
          ap (λ n. take n (d ∷ s) ++ d ∷ s) {y = 0} (omega arith),
          ap (λ x. x ∷ s) (sym ((==_iff d c).0 h)),
          omega arith,
        )
  | inr h ↦
      let rest = chr-split s t c (sym (ap (λ b. if b then some (d ∷ s) else str_chr s c) h) ∙ e) in
      (
        ap (λ n. take n (d ∷ s) ++ t) {y = suc (length s - length t)} (omega (arith, rest.2))
            ∙ ap (◌∷◌ d) rest.0,
        rest.1,
        omega (arith, rest.2),
      )
]

and_true : (a b : Bool) → a && b ≡ true → (a ≡ true) × (b ≡ true)
and_true true b e = (refl, e)
and_true false b e = absurd (ground (arith, e))

-- A name and a password that pass the test are those that were decoded.
userpass_sound :
    (userpass user pass : Bytes) (tmp : Option Bytes)
    → str_chr userpass b':' ≡ tmp
    → check_userpass userpass tmp user pass ≡ true
    → userpass ≡ user ++ b':' ∷ pass
unfolding check_userpass
userpass_sound userpass user pass none f e = absurd (ground (arith, e))
userpass_sound userpass user pass (some tmp) f e =
    let both = and_true _ _ e in
    let s = chr-split userpass tmp b':' f in
    sym s.0
    ∙ ap (λ u. u ++ tmp) (bytes_eq_sound _ user both.0)
    ∙ ap (λ t. user ++ t) (sym s.1 ∙ ap (λ p. b':' ∷ p) (bytes_eq_sound _ pass both.1))

as_int_sound : (b : Bool) → as_int b ≡ pos 1 → b ≡ true
unfolding as_int
as_int_sound true e = refl
as_int_sound false e = absurd (omega (arith, ap pos_part e))

int_differs : ¬ (negsuc 0 ≡ pos 1)
int_differs e = omega (arith, ap pos_part e)

if_same : (b : Bool) → (if b then true else false && false) ≡ b
if_same true = refl
if_same false = refl

module _ (T : VarTree) where
  -- What a request carries that shows the password, with the name in an authorization header only.
  pub data Shows (ice_login : Bool) (parser : HttpParser T.Tree) (user pass : Bytes) : Type 0 where
    shows_icy :
        is_icy (httpp_getvar T parser var_protocol) ≡ true
        → httpp_getvar T parser var_icypassword ≡ some pass
        → Shows ice_login parser user pass
    shows_basic :
        (header decoded : Bytes)
        → httpp_getvar T parser (codes "authorization") ≡ some header
        → has_prefix header (codes "Basic ") ≡ true
        → util_base64_decode (drop 6 header) ≡ some decoded
        → c_string decoded ≡ user ++ b':' ∷ pass
        → Shows ice_login parser user pass
    shows_ice :
        ice_login ≡ true
        → (httpp_getvar T parser (codes "ice-password") ≡ some pass) ⊎ (pass ≡ [])
        → Shows ice_login parser user pass

  decoded-Shows :
      (ice_login : Bool) (parser : HttpParser T.Tree) (user pass header : Bytes)
      (decoded : Option Bytes)
      → httpp_getvar T parser (codes "authorization") ≡ some header
      → has_prefix header (codes "Basic ") ≡ true
      → util_base64_decode (drop 6 header) ≡ decoded
      → check_decoded decoded user pass ≡ true
      → Shows ice_login parser user pass
  unfolding check_decoded
  decoded-Shows l parser user pass header none f h d e = absurd (ground (arith, e))
  decoded-Shows l parser user pass header (some decoded) f h d e =
      shows_basic header decoded f h d
        (userpass_sound (c_string decoded) user pass (str_chr (c_string decoded) b':') refl e)

  header-Shows :
      (ice_login : Bool) (parser : HttpParser T.Tree) (user pass : Bytes) (header : Option Bytes)
      → httpp_getvar T parser (codes "authorization") ≡ header
      → check_header header user pass ≡ true
      → Shows ice_login parser user pass
  unfolding check_header
  header-Shows l parser user pass none f e = absurd (ground (arith, e))
  header-Shows l parser user pass (some header) f e =
      elim (Bool-cases (has_prefix header (codes "Basic "))) [
        | inr h ↦ absurd (ground (arith, e, h))
        | inl h ↦
            decoded-Shows l parser user pass header (util_base64_decode (drop 6 header)) f h refl (
              sym (
                ap
                  (λ b.
                    if b
                    then check_decoded (util_base64_decode (drop 6 header)) user pass
                    else false)
                  h)
              ∙ e)
      ]

  icy_sound : (o : Option Bytes) (pass : Bytes) → check_icy o pass ≡ true → o ≡ some pass
  unfolding check_icy
  icy_sound none pass e = absurd (ground (arith, e))
  icy_sound (some p) pass e = ap some (bytes_eq_sound p pass e)

  ice_sound :
      (o : Option Bytes) (pass : Bytes) → check_ice o pass ≡ true → (o ≡ some pass) ⊎ (pass ≡ [])
  unfolding check_ice
  ice_sound none pass e = inr (sym (bytes_eq_sound [] pass e))
  ice_sound (some p) pass e = inl (ap some (bytes_eq_sound p pass e))

  source-Shows :
      (ice_login : Bool) (parser : HttpParser T.Tree) (user pass : Bytes)
      → check_source T ice_login parser user pass ≡ true
      → Shows ice_login parser user pass
  unfolding check_source check_pass_icy check_pass_http check_pass_ice
  source-Shows l parser user pass e =
      elim (Bool-cases (is_icy (httpp_getvar T parser var_protocol))) [
        | inl i ↦ shows_icy i (icy_sound _ pass (sym (if_true _ _ _ i) ∙ e))
        | inr i ↦ elim (Bool-cases (check_pass_http T parser user pass)) [
          | inl h ↦
              header-Shows l parser user pass (httpp_getvar T parser (codes "authorization")) refl h
          | inr h ↦
              let both =
                and_true l (check_pass_ice T parser pass)
                  (sym (if_false _ _ _ h) ∙ sym (if_false _ _ _ i) ∙ e) in
              shows_ice both.0 (ice_sound _ pass both.1)
        ]
      ]

  -- A source that is let in has shown the password that is set: as the ICY password, in an authorization header that
  -- decodes to the name, a colon and the password, or, where the old login is allowed, as the ice-password, which
  -- an empty password does not need.
  pub check_pass-Shows :
      (config : IceConfig) (parser : HttpParser T.Tree) (user : Bytes) (pass : Option Bytes)
      → connection_check_pass T config parser user pass ≡ pos 1
      → (p : Bytes) × (pass ≡ some p) × Shows config.ice_login parser user p
  unfolding connection_check_pass
  check_pass-Shows config parser user none e = absurd (int_differs e)
  check_pass-Shows config parser user (some p) e =
      (p, refl, source-Shows config.ice_login parser user p (as_int_sound _ e))

  -- Without the ICY protocol and the old login, a source that sends a name without a colon and a password, as text,
  -- is let in just where both are the right ones.
  pub check_pass-basic :
      (config : IceConfig) (parser : HttpParser T.Tree) (user pass right_user right_pass : Bytes)
      → IsText (user ++ b':' ∷ pass)
      → IsName user
      → config.ice_login ≡ false
      → is_icy (httpp_getvar T parser var_protocol) ≡ false
      → httpp_getvar T parser (codes "authorization") ≡ some (basic user pass)
      → connection_check_pass T config parser right_user (some right_pass)
        ≡ as_int (bytes_eq user right_user && bytes_eq pass right_pass)
  unfolding connection_check_pass check_source check_pass_http
  check_pass-basic config parser user pass right_user right_pass t n l i h = ap as_int (
      if_false _ _ _ i
      ∙ ap
          (λ b.
            if check_pass_http T parser right_user right_pass
            then true
            else b && check_pass_ice T parser right_pass)
          l
      ∙ if_same (check_pass_http T parser right_user right_pass)
      ∙ ap (λ o. check_header o right_user right_pass) h
      ∙ check-basic user pass right_user right_pass t n)
