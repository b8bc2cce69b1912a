-- ===== src/Relay/Connect/Accepted.antt =====
-- src/httpp/httpp.c: the status codes of the answers that leave a parser without an error message.
use checkedc_icecast.Base.{
  ◌≡◌, refl, sym, ap, ◌∙◌, inl, inr, Bool, true, false, not, ◌||◌, List, [], ◌∷◌, Option, none,
  some, Bytes, bytes_eq, bytes_eq_refl, codes, Bool-cases, if_true, if_false, get_elem?,
}
use checkedc_icecast.Base.Number.{pos, atoi, ltb_ℤ}
use checkedc_icecast.Httpp.Tree.{VarTree}
use checkedc_icecast.Httpp.Vars.{
  HttpParser, httpp_getvar, httpp_setvar, var_error_code, var_error_message, var_uri, var_req_type,
}
use checkedc_icecast.Httpp.Vars.Laws.{IsClean, getvar-setvar}
use checkedc_icecast.Httpp.Lines.{
  Split, split_headers, line_at, lowercase, header_name, scan_value, header_texts,
  parse_header_line, parse_header_lines, parse_headers,
}
use checkedc_icecast.Httpp.Request.{words_from, accept_response}

-- The code of a status line, a number from 200 on and below 300.
pub IsSuccess : Option Bytes → Type 0
IsSuccess code =
    (c : Bytes) × (code ≡ some c)
    × (ltb_ℤ (atoi c) (pos 200) ≡ false)
    × (ltb_ℤ (atoi c) (pos 300) ≡ true)

unfoldable pub status_code : Bytes → Option Bytes
status_code text = get_elem? (words_from false (line_at (split_headers text).data_left 0)) 0

inside : (a b : Bool) → (a || not b) ≡ false → (a ≡ false) × (b ≡ true)
inside false true h = (refl, refl)
inside false false h = absurd cc
inside true b h = absurd cc

module _ (T : VarTree) where
  open T use {Tree}

  IsGiven : HttpParser Tree → Bytes → Type 0
  IsGiven p j = IsClean T p.vars × (v : Bytes) × (httpp_getvar T p j ≡ some v)

  setvar-IsGiven :
      (p : HttpParser Tree) (k : Bytes) (value : Option Bytes) (j : Bytes)
      → IsGiven p j
      → IsGiven (httpp_setvar T p k value) j
  unfolding IsGiven httpp_setvar
  setvar-IsGiven p k none j h = h
  setvar-IsGiven p k (some value) j h =
      let s = getvar-setvar T p k value j h.0 in
      let found : (v : Bytes) × (httpp_getvar T (httpp_setvar T p k (some value)) j ≡ some v) =
        elim (Bool-cases (bytes_eq k j)) [
          | inl e ↦ (value, s.1 ∙ if_true _ _ _ e)
          | inr e ↦ (h.1, s.1 ∙ if_false _ _ _ e ∙ h.2)
        ] in
      (s.0, found.0, found.1)

  lines-IsGiven :
      (p : HttpParser Tree) (lines : List Bytes) (j : Bytes)
      → IsGiven p j
      → IsGiven (parse_header_lines T p lines) j
  unfolding parse_header_lines parse_header_line
  lines-IsGiven p [] j h = h
  lines-IsGiven p (line ∷ lines) j h =
      lines-IsGiven (parse_header_line T p line) lines j
        (setvar-IsGiven p (lowercase (header_name line)) (scan_value false line) j h)

  told-IsGiven :
      (p : HttpParser Tree) (message : Bytes)
      → IsClean T p.vars
      → IsGiven (httpp_setvar T p var_error_message (some message)) var_error_message
  unfolding IsGiven
  told-IsGiven p message c =
      let s = getvar-setvar T p var_error_message message var_error_message c in
      (s.0, message, s.1 ∙ if_true _ _ _ (bytes_eq_refl var_error_message))

  -- An answer that is accepted and has no message has a code of success.
  pub accepted-IsSuccess :
      (p read : HttpParser Tree) (split : Split) (uri : Bytes) (code message : Option Bytes)
      → IsClean T p.vars
      → accept_response T p split uri code message ≡ (read, true)
      → httpp_getvar T read var_error_message ≡ none
      → IsSuccess code
  unfolding accept_response IsSuccess IsGiven parse_headers
  accepted-IsSuccess p read split uri none message c h e = absurd cc
  accepted-IsSuccess p read split uri (some code) none c h e = absurd cc
  accepted-IsSuccess p read split uri (some code) (some message) c h e =
      let coded = httpp_setvar T p var_error_code (some code) in
      let told = httpp_setvar T coded var_error_message (some message) in
      let finish : HttpParser Tree → HttpParser Tree = λ q.
        parse_header_lines T
          (httpp_setvar T (httpp_setvar T q var_uri (some uri)) var_req_type (some (codes "NONE")))
          (header_texts split) in
      elim (Bool-cases (ltb_ℤ (atoi code) (pos 200) || not (ltb_ℤ (atoi code) (pos 300)))) [
        | inl b ↦
            let same : finish told ≡ read =
              ap finish (sym (if_true _ told coded b)) ∙ ap (λ r. r.0) h in
            let message_set = lines-IsGiven _ (header_texts split) var_error_message (
              setvar-IsGiven _ var_req_type (some (codes "NONE")) var_error_message (
                setvar-IsGiven _ var_uri (some uri) var_error_message (
                  told-IsGiven coded message
                    (getvar-setvar T p var_error_code code var_error_code c).0))) in
            absurd
              (cc (sym e ∙ ap (λ q. httpp_getvar T q var_error_message) (sym same) ∙ message_set.2))
        | inr b ↦ let n = inside _ _ b in (code, refl, n.0, n.1)
      ]
