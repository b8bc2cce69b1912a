-- ===== src/Connection/Dispatch/Listeners.antt =====
-- src/connection.c: a GET request on its way from its bytes to the listeners of a mount.
use checkedc_icecast.Base.{◌≡◌, refl, ◌∙◌, false, List, [], ◌∷◌, some, Bytes, bytes_eq}
use checkedc_icecast.Httpp.Tree.{VarTree}
use checkedc_icecast.Httpp.Vars.{
  HttpParser, var_protocol, var_version, var_req_type, var_uri, httpp_getvar, httpp_setvar,
}
use checkedc_icecast.Httpp.Vars.Laws.{IsClean, getvar-setvar}
use checkedc_icecast.Httpp.Lines.{lowercase}
use checkedc_icecast.Httpp.Request.{request_type}
use checkedc_icecast.Httpp.Request.Laws.{set_headers, parsed}

-- A header that is none of the parser's own variables.
abbrev pub IsForeign : Bytes × Bytes → Type 0
IsForeign x =
    (bytes_eq (lowercase x.0) var_uri ≡ false) × (bytes_eq (lowercase x.0) var_protocol ≡ false)

module _ (T : VarTree) where
  open T use {Tree}

  pub headers_type :
      (p : HttpParser Tree) (hs : List (Bytes × Bytes)) → (set_headers T p hs).req_type ≡ p.req_type
  unfolding set_headers httpp_setvar
  headers_type p [] = refl
  headers_type p ((name, value) ∷ hs) =
      headers_type (httpp_setvar T p (lowercase name) (some value)) hs

  pub parsed_vars :
      (p : HttpParser Tree) (method uri protocol version name : Bytes)
      → IsClean T p.vars
      → IsClean T (parsed T p method uri protocol version name).vars
        × (httpp_getvar T (parsed T p method uri protocol version name) var_uri ≡ some uri)
        × (httpp_getvar T (parsed T p method uri protocol version name) var_protocol
            ≡ some protocol)
        × ((parsed T p method uri protocol version name).req_type ≡ request_type method)
  unfolding parsed bytes_eq httpp_setvar
  parsed_vars p method uri protocol version name c =
      let p₀ : HttpParser Tree = record p { req_type = request_type method; uri = some uri } in
      let s₁ = getvar-setvar T p₀ var_protocol protocol var_protocol c in
      let p₁ = httpp_setvar T p₀ var_protocol (some protocol) in
      let s₂ = getvar-setvar T p₁ var_version version var_protocol s₁.0 in
      let p₂ = httpp_setvar T p₁ var_version (some version) in
      let s₃ = getvar-setvar T p₂ var_req_type name var_protocol s₂.0 in
      let p₃ = httpp_setvar T p₂ var_req_type (some name) in
      let s₄ = getvar-setvar T p₃ var_uri uri var_protocol s₃.0 in
      let u₄ = getvar-setvar T p₃ var_uri uri var_uri s₃.0 in
      (s₄.0, u₄.1, s₄.1 ∙ s₃.1 ∙ s₂.1 ∙ s₁.1, refl)
