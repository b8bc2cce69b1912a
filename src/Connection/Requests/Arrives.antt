-- ===== src/Connection/Requests/Arrives.antt =====
-- src/connection.c: the headers of a client arrive in pieces.
use checkedc_icecast.Base.{
  ℕ, ◌+◌, ◌-◌, ◌≤◌, ◌<◌, ◌≡◌, refl, sym, ap, ◌∙◌, inl, inr, false, List, [], ◌∷◌, ◌++◌, Option,
  none, some, ◌==◌, Bytes, IsText, c_string, c_string-IsText, length, length-append, drop, take_all,
  arith, Bool-cases, Option-cases, some_path, append_assoc, All, concat, ltb, ltb→lt,
}
use checkedc_icecast.Mp3.Filter.{str_str}
use checkedc_icecast.Connection.Requests.{
  ClientQueue, got, behind, or_else, nsvcap_end, crlf_end, lf_end, headers_end, pass_it, passes,
  stays, drops, passed, room, with_data, fate,
}
use checkedc_icecast.Connection.Requests.Search.{
  str_str-prefix, behind-le, behind-append, behind-none, c_string-prefix, c_string-text,
}

split_at :
    (xs ys zs ws : Bytes)
    → xs ++ ys ≡ zs ++ ws
    → length xs ≤ length zs
    → (q : Bytes) × (zs ≡ xs ++ q) × (ys ≡ q ++ ws)
split_at [] ys zs ws e h = (zs, refl, e)
split_at (x ∷ xs) ys [] ws e h = absurd (omega arith)
split_at (x ∷ xs) ys (z ∷ zs) ws e h =
    let head : x ≡ z = ap (λ l. elim l as (λ _. ℕ) [ [] ↦ 0 | (a ∷ as') ↦ a ]) e in
    let tail : xs ++ ys ≡ zs ++ ws = ap (drop 1) e in
    let s = split_at xs ys zs ws tail (omega arith) in (s.0, rw head (ap (◌∷◌ z) s.1), s.2)

-- Headers whose first blank line, ended by CR LF, is their last: in what is read with them, no blank line of
-- another kind is found before.
pub record IsHead (h b : Bytes) : Type 0 where
  pub text : IsText h
  pub crlf : behind h crlf_end ≡ some (length h)
  pub lf : str_str h lf_end ≡ none
  pub nsvcap : str_str (c_string (h ++ b)) nsvcap_end ≡ none

length-c_string : (s : Bytes) → length (c_string s) ≤ length s
unfolding c_string
length-c_string [] = omega arith
length-c_string (c ∷ s) = ground (arith, length-c_string s)

no_nsvcap :
    (h b seen rest : Bytes)
    → IsHead h b
    → seen ++ rest ≡ h ++ b
    → behind (c_string seen) nsvcap_end ≡ none
no_nsvcap h b seen rest g e =
    let p = c_string-prefix seen rest in
    behind-none (c_string seen) nsvcap_end (
      str_str-prefix (c_string seen) p.0 nsvcap_end
        (ap (λ t. str_str t nsvcap_end) (sym p.1 ∙ ap c_string e) ∙ g.nsvcap))

-- Before the end of the headers nothing is found.
early :
    (h b seen rest q : Bytes)
    → IsHead h b
    → seen ++ rest ≡ h ++ b
    → h ≡ seen ++ q
    → length seen < length h
    → headers_end (c_string seen) ≡ none
unfolding headers_end or_else
early h b seen rest q g e i l =
    let p = c_string-prefix seen q in
    let whole : c_string seen ++ p.0 ≡ h =
      sym p.1 ∙ ap c_string (sym i) ∙ c_string-IsText h g.text in
    let no_lf =
      behind-none (c_string seen) lf_end
        (str_str-prefix (c_string seen) p.0 lf_end (ap (λ t. str_str t lf_end) whole ∙ g.lf)) in
    elim (Option-cases (behind (c_string seen) crlf_end)) [
      | inl none_found ↦ rw (no_nsvcap h b seen rest g e, none_found, no_lf) refl
      | inr (n, f) ↦
          let at : n ≡ length h = some_path n (length h) (
            sym (behind-append (c_string seen) p.0 crlf_end n f)
            ∙ ap (λ t. behind t crlf_end) whole
            ∙ g.crlf) in
          absurd (omega (arith, behind-le (c_string seen) crlf_end n f, length-c_string seen))
    ]

late :
    (h b seen rest x : Bytes)
    → IsHead h b
    → seen ++ rest ≡ h ++ b
    → seen ≡ h ++ x
    → headers_end (c_string seen) ≡ some (length h)
unfolding headers_end or_else
late h b seen rest x g e d =
    let found : behind (c_string seen) crlf_end ≡ some (length h) =
      ap (λ t. behind t crlf_end) (ap c_string d ∙ c_string-text h x g.text)
      ∙ behind-append h (c_string x) crlf_end (length h) g.crlf in
    rw (no_nsvcap h b seen rest g e, found) refl

-- The reads of a client one after the other, until it is passed on with the reads that are left, or dropped.
pub gather : ClientQueue → List Bytes → Option (ClientQueue × List Bytes)
gather node [] = none
gather node (c ∷ chunks) = elim (fate node (got c)) as (λ _. Option (ClientQueue × List Bytes)) [
  | passes next ↦ some (next, chunks)
  | stays next ↦ gather next chunks
  | drops ↦ none
]

gather-stays :
    (node next : ClientQueue) (c : Bytes) (chunks : List Bytes)
    → fate node (got c) ≡ stays next
    → gather node (c ∷ chunks) ≡ gather next chunks
unfolding gather
gather-stays node next c chunks e = rw (e, gather) refl

gather-passes :
    (node next : ClientQueue) (c : Bytes) (chunks : List Bytes)
    → fate node (got c) ≡ passes next
    → gather node (c ∷ chunks) ≡ some (next, chunks)
unfolding gather
gather-passes node next c chunks e = rw (e, gather) refl

-- What is passed on: the headers, what was read behind them, and nothing is lost.
pub record IsPassed (h b : Bytes) (node : ClientQueue) (chunks : List Bytes) : Type 0 where
  pub next : ClientQueue
  pub left : List Bytes
  pub more : Bytes
  pub gathered : gather node chunks ≡ some (next, left)
  pub offset_is : next.stream_offset ≡ length h
  pub buffer_is : next.buffer ≡ h ++ more
  pub rest_is : more ++ concat left ≡ b

with_data-fate :
    (node : ClientQueue) (c : Bytes)
    → (node.shoutcast == 1) ≡ false
    → 0 < length c
    → length node.buffer + length c < 4096
    → fate node (got c) ≡ (
        let more = record node { buffer = node.buffer ++ c } in
        passed more (headers_end (c_string more.buffer)))
unfolding fate with_data room pass_it
with_data-fate node [] s p l = absurd (omega arith)
with_data-fate node (x ∷ c) s p l =
    rw (take_all (4095 - length node.buffer) (x ∷ c) (omega arith), s) refl

-- One read, by whether the blank line was found.
with_none :
    (node : ClientQueue) (c : Bytes)
    → (node.shoutcast == 1) ≡ false
    → 0 < length c
    → length node.buffer + length c < 4096
    → headers_end (c_string (node.buffer ++ c)) ≡ none
    → fate node (got c) ≡ stays (record node { buffer = node.buffer ++ c })
unfolding passed
with_none node c s p l e =
    with_data-fate node c s p l ∙ ap (passed (record node { buffer = node.buffer ++ c })) e

with_end :
    (node : ClientQueue) (c : Bytes) (n : ℕ)
    → (node.shoutcast == 1) ≡ false
    → 0 < length c
    → length node.buffer + length c < 4096
    → headers_end (c_string (node.buffer ++ c)) ≡ some n
    → fate node (got c) ≡ passes (record node { buffer = node.buffer ++ c; stream_offset = n })
unfolding passed
with_end node c n s p l e =
    with_data-fate node c s p l ∙ ap (passed (record node { buffer = node.buffer ++ c })) e

-- A client that is not from a Shoutcast source sends headers and a body, together less than 4096 bytes.
-- The headers are text and end in CR LF CR LF, which stands nowhere before in them, and neither LF LF
-- stands in them nor the blank line with CR CR LF in what is searched of headers and body. Then, however
-- they are cut into reads that are not empty, with the end of the headers not read yet, the client is
-- passed on with the offset of the body, the headers and a part of the body are in its buffer, and the
-- reads that are left have the rest of the body.
pub arrives :
    (h b : Bytes) (node : ClientQueue) (chunks : List Bytes)
    → IsHead h b
    → (node.shoutcast == 1) ≡ false
    → All (λ c. 0 < length c) chunks
    → node.buffer ++ concat chunks ≡ h ++ b
    → length (h ++ b) < 4096
    → length node.buffer < length h
    → IsPassed h b node chunks
arrives h b node [] g s a e l k =
    absurd (omega (arith, ap (length {A = ℕ}) e, length-append node.buffer [], length-append h b))
arrives h b node (c ∷ chunks) g s a e l k =
    let seen = node.buffer ++ c in
    let e' : seen ++ concat chunks ≡ h ++ b = append_assoc node.buffer c (concat chunks) ∙ e in
    let fits : length node.buffer + length c < 4096 = omega (
      arith,
      ap (length {A = ℕ}) e',
      length-append seen (concat chunks),
      length-append node.buffer c,
    ) in
    elim (Bool-cases (ltb (length seen) (length h))) [
      | inl t ↦
          let less = ltb→lt _ _ t in
          let q = split_at seen (concat chunks) h b e' (omega arith) in
          let stay =
            with_none node c s a.0 fits (early h b seen (concat chunks) q.0 g e' q.1 less) in
          let ih = arrives h b (record node { buffer = seen }) chunks g s a.1 e' l less in
          record {
            next = ih.next;
            left = ih.left;
            more = ih.more;
            gathered = gather-stays node _ c chunks stay ∙ ih.gathered;
            offset_is = ih.offset_is;
            buffer_is = ih.buffer_is;
            rest_is = ih.rest_is;
          }
      | inr t ↦
          let q = split_at h b seen (concat chunks) (sym e') (ground arith) in
          let end = late h b seen (concat chunks) q.0 g e' q.1 in
          record {
            next = record node { buffer = seen; stream_offset = length h };
            left = chunks;
            more = q.0;
            gathered = gather-passes node _ c chunks (with_end node c (length h) s a.0 fits end);
            offset_is = refl;
            buffer_is = q.1;
            rest_is = sym q.2;
          }
    ]
