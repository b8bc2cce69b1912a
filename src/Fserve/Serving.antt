-- ===== src/Fserve/Serving.antt =====
-- src/fserve.c: what a client of the file server is sent.
use mathlib.Core.Path.{subst}
use checkedc_icecast.Base.Number.{decimal}
use checkedc_icecast.Base.{
  codes, ℕ, zero, suc, ◌+◌, ◌-◌, ◌≤◌, ◌<◌, ◌≡◌, ◌⊎◌, refl, sym, ap, ◌∙◌, inl, inr, false, List, [],
  ◌∷◌, ◌++◌, Option, none, some, ◌==◌, leb, Bytes, All, concat, length, take, drop, length-append,
  length-drop, length-take-le, take-append-drop, drop-plus, append_assoc, append-nil, drop_all,
  Bool-cases, ==_iff, if_true, if_false, arith,
}
use checkedc_icecast.Util.Headers.{snprintf, header_text}
use checkedc_icecast.Fserve.{
  end_position, FileConfig, sends_buffer, from, response_of, range_text, with_headers, answer_range,
  FserveClient, takes, Turn, goes_on, ends, read_file, next_chunk, fetch,
  format_generic_write_to_client, and_send, serve,
}

file_rest : Option Bytes → Bytes
file_rest none = []
file_rest (some file) = file

-- What is still to be sent.
rest : FserveClient → Bytes
rest c = drop c.pos c.refbuf ++ (file_rest c.file ++ concat c.next)

-- A turn of the next bytes leaves what is to be sent; where none are fetched, a buffer is used up or bytes are at hand.
Fetched : FserveClient → Turn → Type 0
Fetched c (goes_on d) =
    (rest d ≡ rest c)
    × (d.sent ≡ c.sent)
    × (d.pos ≤ length d.refbuf)
    × (length d.next ≤ length c.next)
    × ((d.pos < length d.refbuf) ⊎ (length d.next < length c.next))
Fetched c (ends d) = (d ≡ c) × (rest c ≡ [])

-- Where nothing of the buffer is left, what is to be sent is the rest of the file and the buffers behind.
at_end : (c : FserveClient) → c.pos ≡ length c.refbuf → rest c ≡ file_rest c.file ++ concat c.next
unfolding rest
at_end c e =
    ap (λ l. l ++ (file_rest c.file ++ concat c.next)) (drop_all c.pos c.refbuf (omega arith))

next_chunk-Fetched :
    (c : FserveClient) (chunk : Bytes) (file : Option Bytes) (next : List Bytes)
    → c.next ≡ next
    → rest c ≡ chunk ++ (file_rest file ++ concat next)
    → (chunk ≡ [] → file_rest file ≡ [])
    → Fetched c (next_chunk c (chunk, file) next)
unfolding Fetched next_chunk rest
next_chunk-Fetched c (b ∷ bytes) file next e r z = (
  ap (λ n. b ∷ (bytes ++ (file_rest file ++ concat n))) e ∙ sym r,
  refl,
  omega arith,
  omega arith,
  inl (omega arith),
)
next_chunk-Fetched c [] file [] e r z = (refl, r ∙ append-nil (file_rest file) ∙ z refl)
next_chunk-Fetched c [] file (x ∷ next) e r z = (
  ap (λ f. x ++ (f ++ concat next)) (z refl) ∙ sym (r ∙ ap (λ f. f ++ (x ++ concat next)) (z refl)),
  refl,
  omega arith,
  omega (arith, ap (length {A = Bytes}) e),
  inr omega (arith, ap (length {A = Bytes}) e),
)

nothing_read : (f : Bytes) → take 4096 f ≡ [] → drop 4096 f ≡ []
nothing_read [] e = refl
nothing_read (x ∷ f) e = absurd (omega (arith, ap (length {A = ℕ}) e))

read-Fetched :
    (c : FserveClient) (file : Option Bytes)
    → c.file ≡ file
    → c.pos ≡ length c.refbuf
    → Fetched c (next_chunk c (read_file file) c.next)
unfolding read_file file_rest
read-Fetched c none e p =
    next_chunk-Fetched c [] none c.next refl (at_end c p ∙ ap (λ f. file_rest f ++ concat c.next) e)
      (λ z. refl)
read-Fetched c (some f) e p =
    next_chunk-Fetched c (take 4096 f) (some (drop 4096 f)) c.next refl
      (at_end c p
        ∙ ap (λ g. file_rest g ++ concat c.next) e
        ∙ sym (
            sym (append_assoc (take 4096 f) (drop 4096 f) (concat c.next))
            ∙ ap (λ l. l ++ concat c.next) (take-append-drop 4096 f)))
      (nothing_read f)

fetch-Fetched : (c : FserveClient) → c.pos ≤ length c.refbuf → Fetched c (fetch c)
unfolding fetch Fetched
fetch-Fetched c p = elim (Bool-cases (c.pos == length c.refbuf)) [
  | inl e ↦
      subst (Fetched c) (sym (if_true _ _ _ e)) (read-Fetched c c.file refl ((==_iff _ _).0 e))
  | inr e ↦
      subst (Fetched c) (sym (if_false _ _ _ e)) (refl, refl, p, omega arith, inl (ground arith))
]

-- The count of turns that a client needs at most.
measure : FserveClient → ℕ
measure c = length (rest c) + length c.next

-- What was sent and what is still to be sent make the same text as before.
Served : FserveClient → Turn → Type 0
Served c (goes_on d) =
    (d.sent ++ rest d ≡ c.sent ++ rest c) × (d.pos ≤ length d.refbuf) × (measure d < measure c)
Served c (ends d) = d.sent ≡ c.sent ++ rest c

take-drop-length : (n : ℕ) (xs : Bytes) → take n xs ++ drop (length (take n xs)) xs ≡ xs
take-drop-length zero xs = refl
take-drop-length (suc n) [] = refl
take-drop-length (suc n) (x ∷ xs) = ap (◌∷◌ x) (take-drop-length n xs)

take-pos : (n : ℕ) (xs : Bytes) → 0 < n → 0 < length xs → 0 < length (take n xs)
take-pos zero xs h k = h
take-pos (suc n) [] h k = k
take-pos (suc n) (x ∷ xs) h k = omega arith

length-take_some : (n : ℕ) (xs : Bytes) → length (take n xs) ≤ length xs
length-take_some n xs =
    omega
      (arith, ap (length {A = ℕ}) (take-append-drop n xs), length-append (take n xs) (drop n xs))

-- The bytes that a send takes are the first that were still to be sent.
rest-send :
    (d : FserveClient) (n : ℕ)
    → take n (drop d.pos d.refbuf)
        ++ rest (record d {
          pos = d.pos + length (take n (drop d.pos d.refbuf));
          sent = d.sent ++ take n (drop d.pos d.refbuf);
        })
      ≡ rest d
unfolding rest
rest-send d n =
    let left = drop d.pos d.refbuf in
    let bytes = take n left in
    let behind = file_rest d.file ++ concat d.next in
    ap (λ l. bytes ++ (l ++ behind)) (drop-plus d.pos (length bytes) d.refbuf)
    ∙ sym (append_assoc bytes (drop (length bytes) left) behind)
    ∙ ap (λ l. l ++ behind) (take-drop-length n left)

write-Served :
    (c d : FserveClient) (n : ℕ)
    → 0 < n
    → Fetched c (goes_on d)
    → Served c (format_generic_write_to_client d (takes n))
unfolding Fetched Served format_generic_write_to_client measure
write-Served c d n h f =
    let left = drop d.pos d.refbuf in
    let bytes = take n left in
    let d' : FserveClient = record d { pos = d.pos + length bytes; sent = d.sent ++ bytes } in
    let size = length-drop d.pos d.refbuf in
    let some_taken : (d.pos < length d.refbuf) → 0 < length bytes =
      λ lt. take-pos n left h (omega arith) in
    let whole : length bytes + length (rest d') ≡ length (rest c) =
      omega (arith, ap (length {A = ℕ}) (rest-send d n ∙ f.0), length-append bytes (rest d')) in
    (
      append_assoc d.sent bytes (rest d')
          ∙ ap (◌++◌ d.sent) (rest-send d n ∙ f.0)
          ∙ ap (λ s. s ++ rest c) f.1,
      omega (arith, size, length-take_some n left, f.2),
      shrinks (length (rest c)) (length (rest d')) (length bytes) (length c.next) (length d.next)
          whole f.3 (elim f.4 [ inl lt ↦ inl (some_taken lt) | inr lt ↦ inr lt ]),
    )
  where
    shrinks : (r r' b n n' : ℕ) → b + r' ≡ r → n' ≤ n → (0 < b) ⊎ (n' < n) → r' + n' < r + n
    shrinks r r' b n n' e l (inl h) = omega arith
    shrinks r r' b n n' e l (inr h) = omega arith

serve-Served :
    (c : FserveClient) (n : ℕ) (t : Turn) → 0 < n → Fetched c t → Served c (and_send t (takes n))
unfolding and_send Fetched Served
serve-Served c n (goes_on d) h f = write-Served c d n h f
serve-Served c n (ends d) h f =
    ap (λ e. e.sent) f.0 ∙ sym (ap (◌++◌ c.sent) f.1 ∙ append-nil c.sent)

-- The turns of a client, one for each send, until it ends.
pub serve_all : FserveClient → List ℕ → Turn
serve_all c [] = goes_on c
serve_all c (n ∷ ns) = elim (serve c (takes n)) as (λ _. Turn) [
  | goes_on d ↦ serve_all d ns
  | ends d ↦ ends d
]

-- The client ends, and was sent all.
abbrev Sends : FserveClient → List ℕ → Type 0
Sends c ns = (d : FserveClient) × (serve_all c ns ≡ ends d) × (d.sent ≡ c.sent ++ rest c)

first_turn :
    (c : FserveClient) (n : ℕ) (ns : List ℕ) (t : Turn)
    → serve c (takes n) ≡ t
    → Served c t
    → measure c < suc (length ns)
    → ((d : FserveClient) → d.pos ≤ length d.refbuf → measure d < length ns → Sends d ns)
    → Sends c (n ∷ ns)
unfolding Served serve_all
first_turn c n ns (ends d) e s l again = (d, rw (e, serve_all) refl, s)
first_turn c n ns (goes_on d) e s l again =
    let r = again d s.1 (omega (arith, s.2)) in (r.0, rw (e, serve_all) r.1, r.2 ∙ s.0)

serve_all-Served :
    (c : FserveClient) (ns : List ℕ)
    → c.pos ≤ length c.refbuf
    → All (λ n. 0 < n) ns
    → measure c < length ns
    → Sends c ns
unfolding serve
serve_all-Served c [] p h l = absurd (omega arith)
serve_all-Served c (n ∷ ns) p h l =
    first_turn c n ns (serve c (takes n)) refl (serve-Served c n (fetch c) h.0 (fetch-Fetched c p))
      l (λ d q k. serve_all-Served d ns q h.1 k)

-- A client that has just been handed over with a text and a file.
abbrev pub handed_over : Bytes → Option Bytes → FserveClient
handed_over text file = record { refbuf = text; next = []; pos = 0; file = file; sent = [] }

-- The lines about the bytes of the file that are sent, from the first to the last one.
pub range_lines : Bytes → ℕ → ℕ → Bytes
range_lines sent first size =
    codes "Accept-Ranges: bytes\r\nContent-Length: "
    ++ (decimal (length sent)
        ++ (codes "\r\nContent-Range: bytes "
            ++ (decimal first
                ++ (b'-' ∷ (decimal (size - 1) ++ b'/' ∷ (decimal size ++ codes "\r\n\r\n"))))))

range-lines :
    (n : ℕ) (content : Bytes)
    → n ≤ length content
    → range_text n (length content) ≡ range_lines (drop n content) n (length content)
unfolding range_text range_lines end_position
range-lines n content h =
    let size : length content - n ≡ length (drop n content) = sym (length-drop n content) in
    let last : n + (length content - n) - 1 ≡ length content - 1 = omega arith in
    rw (last, size) refl

-- A range that starts inside the file or at its end, headers of less than 3584 bytes, and a network that
-- takes at least a byte in each turn: after more than 4096 turns beyond the bytes of the file the client
-- is through, and was sent the headers, the lines about the range, cut to the room that is left behind the
-- headers, and the bytes of the file from there on. The lines give the number of these bytes as the
-- length, and the range from the first of them to the last byte of the file, of as many as the file has.
pub range-served :
    (config : FileConfig) (type content : Bytes) (n : ℕ) (ns : List ℕ)
    → n ≤ length content
    → length (header_text config.server (response_of 206 type none)) < 3584
    → All (λ k. 0 < k) ns
    → 4096 + length content < length ns
    → (text : Bytes) × (d : FserveClient) × (answer_range config type content (from n)
        ≡ sends_buffer text (some (drop n content)))
      × (serve_all (handed_over text (some (drop n content))) ns ≡ ends d)
      × (d.sent
          ≡ (header_text config.server (response_of 206 type none)
              ++ snprintf
                  (4096 - length (header_text config.server (response_of 206 type none)))
                  (range_lines (drop n content) n (length content)))
            ++ drop n content)
unfolding answer_range with_headers measure rest file_rest
range-served config type content n ns h k a l =
    let response = response_of 206 type none in
    let header = header_text config.server response in
    let lines = snprintf (4096 - length header) (range_text n (length content)) in
    let text = header ++ lines in
    let file = drop n content in
    let fits : leb 3584 (length header) ≡ false = ground arith in
    let short = length-take-le (4096 - length header - 1) (range_text n (length content)) in
    let all = serve_all-Served (handed_over text (some file)) ns (omega arith) a (
      omega (
        arith,
        length-append header lines,
        length-append text (file ++ []),
        length-append file [],
        length-drop n content,
      )) in
    (
      text,
      all.0,
      rw fits refl,
      all.1,
      all.2
          ∙ ap (◌++◌ text) (append-nil file)
          ∙ ap (λ l. (header ++ snprintf (4096 - length header) l) ++ file)
              (range-lines n content h),
    )
