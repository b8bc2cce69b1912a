-- ===== src/Httpp/Lines/Cut.antt =====
-- src/httpp/httpp.c: split_headers on a text of lines that end in CR LF, closed by an empty line.
use mathlib.Core.List.{map}
use mathlib.Core.Path.{subst, ap₂}
use checkedc_icecast.Base.{
  ℕ, suc, ◌+◌, ◌-◌, ◌≤◌, ◌<◌, ◌≡◌, ◌≢◌, refl, sym, ap, ◌∙◌, List, [], ◌∷◌, ◌++◌, arith, Bytes,
  c_string, All, length, drop, take_all, length-map, append_assoc, length-append,
}
use checkedc_icecast.Httpp.Lines.{
  Split, keep, mark, at_newline, split_from, split_headers, line_at, header_texts,
}

-- A byte that stands inside a line.
abbrev pub IsInner : ℕ → Type 0
IsInner c = (c ≢ 0) × (c ≢ b'\r') × (c ≢ b'\n')

abbrev pub IsLine : Bytes → Type 0
IsLine l = (l ≢ []) × All IsInner l

-- The lines with their ends, and the empty line behind them.
unfoldable pub render_lines : List Bytes → Bytes
render_lines [] = b'\r' ∷ b'\n' ∷ []
render_lines (l ∷ ls) = l ++ b'\r' ∷ b'\n' ∷ render_lines ls

abbrev prepend : Bytes → Split → Split
prepend l r = record r { data_left = l ++ r.data_left }

split-inner :
    (i n : ℕ) (l s : Bytes)
    → All IsInner l
    → split_from i n (l ++ s) ≡ prepend l (split_from (i + length l) n s)
unfolding split_from
split-inner i n [] s h = ap (λ k. split_from k n s) (omega arith)
split-inner i n (c ∷ l) s h =
    inner_step c (l ++ s) h.0
    ∙ ap (keep c) (split-inner (i + 1) n l s h.1)
    ∙ ap (λ k. prepend (c ∷ l) (split_from k n s)) (omega arith)
  where
    inner_step :
        (c : ℕ) (s : Bytes) → IsInner c → split_from i n (c ∷ s) ≡ keep c (split_from (i + 1) n s)
    inner_step c s h = ground arith

drop-append : (l d : Bytes) (k : ℕ) → drop (length l + k) (l ++ d) ≡ drop k d
drop-append [] d k = ap (λ j. drop j d) (omega arith)
drop-append (c ∷ l) d k =
    let e : suc (length l) + k ≡ suc (length l + k) = omega arith in
    ap (λ j. drop j (c ∷ (l ++ d))) e ∙ drop-append l d k

c_string-append : (l d : Bytes) → All IsInner l → c_string (l ++ 0 ∷ d) ≡ l
unfolding c_string
c_string-append [] d h = refl
c_string-append (c ∷ l) d h = ground (arith, c_string-append l d h.1)

-- The texts at the offsets, counted from index `i`.
abbrev texts_from : ℕ → Bytes → List ℕ → List Bytes
texts_from i d starts = map (λ st. c_string (drop (st - i) d)) starts

texts-shift :
    (i j : ℕ) (l d : Bytes) (starts : List ℕ)
    → j ≡ i + length l
    → All (λ st. j ≤ st) starts
    → texts_from i (l ++ d) starts ≡ texts_from j d starts
texts-shift i j l d [] e h = refl
texts-shift i j l d (st ∷ starts) e h =
    ap₂ (λ x xs. c_string x ∷ xs)
      (ap (λ k. drop k (l ++ d)) (omega arith) ∙ drop-append l d (st - j))
      (texts-shift i j l d starts e h.1)

All-above :
    (i j : ℕ) (starts : List ℕ) → i ≤ j → All (λ st. j ≤ st) starts → All (λ st. i ≤ st) starts
All-above i j [] h a = tt
All-above i j (st ∷ starts) h a = (omega arith, All-above i j starts h a.1)

-- A result for the lines `l ∷ ls`, from index `i` with `n` lines before.
record Cuts (i n : ℕ) (l : Bytes) (ls : List Bytes) (r : Split) : Type 0 where
  counted : r.lines ≡ n + suc (length ls)
  first : c_string r.data_left ≡ l
  above : All (λ st. i ≤ st) r.starts
  texts : texts_from i r.data_left r.starts ≡ ls

at_empty_line :
    (k n : ℕ) (rest : Split)
    → n < 32
    → at_newline k n (b'\r' ∷ b'\n' ∷ []) rest
      ≡ record { lines = n; data_left = 0 ∷ b'\r' ∷ b'\n' ∷ []; starts = [] }
unfolding at_newline
at_empty_line k n rest h = ground arith

at_line :
    (k n : ℕ) (m s : Bytes) (rest : Split)
    → n < 32
    → IsLine m
    → at_newline k n (m ++ s) rest ≡ mark (k + 1) (keep 0 rest)
unfolding at_newline
at_line k n [] s rest h l = absurd (l.0 refl)
at_line k n (c ∷ m) s rest h l = inner_byte c (m ++ s) l.1.0
  where
    inner_byte :
        (c : ℕ) (s : Bytes) → IsInner c → at_newline k n (c ∷ s) rest ≡ mark (k + 1) (keep 0 rest)
    inner_byte c s i = ground arith

last_line :
    (i n : ℕ) (l : Bytes)
    → IsLine l
    → n + 1 < 32
    → Cuts i n l [] (split_from i n (render_lines (l ∷ [])))
unfolding render_lines split_from
last_line i n l h k =
    subst (Cuts i n l [])
      (sym (
        split-inner i n l (b'\r' ∷ b'\n' ∷ b'\r' ∷ b'\n' ∷ []) h.1
        ∙ ap (λ r. prepend l (keep 0 r)) (at_empty_line (i + length l + 1) (n + 1) _ k)))
      (record { counted = refl; first = c_string-append l _ h.1; above = tt; texts = refl })

more_lines :
    (i n : ℕ) (l m : Bytes) (ls : List Bytes)
    → IsLine l
    → IsLine m
    → n + 1 < 32
    → Cuts
        (i + length l + 1 + 1)
        (n + 1)
        m
        ls
        (split_from (i + length l + 1 + 1) (n + 1) (render_lines (m ∷ ls)))
    → Cuts i n l (m ∷ ls) (split_from i n (render_lines (l ∷ m ∷ ls)))
unfolding render_lines split_from
more_lines i n l m ls h hm k c =
    subst (Cuts i n l (m ∷ ls))
      (sym (
        split-inner i n l (b'\r' ∷ b'\n' ∷ render_lines (m ∷ ls)) h.1
        ∙ ap (λ r. prepend l (keep 0 r)) (at_line (i + length l + 1) (n + 1) m _ _ k hm)))
      (record {
        counted = omega (arith, c.counted);
        first = c_string-append l _ h.1;
        above = (omega arith, All-above i (i + length l + 1 + 1) r.starts (omega arith) c.above);
        texts =
            ap (λ d. texts_from i d (j ∷ r.starts)) (sym (append_assoc l (0 ∷ 0 ∷ []) r.data_left))
            ∙ texts-shift i j (l ++ 0 ∷ 0 ∷ []) r.data_left (j ∷ r.starts)
                (omega (arith, length-append l (0 ∷ 0 ∷ []))) (omega arith, c.above)
            ∙ ap₂ (◌∷◌) (ap (λ k. c_string (drop k r.data_left)) at_start ∙ c.first) c.texts;
      })
  where
    j : ℕ
    j = i + length l + 1 + 1

    at_start : j - j ≡ 0
    at_start = omega arith

    r : Split
    r = split_from (i + length l + 1 + 1) (n + 1) (render_lines (m ∷ ls))

cuts :
    (i n : ℕ) (l : Bytes) (ls : List Bytes)
    → IsLine l
    → All IsLine ls
    → n + suc (length ls) < 32
    → Cuts i n l ls (split_from i n (render_lines (l ∷ ls)))
cuts i n l [] h hs k = last_line i n l h (omega arith)
cuts i n l (m ∷ ls) h hs k =
    more_lines i n l m ls h hs.0 (omega arith)
      (cuts (i + length l + 1 + 1) (n + 1) m ls hs.0 hs.1 (omega arith))

length-starts :
    (i : ℕ) (d : Bytes) (starts : List ℕ) {ls : List Bytes}
    → texts_from i d starts ≡ ls
    → length starts ≡ length ls
length-starts i d starts e = sym (length-map starts _) ∙ ap length e

texts_zero : (d : Bytes) (starts : List ℕ) → map (line_at d) starts ≡ texts_from 0 d starts
unfolding line_at
texts_zero d [] = refl
texts_zero d (st ∷ starts) =
    let e : st ≡ st - 0 = omega arith in
    ap₂ (◌∷◌) (ap (λ k. c_string (drop k d)) e) (texts_zero d starts)

-- A request of at most 31 nonempty lines with no line end or NUL inside, each closed by CR LF, and
-- an empty line is cut into exactly these lines: the first one at the start of the data, and the
-- others as the header lines, in order.
pub split_headers-render :
    (l : Bytes) (ls : List Bytes)
    → IsLine l
    → All IsLine ls
    → length ls < 31
    → (line_at (split_headers (render_lines (l ∷ ls))).data_left 0 ≡ l)
      × (header_texts (split_headers (render_lines (l ∷ ls))) ≡ ls)
unfolding split_headers line_at header_texts
split_headers-render l ls h hs k =
    let c = cuts 0 0 l ls h hs (omega arith) in
    (
      c.first,
      ap (map _) (
            take_all _ r.starts
              (omega (arith, c.counted, length-starts 0 r.data_left r.starts c.texts)))
          ∙ (texts_zero r.data_left r.starts ∙ c.texts),
    )
  where
    r : Split
    r = split_from 0 0 (render_lines (l ∷ ls))
