-- ===== src/Mp3/Listener/Writes.antt =====
-- src/format_mp3.c: one call for a listener, however much of it the network takes.
use checkedc_icecast.Base.{
  take-plus, drop-plus, ℕ, zero, suc, ◌+◌, ◌-◌, ◌^◌, ◌≤◌, ◌<◌, ◌≡◌, refl, sym, ap, ◌∙◌, inl, inr,
  false, List, [], ◌∷◌, ◌++◌, Option, none, some, ◌==◌, ltb, leb, Bytes, arith, length, take, drop,
  length-append, length-take, length-take-le, length-drop, take-append-drop, append_assoc,
  append-nil, take_all, Bool-cases, ==_iff, leb→le, take-append,
}
use checkedc_icecast.Mp3.Listener.{
  Metadata, Mp3Client, at_most, answered, client_send_bytes, block_for, after_send,
  send_stream_metadata, count_audio, send_audio, write_audio, write_block, remaining_of,
  write_before, write_rest, write_left, format_mp3_write_buf_to_client,
}
use checkedc_icecast.Mp3.Listener.Framed.{IsAssociated, IsFramed, offset_for-eq, at_most-le}
use checkedc_icecast.Mp3.Listener.Steps.{
  IsFramed-net, IsFramed-held, IsFramed-audio, IsFramed-part, IsFramed-whole,
}

-- The buffers before this one and the bytes up to the position were sent, as the audio of whole intervals.
pub record IsHeard (a : Option Metadata) (past bytes : Bytes) (interval : ℕ) (c : Mp3Client)
    : Type 0 where
  pub framed : IsFramed c a (past ++ take c.pos bytes)
  pub pos_le : c.pos ≤ length bytes
  pub same : c.interval ≡ interval

-- `buf` is what follows the position, or begins it.
record Ahead (bytes : Bytes) (c : Mp3Client) (buf : Bytes) : Type 0 where
  rest : Bytes
  is_ahead : drop c.pos bytes ≡ buf ++ rest

-- What a send of audio does: the state, and the count of bytes that it returns.
record SentAudio (c : Mp3Client) (buf : Bytes) (r : Mp3Client × ℕ) : Type 0 where
  out : r.0.in_metadata ≡ false
  taken : r.1 ≤ length buf
  pos_is : r.0.pos ≡ c.pos + r.1
  since_is : r.0.since_meta_block ≡ c.since_meta_block + r.1
  count_is : length r.0.sent ≡ length c.sent + r.1

-- What a send of metadata does.
record SentMetadata (c : Mp3Client) (r : Mp3Client × ℕ) : Type 0 where
  pos_is : r.0.pos ≡ c.pos
  begins : r.0.in_metadata ≡ false → r.0.since_meta_block ≡ 0
  count_is : length r.0.sent ≡ length c.sent + r.1

drop-append : (n : ℕ) (xs ys : Bytes) → n ≤ length xs → drop n (xs ++ ys) ≡ drop n xs ++ ys
drop-append zero xs ys h = refl
drop-append (suc n) [] ys h = absurd (omega arith)
drop-append (suc n) (x ∷ xs) ys h = drop-append n xs ys (omega arith)

remaining_of-eq :
    (c : Mp3Client)
    → c.since_meta_block ≤ c.interval
    → c.interval < 2 ^ 32
    → remaining_of c ≡ c.interval - c.since_meta_block
unfolding remaining_of
remaining_of-eq c h i = omega arith

unsent :
    (c : Mp3Client) (buf : Bytes) (net : List (Option ℕ))
    → c.in_metadata ≡ false
    → SentAudio c buf (record c { net = net }, 0)
unsent c buf net e = record {
  out = e;
  taken = omega arith;
  pos_is = omega arith;
  since_is = omega arith;
  count_is = omega arith;
}

module _ (a : Option Metadata) (assoc : IsAssociated a) (past bytes : Bytes) (interval : ℕ) where
  Ahead-le :
      (c : Mp3Client) (buf : Bytes)
      → Ahead bytes c buf
      → c.pos ≤ length bytes
      → c.pos + length buf ≤ length bytes
  Ahead-le c buf h p =
      omega
        (arith, ap (length {A = ℕ}) h.is_ahead, length-append buf h.rest, length-drop c.pos bytes)

  answered-audio :
      (c : Mp3Client) (buf : Bytes) (net : List (Option ℕ))
      → IsHeard a past bytes interval c
      → c.in_metadata ≡ false
      → c.since_meta_block + length buf ≤ c.interval
      → Ahead bytes c buf
      → IsHeard a past bytes interval (count_audio (answered c buf net)).0
        × SentAudio c buf (count_audio (answered c buf net))
  unfolding answered count_audio
  answered-audio c buf [] g e h b = (g, unsent c buf c.net e)
  answered-audio c buf (none ∷ net) g e h b = (
    record { framed = IsFramed-net c a _ net g.framed; pos_le = g.pos_le; same = g.same },
    unsent c buf net e,
  )
  answered-audio c buf (some n ∷ net) g e h b =
      let k = at_most n (length buf) in
      let le = at_most-le n (length buf) in
      let l = length-take k buf le in
      let part : (past ++ take c.pos bytes) ++ take k buf ≡ past ++ take (c.pos + k) bytes =
        append_assoc past (take c.pos bytes) (take k buf)
        ∙ ap (λ t. past ++ (take c.pos bytes ++ t))
            (sym (ap (take k) b.is_ahead ∙ take-append k buf b.rest le))
        ∙ ap (◌++◌ past) (sym (take-plus c.pos k bytes)) in
      (
        record {
          framed = rw (← part) (
              IsFramed-audio c a (past ++ take c.pos bytes) (take k buf) net k g.framed e l
                (omega arith));
          pos_le = omega (arith, Ahead-le c buf b g.pos_le);
          same = g.same;
        },
        record {
          out = e;
          taken = le;
          pos_is = refl;
          since_is = refl;
          count_is = omega (arith, length-append c.sent (take k buf), l);
        },
      )

  send_audio-IsHeard :
      (c : Mp3Client) (buf : Bytes)
      → IsHeard a past bytes interval c
      → c.in_metadata ≡ false
      → c.since_meta_block + length buf ≤ c.interval
      → Ahead bytes c buf
      → IsHeard a past bytes interval (send_audio c buf).0 × SentAudio c buf (send_audio c buf)
  unfolding send_audio client_send_bytes
  send_audio-IsHeard c buf g e h b = answered-audio c buf c.net g e h b

  answered-metadata :
      (c : Mp3Client) (net : List (Option ℕ))
      → IsHeard a past bytes interval c
      → c.since_meta_block ≡ c.interval
      → (let metadata = drop c.metadata_offset (block_for c.associated a) in
          let r = after_send a (length metadata) (answered c metadata net) in
          IsHeard a past bytes interval r.0 × SentMetadata c r)
  unfolding answered after_send
  answered-metadata c [] g e = (
    record { framed = IsFramed-held c a _ c.net g.framed e; pos_le = g.pos_le; same = g.same },
    record { pos_is = refl; begins = λ t. cc; count_is = omega arith },
  )
  answered-metadata c (none ∷ net) g e = (
    record { framed = IsFramed-held c a _ net g.framed e; pos_le = g.pos_le; same = g.same },
    record { pos_is = refl; begins = λ t. cc; count_is = omega arith },
  )
  answered-metadata c (some n ∷ net) g e =
      let metadata = drop c.metadata_offset (block_for c.associated a) in
      let k = at_most n (length metadata) in
      let le = at_most-le n (length metadata) in
      elim (Bool-cases (k == length metadata)) [
        | inl t ↦ rw t (
          record {
            framed =
                rw (take_all k metadata (omega (arith, (==_iff k (length metadata)).0 t)))
                  (IsFramed-whole c a (past ++ take c.pos bytes) net g.framed assoc e);
            pos_le = g.pos_le;
            same = g.same;
          },
          record {
            pos_is = refl;
            begins = λ t. refl;
            count_is =
                omega (arith, length-append c.sent (take k metadata), length-take k metadata le);
          },
        )
        | inr t ↦
            let short : k < length metadata = ground (arith, at_most-le n (length metadata)) in
            rw t (
              record {
                framed = IsFramed-part c a (past ++ take c.pos bytes) net k g.framed e (
                    omega (
                      arith,
                      g.framed.part,
                      length-drop c.metadata_offset (block_for c.associated a),
                      short,
                    ));
                pos_le = g.pos_le;
                same = g.same;
              },
              record {
                pos_is = refl;
                begins = λ t. cc;
                count_is =
                    omega
                      (arith, length-append c.sent (take k metadata), length-take k metadata le);
              },
            )
      ]

  send_metadata-IsHeard :
      (c : Mp3Client)
      → IsHeard a past bytes interval c
      → c.since_meta_block ≡ c.interval
      → IsHeard a past bytes interval (send_stream_metadata c a).0
        × SentMetadata c (send_stream_metadata c a)
  unfolding send_stream_metadata client_send_bytes
  send_metadata-IsHeard c g e =
      rw (offset_for-eq c.associated c.metadata_offset a g.framed.part)
        (answered-metadata c c.net g e)

  -- The state is kept, and the count grows by the bytes that were sent.
  abbrev Wrote : Mp3Client → ℕ → Mp3Client × ℕ → Type 0
  Wrote c written r =
      IsHeard a past bytes interval r.0 × (length r.0.sent + written ≡ length c.sent + r.1)

  write_audio-Wrote :
      (c : Mp3Client) (written : ℕ) (buf : Bytes)
      → IsHeard a past bytes interval c
      → c.in_metadata ≡ false
      → c.since_meta_block + length buf ≤ c.interval
      → Ahead bytes c buf
      → Wrote c written (write_audio c written buf)
  unfolding write_audio
  write_audio-Wrote c written [] g e h b = (g, refl)
  write_audio-Wrote c written (x ∷ buf) g e h b =
      let s = send_audio-IsHeard c (x ∷ buf) g e h b in (s.0, omega (arith, s.1.count_is))

  Ahead-take :
      (c c' : Mp3Client) (n : ℕ) (buf : Bytes)
      → c'.pos ≡ c.pos
      → Ahead bytes c buf
      → Ahead bytes c' (take n buf)
  Ahead-take c c' n buf e b = record {
    rest = drop n buf ++ b.rest;
    is_ahead =
        ap (λ p. drop p bytes) e
        ∙ b.is_ahead
        ∙ ap (λ t. t ++ b.rest) (sym (take-append-drop n buf))
        ∙ append_assoc (take n buf) (drop n buf) b.rest;
  }

  write_block-Wrote :
      (c : Mp3Client) (written : ℕ) (buf : Bytes)
      → IsHeard a past bytes interval c
      → c.since_meta_block ≡ c.interval
      → Ahead bytes c buf
      → Wrote c written (write_block (record { bytes = bytes; associated = a }) c written buf)
  unfolding write_block
  write_block-Wrote c written buf g e b =
      let s = send_metadata-IsHeard c g e in
      let c' = (send_stream_metadata c a).0 in
      elim (Bool-cases c'.in_metadata) [
        | inl t ↦ rw t (s.0, omega (arith, s.1.count_is))
        | inr t ↦ rw t (
            let w =
              write_audio-Wrote c' (written + (send_stream_metadata c a).1) (take c'.interval buf)
                s.0 t (omega (arith, s.1.begins t, length-take-le c'.interval buf))
                (Ahead-take c c' c'.interval buf s.1.pos_is b) in
            (w.0, omega (arith, w.1, s.1.count_is)))
      ]

  Ahead-drop :
      (c c' : Mp3Client) (n : ℕ) (buf : Bytes)
      → n ≤ length buf
      → c'.pos ≡ c.pos + n
      → Ahead bytes c buf
      → Ahead bytes c' (drop n buf)
  Ahead-drop c c' n buf h e b = record {
    rest = b.rest;
    is_ahead =
        ap (λ p. drop p bytes) e
        ∙ drop-plus c.pos n bytes
        ∙ ap (drop n) b.is_ahead
        ∙ drop-append n buf b.rest h;
  }

  write_before-Wrote :
      (c : Mp3Client) (written : ℕ) (buf : Bytes) (remaining : ℕ)
      → IsHeard a past bytes interval c
      → c.in_metadata ≡ false
      → c.since_meta_block + remaining ≡ c.interval
      → remaining ≤ length buf
      → Ahead bytes c buf
      → Wrote c written
          (write_before (record { bytes = bytes; associated = a }) c written buf remaining)
  unfolding write_before
  write_before-Wrote c written buf zero g e h k b =
      write_block-Wrote c written buf g (omega arith) b
  write_before-Wrote c written buf (suc n) g e h k b =
      let s =
        send_audio-IsHeard c (take (suc n) buf) g e (omega (arith, length-take-le (suc n) buf))
          (Ahead-take c c (suc n) buf refl b) in
      let r = send_audio c (take (suc n) buf) in
      elim (Bool-cases (ltb r.1 (suc n))) [
        | inl t ↦ rw t (s.0, omega (arith, s.1.count_is))
        | inr t ↦ rw t (
            let all : r.1 ≡ suc n = ground (arith, s.1.taken, length-take-le (suc n) buf) in
            let w =
              write_block-Wrote r.0 (written + r.1) (drop (suc n) buf) s.0
                (omega (arith, s.0.same, g.same, s.1.since_is, all))
                (Ahead-drop c r.0 (suc n) buf k (omega (arith, s.1.pos_is, all)) b) in
            (w.0, omega (arith, w.1, s.1.count_is)))
      ]

  write_rest-Wrote :
      (c : Mp3Client) (written : ℕ) (buf : Bytes)
      → 0 < interval
      → IsHeard a past bytes interval c
      → c.in_metadata ≡ false
      → Ahead bytes c buf
      → Wrote c written (write_rest (record { bytes = bytes; associated = a }) c written buf)
  unfolding write_rest
  write_rest-Wrote c written buf p g e b =
      let remains : remaining_of c ≡ c.interval - c.since_meta_block =
        remaining_of-eq c g.framed.within g.framed.is_int in
      let on : (c.interval == 0) ≡ false = ground (arith, g.same) in
      elim (Bool-cases (leb (remaining_of c) (length buf))) [
        | inl t ↦
            rw (on, t)
              (write_before-Wrote c written buf (remaining_of c) g e
                (omega (arith, remains, g.framed.within)) (leb→le _ _ t) b)
        | inr t ↦
            rw (on, t)
              (write_audio-Wrote c written buf g e (ground (arith, remains, g.framed.within)) b)
      ]

  pub write_buf-Wrote :
      (c : Mp3Client)
      → 0 < interval
      → IsHeard a past bytes interval c
      → Wrote c 0 (format_mp3_write_buf_to_client c (record { bytes = bytes; associated = a }))
  unfolding format_mp3_write_buf_to_client write_left
  write_buf-Wrote c p g = elim (Bool-cases c.in_metadata) [
    | inl t ↦ simp t (
        let s = send_metadata-IsHeard c g (g.framed.full t) in
        let c' = (send_stream_metadata c a).0 in
        elim (Bool-cases c'.in_metadata) [
          | inl u ↦ rw u (s.0, omega (arith, s.1.count_is))
          | inr u ↦ rw u (
              let w =
                write_rest-Wrote c' (send_stream_metadata c a).1 (drop c.pos bytes) p s.0 u
                  (record {
                    rest = [];
                    is_ahead = ap (λ n. drop n bytes) s.1.pos_is ∙ sym (append-nil _);
                  }) in
              (w.0, omega (arith, w.1, s.1.count_is)))
        ])
    | inr t ↦ simp t (
        write_rest-Wrote c 0 (drop c.pos bytes) p g t
          (record { rest = []; is_ahead = sym (append-nil _) }))
  ]
