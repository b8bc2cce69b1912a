-- ===== src/Mp3/Listener/Mixed.antt =====
-- src/format_mp3.c: a block that was cut off where the buffer ends, and other metadata at the next one.
use checkedc_icecast.Base.{
  ℕ, ◌+◌, ◌-◌, ◌≤◌, ◌<◌, ◌≡◌, refl, ap, ◌∙◌, true, false, [], ==_refl, ◌∷◌, ◌++◌, some, arith,
  length, take, drop, length-drop, take_all, append_assoc, ◌==◌,
}
use checkedc_icecast.Mp3.Listener.{
  Metadata, Mp3Client, at_most, answered, client_send_bytes, is_address, block_for, offset_for,
  after_send, send_stream_metadata,
}

at_most-eq : (k n : ℕ) → k ≤ n → at_most k n ≡ k
unfolding at_most
at_most-eq k n h = ground arith

-- A send that takes `k` bytes of a block that the client does not have.
sends :
    (c : Mp3Client) (m : Metadata) (k : ℕ)
    → is_address c.associated m.address ≡ false
    → k ≤ length (drop c.metadata_offset m.bytes)
    → send_stream_metadata (record c { net = some k ∷ [] }) (some m)
      ≡ after_send
          (some m)
          (length (drop c.metadata_offset m.bytes))
          (record c { net = []; sent = c.sent ++ take k (drop c.metadata_offset m.bytes) }, some k)
unfolding send_stream_metadata client_send_bytes answered offset_for block_for
sends c m k e h = rw (e, at_most-eq k (length (drop c.metadata_offset m.bytes)) h) refl

cut_short :
    (c : Mp3Client) (m : Metadata) (k : ℕ)
    → is_address c.associated m.address ≡ false
    → c.metadata_offset ≡ 0
    → k < length m.bytes
    → (send_stream_metadata (record c { net = some k ∷ [] }) (some m)).0 ≡ record c {
      net = [];
      sent = c.sent ++ take k m.bytes;
      metadata_offset = c.metadata_offset + k;
      in_metadata = true;
    }
unfolding after_send
cut_short c m k e z h =
    let whole : drop c.metadata_offset m.bytes ≡ m.bytes = ap (λ i. drop i m.bytes) z in
    let more : (k == length m.bytes) ≡ false = ground arith in
    ap (λ r. r.0) (sends c m k e (rw whole (omega arith))) ∙ rw (whole, more) refl

rest_whole :
    (c : Mp3Client) (n : Metadata) (j : ℕ)
    → is_address c.associated n.address ≡ false
    → c.metadata_offset ≡ j
    → (let done =
          (send_stream_metadata (record c { net = some (length n.bytes - j) ∷ [] }) (some n)).0 in
        (done.in_metadata ≡ false) × (done.sent ≡ c.sent ++ drop j n.bytes))
unfolding after_send
rest_whole c n j d z =
    let at : drop c.metadata_offset n.bytes ≡ drop j n.bytes = ap (λ i. drop i n.bytes) z in
    let left : length (drop j n.bytes) ≡ length n.bytes - j = length-drop j n.bytes in
    let same : (length n.bytes - j == length (drop j n.bytes)) ≡ true = rw left (==_refl _) in
    let whole : take (length n.bytes - j) (drop j n.bytes) ≡ drop j n.bytes =
      take_all _ _ (omega arith) in
    rw (sends c n (length n.bytes - j) d (rw at (omega arith)), at, same)
      (refl, ap (◌++◌ c.sent) whole)

-- A client has neither of two metadata and nothing of a block was sent. The network takes a part of the
-- block of the first and not all of it, no more than the block of the second is long. The next call is
-- with the second, and the network takes all that the second block has behind that offset. Then the client
-- is through with a block, which is the beginning of the first and, from the same offset on, the end of
-- the second.
pub send_metadata_mixed :
    (c : Mp3Client) (m n : Metadata) (k : ℕ)
    → is_address c.associated m.address ≡ false
    → is_address c.associated n.address ≡ false
    → c.metadata_offset ≡ 0
    → k < length m.bytes
    → k ≤ length n.bytes
    → (let cut = (send_stream_metadata (record c { net = some k ∷ [] }) (some m)).0 in
        let done =
          (send_stream_metadata (record cut { net = some (length n.bytes - k) ∷ [] }) (some n)).0 in
        (done.in_metadata ≡ false) × (done.sent ≡ c.sent ++ (take k m.bytes ++ drop k n.bytes)))
send_metadata_mixed c m n k e d z h l =
    let cut : Mp3Client = record c {
      net = [];
      sent = c.sent ++ take k m.bytes;
      metadata_offset = c.metadata_offset + k;
      in_metadata = true;
    } in
    let done = rest_whole cut n k d (omega arith) in
    rw (cut_short c m k e z h)
      (done.0, done.1 ∙ append_assoc c.sent (take k m.bytes) (drop k n.bytes))
