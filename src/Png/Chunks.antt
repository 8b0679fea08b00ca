-- ===== src/Png/Chunks.antt =====
-- A chunk that `_chunk` of src/runner_paddock/runner_paddock/png_codec.py writes is read back.
use ros_pre_runner.Prelude.{
  ℕ, suc, ◌+◌, ◌%◌, ◌<◌, ◌≤◌, ◌≡◌, refl, ap, sym, ◌∙◌, true, false, [], ◌∷◌, ◌++◌, length,
  length-append, ltb, ◌==◌, arith,
}
use mathlib.Core.Path.{subst}
use ros_pre_runner.Png.Bytes.{Bytes, Result, ok, ◌>>=◌, Zlib, big_endian}
use ros_pre_runner.Png.Codec.{chunk, split_chunk, take_chunk, read_chunks, read_chunk, Seen}
use ros_pre_runner.Png.Slices.{
  take-append, drop-append, drop_beyond-append, append_assoc, unpack-big_endian, pack_u32-ok,
}

not_below : (m n : ℕ) → n ≤ m → ltb m n ≡ false
not_below m n h = ground arith

same_number : (m n : ℕ) → m ≡ n → (m == n) ≡ true
same_number m n h = ground arith

module _ (z : Zlib) where
  abbrev pub checksum : Bytes → Bytes → ℕ
  checksum t d = z.crc32 (t ++ d) % 4294967296

  -- A chunk as it is written.
  abbrev pub written : Bytes → Bytes → Bytes
  written t d = big_endian (length d) ++ (t ++ (d ++ big_endian (checksum t d)))

  pub chunk-written : (t d : Bytes) → length d < 4294967296 → chunk z t d ≡ ok (written t d)
  unfolding chunk
  chunk-written t d h =
      rw (pack_u32-ok (length d) h) (rw (pack_u32-ok (checksum t d) (omega arith)) refl)

  split_chunk-exact :
      (t d rest : Bytes)
      → split_chunk z (length d) t (d ++ (big_endian (checksum t d) ++ rest)) ≡ ok (t, d, rest)
  unfolding split_chunk
  split_chunk-exact t d rest =
      let tail = big_endian (checksum t d) ++ rest in
      let long = length-append d tail in
      rw (not_below (length (d ++ tail)) (length d + 4) (omega arith)) (
        rw (take-append d tail) (
          rw (drop-append d tail) (
            rw
              (same_number (checksum t d) _
                (sym (unpack-big_endian (checksum t d) [] (omega arith))))
              (rw (drop_beyond-append d tail 4 (length d + 4) refl) refl))))

  take_written :
      (a b c e : ℕ) (d rest : Bytes)
      → length d < 4294967296
      → take_chunk z (written (a ∷ b ∷ c ∷ e ∷ []) d ++ rest) ≡ ok (a ∷ b ∷ c ∷ e ∷ [], d, rest)
  unfolding take_chunk
  take_written a b c e d rest h =
      let t : Bytes = a ∷ b ∷ c ∷ e ∷ [] in
      rw (not_below (length (written t d ++ rest)) 8 (omega arith)) (
        ap (λ k. split_chunk z k t ((d ++ big_endian (checksum t d)) ++ rest))
          (unpack-big_endian (length d) [] h)
        ∙ ap (split_chunk z (length d) t) (append_assoc d (big_endian (checksum t d)) rest)
        ∙ split_chunk-exact t d rest)

  -- One turn of the loop over the chunks reads a written chunk.
  pub read_written :
      (n : ℕ) (a b c e : ℕ) (d rest : Bytes) (s : Seen)
      → length d < 4294967296
      → s.seen_iend ≡ false
      → read_chunks z (suc n) (written (a ∷ b ∷ c ∷ e ∷ []) d ++ rest) s
        ≡ (read_chunk (a ∷ b ∷ c ∷ e ∷ []) d s >>= (λ s'. read_chunks z n rest s'))
  unfolding read_chunks
  read_written n a b c e d rest s h i =
      subst
        (λ b'.
          elim b' [
            | true ↦ ok s
            | false ↦ take_chunk z (written (a ∷ b ∷ c ∷ e ∷ []) d ++ rest) >>= turn
          ]
          ≡ (read_chunk (a ∷ b ∷ c ∷ e ∷ []) d s >>= (λ s'. read_chunks z n rest s')))
        (sym i) (ap (λ o. o >>= turn) (take_written a b c e d rest h))
    where
      turn : Bytes × Bytes × Bytes → Result Seen
      turn (t, u, rest') = read_chunk t u s >>= (λ s'. read_chunks z n rest' s')
