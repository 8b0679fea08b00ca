-- ===== src/Png/Roundtrip.antt =====
-- `decode_grayscale_png` after `encode_grayscale_png` of src/runner_paddock/runner_paddock/png_codec.py.
use ros_pre_runner.Prelude.{
  ℕ, suc, ◌+◌, ◌*◌, ◌<◌, ◌≡◌, refl, ap, ◌∙◌, Bool, true, false, some, [], ◌∷◌, ◌++◌, length, ◌==◌,
  arith,
}
use native.Mathlib.Nat.{mul_comm}
use ros_pre_runner.Png.Bytes.{Bytes, ok, ◌>>=◌, Zlib, drop, big_endian, unpack_u32}
use ros_pre_runner.Png.Unfilter.{unfilter, zeros}
use ros_pre_runner.Png.Codec.{
  signature, ihdr_type, idat_type, iend_type, is_empty, filtered_rows, encode_grayscale_png,
  read_ihdr, read_chunks, read_chunk, finish_decode, nothing_seen, decode_grayscale_png, Seen,
}
use ros_pre_runner.Png.Slices.{unpack-big_endian, pack_u32-ok}
use ros_pre_runner.Png.Rows.{length-filtered_rows, unfilter_rows-filtered_rows}
use ros_pre_runner.Png.Chunks.{written, chunk-written, read_written}

-- What zlib documents: what it compresses it can decompress, and a compressed stream has a header.
pub record IsZlib (z : Zlib) : Type 0 where
  pub decompress-compress : (d : Bytes) → z.decompress (z.compress d) ≡ some d
  pub compress-nonempty : (d : Bytes) → is_empty (z.compress d) ≡ false

pub not_zero : (n : ℕ) → 0 < n → (n == 0) ≡ false
not_zero n l = ground arith

pub same_number : (m n : ℕ) → m ≡ n → (m == n) ≡ true
same_number m n l = ground arith

-- The data of the header chunk.
abbrev pub header : ℕ → ℕ → Bytes
header w h = big_endian w ++ (big_endian h ++ (8 ∷ 0 ∷ 0 ∷ 0 ∷ 0 ∷ []))

module _ (z : Zlib) where
  -- The file that is written for pixels.
  abbrev pub file : ℕ → ℕ → Bytes → Bytes
  file w h pixels =
      signature
      ++ (written z ihdr_type (header w h)
          ++ (written z idat_type (z.compress (filtered_rows h w pixels))
              ++ written z iend_type []))

  encode-file :
      (w h : ℕ) (pixels : Bytes)
      → 0 < w
      → 0 < h
      → w < 4294967296
      → h < 4294967296
      → length pixels ≡ w * h
      → length (z.compress (filtered_rows h w pixels)) < 4294967296
      → encode_grayscale_png z w h pixels ≡ ok (file w h pixels)
  unfolding encode_grayscale_png
  encode-file w h pixels w0 h0 wm hm e cm = rw (not_zero w w0) (
      rw (not_zero h h0) (
        rw (same_number (length pixels) (w * h) e) (
          rw (pack_u32-ok w wm) (
            rw (pack_u32-ok h hm) (
              rw (chunk-written z ihdr_type (header w h) (omega arith)) (
                rw (chunk-written z idat_type (z.compress (filtered_rows h w pixels)) cm)
                  (rw (chunk-written z iend_type [] (omega arith)) refl)))))))

  abbrev found : ℕ → ℕ → Bytes → Bool → Seen
  found w h d ended = record {
    width = unpack_u32 (big_endian w);
    height = unpack_u32 (big_endian h);
    idat = d;
    seen_ihdr = true;
    seen_iend = ended;
  }

  read_file :
      (n w h : ℕ) (d : Bytes)
      → length d < 4294967296
      → read_chunks z
          (suc (suc (suc (suc n))))
          (written z ihdr_type (header w h) ++ (written z idat_type d ++ written z iend_type []))
          nothing_seen
        ≡ ok (found w h d true)
  unfolding read_chunks read_chunk read_ihdr
  read_file n w h d m =
      let last = written z iend_type [] in
      read_written z (suc (suc (suc n))) 73 72 68 82 (header w h) (written z idat_type d ++ last)
        nothing_seen (omega arith) refl
      ∙ read_written z (suc (suc n)) 73 68 65 84 d last (found w h [] false) m refl
      ∙ read_written z (suc n) 73 69 78 68 [] [] (found w h d false) (omega arith) refl

  finish_file :
      (w h : ℕ) (pixels : Bytes)
      → IsZlib z
      → w < 4294967296
      → h < 4294967296
      → length pixels ≡ h * w
      → finish_decode z (found w h (z.compress (filtered_rows h w pixels)) true) ≡ ok (w, h, pixels)
  unfolding finish_decode unfilter
  finish_file w h pixels laws wm hm e = rw (unpack-big_endian w [] wm) (
      rw (unpack-big_endian h [] hm) (
        rw (laws.compress-nonempty (filtered_rows h w pixels)) (
          rw (laws.decompress-compress (filtered_rows h w pixels)) (
            rw
              (same_number (length (filtered_rows h w pixels)) (h * (1 + w))
                (length-filtered_rows h w pixels e))
              (rw (unfilter_rows-filtered_rows h w (zeros w) pixels e) refl)))))

  -- For a raster of 1 to 2^32 - 1 columns and rows, with a byte for each place and compressed data
  -- shorter than 2^32 bytes, encoding writes a file, and decoding that file gives the columns, the rows
  -- and the bytes back; zlib is assumed to decompress what it compressed, and to write a header.
  pub decode-encode :
      (w h : ℕ) (pixels : Bytes)
      → IsZlib z
      → 0 < w
      → 0 < h
      → w < 4294967296
      → h < 4294967296
      → length pixels ≡ w * h
      → length (z.compress (filtered_rows h w pixels)) < 4294967296
      → (png : Bytes) × (encode_grayscale_png z w h pixels ≡ ok png)
        × (decode_grayscale_png z png ≡ ok (w, h, pixels))
  unfolding decode_grayscale_png
  decode-encode w h pixels laws w0 h0 wm hm e cm = (
    file w h pixels,
    encode-file w h pixels w0 h0 wm hm e cm,
    ap (λ o. o >>= finish_decode z)
          (read_file (length (drop 4 (file w h pixels))) w h (z.compress (filtered_rows h w pixels))
            cm)
        ∙ finish_file w h pixels laws wm hm (e ∙ mul_comm w h),
  )
