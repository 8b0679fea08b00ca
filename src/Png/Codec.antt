-- ===== src/Png/Codec.antt =====
-- `encode_grayscale_png` and `decode_grayscale_png` of src/runner_paddock/runner_paddock/png_codec.py.
-- The position in the data is the rest of it; the loop over the chunks has fuel, one for each byte.
use ros_pre_runner.Prelude.{
  ℕ, zero, suc, ◌+◌, ◌*◌, ◌%◌, Bool, true, false, not, ◌||◌, Option, none, some, [], ◌∷◌, ◌++◌,
  length, ◌==◌, ltb, if◌then◌else◌,
}
use ros_pre_runner.Png.Bytes.{
  Bytes, Result, ok, failed, ◌>>=◌, Zlib, take, drop, bytes_eq, pack_u32, unpack_u32, bad_size,
  bad_pixels, bad_signature, truncated_header, truncated_chunk, corrupt_chunk, malformed_ihdr,
  unsupported_format, unsupported_method, interlaced, idat_before_ihdr, no_ihdr, no_iend, no_idat,
  not_inflating, wrong_length, out_of_fuel,
}
use ros_pre_runner.Png.Unfilter.{unfilter}

abbrev pub signature : Bytes
signature = 137 ∷ 80 ∷ 78 ∷ 71 ∷ 13 ∷ 10 ∷ 26 ∷ 10 ∷ []

abbrev pub ihdr_type : Bytes
ihdr_type = 73 ∷ 72 ∷ 68 ∷ 82 ∷ []

abbrev pub idat_type : Bytes
idat_type = 73 ∷ 68 ∷ 65 ∷ 84 ∷ []

abbrev pub iend_type : Bytes
iend_type = 73 ∷ 69 ∷ 78 ∷ 68 ∷ []

-- Each row behind its filter type 0.
unfoldable pub filtered_rows : ℕ → ℕ → Bytes → Bytes
filtered_rows zero width pixels = []
filtered_rows (suc n) width pixels =
    0 ∷ (take width pixels ++ filtered_rows n width (drop width pixels))

abbrev pub is_empty : Bytes → Bool
is_empty [] = true
is_empty (x ∷ xs) = false

-- What the loop over the chunks has seen.
pub record Seen : Type 0 where
  pub width : ℕ
  pub height : ℕ
  pub idat : Bytes
  pub seen_ihdr : Bool
  pub seen_iend : Bool

abbrev pub nothing_seen : Seen
nothing_seen = record { width = 0; height = 0; idat = []; seen_ihdr = false; seen_iend = false }

-- The fields behind the width and the height.
abbrev pub read_fields : Bytes → Bytes → Seen → Result Seen
read_fields (bit_depth ∷ color_type ∷ compression ∷ filter_method ∷ interlace ∷ _) d s =
    if not (bit_depth == 8) || not (color_type == 0)
    then failed (unsupported_format bit_depth color_type)
    else if not (compression == 0) || not (filter_method == 0)
    then failed unsupported_method
    else if not (interlace == 0)
    then failed interlaced
    else ok (record s {
      width = unpack_u32 (take 4 d);
      height = unpack_u32 (take 4 (drop 4 d));
      seen_ihdr = true;
    })
read_fields _ d s = failed malformed_ihdr

unfoldable pub read_ihdr : Bytes → Seen → Result Seen
read_ihdr d s = if not (length d == 13) then failed malformed_ihdr else read_fields (drop 8 d) d s

unfoldable pub read_chunk : Bytes → Bytes → Seen → Result Seen
unfolding read_ihdr
read_chunk chunk_type d s =
    if bytes_eq chunk_type ihdr_type
    then read_ihdr d s
    else if bytes_eq chunk_type idat_type
    then (if not s.seen_ihdr then failed idat_before_ihdr else ok (record s { idat = s.idat ++ d }))
    else if bytes_eq chunk_type iend_type
    then ok (record s { seen_iend = true })
    else ok s

module _ (z : Zlib) where
  -- `_chunk`
  unfoldable pub chunk : Bytes → Bytes → Result Bytes
  unfolding pack_u32
  chunk chunk_type d = do
    size ← pack_u32 (length d)
    crc ← pack_u32 (z.crc32 (chunk_type ++ d) % 4294967296)
    ok (size ++ (chunk_type ++ (d ++ crc)))

  unfoldable pub encode_grayscale_png : ℕ → ℕ → Bytes → Result Bytes
  unfolding pack_u32 chunk filtered_rows
  encode_grayscale_png width height pixels =
      if (width == 0) || (height == 0)
      then failed bad_size
      else if not (length pixels == width * height)
      then failed bad_pixels
      else (do
        w ← pack_u32 width
        h ← pack_u32 height
        first ← chunk ihdr_type (w ++ (h ++ (8 ∷ 0 ∷ 0 ∷ 0 ∷ 0 ∷ [])))
        second ← chunk idat_type (z.compress (filtered_rows height width pixels))
        third ← chunk iend_type []
        ok (signature ++ (first ++ (second ++ third))))

  -- One chunk, checked: its type, its data and the rest, from its size, its type and what follows.
  unfoldable pub split_chunk : ℕ → Bytes → Bytes → Result (Bytes × Bytes × Bytes)
  split_chunk size chunk_type body =
      if ltb (length body) (size + 4)
      then failed (truncated_chunk chunk_type)
      else if not (
          (z.crc32 (chunk_type ++ take size body) % 4294967296)
          == unpack_u32 (take 4 (drop size body)))
      then failed (corrupt_chunk chunk_type)
      else ok (chunk_type, take size body, drop (size + 4) body)

  unfoldable pub take_chunk : Bytes → Result (Bytes × Bytes × Bytes)
  unfolding split_chunk
  take_chunk rest =
      if ltb (length rest) 8
      then failed truncated_header
      else split_chunk (unpack_u32 (take 4 rest)) (take 4 (drop 4 rest)) (drop 8 rest)

  unfoldable pub read_chunks : ℕ → Bytes → Seen → Result Seen
  unfolding take_chunk read_chunk
  read_chunks zero rest s = if is_empty rest || s.seen_iend then ok s else failed out_of_fuel
  read_chunks (suc fuel) rest s = elim (is_empty rest || s.seen_iend) [
    | true ↦ ok s
    | false ↦ (do
      (chunk_type, d, rest') ← take_chunk rest
      s' ← read_chunk chunk_type d s
      read_chunks fuel rest' s')
  ]

  abbrev pub inflate : Seen → Option Bytes → Result (ℕ × ℕ × Bytes)
  inflate s none = failed not_inflating
  inflate s (some raw) =
      if not (length raw == s.height * (1 + s.width))
      then failed wrong_length
      else (do pixels ← unfilter raw s.width s.height; ok (s.width, s.height, pixels))

  unfoldable pub finish_decode : Seen → Result (ℕ × ℕ × Bytes)
  unfolding unfilter
  finish_decode s =
      if not s.seen_ihdr
      then failed no_ihdr
      else if not s.seen_iend
      then failed no_iend
      else if is_empty s.idat
      then failed no_idat
      else inflate s (z.decompress s.idat)

  unfoldable pub decode_grayscale_png : Bytes → Result (ℕ × ℕ × Bytes)
  unfolding read_chunks finish_decode
  decode_grayscale_png d =
      if not (bytes_eq (take 8 d) signature)
      then failed bad_signature
      else (do s ← read_chunks (length d) (drop 8 d) nothing_seen; finish_decode s)
