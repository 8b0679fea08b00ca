-- ===== src/Png/Semantics.antt =====
-- The class rasters of src/runner_paddock/runner_paddock/semantics.py. The texts of the errors are not
-- kept.
use ros_pre_runner.Prelude.{
  ℕ, zero, suc, ◌*◌, Bool, not, ◌&&◌, ◌||◌, [], ◌++◌, length, ◌==◌, if◌then◌else◌, any,
}
use ros_pre_runner.Png.Bytes.{Bytes, PngError, Result, ok, failed, Zlib, take, drop}
use ros_pre_runner.Png.Codec.{encode_grayscale_png, decode_grayscale_png}

pub data SemanticsError : Type 0 where
  bad_dimensions wrong_bytes unsupported_value other_dimensions : SemanticsError
  png : PngError → SemanticsError

pub data Checked (A : Type 0) : Type 0 where
  done : A → Checked A
  rejected : SemanticsError → Checked A

-- From the top row of the result, which is the last one of the pixels, down.
unfoldable pub flip_rows : Bytes → ℕ → ℕ → Bytes
flip_rows pixels width zero = []
flip_rows pixels width (suc n) = take width (drop (n * width) pixels) ++ flip_rows pixels width n

-- 0 is unclassified, 1 caution, 2 lethal.
abbrev pub is_no_class : ℕ → Bool
is_no_class v = not ((v == 0) || ((v == 1) || (v == 2)))

unfoldable pub has_unsupported_values : Bytes → Bool
has_unsupported_values values = any is_no_class values

abbrev pub encoded : Result Bytes → Checked Bytes
encoded (ok b) = done b
encoded (failed e) = rejected (png e)

abbrev pub decoded : ℕ → ℕ → Result (ℕ × ℕ × Bytes) → Checked Bytes
decoded expected_width expected_height (failed e) = rejected (png e)
decoded expected_width expected_height (ok (width, height, image)) =
    if not ((width == expected_width) && (height == expected_height))
    then rejected other_dimensions
    else if has_unsupported_values (flip_rows image width height)
    then rejected unsupported_value
    else done (flip_rows image width height)

module _ (z : Zlib) where
  unfoldable pub encode_semantics_png : ℕ → ℕ → Bytes → Checked Bytes
  unfolding flip_rows has_unsupported_values
  encode_semantics_png width height grid =
      if (width == 0) || (height == 0)
      then rejected bad_dimensions
      else if not (length grid == width * height)
      then rejected wrong_bytes
      else if has_unsupported_values grid
      then rejected unsupported_value
      else encoded (encode_grayscale_png z width height (flip_rows grid width height))

  unfoldable pub decode_semantics_png : Bytes → ℕ → ℕ → Checked Bytes
  unfolding flip_rows has_unsupported_values
  decode_semantics_png d expected_width expected_height =
      decoded expected_width expected_height (decode_grayscale_png z d)
