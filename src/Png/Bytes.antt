-- ===== src/Png/Bytes.antt =====
-- Byte strings, results and `struct.pack` of src/runner_paddock/runner_paddock/png_codec.py.
use ros_pre_runner.Prelude.{
  ℕ, zero, suc, ◌+◌, ◌*◌, ◌/◌, ◌%◌, Bool, true, false, ◌&&◌, Option, List, [], ◌∷◌, ◌==◌, ltb,
  if◌then◌else◌,
}

abbrev pub Bytes : Type 0
Bytes = List ℕ

-- What the codec raises: PngError by its message, and the exceptions of `struct` and of indexing.
pub data PngError : Type 0 where
  bad_size bad_pixels bad_signature truncated_header : PngError
  truncated_chunk corrupt_chunk : Bytes → PngError
  malformed_ihdr : PngError
  unsupported_format : ℕ → ℕ → PngError
  unsupported_method interlaced idat_before_ihdr no_ihdr no_iend no_idat : PngError
  not_inflating wrong_length : PngError
  unsupported_filter : ℕ → PngError
  struct_error index_error out_of_fuel : PngError

pub data Result {ℓ} (A : Type ℓ) : Type ℓ where
  ok : A → Result A
  failed : PngError → Result A

infixl 5 ◌>>=◌
abbrev pub ◌>>=◌ {ℓ κ} : {A : Type ℓ} {B : Type κ} → Result A → (A → Result B) → Result B
ok a >>= f = f a
failed e >>= f = failed e

-- The functions of zlib. `decompress` may raise `zlib.error`.
pub record Zlib : Type 0 where
  pub compress : Bytes → Bytes
  pub decompress : Bytes → Option Bytes
  pub crc32 : Bytes → ℕ

module _ {ℓ} {A : Type ℓ} where
  abbrev pub take : ℕ → List A → List A
  take zero xs = []
  take (suc n) [] = []
  take (suc n) (x ∷ xs) = x ∷ take n xs

  abbrev pub drop : ℕ → List A → List A
  drop zero xs = xs
  drop (suc n) [] = []
  drop (suc n) (x ∷ xs) = drop n xs

abbrev pub bytes_eq : Bytes → Bytes → Bool
bytes_eq [] [] = true
bytes_eq (x ∷ xs) (y ∷ ys) = (x == y) && bytes_eq xs ys
bytes_eq _ _ = false

-- The four bytes of `struct.pack('>I', n)`, and `struct.unpack('>I', ...)`.
abbrev pub big_endian : ℕ → Bytes
big_endian n = n / 16777216 ∷ n / 65536 % 256 ∷ n / 256 % 256 ∷ n % 256 ∷ []

unfoldable pub pack_u32 : ℕ → Result Bytes
pack_u32 n = if ltb n 4294967296 then ok (big_endian n) else failed struct_error

abbrev pub unpack_u32 : Bytes → ℕ
unpack_u32 (a ∷ b ∷ c ∷ d ∷ _) = a * 16777216 + b * 65536 + c * 256 + d
unpack_u32 _ = 0
