-- ===== src/Png/Slices.antt =====
-- Slices of byte strings, and numbers in big-endian order, of
-- src/runner_paddock/runner_paddock/png_codec.py.
use ros_pre_runner.Prelude.{
  ℕ, zero, suc, ◌+◌, ◌<◌, ◌≤◌, ◌≡◌, refl, ap, ◌∙◌, [], ◌∷◌, ◌++◌, length, ltb, arith, true,
}
use ros_pre_runner.Png.Bytes.{Bytes, ok, take, drop, big_endian, pack_u32, unpack_u32}

pub take-append : (xs ys : Bytes) → take (length xs) (xs ++ ys) ≡ xs
take-append [] ys = refl
take-append (x ∷ xs) ys = ap (λ l. x ∷ l) (take-append xs ys)

pub drop-append : (xs ys : Bytes) → drop (length xs) (xs ++ ys) ≡ ys
drop-append [] ys = refl
drop-append (x ∷ xs) ys = drop-append xs ys

pub drop_beyond-append :
    (xs ys : Bytes) (n m : ℕ) → m ≡ length xs + n → drop m (xs ++ ys) ≡ drop n ys
drop_beyond-append [] ys n m h = ap (λ k. drop k ys) (omega arith)
drop_beyond-append (x ∷ xs) ys n m h =
    let step : m ≡ suc (length xs + n) = omega arith in
    ap (λ k. drop k ((x ∷ xs) ++ ys)) step ∙ drop_beyond-append xs ys n (length xs + n) refl

pub append_assoc : (xs ys zs : Bytes) → (xs ++ ys) ++ zs ≡ xs ++ (ys ++ zs)
append_assoc [] ys zs = refl
append_assoc (x ∷ xs) ys zs = ap (λ l. x ∷ l) (append_assoc xs ys zs)

pub append-nil : (xs : Bytes) → xs ++ [] ≡ xs
append-nil [] = refl
append-nil (x ∷ xs) = ap (λ l. x ∷ l) (append-nil xs)

pub take-drop : (n : ℕ) (xs : Bytes) → take n xs ++ drop n xs ≡ xs
take-drop zero xs = refl
take-drop (suc n) [] = refl
take-drop (suc n) (x ∷ xs) = ap (λ l. x ∷ l) (take-drop n xs)

pub length-take : (n : ℕ) (xs : Bytes) → n ≤ length xs → length (take n xs) ≡ n
length-take zero xs h = refl
length-take (suc n) [] h = absurd (omega arith)
length-take (suc n) (x ∷ xs) h = ap suc (length-take n xs (omega arith))

pub length-drop : (n m : ℕ) (xs : Bytes) → length xs ≡ n + m → length (drop n xs) ≡ m
length-drop zero m xs h = omega arith
length-drop (suc n) m [] h = absurd (omega arith)
length-drop (suc n) m (x ∷ xs) h = length-drop n m xs (omega arith)

-- A number below 2^32 is read back from its four bytes.
pub unpack-big_endian :
    (n : ℕ) (rest : Bytes) → n < 4294967296 → unpack_u32 (big_endian n ++ rest) ≡ n
unpack-big_endian n rest h = omega arith

pub pack_u32-ok : (n : ℕ) → n < 4294967296 → pack_u32 n ≡ ok (big_endian n)
unfolding pack_u32
pack_u32-ok n h = rw (below n h) refl
  where
    below : (m : ℕ) → m < 4294967296 → ltb m 4294967296 ≡ true
    below m l = ground arith
