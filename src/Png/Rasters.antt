-- ===== src/Png/Rasters.antt =====
-- Class rasters of src/runner_paddock/runner_paddock/semantics.py, written and read.
use ros_pre_runner.Prelude.{
  ◌||◌, Bool, true, false, ◌<◌, ◌≤◌, length-append, ℕ, zero, suc, ◌+◌, ◌-◌, ◌*◌, ◌≡◌, refl, ap, sym,
  ◌∙◌, [], ◌∷◌, ◌++◌, length, arith,
}
use native.Mathlib.Nat.{mul_comm, suc-mul}
use ros_pre_runner.Png.Codec.{filtered_rows, decode_grayscale_png}
use ros_pre_runner.Png.Bytes.{Bytes, Result, ok, failed, Zlib, take, drop}
use ros_pre_runner.Png.Slices.{
  drop_beyond-append, append_assoc, append-nil, length-take, length-drop, drop_beyond-append,
}
use ros_pre_runner.Png.Rows.{take_exact}
use ros_pre_runner.Png.Roundtrip.{IsZlib, decode-encode, not_zero, same_number}
use ros_pre_runner.Png.Semantics.{
  done, flip_rows, has_unsupported_values, is_no_class, encode_semantics_png, decode_semantics_png,
  decoded, encoded,
}

take-nil : (k : ℕ) → let none : Bytes = [] in take k none ≡ none
take-nil zero = refl
take-nil (suc k) = refl

take-add : (m n : ℕ) (xs : Bytes) → take (n + m) xs ≡ take n xs ++ take m (drop n xs)
take-add m zero xs = ap (λ k. take k xs) (omega arith)
take-add m (suc n) [] = take-nil (suc n + m) ∙ sym (take-nil m)
take-add m (suc n) (x ∷ xs) =
    let step : suc n + m ≡ suc (n + m) = omega arith in
    ap (λ k. take k (x ∷ xs)) step ∙ ap (λ l. x ∷ l) (take-add m n xs)

take_all : (n : ℕ) (xs : Bytes) → length xs ≡ n → take n xs ≡ xs
take_all n xs e = sym (ap (take n) (append-nil xs)) ∙ take_exact n xs [] e

drop_past : (w k : ℕ) (x ys : Bytes) → length x ≡ w → drop (w + k) (x ++ ys) ≡ drop k ys
drop_past w k x ys e = drop_beyond-append x ys k (w + k) (omega arith)

drop_row : (w n : ℕ) (x ys : Bytes) → length x ≡ w → drop (suc n * w) (x ++ ys) ≡ drop (n * w) ys
drop_row w n x ys e =
    let step : suc n * w ≡ w + n * w = suc-mul n w ∙ omega arith in
    ap (λ k. drop k (x ++ ys)) step ∙ drop_past w (n * w) x ys e

-- A first row goes last.
flip_rows-first :
    (w n : ℕ) (x ys : Bytes) → length x ≡ w → flip_rows (x ++ ys) w (suc n) ≡ flip_rows ys w n ++ x
unfolding flip_rows
flip_rows-first w zero x ys e =
    let origin : 0 * w ≡ 0 = omega arith in
    append-nil (take w (drop (0 * w) (x ++ ys)))
    ∙ ap (λ k. take w (drop k (x ++ ys))) origin
    ∙ take_exact w x ys e
flip_rows-first w (suc n) x ys e =
    ap (λ l. take w l ++ flip_rows (x ++ ys) w (suc n)) (drop_row w n x ys e)
    ∙ ap (λ l. take w (drop (n * w) ys) ++ l) (flip_rows-first w n x ys e)
    ∙ sym (append_assoc (take w (drop (n * w) ys)) (flip_rows ys w n) x)

fits : (w a b c : ℕ) → c ≡ b - a → a + w ≤ b → w ≤ c
fits w a b c h l = omega arith

-- The last row goes first.
unfold_last :
    (w n : ℕ) (xs : Bytes)
    → flip_rows (flip_rows xs w (suc n)) w (suc n)
      ≡ flip_rows (take w (drop (n * w) xs) ++ flip_rows xs w n) w (suc n)
unfolding flip_rows
unfold_last w n xs = refl

no_rows : (w : ℕ) (xs : Bytes) → flip_rows (flip_rows xs w 0) w 0 ≡ take (0 * w) xs
unfolding flip_rows
no_rows w xs = let none : 0 ≡ 0 * w = omega arith in ap (λ k. take k xs) none

-- Twice flipped, the rows are what they were.
flip_rows-flip_rows :
    (w n : ℕ) (xs : Bytes) → n * w ≤ length xs → flip_rows (flip_rows xs w n) w n ≡ take (n * w) xs
flip_rows-flip_rows w zero xs e = no_rows w xs
flip_rows-flip_rows w (suc n) xs e =
    let last = take w (drop (n * w) xs) in
    let whole : suc n * w ≡ n * w + w = suc-mul n w in
    let others : n * w ≤ length xs = omega arith in
    let left : length xs ≡ n * w + (length xs - n * w) = omega arith in
    let long = length-take w (drop (n * w) xs) (
      fits w (n * w) (length xs) _ (length-drop (n * w) (length xs - n * w) xs left)
        (omega arith)) in
    unfold_last w n xs
    ∙ flip_rows-first w n last (flip_rows xs w n) long
    ∙ ap (λ l. l ++ last) (flip_rows-flip_rows w n xs others)
    ∙ sym (take-add w (n * w) xs)
    ∙ ap (λ k. take k xs) (sym whole)

length-flip_rows : (w n : ℕ) (xs : Bytes) → n * w ≤ length xs → length (flip_rows xs w n) ≡ n * w
unfolding flip_rows
length-flip_rows w zero xs e = omega arith
length-flip_rows w (suc n) xs e =
    let last = take w (drop (n * w) xs) in
    let whole : suc n * w ≡ n * w + w = suc-mul n w in
    let others : n * w ≤ length xs = omega arith in
    let left : length xs ≡ n * w + (length xs - n * w) = omega arith in
    let long = length-take w (drop (n * w) xs) (
      fits w (n * w) (length xs) _ (length-drop (n * w) (length xs - n * w) xs left)
        (omega arith)) in
    let rest = length-flip_rows w n xs others in
    let both = length-append last (flip_rows xs w n) in omega arith

-- Unclassified, caution and lethal.
abbrev pub AreClasses : Bytes → Type 0
AreClasses [] = Unit {0}
AreClasses (v ∷ vs) = (v ≤ 2) × AreClasses vs

supported : (v : ℕ) → v ≤ 2 → is_no_class v ≡ false
supported v h = ground arith

supported_only : (v : ℕ) → is_no_class v ≡ false → v ≤ 2
supported_only v h = ground arith

AreClasses-supported : (vs : Bytes) → AreClasses vs → has_unsupported_values vs ≡ false
unfolding has_unsupported_values
AreClasses-supported [] k = refl
AreClasses-supported (v ∷ vs) (h, k) = rw (supported v h) (AreClasses-supported vs k)

pub supported-AreClasses : (vs : Bytes) → has_unsupported_values vs ≡ false → AreClasses vs
unfolding has_unsupported_values
supported-AreClasses [] h = tt
supported-AreClasses (v ∷ vs) h =
    let (a, b) = neither (is_no_class v) _ h in (supported_only v a, supported-AreClasses vs b)
  where
    neither : (a b : Bool) → (a || b) ≡ false → (a ≡ false) × (b ≡ false)
    neither true b g = absurd (cc)
    neither false b g = (refl, g)

module _ (z : Zlib) where
  decoded-flipped :
      (w h : ℕ) (grid : Bytes)
      → length grid ≡ h * w
      → AreClasses grid
      → decoded w h (ok (w, h, flip_rows grid w h)) ≡ done grid
  decoded-flipped w h grid e k =
      let back : flip_rows (flip_rows grid w h) w h ≡ grid =
        flip_rows-flip_rows w h grid (omega arith) ∙ take_all (h * w) grid e in
      rw (same_number w w refl)
        (rw (same_number h h refl) (rw back (rw (AreClasses-supported grid k) refl)))

  -- For a class raster of 1 to 2^32 - 1 columns and rows, with a class for each place, whose compressed
  -- rows are shorter than 2^32 bytes, encoding writes a file, and reading it with the same columns and
  -- rows gives the raster back in its own row order; zlib is assumed to decompress what it compressed,
  -- and to write a header.
  pub decode_semantics-encode_semantics :
      (w h : ℕ) (grid : Bytes)
      → IsZlib z
      → 0 < w
      → 0 < h
      → w < 4294967296
      → h < 4294967296
      → length grid ≡ w * h
      → AreClasses grid
      → length (z.compress (filtered_rows h w (flip_rows grid w h))) < 4294967296
      → (file : Bytes) × (encode_semantics_png z w h grid ≡ done file)
        × (decode_semantics_png z file w h ≡ done grid)
  unfolding encode_semantics_png decode_semantics_png
  decode_semantics-encode_semantics w h grid laws w0 h0 wm hm e k cm =
      let other : length grid ≡ h * w = e ∙ mul_comm w h in
      let flipped : length (flip_rows grid w h) ≡ w * h =
        length-flip_rows w h grid (omega arith) ∙ mul_comm h w in
      let (file, wrote, reads) =
        decode-encode z w h (flip_rows grid w h) laws w0 h0 wm hm flipped cm in
      (
        file,
        rw (not_zero w w0) (
            rw (not_zero h h0) (
              rw (same_number (length grid) (w * h) e)
                (rw (AreClasses-supported grid k) (ap (encoded) wrote)))),
        ap (decoded w h) reads ∙ decoded-flipped w h grid other k,
      )

  -- Whatever the file, a raster that is read from it holds classes only.
  pub decode_semantics-AreClasses :
      (file : Bytes) (w h : ℕ) (grid : Bytes)
      → decode_semantics_png z file w h ≡ done grid
      → AreClasses grid
  unfolding decode_semantics_png
  decode_semantics-AreClasses file w h grid e = by_result (decode_grayscale_png z file) e
    where
      by_result : (o : Result (ℕ × ℕ × Bytes)) → decoded w h o ≡ done grid → AreClasses grid
      by_result (failed x) g = absurd (cc)
      by_result (ok (w', h', image)) g = supported-AreClasses grid (ground arith)
