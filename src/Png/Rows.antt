-- ===== src/Png/Rows.antt =====
-- The filtered rows of src/runner_paddock/runner_paddock/png_codec.py and their inversion.
use ros_pre_runner.Prelude.{
  ℕ, zero, suc, ◌+◌, ◌*◌, ◌≡◌, refl, ap, sym, ◌∙◌, [], ◌∷◌, ◌++◌, length, length-append, arith,
}
use native.Mathlib.Nat.{suc-mul}
use ros_pre_runner.Png.Bytes.{Bytes, ok, take, drop}
use ros_pre_runner.Png.Unfilter.{unfilter_rows, unfilter_row}
use ros_pre_runner.Png.Codec.{filtered_rows}
use ros_pre_runner.Png.Slices.{take-append, drop-append, take-drop, length-take, length-drop}

pub take_exact : (n : ℕ) (xs ys : Bytes) → length xs ≡ n → take n (xs ++ ys) ≡ xs
take_exact n xs ys e = ap (λ k. take k (xs ++ ys)) (sym e) ∙ take-append xs ys

pub drop_exact : (n : ℕ) (xs ys : Bytes) → length xs ≡ n → drop n (xs ++ ys) ≡ ys
drop_exact n xs ys e = ap (λ k. drop k (xs ++ ys)) (sym e) ∙ drop-append xs ys

pub no_bytes : (xs : Bytes) → length xs ≡ 0 → xs ≡ []
no_bytes [] e = refl
no_bytes (x ∷ xs) e = absurd (omega arith)

-- The lengths of the first row and of the rest.
row_lengths :
    (h w : ℕ) (pixels : Bytes)
    → length pixels ≡ suc h * w
    → (length (take w pixels) ≡ w) × (length (drop w pixels) ≡ h * w)
row_lengths h w pixels e =
    let whole : length pixels ≡ w + h * w = e ∙ suc-mul h w ∙ omega arith in
    (length-take w pixels (omega arith), length-drop w (h * w) pixels whole)

pub length-filtered_rows :
    (h w : ℕ) (pixels : Bytes)
    → length pixels ≡ h * w
    → length (filtered_rows h w pixels) ≡ h * (1 + w)
unfolding filtered_rows
length-filtered_rows zero w pixels e = omega arith
length-filtered_rows (suc h) w pixels e =
    let (t, d) = row_lengths h w pixels e in
    let rest = length-filtered_rows h w (drop w pixels) d in
    let both = length-append (take w pixels) (filtered_rows h w (drop w pixels)) in
    let row = suc-mul h (1 + w) in omega arith

pub unfilter_rows-filtered_rows :
    (h w : ℕ) (above pixels : Bytes)
    → length pixels ≡ h * w
    → unfilter_rows h w above (filtered_rows h w pixels) ≡ ok pixels
unfolding filtered_rows unfilter_rows unfilter_row
unfilter_rows-filtered_rows zero w above pixels e = ap ok (sym (no_bytes pixels (omega arith)))
unfilter_rows-filtered_rows (suc h) w above pixels e =
    let (t, d) = row_lengths h w pixels e in
    let first = take w pixels in
    let others = filtered_rows h w (drop w pixels) in
    let again = unfilter_rows-filtered_rows h w first (drop w pixels) d in
    rw (take_exact w first others t)
      (rw (drop_exact w first others t) (rw again (ap ok (take-drop w pixels))))
