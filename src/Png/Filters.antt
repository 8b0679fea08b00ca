-- ===== src/Png/Filters.antt =====
-- The five filters of a PNG row, as the format describes them, against `_unfilter` of
-- src/runner_paddock/runner_paddock/png_codec.py.
use ros_pre_runner.Prelude.{
  ◌*◌, ◌/◌, leb, ◌&&◌, ℕ, zero, suc, ◌+◌, ◌-◌, ◌%◌, ◌<◌, ◌≡◌, refl, ap, sym, ◌∙◌, List, [], ◌∷◌,
  ◌++◌, length, if◌then◌else◌, arith,
}
use ros_pre_runner.Png.Bytes.{Bytes, ok}
use ros_pre_runner.Png.Unfilter.{
  Predictor, distance, sub, up, average, paeth, rebuild, unfilter, unfilter_row, unfilter_rows,
  zeros,
}
use ros_pre_runner.Png.Rows.{take_exact, drop_exact}

-- |x - y|
abbrev gap : ℕ → ℕ → ℕ
gap x y = if leb x y then y - x else x - y

-- The neighbour nearest to a + b - c, of which a is |b - c| away, b is |a - c| and c is |a + b - 2c|; of
-- several that are as near it is a before b before c.
abbrev pub nearest : Predictor
nearest a b c =
    if leb (gap b c) (gap a c) && leb (gap b c) (gap (a + b) (2 * c))
    then a
    else if leb (gap a c) (gap (a + b) (2 * c))
    then b
    else c

-- The predictor of a filter type: nothing, left, above, their mean, and the nearest neighbour.
abbrev pub prediction : ℕ → Predictor
prediction zero a b c = 0
prediction (suc zero) a b c = a
prediction (suc (suc zero)) a b c = b
prediction (suc (suc (suc zero))) a b c = (a + b) / 2
prediction _ a b c = nearest a b c

distance-left : (a b c : ℕ) → distance (a + b) (c + a) ≡ gap b c
distance-left a b c = ground arith

distance-above : (a b c : ℕ) → distance (a + b) (c + b) ≡ gap a c
distance-above a b c = ground arith

distance-corner : (a b c : ℕ) → distance (a + b) (c + c) ≡ gap (a + b) (2 * c)
distance-corner a b c = ground arith

paeth-nearest : (a b c : ℕ) → paeth a b c ≡ nearest a b c
unfolding paeth
paeth-nearest a b c = rw (distance-left a b c, distance-above a b c, distance-corner a b c) refl

-- A filtered row holds the differences to what a predictor says, modulo 256.
abbrev pub filter_row : Predictor → ℕ → ℕ → Bytes → Bytes → Bytes
filter_row p a c (b ∷ above) (y ∷ ys) =
    (y + (256 - p a b c % 256)) % 256 ∷ filter_row p y b above ys
filter_row p a c [] (y ∷ ys) = []
filter_row p a c above [] = []

abbrev filter_with : ℕ → Bytes → Bytes → Bytes
filter_with f above row = filter_row (prediction f) 0 0 above row

-- Rows with their filter types.
unfoldable pub filter_image : Bytes → List (ℕ × Bytes) → Bytes
filter_image above [] = []
filter_image above ((f, row) ∷ rest) = f ∷ (filter_with f above row ++ filter_image row rest)

abbrev pub pixels_of : List (ℕ × Bytes) → Bytes
pixels_of [] = []
pixels_of ((f, row) ∷ rest) = row ++ pixels_of rest

abbrev pub AreBytes : Bytes → Type 0
AreBytes [] = Unit {0}
AreBytes (y ∷ ys) = (y < 256) × AreBytes ys

-- Rows of `w` bytes, each with one of the five filters.
abbrev pub AreRows : ℕ → List (ℕ × Bytes) → Type 0
AreRows w [] = Unit {0}
AreRows w ((f, row) ∷ rest) = (f < 5) × (length row ≡ w) × AreBytes row × AreRows w rest

restored : (y q : ℕ) → y < 256 → ((y + (256 - q % 256)) % 256 + q) % 256 ≡ y
restored y q h = omega arith

length-filter_row :
    (p : Predictor) (a c : ℕ) (above ys : Bytes)
    → length above ≡ length ys
    → length (filter_row p a c above ys) ≡ length ys
length-filter_row p a c [] [] h = refl
length-filter_row p a c (b ∷ above) [] h = refl
length-filter_row p a c [] (y ∷ ys) h = absurd (omega arith)
length-filter_row p a c (b ∷ above) (y ∷ ys) h =
    ap suc (length-filter_row p y b above ys (omega arith))

rebuild-filter_row :
    (p q : Predictor)
    → ((a b c : ℕ) → p a b c ≡ q a b c)
    → (a c : ℕ) (above ys : Bytes) → length above ≡ length ys
    → AreBytes ys
    → rebuild p a c above (filter_row q a c above ys) ≡ ys
rebuild-filter_row p q e a c [] [] h k = refl
rebuild-filter_row p q e a c (b ∷ above) [] h k = refl
rebuild-filter_row p q e a c [] (y ∷ ys) h k = absurd (omega arith)
rebuild-filter_row p q e a c (b ∷ above) (y ∷ ys) h (l, k) =
    let r =
      ap (λ d. ((y + (256 - q a b c % 256)) % 256 + d) % 256) (e a b c) ∙ restored y (q a b c) l in
    ap (λ x. x ∷ rebuild p x b above (filter_row q y b above ys)) r
    ∙ ap (λ xs. y ∷ xs) (rebuild-filter_row p q e y b above ys (omega arith) k)

-- Filter 0 leaves the bytes.
filter_row-bytes :
    (a c : ℕ) (above ys : Bytes)
    → length above ≡ length ys
    → AreBytes ys
    → filter_row (prediction 0) a c above ys ≡ ys
filter_row-bytes a c [] [] h k = refl
filter_row-bytes a c (b ∷ above) [] h k = refl
filter_row-bytes a c [] (y ∷ ys) h k = absurd (omega arith)
filter_row-bytes a c (b ∷ above) (y ∷ ys) h (l, k) =
    let r : (y + 256) % 256 ≡ y = omega arith in
    ap (λ x. x ∷ filter_row (prediction 0) y b above ys) r
    ∙ ap (λ xs. y ∷ xs) (filter_row-bytes y b above ys (omega arith) k)

module _ (above row : Bytes) (h : length above ≡ length row) where
  unfilter_row-filter_with :
      (f : ℕ) → f < 5 → AreBytes row → unfilter_row f above (filter_with f above row) ≡ ok row
  unfolding unfilter_row
  unfilter_row-filter_with zero l k = ap ok (filter_row-bytes 0 0 above row h k)
  unfilter_row-filter_with (suc zero) l k =
      ap ok (rebuild-filter_row sub (prediction 1) (λ a b c. refl) 0 0 above row h k)
  unfilter_row-filter_with (suc (suc zero)) l k =
      ap ok (rebuild-filter_row up (prediction 2) (λ a b c. refl) 0 0 above row h k)
  unfilter_row-filter_with (suc (suc (suc zero))) l k =
      ap ok (rebuild-filter_row average (prediction 3) (λ a b c. refl) 0 0 above row h k)
  unfilter_row-filter_with (suc (suc (suc (suc zero)))) l k =
      ap ok (rebuild-filter_row paeth (prediction 4) paeth-nearest 0 0 above row h k)
  unfilter_row-filter_with (suc (suc (suc (suc (suc f))))) l k = absurd (omega arith)

abbrev pub count_rows : List (ℕ × Bytes) → ℕ
count_rows [] = 0
count_rows (r ∷ rest) = suc (count_rows rest)

unfilter_rows-filter_image :
    (w : ℕ) (above : Bytes) (rows : List (ℕ × Bytes))
    → length above ≡ w
    → AreRows w rows
    → unfilter_rows (count_rows rows) w above (filter_image above rows) ≡ ok (pixels_of rows)
unfolding unfilter_rows filter_image
unfilter_rows-filter_image w above [] h k = refl
unfilter_rows-filter_image w above ((f, row) ∷ rest) h (l, e, k, others) =
    let same : length above ≡ length row = h ∙ sym e in
    let coded = filter_with f above row in
    let long : length coded ≡ w = length-filter_row (prediction f) 0 0 above row same ∙ e in
    let again = unfilter_rows-filter_image w row rest e others in
    rw (take_exact w coded (filter_image row rest) long) (
      rw (drop_exact w coded (filter_image row rest) long)
        (rw (unfilter_row-filter_with above row same f l k) (rw again refl)))

length-zeros : (n : ℕ) → length (zeros n) ≡ n
length-zeros zero = refl
length-zeros (suc n) = ap suc (length-zeros n)

-- Whatever filter each row was given, of the five that the format has (each byte less a prediction, modulo
-- 256: nothing, the byte to the left, the one above, the mean of these, or the nearest of left, above and
-- upper left to left + above - upper left, in this order), the rows of bytes are restored.
pub unfilter-filter_image :
    (w : ℕ) (rows : List (ℕ × Bytes))
    → AreRows w rows
    → unfilter (filter_image (zeros w) rows) w (count_rows rows) ≡ ok (pixels_of rows)
unfolding unfilter
unfilter-filter_image w rows k = unfilter_rows-filter_image w (zeros w) rows (length-zeros w) k
