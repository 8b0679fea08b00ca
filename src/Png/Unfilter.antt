-- ===== src/Png/Unfilter.antt =====
-- `_paeth` and `_unfilter` of src/runner_paddock/runner_paddock/png_codec.py. A row is rebuilt from the
-- left: `a` is the byte before, `b` the one above and `c` the one above `a`.
use ros_pre_runner.Prelude.{
  ℕ, zero, suc, ◌+◌, ◌-◌, ◌/◌, ◌%◌, ◌&&◌, [], ◌∷◌, ◌++◌, leb, ◌==◌, if◌then◌else◌,
}
use ros_pre_runner.Png.Bytes.{
  Bytes, Result, ok, failed, ◌>>=◌, index_error, unsupported_filter, take, drop,
}

-- abs(x - y)
abbrev pub distance : ℕ → ℕ → ℕ
distance x y = (x - y) + (y - x)

-- With p = a + b - c, which may be negative, abs(p - a) is the distance of a + b and c + a.
unfoldable pub paeth : ℕ → ℕ → ℕ → ℕ
paeth a b c =
    let pa = distance (a + b) (c + a) in
    let pb = distance (a + b) (c + b) in
    let pc = distance (a + b) (c + c) in
    if leb pa pb && leb pa pc then a else if leb pb pc then b else c

abbrev pub Predictor : Type 0
Predictor = ℕ → ℕ → ℕ → ℕ

-- What each filter adds to a byte.
abbrev pub sub : Predictor
sub a b c = a

abbrev pub up : Predictor
up a b c = b

abbrev pub average : Predictor
average a b c = (a + b) / 2

-- One of the loops over a row.
abbrev pub rebuild : Predictor → ℕ → ℕ → Bytes → Bytes → Bytes
rebuild p a c (b ∷ above) (x ∷ xs) = let y = (x + p a b c) % 256 in y ∷ rebuild p y b above xs
rebuild p a c [] (x ∷ xs) = []
rebuild p a c above [] = []

unfoldable pub unfilter_row : ℕ → Bytes → Bytes → Result Bytes
unfolding paeth
unfilter_row f above line =
    if f == 0
    then ok line
    else if f == 1
    then ok (rebuild sub 0 0 above line)
    else if f == 2
    then ok (rebuild up 0 0 above line)
    else if f == 3
    then ok (rebuild average 0 0 above line)
    else if f == 4
    then ok (rebuild paeth 0 0 above line)
    else failed (unsupported_filter f)

unfoldable pub unfilter_rows : ℕ → ℕ → Bytes → Bytes → Result Bytes
unfolding unfilter_row
unfilter_rows zero width above raw = ok []
unfilter_rows (suc n) width above [] = failed index_error
unfilter_rows (suc n) width above (f ∷ raw) = do
  line ← unfilter_row f above (take width raw)
  rest ← unfilter_rows n width line (drop width raw)
  ok (line ++ rest)

abbrev pub zeros : ℕ → Bytes
zeros zero = []
zeros (suc n) = 0 ∷ zeros n

unfoldable pub unfilter : Bytes → ℕ → ℕ → Result Bytes
unfolding unfilter_rows
unfilter raw width height = unfilter_rows height width (zeros width) raw
