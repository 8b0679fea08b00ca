-- ===== src/Png/Ends.antt =====
-- The loop of `decode_grayscale_png` of src/runner_paddock/runner_paddock/png_codec.py ends.
use ros_pre_runner.Prelude.{
  ℕ, zero, suc, ◌+◌, ◌*◌, ◌≤◌, ◌<◌, ◌≡◌, ◌≢◌, refl, ap, Bool, true, false, not, ◌||◌, Option, none,
  some, [], ◌∷◌, length, ◌==◌, ◌%◌, ◌++◌, ltb, if_both, arith,
}
use ros_pre_runner.Png.Bytes.{
  Bytes, PngError, Result, ok, failed, ◌>>=◌, Zlib, take, drop, out_of_fuel, truncated_header,
  truncated_chunk, corrupt_chunk, bytes_eq, unpack_u32,
}
use ros_pre_runner.Png.Unfilter.{unfilter, unfilter_rows, unfilter_row}
use ros_pre_runner.Png.Codec.{
  Seen, is_empty, signature, ihdr_type, idat_type, iend_type, read_fields, read_ihdr, read_chunk,
  split_chunk, take_chunk, read_chunks, inflate, finish_decode, nothing_seen, decode_grayscale_png,
}

-- A result other than the end of the fuel.
abbrev pub Ends : {A : Type 0} → Result A → Type 0
Ends o = o ≢ failed out_of_fuel

bind-Ends :
    {A B : Type 0} (o : Result A) (f : A → Result B)
    → Ends o
    → ((a : A) → o ≡ ok a → Ends (f a))
    → Ends (o >>= f)
bind-Ends (ok a) f h g = g a refl
bind-Ends (failed e) f h g = λ k. h (ap failed (failed-injective k))
  where
    failed-injective :
        {C : Type 0} {x y : PngError} → (let r : Result C = failed x in r ≡ failed y) → x ≡ y
    failed-injective k = cc

ok-Ends : {A : Type 0} (a : A) → Ends (ok a)
ok-Ends a h = absurd (cc)

length-drop_le : (n : ℕ) (xs : Bytes) → length (drop n xs) ≤ length xs
length-drop_le zero xs = omega arith
length-drop_le (suc n) [] = omega arith
length-drop_le (suc n) (x ∷ xs) = let h = length-drop_le n xs in omega arith

length-drop_lt : (n : ℕ) (xs : Bytes) → 1 ≤ length xs → length (drop (suc n) xs) < length xs
length-drop_lt n [] h = absurd (omega arith)
length-drop_lt n (x ∷ xs) h = let g = length-drop_le n xs in omega arith

unfilter_row-Ends : (f : ℕ) (above line : Bytes) → Ends (unfilter_row f above line)
unfolding unfilter_row
unfilter_row-Ends f above line =
    let P : Result Bytes → Type 0 = λ o. Ends o in
    if_both P (f == 0) (λ _. ok-Ends _)
      (λ _.
        if_both P (f == 1) (λ _. ok-Ends _)
          (λ _.
            if_both P (f == 2) (λ _. ok-Ends _)
              (λ _.
                if_both P (f == 3) (λ _. ok-Ends _)
                  (λ _. if_both P (f == 4) (λ _. ok-Ends _) (λ _ h. absurd (cc))))))

unfilter_rows-Ends : (n w : ℕ) (above raw : Bytes) → Ends (unfilter_rows n w above raw)
unfolding unfilter_rows
unfilter_rows-Ends zero w above raw = ok-Ends _
unfilter_rows-Ends (suc n) w above [] = λ h. absurd (cc)
unfilter_rows-Ends (suc n) w above (f ∷ raw) =
    bind-Ends (unfilter_row f above (take w raw)) _ (unfilter_row-Ends f above (take w raw))
      (λ line _.
        bind-Ends (unfilter_rows n w line (drop w raw)) _ (unfilter_rows-Ends n w line (drop w raw))
          (λ rest _. ok-Ends _))

read_ihdr-Ends : (d : Bytes) (s : Seen) → Ends (read_ihdr d s)
unfolding read_ihdr
read_ihdr-Ends d s =
    let P : Result Seen → Type 0 = λ o. Ends o in
    if_both P (not (length d == 13)) (λ _ h. absurd (cc)) (λ _. by_tail (drop 8 d))
  where
    by_fields : (a b c e f : ℕ) (rest : Bytes) → Ends (read_fields (a ∷ b ∷ c ∷ e ∷ f ∷ rest) d s)
    by_fields a b c e f rest =
        let P : Result Seen → Type 0 = λ o. Ends o in
        if_both P (not (a == 8) || not (b == 0)) (λ _ h. absurd (cc))
          (λ _.
            if_both P (not (c == 0) || not (e == 0)) (λ _ h. absurd (cc))
              (λ _. if_both P (not (f == 0)) (λ _ h. absurd (cc)) (λ _. ok-Ends _)))

    by_tail : (tail : Bytes) → Ends (read_fields tail d s)
    by_tail [] = λ h. absurd (cc)
    by_tail (a ∷ []) = λ h. absurd (cc)
    by_tail (a ∷ b ∷ []) = λ h. absurd (cc)
    by_tail (a ∷ b ∷ c ∷ []) = λ h. absurd (cc)
    by_tail (a ∷ b ∷ c ∷ e ∷ []) = λ h. absurd (cc)
    by_tail (a ∷ b ∷ c ∷ e ∷ f ∷ rest) = by_fields a b c e f rest

read_chunk-Ends : (t d : Bytes) (s : Seen) → Ends (read_chunk t d s)
unfolding read_chunk
read_chunk-Ends t d s =
    let P : Result Seen → Type 0 = λ o. Ends o in
    if_both P (bytes_eq t ihdr_type) (λ _. read_ihdr-Ends d s)
      (λ _.
        if_both P (bytes_eq t idat_type)
          (λ _. if_both P (not s.seen_ihdr) (λ _ h. absurd (cc)) (λ _. ok-Ends _))
          (λ _. if_both P (bytes_eq t iend_type) (λ _. ok-Ends _) (λ _. ok-Ends _)))

not_below : (m : ℕ) → ltb m 8 ≡ false → 8 ≤ m
not_below m h = ground arith

below : (a b n : ℕ) → a < b → b ≤ suc n → a ≤ n
below a b n h g = omega arith

ok-injective : {A : Type 0} {x y : A} → (let r : Result A = ok x in r ≡ ok y) → x ≡ y
ok-injective h = cc

shorter :
    (rest : Bytes) (k : ℕ) (xs : Bytes)
    → 8 ≤ length rest
    → drop k (drop 8 rest) ≡ xs
    → length xs < length rest
shorter rest k xs h e =
    let a = length-drop_le k (drop 8 rest) in
    let b = length-drop_lt 7 rest (omega arith) in let c = ap length e in omega arith

module _ (z : Zlib) where
  finish_decode-Ends : (s : Seen) → Ends (finish_decode z s)
  unfolding finish_decode unfilter
  finish_decode-Ends s =
      let P : Result (ℕ × ℕ × Bytes) → Type 0 = λ o. Ends o in
      if_both P (not s.seen_ihdr) (λ _ h. absurd (cc))
        (λ _.
          if_both P (not s.seen_iend) (λ _ h. absurd (cc))
            (λ _.
              if_both P (is_empty s.idat) (λ _ h. absurd (cc))
                (λ _. by_inflating (z.decompress s.idat))))
    where
      by_inflating : (o : Option Bytes) → Ends (inflate z s o)
      by_inflating none = λ h. absurd (cc)
      by_inflating (some raw) =
          let P : Result (ℕ × ℕ × Bytes) → Type 0 = λ o. Ends o in
          if_both P (not (length raw == s.height * (1 + s.width))) (λ _ h. absurd (cc))
            (λ _.
              bind-Ends (unfilter_rows s.height s.width _ raw) _
                (unfilter_rows-Ends s.height s.width _ raw) (λ pixels _. ok-Ends _))

  -- A chunk that is taken leaves less than there was.
  abbrev Taken : Bytes → Result (Bytes × Bytes × Bytes) → Type 0
  Taken rest o = Ends o × ((p : Bytes × Bytes × Bytes) → o ≡ ok p → length p.2 < length rest)

  refused-Taken : (rest : Bytes) (e : PngError) → e ≢ out_of_fuel → Taken rest (failed e)
  refused-Taken rest e n = (λ h. n (cc), λ p h. absurd (cc))

  take_chunk-Taken : (rest : Bytes) → Taken rest (take_chunk z rest)
  unfolding take_chunk split_chunk
  take_chunk-Taken rest =
      let body = drop 8 rest in
      let size = unpack_u32 (take 4 rest) in
      if_both (Taken rest) (ltb (length rest) 8)
        (λ _. refused-Taken rest truncated_header (λ h. absurd (cc)))
        (λ enough.
          if_both (Taken rest) (ltb (length body) (size + 4))
            (λ _. refused-Taken rest (truncated_chunk (take 4 (drop 4 rest))) (λ h. absurd (cc)))
            (λ _.
              if_both (Taken rest)
                (not (
                  (z.crc32 (take 4 (drop 4 rest) ++ take size body) % 4294967296)
                  == unpack_u32 (take 4 (drop size body))))
                (λ _. refused-Taken rest (corrupt_chunk (take 4 (drop 4 rest))) (λ h. absurd (cc)))
                (λ _. (
                  ok-Ends _,
                  λ p h.
                      shorter rest (size + 4) p.2 (not_below (length rest) enough)
                        (ap (λ q. q.2) (ok-injective h)),
                ))))

  read_chunks-Ends :
      (n : ℕ) (rest : Bytes) (s : Seen) → length rest ≤ n → Ends (read_chunks z n rest s)
  unfolding read_chunks
  read_chunks-Ends zero [] s h = ok-Ends s
  read_chunks-Ends zero (x ∷ xs) s h = absurd (omega arith)
  read_chunks-Ends (suc n) rest s h =
      turn (is_empty rest || s.seen_iend) (λ rest' s' g. read_chunks-Ends n rest' s' g)
    where
      turn :
          (b : Bool)
          → ((rest' : Bytes) (s' : Seen) → length rest' ≤ n → Ends (read_chunks z n rest' s'))
          → Ends (elim b [
            | true ↦ ok s
            | false ↦
                take_chunk z rest >>= (λ p. read_chunk p.0 p.1 s >>= (λ s'. read_chunks z n p.2 s'))
          ])
      turn true again = ok-Ends s
      turn false again =
          let (e, l) = take_chunk-Taken rest in
          bind-Ends (take_chunk z rest) _ e (λ p t.
            bind-Ends (read_chunk p.0 p.1 s) _ (read_chunk-Ends p.0 p.1 s)
              (λ s' _. again p.2 s' (below (length p.2) (length rest) n (l p t) h)))

  -- Decoding any bytes ends with a raster or an error of the source: the loop over the chunks never
  -- uses up a turn for each byte.
  pub decode_grayscale_png-Ends : (d : Bytes) → decode_grayscale_png z d ≢ failed out_of_fuel
  unfolding decode_grayscale_png
  decode_grayscale_png-Ends d =
      let P : Result (ℕ × ℕ × Bytes) → Type 0 = λ o. Ends o in
      if_both P (not (bytes_eq (take 8 d) signature)) (λ _ h. absurd (cc))
        (λ _.
          bind-Ends (read_chunks z (length d) (drop 8 d) nothing_seen) _
            (read_chunks-Ends (length d) (drop 8 d) nothing_seen (length-drop_le 8 d))
            (λ s _. finish_decode-Ends s))
