-- ===== src/EncoderState/Epoch.antt =====
-- The history of the encoder is one epoch of pulses: what bounds its length, its gaps and its span.
use ros_pre_runner.Prelude.{
  ℕ, suc, ◌+◌, ◌*◌, ◌≤◌, ◌<◌, ◌≡◌, refl, List, [], ◌∷◌, ◌++◌, ltb, if_both, length, length-append,
  arith,
}
use ros_pre_runner.EncoderState.State.{
  min_edge_interval_ns, max_lookback_ns, append, prune_from, prune_history,
}

-- The last of x ∷ xs.
abbrev pub last_from : ℕ → List ℕ → ℕ
last_from x [] = x
last_from x (y ∷ ys) = last_from y ys

-- Neighbours are at least the debounce and less than the timeout apart.
abbrev pub Spaced : ℕ → ℕ → List ℕ → Type 0
Spaced timeout x [] = Unit
Spaced timeout x (y ∷ ys) = (x + min_edge_interval_ns ≤ y) × (y < x + timeout) × Spaced timeout y ys

-- A history of at most n timestamps that ends with `last`.
abbrev pub IsEpoch : ℕ → ℕ → ℕ → List ℕ → Type 0
IsEpoch timeout n last [] = Unit
IsEpoch timeout n last (x ∷ xs) =
    Spaced timeout x xs × (last_from x xs ≡ last) × (length (x ∷ xs) ≤ n)

-- It begins within the lookback of its end.
abbrev pub IsRecent : ℕ → List ℕ → Type 0
IsRecent last [] = Unit
IsRecent last (x ∷ xs) = last ≤ x + max_lookback_ns

pub Spaced-last :
    (timeout x : ℕ) (xs : List ℕ)
    → Spaced timeout x xs
    → x + length xs * min_edge_interval_ns ≤ last_from x xs
Spaced-last timeout x [] s = omega arith
Spaced-last timeout x (y ∷ ys) (a, b, s) = omega (arith, Spaced-last timeout y ys s, a)

prune_from-IsEpoch :
    (timeout n last reference x : ℕ) (xs : List ℕ)
    → IsEpoch timeout n last (x ∷ xs)
    → IsEpoch timeout n last (prune_from reference x xs)
unfolding prune_from
prune_from-IsEpoch timeout n last reference x [] h = h
prune_from-IsEpoch timeout n last reference x (y ∷ ys) ((a, b, s), e, l) =
    if_both (IsEpoch timeout n last) (ltb (x + max_lookback_ns) reference)
      (λ p. prune_from-IsEpoch timeout n last reference y ys (s, e, omega arith))
      (λ p. ((a, b, s), e, l))

-- Pruning at the last timestamp makes a history recent.
prune_from-IsRecent :
    (timeout x : ℕ) (xs : List ℕ)
    → Spaced timeout x xs
    → (last : ℕ) → last_from x xs ≡ last
    → IsRecent last (prune_from last x xs)
unfolding prune_from
prune_from-IsRecent timeout x [] s last e = omega arith
prune_from-IsRecent timeout x (y ∷ ys) (a, b, s) last e =
    if_both (IsRecent last) (ltb (x + max_lookback_ns) last)
      (λ p. prune_from-IsRecent timeout y ys s last e) (λ p. ground arith)

-- Pruning at any time keeps it recent.
prune_from-IsRecent_keep :
    (timeout last reference x : ℕ) (xs : List ℕ)
    → Spaced timeout x xs
    → last ≤ x + max_lookback_ns
    → IsRecent last (prune_from reference x xs)
unfolding prune_from
prune_from-IsRecent_keep timeout last reference x [] s h = h
prune_from-IsRecent_keep timeout last reference x (y ∷ ys) (a, b, s) h =
    if_both (IsRecent last) (ltb (x + max_lookback_ns) reference)
      (λ p. prune_from-IsRecent_keep timeout last reference y ys s (omega arith)) (λ p. h)

Spaced-append :
    (timeout x : ℕ) (xs : List ℕ) (t : ℕ)
    → Spaced timeout x xs
    → last_from x xs + min_edge_interval_ns ≤ t
    → t < last_from x xs + timeout
    → Spaced timeout x (xs ++ (t ∷ [])) × (last_from x (xs ++ (t ∷ [])) ≡ t)
Spaced-append timeout x [] t s a b = ((a, b, tt), refl)
Spaced-append timeout x (y ∷ ys) t (c, d, s) a b =
    let (s', e) = Spaced-append timeout y ys t s a b in ((c, d, s'), e)

snoc-IsEpoch :
    (timeout k n last t x : ℕ) (xs : List ℕ)
    → IsEpoch timeout k last (x ∷ xs)
    → suc (length (x ∷ xs)) ≤ n
    → last + min_edge_interval_ns ≤ t
    → t < last + timeout
    → IsEpoch timeout n t (x ∷ (xs ++ (t ∷ [])))
snoc-IsEpoch timeout k n last t x xs (s, e, l) m a b =
    let (s', e') = Spaced-append timeout x xs t s (omega arith) (omega arith) in
    (s', e', omega (arith, length-append xs (t ∷ [])))

pub append-IsEpoch :
    (timeout n last t : ℕ) (xs : List ℕ)
    → 2 ≤ n
    → IsEpoch timeout n last xs
    → last + min_edge_interval_ns ≤ t
    → t < last + timeout
    → IsEpoch timeout n t (append n xs t)
append-IsEpoch timeout n last t [] m h a b = (tt, refl, omega arith)
append-IsEpoch timeout n last t (x ∷ []) m h a b =
    if_both (IsEpoch timeout n t) (ltb 1 n) (λ p. snoc-IsEpoch timeout n n last t x [] h m a b)
      (λ p. (tt, refl, omega arith))
append-IsEpoch timeout n last t (x ∷ y ∷ ys) m ((c, d, s), e, l) a b =
    if_both (IsEpoch timeout n t) (ltb (length (x ∷ y ∷ ys)) n)
      (λ p. snoc-IsEpoch timeout n n last t x (y ∷ ys) ((c, d, s), e, l) (ground arith) a b)
      (λ p. snoc-IsEpoch timeout n n last t y ys (s, e, omega arith) l a b)

pub prune_history-IsEpoch :
    (timeout n last reference : ℕ) (xs : List ℕ)
    → IsEpoch timeout n last xs
    → IsEpoch timeout n last (prune_history reference xs)
prune_history-IsEpoch timeout n last reference [] h = h
prune_history-IsEpoch timeout n last reference (x ∷ xs) h =
    prune_from-IsEpoch timeout n last reference x xs h

pub prune_history-IsRecent :
    (timeout n last : ℕ) (xs : List ℕ)
    → IsEpoch timeout n last xs
    → IsRecent last (prune_history last xs)
prune_history-IsRecent timeout n last [] h = tt
prune_history-IsRecent timeout n last (x ∷ xs) (s, e, l) = prune_from-IsRecent timeout x xs s last e

pub prune_history-IsRecent_keep :
    (timeout n last reference : ℕ) (xs : List ℕ)
    → IsEpoch timeout n last xs
    → IsRecent last xs
    → IsRecent last (prune_history reference xs)
prune_history-IsRecent_keep timeout n last reference [] h r = tt
prune_history-IsRecent_keep timeout n last reference (x ∷ xs) (s, e, l) r =
    prune_from-IsRecent_keep timeout last reference x xs s r
