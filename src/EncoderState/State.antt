-- ===== src/EncoderState/State.antt =====
-- `EncoderState` and its operations, in src/runner_encoder/runner_encoder/encoder_state.py. Times are
-- nanoseconds of a monotonic clock, from 0; the deque holds its oldest timestamp first. The lock is
-- left out: every operation holds it from its first line to its last.
use ros_pre_runner.Prelude.{
  ℕ, zero, suc, ◌+◌, ◌-◌, Bool, true, false, not, ◌||◌, Option, none, some, List, [], ◌∷◌, ◌++◌,
  ◌⊎◌, inl, inr, ltb, leb, if◌then◌else◌, length,
}
use ros_pre_runner.Prelude.Int.{ℤ, pos, negsuc}
use ros_pre_runner.Prelude.Float.{Float, fmin, zero_f}

abbrev pub max_lookback_ns : ℕ
max_lookback_ns = 500000000

abbrev pub min_edge_interval_ns : ℕ
min_edge_interval_ns = 100000

-- `sys.maxsize`, on a 64-bit machine
abbrev pub maxsize : ℕ
maxsize = 9223372036854775807

-- The messages of the ValueErrors of the constructor.
pub data BadSetting : Type 0 where
  not_finite_or_positive less_than_one_nanosecond depth_not_an_integer : BadSetting
  depth_less_than_one depth_too_large : BadSetting

-- What a caller can pass as the history depth: an `int`, or a value of another type.
pub data HistoryDepth : Type 0 where
  an_int : ℤ → HistoryDepth
  other : HistoryDepth

unfoldable pub validate_history_depth : HistoryDepth → BadSetting ⊎ ℕ
validate_history_depth other = inl depth_not_an_integer
validate_history_depth (an_int (negsuc n)) = inl depth_less_than_one
validate_history_depth (an_int (pos n)) =
    if ltb n 1
    then inl depth_less_than_one
    else if leb maxsize n
    then inl depth_too_large
    else inr n

pub record EncoderMeasurement (F : Type 0) : Type 0 where
  pub edge_rate : F
  pub stationary : Bool
  pub active_direction : ℤ
  pub pending_direction : ℤ

pub record EncoderState : Type 0 where
  pub stationary_timeout_ns : ℕ
  pub maxlen : ℕ  -- of the deque
  pub edge_timestamps_ns : List ℕ
  pub last_edge_ns : Option ℕ
  pub stationary : Bool
  pub active_direction : ℤ
  pub latest_nonzero_direction : ℤ

abbrev pub built : ℕ → BadSetting ⊎ ℕ → BadSetting ⊎ EncoderState
built timeout (inl e) = inl e
built timeout (inr depth) = inr record {
  stationary_timeout_ns = timeout;
  maxlen = depth + 1;
  edge_timestamps_ns = [];
  last_edge_ns = none;
  stationary = true;
  active_direction = pos 0;
  latest_nonzero_direction = pos 0;
}

module _ {F : Type 0} ⦃fl : Float F⦄ where
  unfoldable pub init : F → HistoryDepth → BadSetting ⊎ EncoderState
  unfolding validate_history_depth
  init stationary_timeout_sec history_depth =
      let timeout = fl.to_int (fl.mul stationary_timeout_sec (fl.of_int 1000000000)) in
      if not (fl.is_finite stationary_timeout_sec) || fl.le stationary_timeout_sec zero_f
      then inl not_finite_or_positive
      else if leb timeout 0
      then inl less_than_one_nanosecond
      else built timeout (validate_history_depth history_depth)

-- The new state, and whether the direction was accepted.
unfoldable pub update_direction : EncoderState → ℤ → EncoderState × Bool
update_direction e (pos zero) = (e, true)
update_direction e (pos (suc zero)) = (record e { latest_nonzero_direction = pos 1 }, true)
update_direction e (negsuc zero) = (record e { latest_nonzero_direction = negsuc 0 }, true)
update_direction e _ = (e, false)

-- `deque.append` with a maximal length: the oldest gives way.
abbrev pub append : ℕ → List ℕ → ℕ → List ℕ
append maxlen [] t = t ∷ []
append maxlen (x ∷ xs) t =
    if ltb (length (x ∷ xs)) maxlen then (x ∷ xs) ++ (t ∷ []) else xs ++ (t ∷ [])

-- The history x ∷ xs without the timestamps that are too old at the reference, but for the last.
unfoldable pub prune_from : ℕ → ℕ → List ℕ → List ℕ
prune_from reference x [] = x ∷ []
prune_from reference x (y ∷ ys) =
    if ltb (x + max_lookback_ns) reference then prune_from reference y ys else x ∷ y ∷ ys

abbrev pub prune_history : ℕ → List ℕ → List ℕ
prune_history reference [] = []
prune_history reference (x ∷ xs) = prune_from reference x xs

-- An edge this soon after the last one is no edge.
abbrev pub is_bounce : Option ℕ → ℕ → Bool
is_bounce none t = false
is_bounce (some last) t = ltb t (last + min_edge_interval_ns)

-- No edge, or none within the timeout.
abbrev pub is_at_rest : ℕ → Option ℕ → ℕ → Bool
is_at_rest timeout none t = true
is_at_rest timeout (some last) t = leb (last + timeout) t

abbrev pub begins_epoch : EncoderState → ℕ → Bool
begins_epoch e t = e.stationary || is_at_rest e.stationary_timeout_ns e.last_edge_ns t

-- `_active_direction` and the history of an accepted edge
abbrev latch : EncoderState → ℕ → EncoderState
latch e t =
    if begins_epoch e t
    then record e { active_direction = e.latest_nonzero_direction; edge_timestamps_ns = [] }
    else e

unfoldable pub record_edge : EncoderState → ℕ → EncoderState
record_edge e t =
    if is_bounce e.last_edge_ns t
    then e
    else (let l = latch e t in
        record l {
          stationary = false;
          last_edge_ns = some t;
          edge_timestamps_ns = prune_history t (append l.maxlen l.edge_timestamps_ns t);
        })

-- The clock went back behind the last edge.
abbrev pub is_reversed : Option ℕ → ℕ → Bool
is_reversed none t = false
is_reversed (some last) t = ltb t last

-- The oldest, the last but one and the last timestamp of first ∷ x ∷ xs.
abbrev last_two : ℕ → ℕ → List ℕ → ℕ × ℕ
last_two w x [] = (w, x)
last_two w x (y ∷ ys) = last_two x y ys

-- The state in which `take_measurement` leaves the encoder, with the last edge that the clock allows.
abbrev pub measure : EncoderState → Option ℕ → ℕ → EncoderState
measure e last t =
    if is_at_rest e.stationary_timeout_ns last t
    then record e { last_edge_ns = last; stationary = true; edge_timestamps_ns = [] }
    else record e {
      last_edge_ns = last;
      stationary = false;
      edge_timestamps_ns = prune_history t e.edge_timestamps_ns;
    }

unfoldable pub after_measurement : EncoderState → ℕ → EncoderState
after_measurement e t = measure e (if is_reversed e.last_edge_ns t then none else e.last_edge_ns) t

module _ {F : Type 0} ⦃fl : Float F⦄ where
  abbrev rate_of : ℕ → ℕ → ℕ → ℕ → ℕ → F
  rate_of intervals first previous last t =
      let rate =
        fl.div (fl.mul (fl.of_int intervals) (fl.of_int 1000000000)) (fl.of_int (last - first)) in
      if leb last first || leb last previous
      then zero_f
      else if ltb (last + (last - previous)) t
      then fmin rate (fl.div (fl.of_int 1000000000) (fl.of_int (t - last)))
      else rate

  unfoldable pub estimate_edge_rate : List ℕ → ℕ → F
  estimate_edge_rate [] t = zero_f
  estimate_edge_rate (x ∷ []) t = zero_f
  estimate_edge_rate (x ∷ y ∷ ys) t =
      let (previous, last) = last_two x y ys in rate_of (length (y ∷ ys)) x previous last t

  abbrev measurement : EncoderState → F → EncoderMeasurement F
  measurement e rate = record {
    edge_rate = rate;
    stationary = e.stationary;
    active_direction = e.active_direction;
    pending_direction = e.latest_nonzero_direction;
  }

  unfoldable pub take_measurement : EncoderState → ℕ → EncoderState × EncoderMeasurement F
  unfolding estimate_edge_rate
  take_measurement e t =
      let m = after_measurement e t in
      (
        m,
        measurement m (if m.stationary then zero_f else estimate_edge_rate m.edge_timestamps_ns t),
      )

pub data Call : Type 0 where
  direction : ℤ → Call
  edge : ℕ → Call
  measured : ℕ → Call

unfoldable pub call : EncoderState → Call → EncoderState
call e (direction d) = (update_direction e d).0
call e (edge t) = record_edge e t
call e (measured t) = after_measurement e t

-- The state after calls, in any order and with any clock.
unfoldable pub run : EncoderState → List Call → EncoderState
run e [] = e
run e (k ∷ rest) = run (call e k) rest
