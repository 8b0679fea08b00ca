-- ===== src/CommandSupervisor/Order.antt =====
-- The serial order of 64-bit control sequence numbers.
use ros_pre_runner.Prelude.{◌-◌, ℕ, ◌+◌, ◌%◌, ◌<◌, ◌≡◌, ◌↔◌, ◌&&◌, true, false, arith}
use ros_pre_runner.CommandSupervisor.Control.{uint64_modulus, uint64_half_range, is_newer_sequence}

-- On 64-bit numbers, one sequence number is newer than another exactly if it is at most half the
-- range, less one, ahead of it, wrapping round at 2^64; so no two are newer than each other.
pub is_newer_exact :
    (candidate previous : ℕ)
    → candidate < uint64_modulus
    → previous < uint64_modulus
    → ((is_newer_sequence candidate previous ≡ true) ↔ (
        (d : ℕ) × (0 < d)
        × (d < uint64_half_range)
        × (candidate ≡ (previous + d) % uint64_modulus)))
      × ((is_newer_sequence candidate previous && is_newer_sequence previous candidate) ≡ false)
unfolding is_newer_sequence
is_newer_exact candidate previous hc hp = (
  (
    (λ h. (
      (candidate + (uint64_modulus - previous % uint64_modulus)) % uint64_modulus,
      ground arith,
      ground arith,
      omega arith,
    )),
    (λ h. ground arith),
  ),
  ground arith,
)
