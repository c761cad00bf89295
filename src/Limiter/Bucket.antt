-- ===== src/Limiter/Bucket.antt =====
-- src/limiter/quota.rs: `TokenBucket`. Tokens are scaled by the nanoseconds of the period; times are
-- nanoseconds, and the time since a later one is zero.
pub mod Rate
use fareward.Common.{ℕ, ◌+◌, ◌-◌, ◌*◌, ◌^◌, ◌≤◌, Bool, leb, min, if◌then◌else◌}

abbrev pub token_period : ℕ
token_period = 10_000_000_000

abbrev pub u128_max : ℕ
u128_max = 2 ^ 128 - 1

pub record TokenBucket : Type 0 where
  pub scaled_tokens : ℕ
  pub last_refill : ℕ

abbrev pub capacity : ℕ → ℕ
capacity limit = limit * token_period

abbrev pub full : ℕ → ℕ → TokenBucket
full limit now = record { scaled_tokens = capacity limit; last_refill = now }

-- `saturating_mul` and `saturating_add` of `u128`
unfoldable pub refill : ℕ → ℕ → TokenBucket → TokenBucket
refill limit now b =
    let gained = min ((now - b.last_refill) * limit) u128_max in
    record {
      scaled_tokens = min (min (b.scaled_tokens + gained) u128_max) (capacity limit);
      last_refill = now;
    }

abbrev pub cost : ℕ → ℕ
cost credits = credits * token_period

unfoldable pub can_charge : ℕ → TokenBucket → Bool
can_charge credits b = leb (cost credits) b.scaled_tokens

-- The subtraction wraps around at 128 bits.
unfoldable pub charge : ℕ → TokenBucket → TokenBucket
charge credits b = record b {
  scaled_tokens =
      if leb (cost credits) b.scaled_tokens
      then b.scaled_tokens - cost credits
      else b.scaled_tokens + 2 ^ 128 - cost credits;
}
