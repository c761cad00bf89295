-- ===== src/Limiter/Credits.antt =====
-- src/limiter/credits_blob.rs: `Credits` and their sums, in `u64`.
use fareward.Common.{ℕ, ◌+◌, ◌-◌, ◌^◌, Option, none, some, List, leb, if◌then◌else◌}

pub record Credits : Type 0 where
  pub cpu : ℕ
  pub inference : ℕ

abbrev pub zero_credits : Credits
zero_credits = record { cpu = 0; inference = 0 }

abbrev pub u64_max : ℕ
u64_max = 2 ^ 64 - 1

-- `u64::checked_add`
abbrev pub checked_add_u64 : ℕ → ℕ → Option ℕ
checked_add_u64 a b = if leb (a + b) u64_max then some (a + b) else none

unfoldable pub checked_add : Credits → Credits → Option Credits
checked_add c d = elim (checked_add_u64 c.cpu d.cpu) [
  | none ↦ none
  | some cpu ↦ elim (checked_add_u64 c.inference d.inference) [
    | none ↦ none
    | some inference ↦ some (record { cpu = cpu; inference = inference })
  ]
]

-- A `BTreeMap<u16, Credits>` as the list of its entries, by ascending route.
abbrev pub RoutedCredits : Type 0
RoutedCredits = List (ℕ × Credits)
