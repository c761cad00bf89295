-- ===== src/Limiter/Usage.antt =====
-- src/limiter/aggregation.rs: the absolute usage row of a key in memory, with the versions by which
-- a flush that runs beside charges loses none of them.
pub mod Flush
pub mod Increment
use fareward.Common.{
  ℕ, ◌+◌, ◌≡◌, Bool, true, false, not, Option, none, some, List, [], ◌∷◌, ltb, ◌==◌, if◌then◌else◌,
}
use fareward.Common.Int.{ℤ}
use fareward.Common.Result.{Result, ok, err}
use fareward.Limiter.Credits.{Credits, RoutedCredits, zero_credits, checked_add, checked_add_u64}

pub record UsageKey : Type 0 where
  pub company_id : ℤ
  pub user_id : ℤ
  pub time_frame : ℤ

pub record UsageRecord : Type 0 where
  pub routes : RoutedCredits
  pub version : ℕ
  pub flushed_version : ℕ

pub data UsageError : Type 0 where
  credits_overflow version_overflow : UsageError

-- `BTreeMap::get` and `BTreeMap::insert`
unfoldable pub credits_at : ℕ → RoutedCredits → Option Credits
credits_at route [] = none
credits_at route ((r, c) ∷ routes) = if r == route then some c else credits_at route routes

unfoldable pub insert_route : ℕ → Credits → RoutedCredits → RoutedCredits
insert_route route credits [] = (route, credits) ∷ []
insert_route route credits ((r, c) ∷ routes) =
    let rest = insert_route route credits routes in
    if ltb route r
    then (route, credits) ∷ (r, c) ∷ routes
    else if route == r
    then (route, credits) ∷ routes
    else (r, c) ∷ rest

unfoldable pub loaded : RoutedCredits → UsageRecord
loaded routes = record { routes = routes; version = 0; flushed_version = 0 }

abbrev pub current_credits : ℕ → RoutedCredits → Credits
current_credits route routes = elim (credits_at route routes) [ none ↦ zero_credits | some c ↦ c ]

-- The row, changed as far as the call got, and whether it failed.
unfoldable pub increment : ℕ → Credits → UsageRecord → UsageRecord × Result UsageError (Unit {0})
unfolding checked_add credits_at insert_route
increment route credits u = elim (checked_add (current_credits route u.routes) credits) [
  | none ↦ (u, err credits_overflow)
  | some updated ↦
      let changed = record u { routes = insert_route route updated u.routes } in
      elim (checked_add_u64 u.version 1) [
        | none ↦ (changed, err version_overflow)
        | some version ↦ (record changed { version = version }, ok tt)
      ]
]

pub record UsageSnapshot : Type 0 where
  pub key : UsageKey
  pub routes : RoutedCredits
  pub version : ℕ

abbrev pub is_clean : UsageRecord → Bool
is_clean u = u.version == u.flushed_version

unfoldable pub snapshot : UsageKey → UsageRecord → Option UsageSnapshot
snapshot key u =
    if is_clean u then none else some (record { key = key; routes = u.routes; version = u.version })

unfoldable pub mark_flushed : ℕ → UsageRecord → UsageRecord
mark_flushed version u = if u.version == version then record u { flushed_version = version } else u
