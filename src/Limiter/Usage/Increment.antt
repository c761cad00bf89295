-- ===== src/Limiter/Usage/Increment.antt =====
-- src/limiter/aggregation.rs: what a charge does to the routes of a usage row.
use fareward.Common.{ℕ, ◌+◌, ◌<◌, ◌≡◌, refl, sym, subst, ◌≢◌, some, [], ◌∷◌, arith}
use fareward.Common.Result.{Result, ok}
use fareward.Limiter.Credits.{Credits, RoutedCredits, u64_max}
use fareward.Limiter.Policy.{Fits, u64_limits}
use fareward.Limiter.Subject.Gates.{plus, checked_add-Fits}
use fareward.Limiter.Usage.{
  UsageRecord, UsageError, credits_at, current_credits, insert_route, increment,
}

credits_at-insert_self :
    (route : ℕ) (credits : Credits) (routes : RoutedCredits)
    → credits_at route (insert_route route credits routes) ≡ some credits
unfolding credits_at insert_route
credits_at-insert_self route credits [] = ground arith
credits_at-insert_self route credits ((r, c) ∷ routes) =
    ground (arith, credits_at-insert_self route credits routes)

credits_at-insert_other :
    (route other : ℕ) (credits : Credits) (routes : RoutedCredits)
    → route ≢ other
    → credits_at other (insert_route route credits routes) ≡ credits_at other routes
unfolding credits_at insert_route
credits_at-insert_other route other credits [] n = ground arith
credits_at-insert_other route other credits ((r, c) ∷ routes) n =
    ground (arith, credits_at-insert_other route other credits routes n)

-- Where the 64-bit counters have room, a charge succeeds, adds its credits to those of its route,
-- leaves the other routes, and gives the row a new version.
pub increment-credits_at :
    (route : ℕ) (credits : Credits) (u : UsageRecord)
    → Fits (current_credits route u.routes) credits u64_limits
    → u.version < u64_max
    → let (u', r) = increment route credits u in
      (r ≡ ok tt)
      × (credits_at route u'.routes ≡ some (plus (current_credits route u.routes) credits))
      × ((other : ℕ) → route ≢ other → credits_at other u'.routes ≡ credits_at other u.routes)
      × (u'.version ≡ u.version + 1)
      × (u'.flushed_version ≡ u.flushed_version)
unfolding increment
increment-credits_at route credits u f v =
    let updated = plus (current_credits route u.routes) credits in
    let step : increment route credits u ≡ (
      record {
        routes = insert_route route updated u.routes;
        version = u.version + 1;
        flushed_version = u.flushed_version;
      },
      ok tt,
    ) =
      rw (increment, checked_add-Fits (current_credits route u.routes) credits f) (ground arith) in
    subst
      (λ (s : UsageRecord × Result UsageError (Unit {0})).
        (s.1 ≡ ok tt)
        × (credits_at route s.0.routes ≡ some updated)
        × ((other : ℕ) → route ≢ other → credits_at other s.0.routes ≡ credits_at other u.routes)
        × (s.0.version ≡ u.version + 1)
        × (s.0.flushed_version ≡ u.flushed_version))
      (sym step)
      (
        refl,
        credits_at-insert_self route updated u.routes,
        λ other n. credits_at-insert_other route other updated u.routes n,
        refl,
        refl,
      )
