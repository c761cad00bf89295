-- ===== src/Limiter/Bucket/Rate.antt =====
-- How much a bucket lets through in a stretch of time.
use fareward.Common.{
  ℕ, ◌+◌, ◌-◌, ◌*◌, ◌≤◌, ◌≡◌, sym, subst, ◌∙◌, ap, List, [], ◌∷◌, arith, if◌then◌else◌,
}
use native.Mathlib.Nat.{add-mul}
use fareward.Limiter.Bucket.{TokenBucket, token_period, refill, can_charge, charge, cost}

-- A request for credits at a time.
pub record Ask : Type 0 where
  pub time : ℕ
  pub credits : ℕ

-- The bucket is refilled, and charged where it can be.
unfoldable pub serve_one : ℕ → TokenBucket → Ask → TokenBucket × ℕ
unfolding can_charge charge refill
serve_one limit b a =
    let filled = refill limit a.time b in
    if can_charge a.credits filled then (charge a.credits filled, a.credits) else (filled, 0)

-- The bucket after a list of requests, and what it let through.
unfoldable pub serve : ℕ → TokenBucket → List Ask → TokenBucket × ℕ
unfolding serve_one
serve limit b [] = (b, 0)
serve limit b (a ∷ asks) =
    let (b', passed) = serve_one limit b a in
    let (last, more) = serve limit b' asks in (last, passed + more)

-- The times of the requests do not go back.
abbrev pub Ordered : ℕ → List Ask → Type 0
Ordered start [] = Unit {0}
Ordered start (a ∷ asks) = (start ≤ a.time) × Ordered a.time asks

elapsed : (start now limit : ℕ) → start ≤ now → (now - start) * limit + start * limit ≡ now * limit
elapsed start now limit h =
    sym (add-mul (now - start) start limit) ∙ ap (λ n. n * limit) (omega arith)

serve_one-bound :
    (limit : ℕ) (b : TokenBucket) (a : Ask)
    → b.last_refill ≤ a.time
    → let (b', passed) = serve_one limit b a in
      (cost passed + b'.scaled_tokens + b.last_refill * limit ≤ b.scaled_tokens + a.time * limit)
      × (b'.last_refill ≡ a.time)
unfolding serve_one can_charge charge refill
serve_one-bound limit b a h = ground (arith, elapsed b.last_refill a.time limit h)

cost-sum : (x y : ℕ) → cost (x + y) ≡ cost x + cost y
cost-sum x y = add-mul x y token_period

-- What passes costs at most the tokens at the start and those gained since.
serve-bound :
    (limit : ℕ) (asks : List Ask) (b : TokenBucket)
    → Ordered b.last_refill asks
    → let (b', passed) = serve limit b asks in
      (cost passed + b'.scaled_tokens + b.last_refill * limit
        ≤ b.scaled_tokens + b'.last_refill * limit)
      × (b.last_refill ≤ b'.last_refill)
unfolding serve
serve-bound limit [] b o = (omega arith, omega arith)
serve-bound limit (a ∷ asks) b o =
    let b' = (serve_one limit b a).0 in
    let (more, at) = serve_one-bound limit b a o.0 in
    let (rest, later) = serve-bound limit asks b' (subst (λ t. Ordered t asks) (sym at) o.1) in
    let same = ap (λ t. t * limit) at in
    (
      omega (arith, more, rest, same, cost-sum (serve_one limit b a).1 (serve limit b' asks).1),
      omega (arith, later, at, o.0),
    )

-- In a list of requests in the order of their times, what a bucket lets through costs at most the
-- tokens that it had and those that its limit gives it between its last refill before and after.
pub serve-rate :
    (limit : ℕ) (b : TokenBucket) (asks : List Ask)
    → Ordered b.last_refill asks
    → let (b', passed) = serve limit b asks in
      cost passed ≤ b.scaled_tokens + (b'.last_refill - b.last_refill) * limit
serve-rate limit b asks o =
    let (bound, later) = serve-bound limit asks b o in
    let b' = (serve limit b asks).0 in
    omega (arith, bound, elapsed b.last_refill b'.last_refill limit later)
