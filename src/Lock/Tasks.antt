-- ===== src/Lock/Tasks.antt =====
-- Families over the numbers: one member changed, and sums over the first members.
use fareward.Common.{
  ℕ, zero, suc, ◌+◌, ◌≤◌, ◌<◌, ◌≡◌, ◌≢◌, refl, Bool, true, false, ◌==◌, if◌then◌else◌, arith,
}

abbrev pub put {ℓ} : {A : Type ℓ} → ℕ → A → (ℕ → A) → ℕ → A
put i a f j = if j == i then a else f j

-- What holds of the new member and of the others holds of all.
pub put-cases {ℓ ℓ'} :
    {A : Type ℓ} (P : A → Type ℓ') (i j : ℕ) (a : A) (f : ℕ → A)
    → P a
    → (j ≢ i → P (f j))
    → P (put i a f j)
put-cases P i j a f h others = go (j == i) refl
  where
    go : (b : Bool) → (j == i) ≡ b → P (if b then a else f j)
    go true e = h
    go false e = others (ground arith)

module _ {ℓ} {A : Type ℓ} (weight : A → ℕ) where
  unfoldable pub total : ℕ → (ℕ → A) → ℕ
  total zero f = 0
  total (suc n) f = weight (f n) + total n f

  total-put_above : (n i : ℕ) (a : A) (f : ℕ → A) → n ≤ i → total n (put i a f) ≡ total n f
  unfolding total
  total-put_above zero i a f h = refl
  total-put_above (suc n) i a f h = ground (arith, total-put_above n i a f)

  -- The weight of the member that changes is exchanged.
  pub total-put :
      (n i : ℕ) (a : A) (f : ℕ → A)
      → i < n
      → total n (put i a f) + weight (f i) ≡ total n f + weight a
  unfolding total
  total-put zero i a f h = absurd (omega arith)
  total-put (suc n) i a f h = ground (arith, total-put n i a f, total-put_above n i a f)

  pub weight-le-total : (n i : ℕ) (f : ℕ → A) → i < n → weight (f i) ≤ total n f
  unfolding total
  weight-le-total zero i f h = absurd (omega arith)
  weight-le-total (suc n) i f h = ground (arith, weight-le-total n i f)

  -- Two members weigh no more than all.
  pub weights-le-total :
      (n i j : ℕ) (f : ℕ → A) → i < j → j < n → weight (f i) + weight (f j) ≤ total n f
  unfolding total
  weights-le-total zero i j f l h = absurd (omega arith)
  weights-le-total (suc n) i j f l h =
      ground (arith, weights-le-total n i j f, weight-le-total n i f)

  pub two-le-total :
      (n i j : ℕ) (f : ℕ → A) → i < n → j < n → j ≢ i → weight (f i) + weight (f j) ≤ total n f
  two-le-total n i j f a b other =
      ground (arith, weights-le-total n i j f, weights-le-total n j i f)

  pub total-eq-zero : (n : ℕ) (f : ℕ → A) → ((i : ℕ) → i < n → weight (f i) ≡ 0) → total n f ≡ 0
  unfolding total
  total-eq-zero zero f h = refl
  total-eq-zero (suc n) f h =
      omega (arith, h n (omega arith), total-eq-zero n f (λ i p. h i (omega (arith, p))))
