-- ===== src/Limiter/Access/Search.antt =====
-- src/limiter/access.rs: the binary search finds what a scan of all words finds.
use fareward.Common.{
  ℕ, zero, suc, ◌+◌, ◌*◌, ◌/◌, ◌≤◌, ◌<◌, ◌≡◌, refl, sym, ap, subst, ◌∙◌, inl, inr, Bool, true,
  false, ◌&&◌, ◌||◌, List, [], ◌∷◌, leb, ◌==◌, length, drop, arith, Bool-cases,
}
use fareward.Common.Result.{ok}
use fareward.Limiter.Access.{
  unpack_grant, front_word, grant_at, search_grants, holds_in_grants, ascending_words,
  validate_grants,
}

-- A word that holds an access at a level.
abbrev pub Grants : ℕ × ℕ → ℕ × ℕ → Type 0
Grants granted required = (granted.0 ≡ required.0) × (required.1 ≤ granted.1)

abbrev pub HeldAt : List ℕ → ℕ × ℕ → ℕ → Type 0
HeldAt grants required index = Grants (grant_at grants index) required

-- The words ascend up to an index.
abbrev pub IsAscending : List ℕ → ℕ → Type 0
IsAscending grants count =
    (i j : ℕ) → i < j → j < count → (grant_at grants i).0 < (grant_at grants j).0

search_grants_none :
    (fuel : ℕ) (grants : List ℕ) (required : ℕ × ℕ) (low high : ℕ)
    → ((i : ℕ) → i < high → HeldAt grants required i → ⊥)
    → low ≤ high
    → search_grants fuel grants required low high ≡ false
unfolding search_grants
search_grants_none zero grants required low high h o = refl
search_grants_none (suc fuel) grants required low high h o =
    let middle = (low + high) / 2 in
    ground (
      arith,
      h middle,
      search_grants_none fuel grants required (middle + 1) high h,
      search_grants_none fuel grants required low middle (λ i p. h i (omega arith)),
    )

search_grants_complete :
    (fuel : ℕ) (grants : List ℕ) (required : ℕ × ℕ) (low high i : ℕ)
    → IsAscending grants high
    → high ≤ low + fuel
    → low ≤ i
    → i < high
    → HeldAt grants required i
    → search_grants fuel grants required low high ≡ true
unfolding search_grants
search_grants_complete zero grants required low high i a f l u h = absurd (omega arith)
search_grants_complete (suc fuel) grants required low high i a f l u h =
    let middle = (low + high) / 2 in
    ground (
      arith,
      a i middle,
      a middle i,
      search_grants_complete fuel grants required (middle + 1) high i a,
      search_grants_complete fuel grants required low middle i (λ j k p q. a j k p (omega arith)),
    )

-- Every word is looked at.
unfoldable pub scan_words : List ℕ → ℕ × ℕ → Bool
scan_words (high ∷ low ∷ bytes) required =
    let granted = unpack_grant (high * 256 + low) in
    granted.0 == required.0 && leb required.1 granted.1 || scan_words bytes required
scan_words bytes required = false

grant_at-suc :
    (high low : ℕ) (bytes : List ℕ) (i : ℕ)
    → grant_at (high ∷ low ∷ bytes) (suc i) ≡ grant_at bytes i
grant_at-suc high low bytes i =
    let e : suc i * 2 ≡ suc (suc (i * 2)) = omega arith in
    ap (λ n. unpack_grant (front_word (drop n (high ∷ low ∷ bytes)))) e

grant_at-zero :
    (high low : ℕ) (bytes : List ℕ)
    → grant_at (high ∷ low ∷ bytes) 0 ≡ unpack_grant (high * 256 + low)
unfolding front_word
grant_at-zero high low bytes = refl

scan_words-true :
    (grants : List ℕ) (required : ℕ × ℕ)
    → scan_words grants required ≡ true
    → (i : ℕ) × (i < length grants / 2) × HeldAt grants required i
unfolding scan_words
scan_words-true [] required h = cc
scan_words-true (one ∷ []) required h = cc
scan_words-true (high ∷ low ∷ bytes) required h = elim (Bool-cases (scan_words bytes required)) [
  | inl later ↦
      let (i, below, held) = scan_words-true bytes required later in
      (
        suc i,
        omega (arith, below),
        subst (λ g. Grants g required) (sym (grant_at-suc high low bytes i)) held,
      )
  | inr nowhere ↦ (
    0,
    omega arith,
    subst (λ g. Grants g required) (sym (grant_at-zero high low bytes)) (ground arith),
  )
]

scan_words-false :
    (grants : List ℕ) (required : ℕ × ℕ) (i : ℕ)
    → scan_words grants required ≡ false
    → i < length grants / 2
    → HeldAt grants required i
    → ⊥
unfolding scan_words
scan_words-false [] required i h below held = omega (arith, below)
scan_words-false (one ∷ []) required i h below held = omega (arith, below)
scan_words-false (high ∷ low ∷ bytes) required zero h below held =
    let here = subst (λ g. Grants g required) (grant_at-zero high low bytes) held in ground arith
scan_words-false (high ∷ low ∷ bytes) required (suc i) h below held =
    scan_words-false bytes required i (ground arith) (omega (arith, below))
      (subst (λ g. Grants g required) (grant_at-suc high low bytes i) held)

ascending_words-lower :
    (previous : ℕ) (grants : List ℕ) (i : ℕ)
    → ascending_words previous grants ≡ ok tt
    → i < length grants / 2
    → previous < (grant_at grants i).0
unfolding ascending_words
ascending_words-lower previous [] i h below = absurd (omega (arith, below))
ascending_words-lower previous (one ∷ []) i h below = absurd (omega (arith, below))
ascending_words-lower previous (high ∷ low ∷ bytes) zero h below =
    subst (λ g. previous < g.0) (sym (grant_at-zero high low bytes)) (ground arith)
ascending_words-lower previous (high ∷ low ∷ bytes) (suc i) h below =
    let id = (unpack_grant (high * 256 + low)).0 in
    let later : ascending_words id bytes ≡ ok tt = ground arith in
    let first : previous < id = ground arith in
    let rest = ascending_words-lower id bytes i later (omega (arith, below)) in
    subst (λ g. previous < g.0) (sym (grant_at-suc high low bytes i)) (omega (arith, first, rest))

ascending_words-IsAscending :
    (previous : ℕ) (grants : List ℕ)
    → ascending_words previous grants ≡ ok tt
    → IsAscending grants (length grants / 2)
unfolding ascending_words
ascending_words-IsAscending previous [] h i j less below = absurd (omega (arith, below))
ascending_words-IsAscending previous (one ∷ []) h i j less below = absurd (omega (arith, below))
ascending_words-IsAscending previous (high ∷ low ∷ bytes) h i zero less below =
    absurd (omega (arith, less))
ascending_words-IsAscending previous (high ∷ low ∷ bytes) h zero (suc j) less below =
    subst (λ g. g.0 < (grant_at (high ∷ low ∷ bytes) (suc j)).0)
      (sym (grant_at-zero high low bytes))
      (subst (λ g. (unpack_grant (high * 256 + low)).0 < g.0) (sym (grant_at-suc high low bytes j))
        (ascending_words-lower (unpack_grant (high * 256 + low)).0 bytes j (ground arith)
          (omega (arith, below))))
ascending_words-IsAscending previous (high ∷ low ∷ bytes) h (suc i) (suc j) less below =
    subst (λ g. g.0 < (grant_at (high ∷ low ∷ bytes) (suc j)).0)
      (sym (grant_at-suc high low bytes i))
      (subst (λ g. (grant_at bytes i).0 < g.0) (sym (grant_at-suc high low bytes j))
        (ascending_words-IsAscending (unpack_grant (high * 256 + low)).0 bytes (ground arith) i j
          (omega (arith, less)) (omega (arith, below))))

-- In a blob that passes the check on load the binary search answers what a scan of all its words
-- does: whether one of them is of the required access, at the required level or above.
pub holds_in_grants-scan_words :
    (grants : List ℕ) (required_grant : ℕ)
    → validate_grants grants ≡ ok tt
    → holds_in_grants grants required_grant ≡ scan_words grants (unpack_grant required_grant)
unfolding validate_grants holds_in_grants
holds_in_grants-scan_words grants required_grant h =
    let required = unpack_grant required_grant in
    let count = length grants / 2 in
    elim (Bool-cases (scan_words grants required)) [
      | inl found ↦
          let (i, below, held) = scan_words-true grants required found in
          search_grants_complete count grants required 0 count i
            (ascending_words-IsAscending 0 grants (ground arith)) (omega arith) (omega arith) below
            held
          ∙ sym found
      | inr nowhere ↦
          search_grants_none count grants required 0 count
            (λ i below held. scan_words-false grants required i nowhere below held) (omega arith)
          ∙ sym nowhere
    ]
