-- ===== src/Limiter/Protocol/Charges.antt =====
-- src/limiter/protocol.rs: what a charge that is accepted looks like.
use fareward.Common.{
  ℕ, suc, ◌≤◌, ◌<◌, ◌≡◌, ◌⊎◌, inl, inr, Bool, true, false, Option, none, some, List, [], ◌∷◌, ◌==◌,
  if◌then◌else◌, drop, All, arith, subst, Bool-cases,
}
use fareward.Common.Int.{pos_part}
use fareward.Common.Result.{ok}
use fareward.Limiter.Blob.{max_route_id}
use fareward.Limiter.Policy.{Request}
use fareward.Limiter.Protocol.{
  ChargeFrame, filled_slots, any_filled, access_slots, check_charge, check_decoded_charge,
  parse_charge,
}

-- After the first zero there are only zeros.
abbrev pub IsDense : List ℕ → Type 0
IsDense [] = Unit {0}
IsDense (slot ∷ slots) = (slot ≡ 0 → All (λ s. s ≡ 0) slots) × IsDense slots

abbrev pub IsAccepted : Request → Type 0
IsAccepted request =
    (0 < request.company_id)
    × (0 < request.user_id)
    × (request.route_id ≤ max_route_id)
    × IsDense request.required_access
    × ((0 < request.credits.cpu)
        ⊎ ((0 < request.credits.inference) ⊎ (0 < filled_slots request.required_access)))

any_filled-false : (slots : List ℕ) → any_filled slots ≡ false → All (λ s. s ≡ 0) slots
unfolding any_filled
any_filled-false [] h = tt
any_filled-false (slot ∷ slots) h = (ground arith, any_filled-false slots (ground arith))

zeros-IsDense : (slots : List ℕ) → All (λ s. s ≡ 0) slots → IsDense slots
zeros-IsDense [] z = tt
zeros-IsDense (slot ∷ slots) z = (λ _. z.1, zeros-IsDense slots z.1)

filled_slots-IsDense :
    (slots : List ℕ) → any_filled (drop (filled_slots slots) slots) ≡ false → IsDense slots
unfolding filled_slots
filled_slots-IsDense [] h = tt
filled_slots-IsDense (slot ∷ slots) h = elim (Bool-cases (slot == 0)) [
  | inl e ↦ zeros-IsDense (slot ∷ slots) (any_filled-false (slot ∷ slots) (rest true e))
  | inr e ↦ (λ z. absurd (ground arith), filled_slots-IsDense slots (rest false e))
]
  where
    rest :
        (b : Bool)
        → (slot == 0) ≡ b
        → any_filled (drop (if b then 0 else suc (filled_slots slots)) (slot ∷ slots)) ≡ false
    rest b e =
        subst
          (λ c.
            any_filled (drop (if c then 0 else suc (filled_slots slots)) (slot ∷ slots)) ≡ false)
          e h

abbrev accepted_request : ChargeFrame → Request
accepted_request frame = record {
  company_id = pos_part frame.company_id;
  user_id = pos_part frame.user_id;
  route_id = frame.route_id;
  credits = record { cpu = frame.cpu; inference = frame.inference };
  required_access = access_slots frame;
  extra_credits_allowed = frame.extra_allowed;
}

check_charge_inv :
    (frame : ChargeFrame) (request : Request)
    → check_charge frame ≡ ok request
    → (0 < pos_part frame.company_id)
      × (0 < pos_part frame.user_id)
      × (frame.route_id ≤ max_route_id)
      × (any_filled (drop (filled_slots (access_slots frame)) (access_slots frame)) ≡ false)
      × ((0 < frame.cpu) ⊎ ((0 < frame.inference) ⊎ (0 < filled_slots (access_slots frame))))
      × (accepted_request frame ≡ request)
unfolding check_charge
check_charge_inv frame request h = ground arith

checked :
    (frame : ChargeFrame) (request : Request) → check_charge frame ≡ ok request → IsAccepted request
checked frame request h =
    let (c, u, r, dense, carries, same) = check_charge_inv frame request h in
    subst IsAccepted same (c, u, r, filled_slots-IsDense (access_slots frame) dense, carries)

decoded :
    (frame : Option ChargeFrame) (request : Request)
    → check_decoded_charge frame ≡ ok request
    → IsAccepted request
unfolding check_decoded_charge
decoded none request h = cc
decoded (some frame) request h = checked frame request h

-- A charge that is accepted names a positive company and user and a route that a stored total can
-- hold, its access slots fill from the first without gaps, and it carries credits or an access.
pub parse_charge-IsAccepted :
    (decode : List ℕ → Option ChargeFrame) (payload : List ℕ) (request : Request)
    → parse_charge decode payload ≡ ok request
    → IsAccepted request
unfolding parse_charge
parse_charge-IsAccepted decode payload request h = decoded (decode payload) request h
