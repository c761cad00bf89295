-- ===== src/Tests/Protocols.antt =====
-- src/limiter/protocol.rs: a charge for authorization, and two refusals.
use fareward.Common.{ℕ, ◌≡◌, refl, [], ◌∷◌, List, true, false, Option, none, some}
use fareward.Common.Int.{pos}
use fareward.Common.Result.{ok}
use fareward.Limiter.Policy.{LimitViolation, Request, company, day}
use fareward.Limiter.Protocol.{ChargeFrame, parse_charge, response_byte}

-- A codec of messages of one byte, an access.
abbrev decode : List ℕ → Option ChargeFrame
decode (access ∷ []) = some (record {
  company_id = pos 7;
  user_id = pos 42;
  route_id = 3;
  cpu = 0;
  inference = 0;
  extra_allowed = false;
  access1 = access;
  access2 = 0;
  access3 = 0;
  access4 = 0;
})
decode bytes = none

abbrev request : Request
request = record {
  company_id = 7;
  user_id = 42;
  route_id = 3;
  credits = record { cpu = 0; inference = 0 };
  required_access = 9 ∷ 0 ∷ 0 ∷ 0 ∷ [];
  extra_credits_allowed = false;
}

parsed : parse_charge decode (9 ∷ []) ≡ ok request
unfolding parse_charge
parsed = refl

abbrev refusal : LimitViolation
refusal = record { scope = company; window = day; cpu = true; inference = false }

refusal_byte : response_byte refusal ≡ 20
unfolding response_byte
refusal_byte = refl
