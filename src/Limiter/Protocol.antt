-- ===== src/Limiter/Protocol.antt =====
-- src/limiter/protocol.rs: the checks on a charge behind its codec, and the byte of a refusal.
pub mod Charges
pub mod Bytes
use fareward.Common.{
  ℕ, suc, ◌+◌, ◌*◌, ◌^◌, ◌≡◌, Bool, true, false, ◌&&◌, ◌||◌, not, Option, none, some, List, [], ◌∷◌,
  ltb, ◌==◌, if◌then◌else◌, drop,
}
use fareward.Common.Int.{ℤ, pos, pos_part, leb_ℤ}
use fareward.Common.Result.{Result, ok, err, ◌>>=◌, ◌>>◌, refuse_if}
use fareward.Limiter.Blob.{max_route_id}
use fareward.Limiter.Policy.{
  Scope, company, user, Window, ten_seconds, hour, day, month, LimitViolation, Request,
}

pub record ChargeFrame : Type 0 where
  pub company_id : ℤ
  pub user_id : ℤ
  pub route_id : ℕ
  pub cpu : ℕ
  pub inference : ℕ
  pub extra_allowed : Bool
  pub access1 : ℕ
  pub access2 : ℕ
  pub access3 : ℕ
  pub access4 : ℕ

pub data ProtocolError : Type 0 where
  malformed invalid_company invalid_user : ProtocolError
  invalid_route_id : ℕ → ProtocolError
  empty_charge sparse_required_access : ProtocolError

-- The slots in front of the first zero, counted.
unfoldable pub filled_slots : List ℕ → ℕ
filled_slots [] = 0
filled_slots (slot ∷ slots) = let rest = filled_slots slots in if slot == 0 then 0 else suc rest

unfoldable pub any_filled : List ℕ → Bool
any_filled [] = false
any_filled (slot ∷ slots) = not (slot == 0) || any_filled slots

abbrev pub access_slots : ChargeFrame → List ℕ
access_slots f = f.access1 ∷ f.access2 ∷ f.access3 ∷ f.access4 ∷ []

-- An identifier that passes the checks is positive, and stands as a natural number from there on.
unfoldable pub check_charge : ChargeFrame → Result ProtocolError Request
unfolding filled_slots any_filled
check_charge frame = do
  refuse_if (leb_ℤ frame.company_id (pos 0)) invalid_company
  refuse_if (leb_ℤ frame.user_id (pos 0)) invalid_user
  refuse_if (ltb max_route_id frame.route_id) (invalid_route_id frame.route_id)
  refuse_if (any_filled (drop (filled_slots (access_slots frame)) (access_slots frame)))
      sparse_required_access
  refuse_if (frame.cpu == 0 && frame.inference == 0 && filled_slots (access_slots frame) == 0)
      empty_charge
  ok (record {
    company_id = pos_part frame.company_id;
    user_id = pos_part frame.user_id;
    route_id = frame.route_id;
    credits = record { cpu = frame.cpu; inference = frame.inference };
    required_access = access_slots frame;
    extra_credits_allowed = frame.extra_allowed;
  })

unfoldable pub check_decoded_charge : Option ChargeFrame → Result ProtocolError Request
unfolding check_charge
check_decoded_charge none = err malformed
check_decoded_charge (some frame) = check_charge frame

-- `decode` is the codec of the colbin crate.
unfoldable pub parse_charge : (List ℕ → Option ChargeFrame) → List ℕ → Result ProtocolError Request
unfolding check_decoded_charge
parse_charge decode payload = check_decoded_charge (decode payload)

abbrev pub scope_code : Scope → ℕ
scope_code company = 0
scope_code user = 1

abbrev pub window_code : Window → ℕ
window_code ten_seconds = 0
window_code hour = 1
window_code day = 2
window_code month = 3

abbrev pub bit : Bool → ℕ
bit false = 0
bit true = 1

-- The parts of the byte take bits of their own, so that `|` is a sum.
unfoldable pub response_byte : LimitViolation → ℕ
response_byte v =
    scope_code v.scope + window_code v.window * 2 ^ 1 + bit v.inference * 2 ^ 3 + bit v.cpu * 2 ^ 4
