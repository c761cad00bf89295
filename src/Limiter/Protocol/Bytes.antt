-- ===== src/Limiter/Protocol/Bytes.antt =====
-- src/limiter/protocol.rs: the byte of a refusal says all of it.
use fareward.Common.{
  ℕ, zero, suc, ◌+◌, ◌*◌, ◌^◌, sym, ap, ◌∙◌, ◌≡◌, ◌<◌, refl, Bool, true, false, arith,
}
use fareward.Limiter.Policy.{
  Scope, company, user, Window, ten_seconds, hour, day, month, LimitViolation,
}
use fareward.Limiter.Protocol.{response_byte, scope_code, window_code, bit}

bit-bound : (b : Bool) → bit b < 2
bit-bound false = omega arith
bit-bound true = omega arith

scope_code-bound : (s : Scope) → scope_code s < 2
scope_code-bound company = omega arith
scope_code-bound user = omega arith

window_code-bound : (w : Window) → window_code w < 4
window_code-bound ten_seconds = omega arith
window_code-bound hour = omega arith
window_code-bound day = omega arith
window_code-bound month = omega arith

window_of : ℕ → Window
window_of zero = ten_seconds
window_of (suc zero) = hour
window_of (suc (suc zero)) = day
window_of (suc (suc (suc n))) = month

scope_of : ℕ → Scope
scope_of zero = company
scope_of (suc n) = user

bit_of : ℕ → Bool
bit_of zero = false
bit_of (suc n) = true

window_of-code : (w : Window) → window_of (window_code w) ≡ w
unfolding window_of
window_of-code ten_seconds = refl
window_of-code hour = refl
window_of-code day = refl
window_of-code month = refl

scope_of-code : (s : Scope) → scope_of (scope_code s) ≡ s
unfolding scope_of
scope_of-code company = refl
scope_of-code user = refl

bit_of-bit : (b : Bool) → bit_of (bit b) ≡ b
unfolding bit_of
bit_of-bit false = refl
bit_of-bit true = refl

window_code-injective : (a b : Window) → window_code a ≡ window_code b → a ≡ b
window_code-injective a b e = sym (window_of-code a) ∙ ap window_of e ∙ window_of-code b

scope_code-injective : (a b : Scope) → scope_code a ≡ scope_code b → a ≡ b
scope_code-injective a b e = sym (scope_of-code a) ∙ ap scope_of e ∙ scope_of-code b

bit-injective : (a b : Bool) → bit a ≡ bit b → a ≡ b
bit-injective a b e = sym (bit_of-bit a) ∙ ap bit_of e ∙ bit_of-bit b

-- The codes of a byte are its digits.
digits :
    (s s' w w' i i' c c' : ℕ)
    → s < 2
    → s' < 2
    → w < 4
    → w' < 4
    → i < 2
    → i' < 2
    → c < 2
    → c' < 2
    → s + w * 2 ^ 1 + i * 2 ^ 3 + c * 2 ^ 4 ≡ s' + w' * 2 ^ 1 + i' * 2 ^ 3 + c' * 2 ^ 4
    → (s ≡ s') × (w ≡ w') × (i ≡ i') × (c ≡ c')
digits s s' w w' i i' c c' hs hs' hw hw' hi hi' hc hc' e =
    (omega arith, omega arith, omega arith, omega arith)

-- Two refusals with the same byte are the same: the client reads the scope, the window and the
-- resources from it.
pub response_byte-injective : (v w : LimitViolation) → response_byte v ≡ response_byte w → v ≡ w
unfolding response_byte
response_byte-injective v w e =
    let (s, t, i, c) =
      digits _ _ _ _ _ _ _ _ (scope_code-bound v.scope) (scope_code-bound w.scope)
        (window_code-bound v.window) (window_code-bound w.window) (bit-bound v.inference)
        (bit-bound w.inference) (bit-bound v.cpu) (bit-bound w.cpu) e in
    same v w (scope_code-injective v.scope w.scope s) (window_code-injective v.window w.window t)
      (bit-injective v.cpu w.cpu c) (bit-injective v.inference w.inference i)
  where
    same :
        (v w : LimitViolation)
        → v.scope ≡ w.scope
        → v.window ≡ w.window
        → v.cpu ≡ w.cpu
        → v.inference ≡ w.inference
        → v ≡ w
    same v w a b c d = cc
