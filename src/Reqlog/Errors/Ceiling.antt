-- ===== src/Reqlog/Errors/Ceiling.antt =====
-- src/reqlog/errors.rs: the number of entries.
use fareward.Common.{
  ℕ, ◌≤◌, ◌<◌, ◌≡◌, ◌≢◌, refl, true, not, Option, none, some, List, [], ◌∷◌, length, inl, inr,
  Option-cases, arith,
}
use fareward.Common.Int.{ℤ}
use fareward.Common.StringMap.{same_text_sound, same_text_self}
use fareward.Common.KeyMap.{get, length-put, length-keep_if-lt}
use fareward.Reqlog.Errors.{
  ErrorKey, same_error, ErrorWriteGate, oldest, evict_oldest, is_known, should_write,
}
use Prim.Native.String.{String}

pub same_error_sound : (a b : ErrorKey) → same_error a b ≡ true → a ≡ b
unfolding same_error
same_error_sound a b h = ground (arith, h, same_text_sound a.1 b.1)

pub same_error_self : (a : ErrorKey) → same_error a a ≡ true
unfolding same_error
same_error_self a = ground (arith, same_text_self a.1)

oldest_found :
    (m : List (ErrorKey × ℕ)) (e : ErrorKey × ℕ)
    → oldest m ≡ some e
    → is_known (get same_error e.0 m) ≡ true
unfolding oldest get
oldest_found [] e h = absurd (ground (arith, h))
oldest_found ((k, t) ∷ m) e h = ground (arith, h, same_error_self k, oldest_found m e)

known_some : (o : Option ℕ) → is_known o ≡ true → (t : ℕ) × (o ≡ some t)
known_some none h = absurd (ground (arith, h))
known_some (some t) h = (t, refl)

oldest-some : (m : List (ErrorKey × ℕ)) → 0 < length m → oldest m ≢ none
unfolding oldest
oldest-some [] h e = absurd (omega (arith, h))
oldest-some (x ∷ m) h e = ground (arith, e)

evict_oldest_lt : (m : List (ErrorKey × ℕ)) → 0 < length m → length (evict_oldest m) < length m
unfolding evict_oldest
evict_oldest_lt m h = elim (Option-cases (oldest m)) [
  | inl e ↦ absurd (oldest-some m h e)
  | inr (entry, e) ↦
      let (t, found) = known_some _ (oldest_found m entry e) in
      rw (evict_oldest, e)
        (length-keep_if-lt same_error (λ key _. not (same_error key entry.0)) entry.0 m t
          (λ j w same. ground (arith, same)) found)
]

-- A gate with a positive ceiling that holds no more entries than it holds no more of them after any
-- error.
pub should_write-capacity :
    (id : ℤ) (code_line : String) (now : ℕ) (gate : ErrorWriteGate)
    → 1 ≤ gate.capacity
    → length gate.last_written ≤ gate.capacity
    → length (should_write id code_line now gate).0.last_written ≤ gate.capacity
unfolding should_write
should_write-capacity id code_line now gate some_room held = ground (
  arith,
  some_room,
  held,
  evict_oldest_lt gate.last_written,
  length-put same_error (id, code_line) now gate.last_written,
  length-put same_error (id, code_line) now (evict_oldest gate.last_written),
)
