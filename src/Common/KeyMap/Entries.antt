-- ===== src/Common/KeyMap/Entries.antt =====
-- How often a key stands in an association list, for maps in which it must stand once.
use Prim.Native.Nat.{ℕ, ◌+◌, suc, ◌≤◌}
use mathlib.Core.Path.{◌≡◌, refl}
use mathlib.Core.Bool.{Bool, true, false}
use mathlib.Core.Option.{Option, none, some}
use mathlib.Core.List.{List, [], ◌∷◌}
use native.Mathlib.Omega.{arith}
use fareward.Common.Tests.{if◌then◌else◌}
use fareward.Common.KeyMap.{get, put, take_out}

abbrev pub present {κ} : {V : Type κ} → Option V → ℕ
present none = 0
present (some v) = 1

module _ {ℓ κ} {K : Type ℓ} (same : K → K → Bool) {V : Type κ} where
  unfoldable pub entries : K → List (K × V) → ℕ
  entries k [] = 0
  entries k ((j, v) ∷ m) = if same j k then suc (entries k m) else entries k m

  pub get_entries : (k : K) (m : List (K × V)) → entries k m ≡ 0 → get same k m ≡ none
  unfolding entries get
  get_entries k [] h = refl
  get_entries k ((j, v) ∷ m) h = ground (arith, h, get_entries k m)

  pub entries_get : (k : K) (m : List (K × V)) → get same k m ≡ none → entries k m ≡ 0
  unfolding entries get
  entries_get k [] h = refl
  entries_get k ((j, v) ∷ m) h = ground (arith, h, entries_get k m)

  pub entries-take_out :
      (k : K) (m : List (K × V))
      → entries k (take_out same k m) + present (get same k m) ≡ entries k m
  unfolding entries get take_out
  entries-take_out k [] = refl
  entries-take_out k ((j, v) ∷ m) = ground (arith, entries-take_out k m)

  pub entries-take_out_le :
      (k j : K) (m : List (K × V)) → entries j (take_out same k m) ≤ entries j m
  unfolding entries take_out
  entries-take_out_le k j [] = ground arith
  entries-take_out_le k j ((i, w) ∷ m) = ground (arith, entries-take_out_le k j m)

  module _ (sound : (j k : K) → same j k ≡ true → j ≡ k)
      (refl_same : (k : K) → same k k ≡ true) where
    pub entries-put :
        (k : K) (v : V) (m : List (K × V))
        → entries k (put same k v m) + present (get same k m) ≡ suc (entries k m)
    unfolding entries get put
    entries-put k v [] = ground (arith, refl_same k)
    entries-put k v ((j, w) ∷ m) = ground (arith, refl_same k, entries-put k v m)

    pub entries-put_ne :
        (k j : K) (v : V) (m : List (K × V))
        → same k j ≡ false
        → entries j (put same k v m) ≡ entries j m
    unfolding entries put
    entries-put_ne k j v [] n = ground (arith, n)
    entries-put_ne k j v ((i, w) ∷ m) n = ground (arith, sound i k, entries-put_ne k j v m n, n)

    pub entries-take_out_ne :
        (k j : K) (m : List (K × V))
        → same k j ≡ false
        → entries j (take_out same k m) ≡ entries j m
    unfolding entries take_out
    entries-take_out_ne k j [] n = refl
    entries-take_out_ne k j ((i, w) ∷ m) n =
        ground (arith, sound i k, entries-take_out_ne k j m n, n)

    pub present-take_out :
        (k j : K) (m : List (K × V))
        → present (get same j (take_out same k m)) ≤ present (get same j m)
    unfolding get take_out
    present-take_out k j [] = ground arith
    present-take_out k j ((i, w) ∷ m) = ground (arith, present-take_out k j m)

    pub entries-put_old :
        (k j : K) (v : V) (m : List (K × V))
        → present (get same k m) ≡ 1
        → entries j (put same k v m) ≡ entries j m
    unfolding entries get put
    entries-put_old k j v [] old = ground (arith, old)
    entries-put_old k j v ((i, w) ∷ m) old = ground (arith, sound i k, entries-put_old k j v m, old)
