-- ===== src/Common/KeyMap.antt =====
-- A `HashMap<K, V>` as an association list, for keys with an equality test.
pub mod Entries
use Prim.Native.Nat.{ℕ, ◌+◌, suc, ◌≤◌, ◌<◌}
use mathlib.Core.Path.{◌≡◌, refl}
use mathlib.Core.Bool.{Bool, true, false}
use mathlib.Core.Option.{Option, none, some}
use mathlib.Core.List.{List, [], ◌∷◌, map}
use native.Mathlib.Omega.{arith}
use fareward.Common.Tests.{if◌then◌else◌}
use fareward.Common.Lists.{length, times}

-- The values, as numbers, and the one that is found.
abbrev pub values_of {ℓ κ} : {K : Type ℓ} {V : Type κ} → (V → ℕ) → List (K × V) → List ℕ
values_of weigh m = map (λ entry. weigh entry.1) m

abbrev pub value_list {κ} : {V : Type κ} → (V → ℕ) → Option V → List ℕ
value_list weigh none = []
value_list weigh (some v) = weigh v ∷ []

module _ {ℓ κ} {K : Type ℓ} (same : K → K → Bool) {V : Type κ} where
  unfoldable pub get : K → List (K × V) → Option V
  get k [] = none
  get k ((j, v) ∷ m) = if same j k then some v else get k m

  -- `HashMap::insert`
  unfoldable pub put : K → V → List (K × V) → List (K × V)
  put k v [] = (k, v) ∷ []
  put k v ((j, w) ∷ m) = let rest = put k v m in if same j k then (k, v) ∷ m else (j, w) ∷ rest

  -- `HashMap::entry`, then `or_insert`.
  unfoldable pub or_put : K → V → List (K × V) → List (K × V)
  unfolding get put
  or_put k v m = elim (get k m) [ some w ↦ m | none ↦ put k v m ]

  -- `HashMap::retain`
  unfoldable pub keep_if : (K → V → Bool) → List (K × V) → List (K × V)
  keep_if keep [] = []
  keep_if keep ((k, v) ∷ m) = let rest = keep_if keep m in if keep k v then (k, v) ∷ rest else rest

  -- `HashMap::remove`, of a key that stands once.
  unfoldable pub take_out : K → List (K × V) → List (K × V)
  take_out k [] = []
  take_out k ((j, v) ∷ m) = let rest = take_out k m in if same j k then m else (j, v) ∷ rest

  module _ (sound : (j k : K) → same j k ≡ true → j ≡ k)
      (refl_same : (k : K) → same k k ≡ true) where
    pub get-put_self : (k : K) (v : V) (m : List (K × V)) → get k (put k v m) ≡ some v
    unfolding get put
    get-put_self k v [] = ground (arith, refl_same k)
    get-put_self k v ((j, w) ∷ m) = ground (arith, refl_same k, get-put_self k v m)

    pub get-put_ne :
        (k j : K) (v : V) (m : List (K × V)) → same k j ≡ false → get j (put k v m) ≡ get j m
    unfolding get put
    get-put_ne k j v [] n = ground (arith, n)
    get-put_ne k j v ((i, w) ∷ m) n = ground (arith, sound i k, get-put_ne k j v m n, n)

    pub get-take_out_ne :
        (k j : K) (m : List (K × V)) → same k j ≡ false → get j (take_out k m) ≡ get j m
    unfolding get take_out
    get-take_out_ne k j [] n = refl
    get-take_out_ne k j ((i, w) ∷ m) n =
        ground (arith, sound i k, sound i j, get-take_out_ne k j m n, n)

    pub get-or_put_ne :
        (k j : K) (v : V) (m : List (K × V)) → same k j ≡ false → get j (or_put k v m) ≡ get j m
    unfolding or_put
    get-or_put_ne k j v m n = ground (arith, get-put_ne k j v m n)

  -- The entry that is found stays the one that is found.
  pub get-keep_if_found :
      (keep : K → V → Bool) (k : K) (v : V) (m : List (K × V))
      → get k m ≡ some v
      → ((j : K) → keep j v ≡ true)
      → get k (keep_if keep m) ≡ some v
  unfolding get keep_if
  get-keep_if_found keep k v [] e h = e
  get-keep_if_found keep k v ((j, w) ∷ m) e h = ground (arith, e, h j, get-keep_if_found keep k v m)

  pub get-keep_if_dropped :
      (keep : K → V → Bool) (k : K) (m : List (K × V))
      → ((j : K) (w : V) → same j k ≡ true → keep j w ≡ false)
      → get k (keep_if keep m) ≡ none
  unfolding get keep_if
  get-keep_if_dropped keep k [] h = refl
  get-keep_if_dropped keep k ((j, w) ∷ m) h = ground (arith, h j w, get-keep_if_dropped keep k m h)

  pub get-keep_if_kept :
      (keep : K → V → Bool) (k : K) (m : List (K × V))
      → ((j : K) (w : V) → same j k ≡ true → keep j w ≡ true)
      → get k (keep_if keep m) ≡ get k m
  unfolding get keep_if
  get-keep_if_kept keep k [] h = refl
  get-keep_if_kept keep k ((j, w) ∷ m) h = ground (arith, h j w, get-keep_if_kept keep k m h)

  pub length-put :
      (k : K) (v : V) (m : List (K × V))
      → length (put k v m) ≡ elim (get k m) [ none ↦ suc (length m) | some w ↦ length m ]
  unfolding get put
  length-put k v [] = refl
  length-put k v ((j, w) ∷ m) = ground (arith, length-put k v m)

  length-keep_if-le : (keep : K → V → Bool) (m : List (K × V)) → length (keep_if keep m) ≤ length m
  unfolding keep_if
  length-keep_if-le keep [] = omega arith
  length-keep_if-le keep ((j, w) ∷ m) = ground (arith, length-keep_if-le keep m)

  -- An entry that is dropped leaves fewer.
  pub length-keep_if-lt :
      (keep : K → V → Bool) (k : K) (m : List (K × V)) (v : V)
      → ((j : K) (w : V) → same j k ≡ true → keep j w ≡ false)
      → get k m ≡ some v
      → length (keep_if keep m) < length m
  unfolding get keep_if
  length-keep_if-lt keep k [] v dropped h = absurd (ground (arith, h))
  length-keep_if-lt keep k ((j, w) ∷ m) v dropped h =
      ground (arith, h, dropped j w, length-keep_if-le keep m, length-keep_if-lt keep k m v dropped)

  module _ (weigh : V → ℕ) (g : ℕ) where
    pub times-put :
        (k : K) (v : V) (m : List (K × V))
        → times g (values_of weigh (put k v m)) + times g (value_list weigh (get k m))
          ≡ times g (values_of weigh m) + times g (weigh v ∷ [])
    unfolding times get put
    times-put k v [] = ground arith
    times-put k v ((j, other) ∷ m) = ground (arith, times-put k v m)

    pub times-take_out :
        (k : K) (m : List (K × V))
        → times g (values_of weigh (take_out k m)) + times g (value_list weigh (get k m))
          ≡ times g (values_of weigh m)
    unfolding times get take_out
    times-take_out k [] = ground arith
    times-take_out k ((j, other) ∷ m) = ground (arith, times-take_out k m)
