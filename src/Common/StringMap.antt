-- ===== src/Common/StringMap.antt =====
-- A `HashMap<String, V>` as an association list.
use Prim.Native.Nat.{suc, ◌≤◌}
use Prim.Native.String.{String}
use mathlib.Core.Path.{subst, ◌≡◌, refl, sym, ap}
use mathlib.Core.Logic.{◌≢◌, ◌⊎◌, inl, inr}
use mathlib.Core.Bool.{Bool, true, not}
use mathlib.Core.Option.{Option, none, some}
use mathlib.Core.List.{List, [], ◌∷◌}
use native.Mathlib.Omega.{arith}
use text.Mathlib.Text.{◌==◌}
use text.Mathlib.TextEquality.{eq_iff}
use fareward.Common.Tests.{if◌then◌else◌, Bool-cases, some-injective}
use fareward.Common.Lists.{length, All}

-- Two texts are equal or not.
pub String-cases : (s t : String) → (s ≡ t) ⊎ (s ≢ t)
String-cases s t = elim (Bool-cases (s == t)) [
  | inl same ↦ inl ((eq_iff s t).0 same)
  | inr other ↦ inr (λ e. cc (other, (eq_iff s t).1 e))
]

unfoldable pub same_text : String → String → Bool
same_text s t = s == t

pub same_text_sound : (s t : String) → same_text s t ≡ true → s ≡ t
unfolding same_text
same_text_sound s t h = (eq_iff s t).0 h

pub same_text_self : (s : String) → same_text s s ≡ true
unfolding same_text
same_text_self s = (eq_iff s s).1 refl

module _ {ℓ} {V : Type ℓ} where
  unfoldable pub lookup : String → List (String × V) → Option V
  lookup wanted ((key, found) ∷ others) = if key == wanted then some found else lookup wanted others
  lookup wanted [] = none

  -- `HashMap::retain`
  unfoldable pub retain : (String → V → Bool) → List (String × V) → List (String × V)
  retain keep [] = []
  retain keep ((k, v) ∷ m) = let rest = retain keep m in if keep k v then (k, v) ∷ rest else rest

  unfoldable pub remove : String → List (String × V) → List (String × V)
  unfolding retain
  remove k = retain (λ j _. not (j == k))

  -- The entry of a key is replaced: a key stands in the list once.
  unfoldable pub insert : String → V → List (String × V) → List (String × V)
  unfolding remove
  insert k v m = (k, v) ∷ remove k m

  lookup-remove_ne :
      (k j : String) (m : List (String × V)) → k ≢ j → lookup j (remove k m) ≡ lookup j m
  unfolding lookup remove
  lookup-remove_ne k j [] n = refl
  lookup-remove_ne k j ((i, w) ∷ m) n =
      ground (arith, eq_iff i k, eq_iff i j, lookup-remove_ne k j m n)

  pub lookup-insert_self :
      (k : String) (v : V) (m : List (String × V)) → lookup k (insert k v m) ≡ some v
  unfolding lookup insert
  lookup-insert_self k v m = rw ((eq_iff k k).1 refl) refl

  pub lookup-insert_ne :
      (k j : String) (new : V) (m : List (String × V))
      → k ≢ j
      → lookup j (insert k new m) ≡ lookup j m
  unfolding lookup insert
  lookup-insert_ne k j new m n = ground (arith, eq_iff k j, lookup-remove_ne k j m n)

  abbrev pub AllEntries {κ} : (String → V → Type κ) → List (String × V) → Type κ
  AllEntries P = All (λ e. P e.0 e.1)

  pub AllEntries-lookup {κ} :
      (P : String → V → Type κ) (k : String) (m : List (String × V)) {v : V}
      → AllEntries P m
      → lookup k m ≡ some v
      → P k v
  unfolding lookup
  AllEntries-lookup P k [] all e = cc
  AllEntries-lookup P k ((j, w) ∷ m) {v} all e = elim (Bool-cases (j == k)) [
    | inl same ↦
        subst (λ x. P x v) ((eq_iff j k).0 same) (subst (P j) (some-injective (rw same at e)) all.0)
    | inr other ↦ AllEntries-lookup P k m all.1 (rw other at e)
  ]

  pub AllEntries-retain {κ} :
      (P : String → V → Type κ) (keep : String → V → Bool) (m : List (String × V))
      → AllEntries P m
      → AllEntries P (retain keep m)
  unfolding retain
  AllEntries-retain P keep [] all = all
  AllEntries-retain P keep ((j, w) ∷ m) all = elim (Bool-cases (keep j w)) [
    | inl kept ↦ rw kept (all.0, AllEntries-retain P keep m all.1)
    | inr dropped ↦ rw dropped (AllEntries-retain P keep m all.1)
  ]

  AllEntries-remove {κ η} :
      {P : String → V → Type κ} {Q : String → V → Type η} (k : String) (m : List (String × V))
      → ((j : String) (w : V) → k ≢ j → P j w → Q j w)
      → AllEntries P m
      → AllEntries Q (remove k m)
  unfolding remove
  AllEntries-remove k [] f all = tt
  AllEntries-remove k ((j, w) ∷ m) f all = elim (Bool-cases (j == k)) [
    | inl same ↦ rw same (AllEntries-remove k m f all.1)
    | inr other ↦
        rw other
          (f j w (λ e. cc (other, (eq_iff j k).1 (sym e))) all.0, AllEntries-remove k m f all.1)
  ]

  -- What holds of every entry after a key is written.
  pub AllEntries-insert {κ η} :
      {P : String → V → Type κ} {Q : String → V → Type η} (k : String) (v : V)
      (m : List (String × V))
      → Q k v
      → ((j : String) (w : V) → k ≢ j → P j w → Q j w)
      → AllEntries P m
      → AllEntries Q (insert k v m)
  unfolding insert
  AllEntries-insert k v m q f all = (q, AllEntries-remove k m f all)

  pub length-retain-le :
      (keep : String → V → Bool) (m : List (String × V)) → length (retain keep m) ≤ length m
  unfolding retain
  length-retain-le keep [] = omega arith
  length-retain-le keep ((k, v) ∷ m) = ground (arith, length-retain-le keep m)

  length-remove_absent :
      (k : String) (m : List (String × V)) → lookup k m ≡ none → length (remove k m) ≡ length m
  unfolding lookup remove
  length-remove_absent k [] e = refl
  length-remove_absent k ((j, w) ∷ m) e = ground (arith, length-remove_absent k m)

  pub length-insert_absent :
      (k : String) (v : V) (m : List (String × V))
      → lookup k m ≡ none
      → length (insert k v m) ≡ suc (length m)
  unfolding insert
  length-insert_absent k v m e = ap suc (length-remove_absent k m e)
