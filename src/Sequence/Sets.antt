-- ===== src/Sequence/Sets.antt =====
-- What one call of `set` does to a counter and its block.
use fareward.Common.{
  ◌≡◌, refl, ap, sym, ◌∙◌, ◌≢◌, ◌⊎◌, inl, inr, arith, true, if◌then◌else◌, Bool-cases,
}
use fareward.Common.Int.{
  checked_sub-cancel, ℤ, pos, ◌+ℤ◌, ◌-ℤ◌, IsI64, +ℤ_parts, eq_parts, eqb_ℤ, checked_i64,
  eq_of_parts,
}
use fareward.Common.Result.{Result, ok, err, ok_or-eq-ok, ok-injective, Result-cases}
use fareward.Sequence.Store.{SequenceStore, StoreLaws, SequenceError, cannot_move}
use fareward.Sequence.Block.{SequenceState, empty}
use fareward.Sequence.Critical.{move_counter, set_locked, >>=-rule, from_option, done, ◌>>=◌}
use Prim.Native.String.{String}

module _ (store : SequenceStore) (laws : StoreLaws store) where
  open store use {Db, bump, read}
  open laws use {current, bump_ok, bump_err, bump_other, read_ok, read_keeps}

  -- A successful `set` answers the old value and leaves the counter at the new one; a failed one
  -- leaves the counter at either.
  pub record Moves (name : String) (value : ℤ) (db : Db) (out : Db × Result SequenceError ℤ)
      : Type 0 where
    pub either : (current out.0 name ≡ current db name) ⊎ (current out.0 name ≡ value)
    pub others : (other : String) → name ≢ other → current out.0 other ≡ current db other
    pub answers :
        (previous : ℤ)
        → out.1 ≡ ok previous
        → (previous ≡ current db name) × (current out.0 name ≡ value)

  Moves-err :
      (name : String) (value : ℤ) (db db' : Db) (e : SequenceError)
      → (current db' name ≡ current db name) ⊎ (current db' name ≡ value)
      → ((other : String) → name ≢ other → current db' other ≡ current db other)
      → Moves name value db (db', err e)
  Moves-err name value db db' e h k = record { either = h; others = k; answers = λ p q. cc }

  Moves-ok :
      (name : String) (value : ℤ) (db db' : Db) (previous : ℤ)
      → previous ≡ current db name
      → current db' name ≡ value
      → ((other : String) → name ≢ other → current db' other ≡ current db other)
      → Moves name value db (db', ok previous)
  Moves-ok name value db db' previous at h k = record {
    either = inr h;
    others = k;
    answers = λ p q. (sym (ok-injective q) ∙ at, h);
  }

  pub move_counter-Moves :
      (name : String) (value : ℤ) (db : Db)
      → IsI64 value
      → Moves name value db (move_counter store name value db)
  unfolding move_counter
  move_counter-Moves name value db in_range =
      >>=-rule store (Moves name value db) (read name) _ db
        (λ previous seen.
          let at : previous ≡ current db name = read_ok db name previous seen in
          >>=-rule store (Moves name value db)
            (from_option store (checked_i64 (value -ℤ previous)) cannot_move) _ db1
            (λ delta fits.
              moved previous delta at
                (rw kept (rw (← at) (checked_sub-cancel _ _ (ok_or-eq-ok _ _ fits)))))
            (λ e _. Moves-err name value db db1 e (inl kept) same))
        (λ e _. Moves-err name value db db1 e (inl kept) same)
    where
      db1 : Db
      db1 = (read name db).0

      kept : current db1 name ≡ current db name
      kept = read_keeps db name name

      same : (o : String) → name ≢ o → current db1 o ≡ current db o
      same o n = read_keeps db name o

      either :
          (a delta : ℤ)
          → (a ≡ current db1 name) ⊎ (a ≡ current db1 name +ℤ delta)
          → current db1 name +ℤ delta ≡ value
          → (a ≡ current db name) ⊎ (a ≡ value)
      either a delta (inl h) sum = inl (h ∙ kept)
      either a delta (inr h) sum = inr (h ∙ sum)

      unmoved :
          (delta : ℤ)
          → current db1 name +ℤ delta ≡ value
          → eqb_ℤ delta (pos 0) ≡ true
          → current db1 name ≡ value
      unmoved delta sum still = ground (
        arith,
        sum,
        +ℤ_parts (current db1 name) delta,
        eq_parts sum,
        eq_of_parts (current db1 name) value,
      )

      moved :
          (previous delta : ℤ)
          → previous ≡ current db name
          → current db1 name +ℤ delta ≡ value
          → Moves name value db (
              ◌>>=◌ store
                (if eqb_ℤ delta (pos 0) then done store tt else bump name delta)
                (λ _. done store previous)
                db1)
      moved previous delta at sum = elim (Bool-cases (eqb_ℤ delta (pos 0))) [
        | inl still ↦ rw still (
            >>=-rule store (Moves name value db) (done store tt) _ db1
              (λ _ _. Moves-ok name value db db1 previous at (unmoved delta sum still) same)
              (λ e _. Moves-err name value db db1 e (inl kept) same))
        | inr moves ↦ rw moves (
            >>=-rule store (Moves name value db) (bump name delta) _ db1
              (λ _ won.
                Moves-ok name value db _ previous at
                  (bump_ok db1 name delta (rw sum in_range) won ∙ sum)
                  (λ o n. bump_other db1 name o delta n ∙ same o n))
              (λ e _.
                Moves-err name value db _ e
                  (either _ delta (bump_err db1 name delta (rw sum in_range)) sum)
                  (λ o n. bump_other db1 name o delta n ∙ same o n)))
      ]

  -- `set` answers the old value and leaves the counter at the new one with the block spent, or
  -- fails, keeps the block, and leaves the counter at the old or the new value. No other counter
  -- moves.
  pub set_locked-Moves :
      (name : String) (value : ℤ) (b : SequenceState) (db : Db)
      → IsI64 value
      → Moves name value db
          ((set_locked store name value b db).1, (set_locked store name value b db).2)
        × (((set_locked store name value b db).0 ≡ empty)
              × ((set_locked store name value b db).2 ≡ ok (current db name))
            ⊎ ((set_locked store name value b db).0 ≡ b)
              × ((e : SequenceError) × ((set_locked store name value b db).2 ≡ err e)))
  unfolding set_locked
  set_locked-Moves name value b db in_range =
      let m = move_counter-Moves name value db in_range in
      elim (Result-cases (move_counter store name value db).1) [
        | inl (p, won) ↦ (m, inl (rw (won, set_locked) refl, won ∙ ap ok (m.answers p won).0))
        | inr (e, lost) ↦ (m, inr (rw (lost, set_locked) refl, (e, lost)))
      ]
