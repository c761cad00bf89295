-- ===== src/Sequence/Claims.antt =====
-- What a call of `load_block` has done to the counter, whether it succeeds or fails on the way.
use fareward.Common.{
  sym, ◌∙◌, ◌≡◌, refl, ◌≢◌, ◌⊎◌, inl, inr, some, arith, if◌then◌else◌, Bool-cases,
}
use fareward.Common.Int.{
  checked_sub-cancel, i64_min, eq_parts, ℤ, pos, ◌+ℤ◌, ◌-ℤ◌, ltb_ℤ, checked_i64, ◌≤ℤ◌, ◌<ℤ◌, IsI64,
  i64_max, +ℤ_parts, -ℤ_parts, eq_of_parts, checked_i64-cases, int_laws,
}
use fareward.Common.Result.{Result, ok, err, ok_or-eq-ok}
use fareward.Sequence.Store.{SequenceStore, StoreLaws, SequenceError, overflowed, unrepairable}
use fareward.Sequence.Critical.{
  ◌>>=◌, done, >>=-rule, from_option, first_owned, repair, claim_block, load_block,
}
use Prim.Native.String.{String}

-- The sum of a counter's value and a block, and the range that `claim_block` finds under it.
pub first_owned-some :
    (reached block : ℤ) {first : ℤ}
    → first_owned reached block ≡ some first
    → first +ℤ block ≡ reached +ℤ pos 1
unfolding first_owned
first_owned-some reached block {first} e = ground (
  arith,
  -ℤ_parts reached block,
  +ℤ_parts first block,
  +ℤ_parts reached (pos 1),
  +ℤ_parts (reached -ℤ block) (pos 1),
  checked_i64-cases (reached -ℤ block),
  checked_i64-cases (reached -ℤ block +ℤ pos 1),
  eq_of_parts (first +ℤ block) (reached +ℤ pos 1),
)

-- What `omega` reads of a value that is one of two.
pub parts_of_either :
    {a b c : ℤ} → (a ≡ b) ⊎ (a ≡ c) → ((a ≤ℤ b) × (b ≤ℤ a)) ⊎ ((a ≤ℤ c) × (c ≤ℤ a))
parts_of_either (inl e) = inl (omega (arith, eq_parts e))
parts_of_either (inr e) = inr (omega (arith, eq_parts e))

-- A value of `i64` that is not its last one.
abbrev pub HasRoom : ℤ → Type 0
HasRoom a = (i64_min ≤ℤ a) × (a <ℤ i64_max)

module _ (store : SequenceStore) (laws : StoreLaws store) where
  open store use {Db, bump, read}
  open laws use {current, bump_ok, bump_err, bump_other, read_ok, read_keeps}

  -- The counter did not fall, no other changed, and a range that was won is the counter's last
  -- `block` values, all of them positive and above `floor`.
  pub record Claims (name : String) (block floor : ℤ) (db : Db)
      (out : Db × Result SequenceError (ℤ × ℤ)) : Type 0 where
    pub grows : current db name ≤ℤ current out.0 name
    pub others : (other : String) → name ≢ other → current out.0 other ≡ current db other
    pub range :
        (first last : ℤ)
        → out.1 ≡ ok (first, last)
        → (pos 1 ≤ℤ first)
          × (floor <ℤ first)
          × (last ≡ current out.0 name)
          × (last <ℤ i64_max)
          × (first +ℤ block ≡ last +ℤ pos 1)

  Claims-err :
      (name : String) (block floor : ℤ) (db db' : Db) (e : SequenceError)
      → current db name ≤ℤ current db' name
      → ((other : String) → name ≢ other → current db' other ≡ current db other)
      → Claims name block floor db (db', err e)
  Claims-err name block floor db db' e h k = record { grows = h; others = k; range = λ f l q. cc }

  -- What a later call has done, seen from before an earlier one.
  Claims-from :
      (name : String) (block : ℤ) (db db' : Db) (out : Db × Result SequenceError (ℤ × ℤ))
      → current db name ≤ℤ current db' name
      → ((other : String) → name ≢ other → current db' other ≡ current db other)
      → Claims name block (current db name) db' out
      → Claims name block (current db name) db out
  Claims-from name block db db' out h k c = record {
    grows = omega (arith, c.grows);
    others = λ o n. c.others o n ∙ k o n;
    range = c.range;
  }

  repair-Claims :
      (name : String) (block floor : ℤ) (db : Db)
      → current db name ≤ℤ block
      → floor ≤ℤ pos 0
      → HasRoom block
      → Claims name block floor db (repair store name (current db name) block db)
  unfolding repair
  repair-Claims name block floor db low h in_range =
      >>=-rule store (Claims name block floor db)
        (from_option store (checked_i64 (block -ℤ current db name)) unrepairable) _ db
        (λ delta fits. repaired delta (checked_sub-cancel _ _ (ok_or-eq-ok _ _ fits)))
        (λ e _. Claims-err name block floor db db e (omega arith) (λ o n. refl))
    where
      repaired :
          (delta : ℤ)
          → current db name +ℤ delta ≡ block
          → Claims name block floor db
              (◌>>=◌ store (bump name delta) (λ _. done store (pos 1, block)) db)
      repaired delta exact =
          let fits : IsI64 (current db name +ℤ delta) = rw exact (omega arith) in
          >>=-rule store (Claims name block floor db) (bump name delta) _ db
            (λ _ won.
              let lands = bump_ok db name delta fits won ∙ exact in
              record {
                grows = omega (int_laws, eq_parts lands);
                others = λ o n. bump_other db name o delta n;
                range = λ f l q.
                    let f1 : pos 1 ≡ f = cc q in
                    let l1 : block ≡ l = cc q in
                    omega (int_laws, eq_parts f1, eq_parts l1, eq_parts lands);
              })
            (λ e _.
              Claims-err name block floor db _ e
                (omega (int_laws, parts_of_either (bump_err db name delta fits), eq_parts exact))
                (λ o n. bump_other db name o delta n))

  claim_block-Claims :
      (name : String) (block floor : ℤ) (db : Db)
      → floor +ℤ block ≡ current db name
      → HasRoom block
      → HasRoom (current db name)
      → Claims name block floor db (claim_block store name (current db name) block db)
  unfolding claim_block
  claim_block-Claims name block floor db e in_range room =
      >>=-rule store (Claims name block floor db)
        (from_option store (first_owned (current db name) block) overflowed) _ db
        (λ first owned. claimed first (first_owned-some _ _ (ok_or-eq-ok _ _ owned)))
        (λ e _. Claims-err name block floor db db e (omega arith) (λ o n. refl))
    where
      claimed :
          (first : ℤ)
          → first +ℤ block ≡ current db name +ℤ pos 1
          → Claims name block floor db (
              (if ltb_ℤ (pos 0) first
                  then done store (first, current db name)
                  else repair store name (current db name) block)
                db)
      claimed first sum = elim (Bool-cases (ltb_ℤ (pos 0) first)) [
        | inl positive ↦ rw positive (record {
          grows = omega arith;
          others = λ o n. refl;
          range = λ f l q.
              let f1 : first ≡ f = cc q in
              let l1 : current db name ≡ l = cc q in
              rw (← f1, ← l1)
                (ground (
                  arith,
                  sum,
                  eq_parts sum,
                  eq_parts e,
                  +ℤ_parts first block,
                  +ℤ_parts floor block,
                  +ℤ_parts (current db name) (pos 1),
                ));
        })
        | inr not_positive ↦ rw not_positive (
            repair-Claims name block floor db
              (ground
                (arith, eq_parts sum, +ℤ_parts first block, +ℤ_parts (current db name) (pos 1)))
              (ground (
                arith,
                eq_parts sum,
                eq_parts e,
                +ℤ_parts first block,
                +ℤ_parts floor block,
                +ℤ_parts (current db name) (pos 1),
              ))
              in_range)
      ]

  -- A block is loaded with room above the counter: the counter moves by the block or stays, and a
  -- range that is won lies above its old value.
  pub load_block-Claims :
      (name : String) (block : ℤ) (db : Db)
      → pos 0 ≤ℤ block
      → HasRoom block
      → HasRoom (current db name +ℤ block)
      → Claims name block (current db name) db (load_block store name block db)
  unfolding load_block
  load_block-Claims name block db low in_range fits =
      >>=-rule store (Claims name block (current db name) db) (bump name block) _ db
        (λ _ won.
          let db1 = (bump name block db).0 in
          let db2 = (read name db1).0 in
          let kept : current db2 name ≡ current db name +ℤ block =
            read_keeps db1 name name ∙ bump_ok db name block (omega arith) won in
          let same : (o : String) → name ≢ o → current db2 o ≡ current db o =
            λ o n. read_keeps db1 name o ∙ bump_other db name o block n in
          >>=-rule store (Claims name block (current db name) db) (read name) _ db1
            (λ reached seen. rw (read_ok db1 name reached seen ∙ sym (read_keeps db1 name name)) (
              Claims-from name block db db2 _ (omega (int_laws, eq_parts kept)) same (
                claim_block-Claims name block (current db name) db2 (sym kept) in_range
                  (rw kept fits))))
            (λ e _. Claims-err name block _ db db2 e (omega (int_laws, eq_parts kept)) same))
        (λ e _.
          Claims-err name block (current db name) db _ e
            (omega (int_laws, parts_of_either (bump_err db name block (omega arith))))
            (λ o n. bump_other db name o block n))
