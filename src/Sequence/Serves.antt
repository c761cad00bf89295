-- ===== src/Sequence/Serves.antt =====
-- What one call of `reserve` and one of `set` guarantee about the ids of a counter.
use fareward.Common.{
  ℕ, ◌^◌, ◌<◌, ◌≤◌, ◌≡◌, refl, ap, sym, ◌∙◌, ◌≢◌, inl, inr, some, arith, Option-cases,
}
use fareward.Common.Int.{ℤ, pos, ◌+ℤ◌, ◌≤ℤ◌, ◌<ℤ◌, i64_max, +ℤ_parts, eq_parts}
use fareward.Common.Result.{Result, ok, err, ok-injective}
use fareward.Sequence.Store.{SequenceStore, StoreLaws, SequenceError}
use fareward.Sequence.Block.{SequenceState, take, IsOwned, IsPast, take-some, take_spent, take_none}
use fareward.Sequence.Critical.{
  SequenceLimits, take_fresh, refill, reserve_locked, Outcome, block_for,
}
use fareward.Sequence.Claims.{HasRoom, Claims, load_block-Claims}
use Prim.Native.String.{String}

module _ (store : SequenceStore) (laws : StoreLaws store) where
  open store use {Db, bump, read}
  open laws use {current, bump_ok, bump_err, bump_other, read_ok, read_keeps}

  -- The block stays under the counter, the counter does not fall and no other one moves. A range
  -- that was handed out before stays out of the block. The ids of an answer are positive, above
  -- every range handed out before, not above the counter, and no longer in the block.
  pub record Serves (name : String) (increment : ℤ) (b : SequenceState) (db : Db)
      (out : Outcome store) : Type 0 where
    pub owned : IsOwned out.0 (current out.1 name)
    pub grows : current db name ≤ℤ current out.1 name
    pub others : (other : String) → name ≢ other → current out.1 other ≡ current db other
    pub past :
        (first count : ℤ)
        → pos 1 ≤ℤ first
        → first +ℤ count ≤ℤ current db name +ℤ pos 1
        → IsPast b first count
        → IsPast out.0 first count
    pub fresh :
        (first count start : ℤ)
        → pos 1 ≤ℤ first
        → first +ℤ count ≤ℤ current db name +ℤ pos 1
        → IsPast b first count
        → out.2 ≡ ok start
        → first +ℤ count ≤ℤ start
    pub issued :
        (start : ℤ)
        → out.2 ≡ ok start
        → (pos 1 ≤ℤ start)
          × (start +ℤ increment ≤ℤ current out.1 name +ℤ pos 1)
          × IsPast out.0 start increment

  live_of_take :
      (b : SequenceState) (increment : ℤ) (cur : ℤ) (b' : SequenceState) (start : ℤ)
      → pos 1 ≤ℤ increment
      → IsOwned b cur
      → take b increment ≡ some (b', start)
      → (pos 1 ≤ℤ b.next) × (b.end ≤ℤ cur) × (b.end <ℤ i64_max) × (b.next ≤ℤ b.end)
  live_of_take b increment cur b' start h (inl s) e = cc (take_spent b increment h s)
  live_of_take b increment cur b' start h (inr l) e =
      let t = take-some b increment h l.2 l.0 e in
      omega (arith, l, t.3, +ℤ_parts b.next increment, +ℤ_parts b.end (pos 1), h)

  -- From the live block.
  take-Serves :
      (name : String) (increment : ℤ) (b : SequenceState) (db : Db) (b' : SequenceState) (start : ℤ)
      → pos 1 ≤ℤ increment
      → IsOwned b (current db name)
      → take b increment ≡ some (b', start)
      → Serves name increment b db (b', db, ok start)
  take-Serves name increment b db b' start h o e =
      let l = live_of_take b increment (current db name) b' start h o e in
      let t = take-some b increment h l.2 l.0 e in
      record {
        owned = omega (arith, l, t.3, eq_parts t.1, eq_parts t.2, +ℤ_parts b.next increment);
        grows = omega arith;
        others = λ o n. refl;
        past = λ f c p q r. omega (arith, h, l, r, eq_parts t.1, +ℤ_parts b.next increment);
        fresh = λ f c s p q r u.
            let same : b.next ≡ s = sym t.0 ∙ ok-injective u in omega (arith, l, r, eq_parts same);
        issued = λ s u.
            let same : b.next ≡ s = sym t.0 ∙ ok-injective u in
            rw (← same) (
              omega (
                arith,
                l,
                t.3,
                eq_parts t.1,
                +ℤ_parts b.next increment,
                +ℤ_parts b.end (pos 1),
                +ℤ_parts (current db name) (pos 1),
              ));
      }

  -- A failure on the way leaves the block as it was.
  lost-Serves :
      (name : String) (increment : ℤ) (b : SequenceState) (db db' : Db) (e : SequenceError)
      → IsOwned b (current db name)
      → current db name ≤ℤ current db' name
      → ((other : String) → name ≢ other → current db' other ≡ current db other)
      → Serves name increment b db (b, db', err e)
  lost-Serves name increment b db db' e o g k = record {
    owned = omega (arith, o, g);
    grows = g;
    others = k;
    past = λ f c p q r. r;
    fresh = λ f c s p q r u. cc;
    issued = λ s u. cc;
  }

  -- What a fresh block serves, seen from before it was claimed.
  Serves-claimed :
      (name : String) (increment block : ℤ) (b : SequenceState) (db db' : Db) (first last : ℤ)
      (out : Outcome store)
      → Claims store laws name block (current db name) db (db', ok (first, last))
      → Serves name increment (record { next = first; end = last }) db' out
      → Serves name increment b db out
  Serves-claimed name increment block b db db' first last out c t = record {
    owned = t.owned;
    grows = omega (arith, c.grows, t.grows);
    others = λ o n. t.others o n ∙ c.others o n;
    past = λ f n p q r. t.past f n p (raised f n q) (inr (under f n q));
    fresh = λ f n s p q r u. t.fresh f n s p (raised f n q) (inr (under f n q)) u;
    issued = t.issued;
  }
    where
      raised : (f n : ℤ) → f +ℤ n ≤ℤ current db name +ℤ pos 1 → f +ℤ n ≤ℤ current db' name +ℤ pos 1
      raised f n q = omega (
        arith,
        q,
        c.grows,
        +ℤ_parts (current db name) (pos 1),
        +ℤ_parts (current db' name) (pos 1),
      )

      under : (f n : ℤ) → f +ℤ n ≤ℤ current db name +ℤ pos 1 → f +ℤ n ≤ℤ first
      under f n q =
          omega (arith, q, (c.range first last refl).1, +ℤ_parts (current db name) (pos 1))

  -- A block that was just claimed covers the request that loaded it.
  take_fresh-Serves :
      (name : String) (increment block : ℤ) (b : SequenceState) (db db' : Db) (first last : ℤ)
      → pos 1 ≤ℤ increment
      → increment ≤ℤ block
      → Claims store laws name block (current db name) db (db', ok (first, last))
      → Serves name increment b db (take_fresh store increment db' (first, last))
        × ((take_fresh store increment db' (first, last)).2 ≡ ok first)
  unfolding take_fresh
  take_fresh-Serves name increment block b db db' first last h le c =
      elim (Option-cases (take claimed increment)) [
        | inl nothing ↦ absurd (
            omega (
              arith,
              take_none claimed increment h range.3 range.0 nothing,
              eq_parts range.4,
              +ℤ_parts first block,
              +ℤ_parts first increment,
              +ℤ_parts last (pos 1),
            ))
        | inr ((b', start), taken) ↦ (
          rw (taken, take_fresh)
              (Serves-claimed name increment block b db db' first last _ c
                (take-Serves name increment claimed db' b' start h live taken)),
          rw (taken, take_fresh) (ap ok (take-some claimed increment h range.3 range.0 taken).0),
        )
      ]
    where
      claimed : SequenceState
      claimed = record { next = first; end = last }

      range :
          (pos 1 ≤ℤ first)
          × (current db name <ℤ first)
          × (last ≡ current db' name)
          × (last <ℤ i64_max)
          × (first +ℤ block ≡ last +ℤ pos 1)
      range = c.range first last refl

      live : IsOwned claimed (current db' name)
      live = inr (range.0, omega (arith, eq_parts range.2), range.3)

  refill-Serves :
      (name : String) (increment block : ℤ) (b : SequenceState) (db : Db)
      (loaded : Db × Result SequenceError (ℤ × ℤ))
      → pos 1 ≤ℤ increment
      → increment ≤ℤ block
      → IsOwned b (current db name)
      → Claims store laws name block (current db name) db loaded
      → Serves name increment b db (refill store b increment loaded)
  unfolding refill
  refill-Serves name increment block b db (db', ok (first, last)) h le o c =
      (take_fresh-Serves name increment block b db db' first last h le c).0
  refill-Serves name increment block b db (db', err e) h le o c =
      lost-Serves name increment b db db' e o c.grows c.others

  -- For a block that is spent or lies under its counter, a positive increment, and a counter that is
  -- more than a block short of the last value of the type, the body of `reserve` keeps the block under
  -- the counter, never lowers the counter, moves no other counter, and answers only ids above all
  -- handed out before, whatever the database answers.
  pub reserve_locked-Serves :
      (limits : SequenceLimits) (name : String) (increment : ℕ) (b : SequenceState) (db : Db)
      → 1 ≤ increment
      → increment < 2 ^ 32
      → limits.block_size < 2 ^ 32
      → IsOwned b (current db name)
      → HasRoom (current db name +ℤ block_for limits increment)
      → Serves name (pos increment) b db (reserve_locked store limits name increment b db)
  unfolding reserve_locked
  reserve_locked-Serves limits name increment b db h small size o room =
      elim (Option-cases (take b (pos increment))) [
        | inl nothing ↦
            rw (nothing, reserve_locked)
              (refill-Serves name (pos increment) (block_for limits increment) b db _ (omega arith)
                (omega arith) o
                (load_block-Claims store laws name _ db (omega arith) (omega arith) room))
        | inr ((b', start), taken) ↦
            rw (taken, reserve_locked)
              (take-Serves name (pos increment) b db b' start (omega arith) o taken)
      ]
