-- ===== src/Sequence/Preserve.antt =====
-- Each call of the allocator keeps its blocks under the counters and the answered ranges apart.
use fareward.Common.{
  ℕ, ◌^◌, ◌<◌, ◌≤◌, ◌≡◌, refl, sym, subst, ◌≢◌, ◌⊎◌, inl, inr, List, arith, All, All-map₂,
}
use fareward.Common.Int.{ℤ, pos, ◌+ℤ◌, ◌≤ℤ◌, IsI64}
use fareward.Common.Result.{Result, ok, err}
use fareward.Common.StringMap.{String-cases, insert, AllEntries, AllEntries-insert}
use fareward.Sequence.Store.{SequenceStore, StoreLaws, SequenceError}
use fareward.Sequence.Block.{SequenceState, empty, IsOwned}
use fareward.Sequence.Critical.{reserve_locked, set_locked, Outcome, block_for}
use fareward.Sequence.Claims.{HasRoom, parts_of_either}
use fareward.Sequence.Serves.{reserve_locked-Serves}
use fareward.Sequence.Sets.{set_locked-Moves}
use fareward.Sequence.Allocator.{
  SequenceAllocator, Entries, Surroundings, entry_for, reserve, set, with_entry,
}
use fareward.Sequence.Unique.{
  Range, note, Entry, IsCovered, Inv, Entry-empty, IsCovered-grows, Serves-Inv,
}
use Prim.Native.String.{String}
use fareward.Sequence.Lookup.{entry_for-AllEntries}
use fareward.Sequence.History.{System, reserved, moved, IsAbove, IsGood}

module _ (store : SequenceStore) (laws : StoreLaws store) where
  open store use {Db, bump, read}
  open laws use {current}

  pub reserved-Inv :
      (s : System store) (around : Surroundings) (name : String) (increment : ℕ)
      → 1 ≤ increment
      → increment < 2 ^ 32
      → s.allocator.limits.block_size < 2 ^ 32
      → HasRoom (current s.db name +ℤ block_for s.allocator.limits increment)
      → IsGood store laws s
      → IsGood store laws (reserved store around name increment s)
  unfolding reserve note
  reserved-Inv s around name increment h small size room v =
      go (entry_for around name s.allocator) found
    where
      P : String → SequenceState → Type 0
      P = Entry store laws s.db s.issued

      found :
          AllEntries P (entry_for around name s.allocator).0.entries
          × ((b : SequenceState) → (entry_for around name s.allocator).1 ≡ ok b → P name b)
      found =
          entry_for-AllEntries P (Entry-empty store laws s.db s.issued) around name s.allocator
            v.blocks

      go :
          (e : SequenceAllocator × Result SequenceError SequenceState)
          → AllEntries P e.0.entries × ((b : SequenceState) → e.1 ≡ ok b → P name b)
          → let out =
              with_entry store name s.db
                (λ b. reserve_locked store s.allocator.limits name increment b s.db)
                e in
            Inv store laws out.0.entries out.1 (note name increment out.2 s.issued)
      go (a, ok b) f =
          Serves-Inv store laws name increment b s.db s.issued a.entries _
            (reserve_locked-Serves store laws s.allocator.limits name increment b s.db h small size
              (f.1 b refl).0 room)
            (f.1 b refl) (record { blocks = f.0; covered = v.covered; apart = v.apart })
      go (a, err e) f = record { blocks = f.0; covered = v.covered; apart = v.apart }

  -- The block after a `set`: the one before, under a counter that did not fall, or an empty one.
  set_block :
      (name : String) (b : SequenceState) (db : Db) (issued : List Range) (out : Outcome store)
      → current db name ≤ℤ current out.1 name
      → Entry store laws db issued name b
      → (out.0 ≡ empty) ⊎ (out.0 ≡ b)
      → Entry store laws out.1 issued name out.0
  set_block name b db issued out g e (inl fresh) =
      subst (Entry store laws out.1 issued name) (sym fresh)
        (Entry-empty store laws out.1 issued name)
  set_block name b db issued out g e (inr kept) =
      subst (Entry store laws out.1 issued name) (sym kept) (omega (arith, e.0, g), e.1)

  -- A `set` that leaves the counter above all that was handed out keeps the invariant.
  set-Inv :
      (name : String) (b : SequenceState) (db : Db) (issued : List Range) (entries : Entries)
      (out : Outcome store)
      → ((other : String) → name ≢ other → current out.1 other ≡ current db other)
      → Entry store laws out.1 issued name out.0
      → All (IsCovered store laws out.1) issued
      → Inv store laws entries db issued
      → Inv store laws (insert name out.0 entries) out.1 issued
  set-Inv name b db issued entries out k e c v = record {
    blocks =
        AllEntries-insert {P = Entry store laws db issued} name out.0 entries e
          (λ j w n q. (subst (IsOwned w) (sym (k j n)) q.0, q.1)) v.blocks;
    covered = c;
    apart = v.apart;
  }

  -- What the lookup of a call finds in a good system.
  found :
      (s : System store) (around : Surroundings) (name : String)
      → IsGood store laws s
      → AllEntries (Entry store laws s.db s.issued) (entry_for around name s.allocator).0.entries
        × ((b : SequenceState)
            → (entry_for around name s.allocator).1 ≡ ok b
            → Entry store laws s.db s.issued name b)
  found s around name v =
      entry_for-AllEntries (Entry store laws s.db s.issued) (Entry-empty store laws s.db s.issued)
        around name s.allocator v.blocks

  pub raised-Inv :
      (s : System store) (around : Surroundings) (name : String) (value : ℤ)
      → IsI64 value
      → current s.db name ≤ℤ value
      → IsGood store laws s
      → IsGood store laws (moved store around name value s)
  unfolding set
  raised-Inv s around name value in_range up v =
      go (entry_for around name s.allocator) (found s around name v)
    where
      either : {A B C D : Type 0} → A × C ⊎ B × D → A ⊎ B
      either (inl h) = inl h.0
      either (inr h) = inr h.0

      go :
          (e : SequenceAllocator × Result SequenceError SequenceState)
          → AllEntries (Entry store laws s.db s.issued) e.0.entries
            × ((b : SequenceState) → e.1 ≡ ok b → Entry store laws s.db s.issued name b)
          → let out = with_entry store name s.db (λ b. set_locked store name value b s.db) e in
            Inv store laws out.0.entries out.1 s.issued
      go (a, ok b) f =
          let out = set_locked store name value b s.db in
          let m = set_locked-Moves store laws name value b s.db in_range in
          let g : current s.db name ≤ℤ current out.1 name =
            omega (arith, up, parts_of_either m.0.either) in
          set-Inv name b s.db s.issued a.entries out m.0.others
            (set_block name b s.db s.issued out g (f.1 b refl) (either m.1))
            (IsCovered-grows store laws name s.db out.1 s.issued g m.0.others v.covered)
            (record { blocks = f.0; covered = v.covered; apart = v.apart })
      go (a, err e) f = record { blocks = f.0; covered = v.covered; apart = v.apart }

  -- The ranges of a counter that was set lie under the value, and the others where they were.
  IsCovered-above :
      (name : String) (value : ℤ) (db db' : Db) (issued : List Range)
      → current db' name ≡ value
      → ((other : String) → name ≢ other → current db' other ≡ current db other)
      → IsAbove name value issued
      → All (IsCovered store laws db) issued
      → All (IsCovered store laws db') issued
  IsCovered-above name value db db' issued at k above covered =
      All-map₂ (λ r. r.name ≡ name → r.first +ℤ r.count ≤ℤ value +ℤ pos 1) (IsCovered store laws db)
        _ issued (λ r h c. one r h c (String-cases name r.name)) above covered
    where
      one :
          (r : Range)
          → (r.name ≡ name → r.first +ℤ r.count ≤ℤ value +ℤ pos 1)
          → IsCovered store laws db r
          → (name ≡ r.name) ⊎ (name ≢ r.name)
          → IsCovered store laws db' r
      one r h c (inl e) = (
        c.0,
        subst (λ n. r.first +ℤ r.count ≤ℤ current db' n +ℤ pos 1) e
            (subst (λ x. r.first +ℤ r.count ≤ℤ x +ℤ pos 1) (sym at) (h (sym e))),
      )
      one r h c (inr n) =
          subst (λ x. (pos 1 ≤ℤ r.first) × (r.first +ℤ r.count ≤ℤ x +ℤ pos 1)) (sym (k r.name n)) c

  pub set_done-Inv :
      (s : System store) (around : Surroundings) (name : String) (value previous : ℤ)
      → IsI64 value
      → IsAbove name value s.issued
      → (set store around name value s.allocator s.db).2 ≡ ok previous
      → IsGood store laws s
      → IsGood store laws (moved store around name value s)
  unfolding set
  set_done-Inv s around name value previous in_range above done v =
      go (entry_for around name s.allocator) (found s around name v) done
    where
      go :
          (e : SequenceAllocator × Result SequenceError SequenceState)
          → AllEntries (Entry store laws s.db s.issued) e.0.entries
            × ((b : SequenceState) → e.1 ≡ ok b → Entry store laws s.db s.issued name b)
          → (with_entry store name s.db (λ b. set_locked store name value b s.db) e).2 ≡ ok previous
          → let out = with_entry store name s.db (λ b. set_locked store name value b s.db) e in
            Inv store laws out.0.entries out.1 s.issued
      go (a, ok b) f won =
          let out = set_locked store name value b s.db in
          let m = set_locked-Moves store laws name value b s.db in_range in
          let fresh : out.0 ≡ empty = elim m.1 [
            | inl h ↦ h.0
            | inr (h, (e, lost)) ↦ cc (won, lost)
          ] in
          set-Inv name b s.db s.issued a.entries out m.0.others
            (subst (Entry store laws out.1 s.issued name) (sym fresh)
              (Entry-empty store laws out.1 s.issued name))
            (IsCovered-above name value s.db out.1 s.issued (m.0.answers previous won).1 m.0.others
              above v.covered)
            (record { blocks = f.0; covered = v.covered; apart = v.apart })
      go (a, err e) f won = cc
