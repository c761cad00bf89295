-- ===== src/Sequence/Lookup.antt =====
-- src/sequence/allocator.rs: what `entry_for` and its pruning keep of the entries.
use fareward.Common.{◌≡◌, subst, inl, inr, Option-cases, Bool-cases, leb}
use fareward.Common.Result.{ok, ok-injective}
use fareward.Common.StringMap.{
  lookup, AllEntries, AllEntries-lookup, AllEntries-retain, AllEntries-insert,
}
use fareward.Sequence.Block.{SequenceState, empty}
use fareward.Sequence.Allocator.{SequenceAllocator, Surroundings, entry_for, make_room, track}
use Prim.Native.String.{String}

-- The lookup keeps what holds of every entry, if it holds of an empty block, and finds such an
-- entry.
module _ (P : String → SequenceState → Type 0) (fresh : (k : String) → P k empty) where
  make_room-AllEntries :
      (around : Surroundings) (name : String) (a : SequenceAllocator)
      → AllEntries P a.entries
      → AllEntries P (make_room around name a).entries
  unfolding make_room
  make_room-AllEntries around name a h =
      elim (Bool-cases (leb a.limits.max_tracked_names a.tracked_names)) [
        | inl full ↦ rw full (AllEntries-retain P _ a.entries h)
        | inr free ↦ rw free h
      ]

  track-AllEntries :
      (name : String) (a : SequenceAllocator)
      → AllEntries P a.entries
      → AllEntries P (track name a).0.entries
        × ((b : SequenceState) → (track name a).1 ≡ ok b → P name b)
  unfolding track
  track-AllEntries name a h = elim (Bool-cases (leb a.limits.max_tracked_names a.tracked_names)) [
    | inl full ↦ rw full (h, λ b e. cc)
    | inr free ↦ rw free (
      AllEntries-insert {P = P} name empty a.entries (fresh name) (λ j w n p. p) h,
      λ b e. subst (P name) (ok-injective e) (fresh name),
    )
  ]

  pub entry_for-AllEntries :
      (around : Surroundings) (name : String) (a : SequenceAllocator)
      → AllEntries P a.entries
      → AllEntries P (entry_for around name a).0.entries
        × ((b : SequenceState) → (entry_for around name a).1 ≡ ok b → P name b)
  unfolding entry_for
  entry_for-AllEntries around name a h = elim (Option-cases (lookup name a.entries)) [
    | inl e ↦ rw (e, entry_for) (track-AllEntries name _ (make_room-AllEntries around name a h))
    | inr (b, e) ↦
        rw (e, entry_for)
          (h, λ b' q. subst (P name) (ok-injective q) (AllEntries-lookup P name a.entries h e))
  ]
