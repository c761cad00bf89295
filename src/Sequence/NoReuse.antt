-- ===== src/Sequence/NoReuse.antt =====
-- No id is handed out twice.
use fareward.Common.{All}
use fareward.Sequence.Store.{SequenceStore, StoreLaws}
use fareward.Sequence.Critical.{SequenceLimits}
use fareward.Sequence.Allocator.{new}
use fareward.Sequence.Unique.{AreApart, IsCovered}
use fareward.Sequence.History.{
  System, IsGood, Step, reserves, raises, sets, restarts, Run, here, next, started,
}
use fareward.Sequence.Preserve.{reserved-Inv, raised-Inv, set_done-Inv}

module _ (store : SequenceStore) (laws : StoreLaws store) where
  open store use {Db, bump, read}
  open laws use {current}

  Step-Inv : {s t : System store} → Step store laws s t → IsGood store laws s → IsGood store laws t
  unfolding new
  Step-Inv (reserves s around name increment h small size room) v =
      reserved-Inv store laws s around name increment h small size room v
  Step-Inv (raises s around name value in_range up) v =
      raised-Inv store laws s around name value in_range up v
  Step-Inv (sets s around name value previous in_range above done) v =
      set_done-Inv store laws s around name value previous in_range above done v
  Step-Inv (restarts s limits) v = record { blocks = tt; covered = v.covered; apart = v.apart }

  Run-Inv : {s t : System store} → IsGood store laws s → Run store laws s t → IsGood store laws t
  Run-Inv v here = v
  Run-Inv v (next r st) = Step-Inv st (Run-Inv v r)

  -- Whatever the database held when the first process started, along every history of restarts, of
  -- `reserve` calls that succeed or fail while the counter has room for the block, of `set` calls that
  -- do not lower the counter and succeed or fail, and of `set` calls that succeed with a value that
  -- covers every id handed out: no two answers for one counter share an id, every id is positive, and
  -- the counter stands at or above every id that was handed out.
  pub Run-AreApart :
      (limits : SequenceLimits) (db : Db) {t : System store}
      → Run store laws (started store limits db) t
      → AreApart t.issued × All (IsCovered store laws t.db) t.issued
  unfolding new
  Run-AreApart limits db r =
      let v = Run-Inv (record { blocks = tt; covered = tt; apart = tt }) r in (v.apart, v.covered)
