-- ===== src/Tests/Gated.antt =====
-- src/reqlog/errors.rs: a gate of two entries that is full, and one with room.
use fareward.Common.{◌↔◌, ℕ, ◌+◌, ◌<◌, List, false, ◌≡◌, refl, [], ◌∷◌, arith}
use fareward.Common.Int.{pos}
use fareward.Reqlog.Errors.{ErrorWriteGate, should_write, new}
use fareward.Reqlog.Errors.History.{Report, after, written}
use fareward.Reqlog.Errors.Repeats.{should_write_iff}
use mathlib.Core.List.{Memᴰ}
use mathlib.Core.List.Memᴰ.{head, tail}

abbrev full : ErrorWriteGate
full = record {
  last_written = ((pos 1, "responses.go:539"), 100) ∷ ((pos 2, "query.go:12"), 40) ∷ [];
  freshness = 600;
  capacity = 2;
}

-- The entry of the time 40 makes room.
evicted :
    (should_write (pos 3) "main.go:7" 200 full).0.last_written
    ≡ ((pos 1, "responses.go:539"), 100) ∷ ((pos 3, "main.go:7"), 200) ∷ []
unfolding should_write
evicted = refl

-- The error 3 came at 100 and at 500, when it was kept back.
abbrev reports : List Report
reports =
    ((pos 3, "main.go:7"), 500) ∷ ((pos 2, "query.go:12"), 140) ∷ ((pos 3, "main.go:7"), 100) ∷ []

first_written : Memᴰ ((pos 3, "main.go:7"), 100) (written reports (new 600 4))
unfolding written should_write
first_written = tail (head refl)

should_write_iff_example :
    ((should_write (pos 3) "main.go:7" 699 (after reports (new 600 4))).1 ≡ false)
    ↔ ((t : ℕ) × Memᴰ ((pos 3, "main.go:7"), t) (written reports (new 600 4)) × (699 < t + 600))
should_write_iff_example =
    should_write_iff reports 600 4 (pos 3) "main.go:7" 699
      (
        (omega arith, (omega arith, (omega arith, tt))),
        ((omega arith, (omega arith, tt)), ((omega arith, tt), (tt, tt))),
      )
      (omega arith)

kept_back : (should_write (pos 3) "main.go:7" 699 (after reports (new 600 4))).1 ≡ false
unfolding after should_write
kept_back = refl
