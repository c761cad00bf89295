-- ===== src/Sequence/Unique.antt =====
-- No id is handed out twice: the allocator over any history of calls, lost writes and restarts.
use fareward.Common.{
  ℕ, ◌≡◌, refl, sym, subst, ◌≢◌, ◌⊎◌, inl, inr, List, [], ◌∷◌, arith, All, All-map₂,
}
use fareward.Common.Int.{ℤ, pos, ◌+ℤ◌, ◌≤ℤ◌, +ℤ_parts}
use fareward.Common.Result.{Result, ok, err}
use fareward.Common.StringMap.{String-cases, insert, AllEntries, AllEntries-insert}
use fareward.Sequence.Store.{SequenceStore, StoreLaws, SequenceError}
use fareward.Sequence.Block.{SequenceState, empty, IsOwned, IsPast}
use fareward.Sequence.Critical.{Outcome}
use fareward.Sequence.Serves.{Serves}
use fareward.Sequence.Allocator.{Entries}
use Prim.Native.String.{String}

-- One successful answer: `count` ids of a counter from `first` on.
pub record Range : Type 0 where
  pub name : String
  pub first : ℤ
  pub count : ℤ

-- Two ranges of one counter have no id in common.
abbrev pub IsApart : Range → Range → Type 0
IsApart r q = r.name ≡ q.name → (q.first +ℤ q.count ≤ℤ r.first) ⊎ (r.first +ℤ r.count ≤ℤ q.first)

abbrev pub AreApart : List Range → Type 0
AreApart [] = Unit {0}
AreApart (r ∷ rs) = All (IsApart r) rs × AreApart rs

unfoldable pub note : String → ℕ → Result SequenceError ℤ → List Range → List Range
note name increment (ok start) rs =
    record { name = name; first = start; count = pos increment } ∷ rs
note name increment (err e) rs = rs

module _ (store : SequenceStore) (laws : StoreLaws store) where
  open store use {Db, bump, read}
  open laws use {current, bump_ok, bump_err, bump_other, read_ok, read_keeps}

  -- The block of a name lies under the counter and holds nothing of what was handed out.
  abbrev pub Entry : Db → List Range → String → SequenceState → Type 0
  Entry db issued k b =
      IsOwned b (current db k) × All (λ r. r.name ≡ k → IsPast b r.first r.count) issued

  abbrev pub IsCovered : Db → Range → Type 0
  IsCovered db r = (pos 1 ≤ℤ r.first) × (r.first +ℤ r.count ≤ℤ current db r.name +ℤ pos 1)

  pub record Inv (entries : Entries) (db : Db) (issued : List Range) : Type 0 where
    pub blocks : AllEntries (Entry db issued) entries
    pub covered : All (IsCovered db) issued
    pub apart : AreApart issued

  pub Entry-empty : (db : Db) (issued : List Range) (k : String) → Entry db issued k empty
  unfolding empty
  Entry-empty db issued k = (inl (omega arith), all issued)
    where
      all : (rs : List Range) → All (λ r. r.name ≡ k → IsPast empty r.first r.count) rs
      all [] = tt
      all (r ∷ rs) = (λ e. inl (omega arith), all rs)

  -- The ranges stay covered when their counter does not fall and no other one moves.
  pub IsCovered-grows :
      (name : String) (db db' : Db) (issued : List Range)
      → current db name ≤ℤ current db' name
      → ((other : String) → name ≢ other → current db' other ≡ current db other)
      → All (IsCovered db) issued
      → All (IsCovered db') issued
  IsCovered-grows name db db' [] g k c = tt
  IsCovered-grows name db db' (r ∷ rs) g k c =
      (one (String-cases name r.name), IsCovered-grows name db db' rs g k c.1)
    where
      one : (name ≡ r.name) ⊎ (name ≢ r.name) → IsCovered db' r
      one (inl e) =
          let g' : current db r.name ≤ℤ current db' r.name =
            subst (λ n. current db n ≤ℤ current db' n) e g in
          omega (
            arith,
            c.0,
            g',
            +ℤ_parts (current db r.name) (pos 1),
            +ℤ_parts (current db' r.name) (pos 1),
          )
      one (inr n) =
          subst (λ v. (pos 1 ≤ℤ r.first) × (r.first +ℤ r.count ≤ℤ v +ℤ pos 1)) (sym (k r.name n))
            c.0

  -- The upper bound of a covered range, read at the name that is being served.
  bound_at :
      (db : Db) (r : Range) (name : String)
      → r.name ≡ name
      → IsCovered db r
      → r.first +ℤ r.count ≤ℤ current db name +ℤ pos 1
  bound_at db r name e c = subst (λ n. r.first +ℤ r.count ≤ℤ current db n +ℤ pos 1) e c.1

  module _ (name : String) (increment : ℕ) (b : SequenceState) (db : Db) (issued : List Range) where
    IsPast-All :
        (out : Outcome store)
        → Serves store laws name (pos increment) b db out
        → All (IsCovered db) issued
        → Entry db issued name b
        → All (λ r. r.name ≡ name → IsPast out.0 r.first r.count) issued
    IsPast-All out s c e =
        All-map₂ (IsCovered db) (λ r. r.name ≡ name → IsPast b r.first r.count) _ issued
          (λ r p q n. s.past r.first r.count p.0 (bound_at db r name n p) (q n)) c e.1

    IsApart-All :
        (b' : SequenceState) (db' : Db) (start : ℤ)
        → Serves store laws name (pos increment) b db (b', db', ok start)
        → All (IsCovered db) issued
        → Entry db issued name b
        → All (IsApart (record { name = name; first = start; count = pos increment })) issued
    IsApart-All b' db' start s c e =
        All-map₂ (IsCovered db) (λ r. r.name ≡ name → IsPast b r.first r.count) _ issued
          (λ r p q n.
            inl (s.fresh r.first r.count start p.0 (bound_at db r name (sym n) p) (q (sym n)) refl))
          c e.1

    -- An answered call keeps the invariant with its range noted.
    pub Serves-Inv :
        (entries : Entries) (out : Outcome store)
        → Serves store laws name (pos increment) b db out
        → Entry db issued name b
        → Inv entries db issued
        → Inv (insert name out.0 entries) out.1 (note name increment out.2 issued)
    unfolding note
    Serves-Inv entries (b', db', ok start) s e v =
        let i = s.issued start refl in
        record {
          blocks =
              AllEntries-insert {P = Entry db issued} name b' entries
                (s.owned, ((λ _. i.2), IsPast-All (b', db', ok start) s v.covered e))
                (λ j w n q.
                  (subst (IsOwned w) (sym (s.others j n)) q.0, ((λ m. absurd (n m)), q.1)))
                v.blocks;
          covered = ((i.0, i.1), IsCovered-grows name db db' issued s.grows s.others v.covered);
          apart = (IsApart-All b' db' start s v.covered e, v.apart);
        }
    Serves-Inv entries (b', db', err f) s e v = record {
      blocks =
          AllEntries-insert {P = Entry db issued} name b' entries
            (s.owned, IsPast-All (b', db', err f) s v.covered e)
            (λ j w n q. (subst (IsOwned w) (sym (s.others j n)) q.0, q.1)) v.blocks;
      covered = IsCovered-grows name db db' issued s.grows s.others v.covered;
      apart = v.apart;
    }
