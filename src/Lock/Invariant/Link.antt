-- ===== src/Lock/Invariant/Link.antt =====
-- src/lock/registry.rs, `entry_for` and the steps that leave the map as it is: the invariant after a
-- move of one task.
use fareward.Common.{
  ℕ, suc, ◌+◌, ◌≤◌, ◌<◌, ◌≡◌, ◌≢◌, refl, sym, subst, Bool, true, false, Option, none, some,
  if◌then◌else◌, ◌==◌, leb, arith,
}
use fareward.Lock.Semaphore.{Semaphore, Conserves}
use fareward.Lock.Tasks.{total, put, put-cases, total-put, total-eq-zero}
use fareward.Lock.Registry.{
  LockKey, LockLimits, Phase, LockRegistry, Moved, inside, idle, answered, entered, enter,
  entry_for, key_eq, key_eq_same, key_eq_sound, capacity,
}
use fareward.Lock.System.{System}
use fareward.Lock.Invariant.{Placed, permits, has_permit, wants, Sound}

module _ (S : Semaphore) where
  abbrev pub after : System S → ℕ → Moved S → System S
  after y i out = record { registry = out.0; tasks = put i out.1 y.tasks }

  abbrev pub free_in : LockRegistry S → ℕ → ℕ
  free_in r e = S.free (r.entries e).semaphore

  pub moved-Sound :
      (n i : ℕ) (y : System S) (r : LockRegistry S) (p : Phase)
      → i < n
      → ((k : LockKey) (e : ℕ) → r.map k ≡ some e → e < r.next_entry)
      → Placed S r p
      → ((j : ℕ) → j < n → j ≢ i → Placed S r (y.tasks j))
      → ((e : ℕ)
          → e < r.next_entry
          → free_in r e + total (permits e) n y.tasks + permits e p ≡ 1 + permits e (y.tasks i))
      → Sound S n (after y i (r, p))
  moved-Sound n i y r p l mapped here others balance = record {
    mapped = mapped;
    placed = λ j b. put-cases (Placed S r) i j p y.tasks here (others j b);
    one_permit = λ e b. omega (arith, total-put (permits e) n i p y.tasks l, balance e b);
  }

  -- A task has no permit of an entry that was never made.
  permits-fresh :
      (r : LockRegistry S) (p : Phase) (e : ℕ) → r.next_entry ≤ e → Placed S r p → permits e p ≡ 0
  unfolding Placed permits
  permits-fresh r p e b h = ground arith

  pub Placed-linked :
      (limits : LockLimits) (key : LockKey) (r : LockRegistry S) (p : Phase)
      → r.map key ≡ none
      → Placed S r p
      → Placed S (entry_for S limits key r).0 p
  unfolding Placed entry_for key_eq
  Placed-linked limits key r idle h q = q
  Placed-linked limits key r (answered o) h q = q
  Placed-linked limits key r (inside k e s) h q =
      (ground (arith, q.0), λ w. ground (arith, q.1 w, key_eq_sound k key))

  Placed-same :
      (r r' : LockRegistry S) (p : Phase)
      → r'.map ≡ r.map
      → r'.next_entry ≡ r.next_entry
      → Placed S r p
      → Placed S r' p
  unfolding Placed
  Placed-same r r' idle m x h = h
  Placed-same r r' (answered o) m x h = h
  Placed-same r r' (inside k e s) m x h =
      (omega (arith, x, h.0), λ w. subst (λ g. g k ≡ some e) (sym m) (h.1 w))

  pub kept-Sound :
      (n i : ℕ) (y : System S) (out : Moved S)
      → i < n
      → Sound S n y
      → out.0.map ≡ y.registry.map
      → out.0.next_entry ≡ y.registry.next_entry
      → Placed S y.registry out.1
      → ((e : ℕ) → free_in out.0 e + permits e out.1 ≡ free_in y.registry e + permits e (y.tasks i))
      → Sound S n (after y i out)
  kept-Sound n i y (r, p) l sound m x here balance =
      moved-Sound n i y r p l
        (λ k e h. omega (arith, x, sound.mapped k e (subst (λ g. g k ≡ some e) m h)))
        (Placed-same y.registry r p m x here)
        (λ j b other. Placed-same y.registry r (y.tasks j) m x (sound.placed j b))
        (λ e b. omega (arith, balance e, x, b, sound.one_permit e))

module _ (S : Semaphore) (laws : Conserves S) (limits : LockLimits) where
  module _ (key : LockKey) (r : LockRegistry S) (h : r.map key ≡ none)
      (room : leb limits.max_keys r.key_count ≡ false) where
    next_linked : (entry_for S limits key r).0.next_entry ≡ suc r.next_entry
    unfolding entry_for
    next_linked = ground (arith, h, room)

    found_linked :
        (max : ℕ)
        → enter S limits key max r
          ≡ ((entry_for S limits key r).0, inside key r.next_entry (entered max))
    unfolding entry_for enter
    found_linked max = ground (arith, h, room)

    map_linked :
        (k : LockKey)
        → (entry_for S limits key r).0.map k ≡ (if key_eq k key then some r.next_entry else r.map k)
    unfolding entry_for
    map_linked k = ground (arith, h, room)

    free_linked :
        (e : ℕ)
        → free_in S (entry_for S limits key r).0 e
          ≡ (if e == r.next_entry then 1 else free_in S r e)
    unfolding entry_for
    free_linked e = grind (arith, laws.free-new, h, room)

  module _ (n i : ℕ) (y : System S) (key : LockKey) (max : ℕ) (l : i < n) (sound : Sound S n y)
      (none_held : (e : ℕ) → permits e (y.tasks i) ≡ 0) where
    total_linked : (e : ℕ) → y.registry.next_entry ≤ e → total (permits e) n y.tasks ≡ 0
    total_linked e b =
        total-eq-zero (permits e) n y.tasks
          (λ j u. permits-fresh S y.registry (y.tasks j) e b (sound.placed j u))

    linked-Sound :
        y.registry.map key ≡ none
        → leb limits.max_keys y.registry.key_count ≡ false
        → Sound S n (after S y i (enter S limits key max y.registry))
    unfolding Placed permits wants has_permit
    linked-Sound h room =
        subst (λ out. Sound S n (after S y i out)) (sym (found_linked key y.registry h room max))
          (moved-Sound S n i y (entry_for S limits key y.registry).0
            (inside key y.registry.next_entry (entered max)) l
            (λ k e. ground (
              arith,
              map_linked key y.registry h room k,
              next_linked key y.registry h room,
              sound.mapped k e,
            ))
            (
              omega (arith, next_linked key y.registry h room),
              λ w. ground (arith, map_linked key y.registry h room key, key_eq_same key),
            )
            (λ j b other. Placed-linked S limits key y.registry (y.tasks j) h (sound.placed j b))
            (λ e b. ground (
              arith,
              free_linked key y.registry h room e,
              next_linked key y.registry h room,
              total_linked e,
              sound.one_permit e,
              none_held e,
            )))

    pub enter-Sound : Sound S n (after S y i (enter S limits key max y.registry))
    unfolding enter entry_for permits has_permit Placed wants
    enter-Sound = go (y.registry.map key) refl (leb limits.max_keys y.registry.key_count) refl
      where
        go :
            (found : Option ℕ)
            → y.registry.map key ≡ found
            → (full : Bool) → leb limits.max_keys y.registry.key_count ≡ full
            → Sound S n (after S y i (enter S limits key max y.registry))
        go (some e) h full f =
            rw (enter, entry_for, h)
              (kept-Sound S n i y (y.registry, inside key e (entered max)) l sound refl refl
                (sound.mapped key e h, λ w. h) (λ e'. ground (arith, none_held e')))
        go none h true f =
            rw (enter, entry_for, h, f)
              (kept-Sound S n i y (y.registry, answered capacity) l sound refl refl tt
                (λ e'. ground (arith, none_held e')))
        go none h false f = linked-Sound h f
