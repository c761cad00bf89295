-- ===== src/Siphash/Pieces.antt =====
-- src/siphash.rs: a message in pieces, against its bytes one after another.
use fareward.Common.{
  ℕ, ◌+◌, ◌-◌, ◌≤◌, ◌<◌, ◌≡◌, refl, sym, ap, ◌∙◌, subst, min, inl, inr, Bool-cases, true, false,
  List, [], ◌∷◌, ◌++◌, append_assoc, append-nil, ltb, ◌==◌, if◌then◌else◌, length, take, drop,
  take-append-drop, length-take, length-append, arith,
}
use fareward.Siphash.{
  State, SipHasher24, wrapping_add, le_word, compress, compress_chunks, write_words, write,
}

-- The word so far, and the state behind it.
abbrev Partial : Type 0
Partial = State × List ℕ

abbrev push : ℕ → Partial → Partial
push byte (s, tail) =
    if length (tail ++ byte ∷ []) == 8
    then (compress (le_word (tail ++ byte ∷ [])) s, [])
    else (s, tail ++ byte ∷ [])

unfoldable pub feed : List ℕ → Partial → Partial
feed [] p = p
feed (byte ∷ bytes) p = feed bytes (push byte p)

feed-append : (xs ys : List ℕ) (p : Partial) → feed (xs ++ ys) p ≡ feed ys (feed xs p)
unfolding feed
feed-append [] ys p = refl
feed-append (x ∷ xs) ys p = feed-append xs ys (push x p)

push_within :
    (x : ℕ) (s : State) (tail : List ℕ)
    → length tail + 1 < 8
    → push x (s, tail) ≡ (s, tail ++ x ∷ [])
push_within x s tail h = ground (arith, length-append tail (x ∷ []), h)

push_last :
    (x : ℕ) (s : State) (tail : List ℕ)
    → length tail + 1 ≡ 8
    → push x (s, tail) ≡ (compress (le_word (tail ++ x ∷ [])) s, [])
push_last x s tail h = ground (arith, length-append tail (x ∷ []), h)

feed_within :
    (xs : List ℕ) (s : State) (tail : List ℕ)
    → length tail + length xs < 8
    → feed xs (s, tail) ≡ (s, tail ++ xs)
unfolding feed
feed_within [] s tail h = ap (λ t. (s, t)) (sym (append-nil tail))
feed_within (x ∷ xs) s tail h =
    ap (feed xs) (push_within x s tail (omega (arith, h)))
    ∙ feed_within xs s (tail ++ x ∷ []) (omega (arith, h, length-append tail (x ∷ [])))
    ∙ ap (λ t. (s, t)) (append_assoc tail (x ∷ []) xs)

feed_word :
    (xs : List ℕ) (s : State) (tail : List ℕ)
    → length tail < 8
    → length tail + length xs ≡ 8
    → feed xs (s, tail) ≡ (compress (le_word (tail ++ xs)) s, [])
unfolding feed
feed_word [] s tail a h = absurd (omega (arith, a, h))
feed_word (x ∷ []) s tail a h = push_last x s tail (omega (arith, h))
feed_word (x ∷ y ∷ xs) s tail a h =
    ap (feed (y ∷ xs)) (push_within x s tail (omega (arith, h)))
    ∙ feed_word (y ∷ xs) s (tail ++ x ∷ []) (omega (arith, h, length-append tail (x ∷ [])))
        (omega (arith, h, length-append tail (x ∷ [])))
    ∙ ap (λ t. (compress (le_word t) s, [])) (append_assoc tail (x ∷ []) (y ∷ xs))

compress_chunks-feed : (bytes : List ℕ) (s : State) → compress_chunks bytes s ≡ feed bytes (s, [])
unfolding compress_chunks feed
compress_chunks-feed [] s = refl
compress_chunks-feed (a ∷ []) s = refl
compress_chunks-feed (a ∷ b ∷ []) s = refl
compress_chunks-feed (a ∷ b ∷ c ∷ []) s = refl
compress_chunks-feed (a ∷ b ∷ c ∷ d ∷ []) s = refl
compress_chunks-feed (a ∷ b ∷ c ∷ d ∷ e ∷ []) s = refl
compress_chunks-feed (a ∷ b ∷ c ∷ d ∷ e ∷ f ∷ []) s = refl
compress_chunks-feed (a ∷ b ∷ c ∷ d ∷ e ∷ f ∷ g ∷ []) s = refl
compress_chunks-feed (a ∷ b ∷ c ∷ d ∷ e ∷ f ∷ g ∷ h ∷ bytes) s =
    compress_chunks-feed bytes (compress (le_word (a ∷ b ∷ c ∷ d ∷ e ∷ f ∷ g ∷ h ∷ [])) s)

partial_of : SipHasher24 → Partial
partial_of h = (h.state, h.tail)

hasher : Partial → ℕ → SipHasher24
hasher p total_len = record { state = p.0; tail = p.1; total_len = total_len }

-- What is kept between two writes.
abbrev pub IsOpen : SipHasher24 → Type 0
IsOpen h = length h.tail < 8

write_words-feed :
    (bytes : List ℕ) (total_len : ℕ) (s : State)
    → write_words bytes total_len s ≡ hasher (feed bytes (s, [])) total_len
unfolding write_words hasher
write_words-feed bytes total_len s =
    ap (λ (p : Partial). record { state = p.0; tail = p.1; total_len = total_len })
      (compress_chunks-feed bytes s)

take_all : (xs : List ℕ) → take (length xs) xs ≡ xs
take_all [] = refl
take_all (x ∷ xs) = ap (◌∷◌ x) (take_all xs)

module _ (bytes : List ℕ) (h : SipHasher24) (started : 0 < length h.tail) where
  write_short :
      length h.tail + length bytes < 8
      → write bytes h ≡ record {
        state = h.state;
        tail = h.tail ++ bytes;
        total_len = wrapping_add h.total_len (length bytes);
      }
  unfolding write
  write_short few =
      let open_word : ltb 0 (length h.tail) ≡ true = ground (arith, started) in
      let taken : min (length bytes) (8 - length h.tail) ≡ length bytes = omega (arith, few) in
      let short : ltb (length (h.tail ++ bytes)) 8 ≡ true =
        ground (arith, length-append h.tail bytes, few) in
      rw (write, open_word, taken, take_all bytes, short) refl

  write_long :
      IsOpen h
      → 8 ≤ length h.tail + length bytes
      → write bytes h
        ≡ write_words
            (drop (8 - length h.tail) bytes)
            (wrapping_add h.total_len (length bytes))
            (compress (le_word (h.tail ++ take (8 - length h.tail) bytes)) h.state)
  unfolding write
  write_long o many =
      let n = 8 - length h.tail in
      let open_word : ltb 0 (length h.tail) ≡ true = ground (arith, started) in
      let taken : min (length bytes) n ≡ n = omega (arith, many, o) in
      let full : ltb (length (h.tail ++ take n bytes)) 8 ≡ false =
        ground (arith, length-append h.tail (take n bytes), length-take n bytes, many, o) in
      rw (write, open_word, taken, full) refl

  write-feed_started :
      IsOpen h
      → write bytes h ≡ hasher (feed bytes (partial_of h)) (wrapping_add h.total_len (length bytes))
  unfolding hasher partial_of
  write-feed_started o = elim (Bool-cases (ltb (length h.tail + length bytes) 8)) [
    | inl few ↦
        write_short (ground (arith, few))
        ∙ ap (λ p. hasher p (wrapping_add h.total_len (length bytes)))
            (sym (feed_within bytes h.state h.tail (ground (arith, few))))
    | inr many ↦
        let n = 8 - length h.tail in
        let enough : 8 ≤ length h.tail + length bytes = ground (arith, many) in
        let word =
          feed_word (take n bytes) h.state h.tail o
            (omega (arith, length-take n bytes, enough, o)) in
        let whole : feed bytes (h.state, h.tail)
            ≡ feed (drop n bytes) (feed (take n bytes) (h.state, h.tail)) =
          subst
            (λ b.
              feed b (h.state, h.tail)
              ≡ feed (drop n bytes) (feed (take n bytes) (h.state, h.tail)))
            (take-append-drop n bytes)
            (feed-append (take n bytes) (drop n bytes) (h.state, h.tail)) in
        write_long o enough
        ∙ write_words-feed (drop n bytes) _ _
        ∙ ap (λ p. hasher p (wrapping_add h.total_len (length bytes)))
            (sym (whole ∙ ap (feed (drop n bytes)) word))
  ]

write-feed :
    (bytes : List ℕ) (s : State) (tail : List ℕ) (total : ℕ)
    → length tail < 8
    → write bytes (hasher (s, tail) total)
      ≡ hasher (feed bytes (s, tail)) (wrapping_add total (length bytes))
unfolding write hasher partial_of
write-feed bytes s [] total o = write_words-feed bytes _ s
write-feed bytes s (x ∷ tail) total o =
    write-feed_started bytes (hasher (s, x ∷ tail) total) (omega arith) o

push-IsOpen : (x : ℕ) (p : Partial) → length p.1 < 8 → length (push x p).1 < 8
push-IsOpen x p o = ground (arith, o, length-append p.1 (x ∷ []))

feed-IsOpen : (bytes : List ℕ) (p : Partial) → length p.1 < 8 → length (feed bytes p).1 < 8
unfolding feed
feed-IsOpen [] p o = o
feed-IsOpen (x ∷ xs) p o = feed-IsOpen xs (push x p) (push-IsOpen x p o)

-- Two pieces of a message, written one after the other, leave what their concatenation leaves.
pub write-append :
    (xs ys : List ℕ) (h : SipHasher24) → IsOpen h → write ys (write xs h) ≡ write (xs ++ ys) h
unfolding hasher
write-append xs ys h o =
    let p = feed xs (h.state, h.tail) in
    let first : write xs h ≡ hasher p (wrapping_add h.total_len (length xs)) =
      write-feed xs h.state h.tail h.total_len o in
    let whole : write (xs ++ ys) h
        ≡ hasher (feed (xs ++ ys) (h.state, h.tail))
            (wrapping_add h.total_len (length (xs ++ ys))) =
      write-feed (xs ++ ys) h.state h.tail h.total_len o in
    let same_total : wrapping_add (wrapping_add h.total_len (length xs)) (length ys)
        ≡ wrapping_add h.total_len (length (xs ++ ys)) =
      omega (arith, length-append xs ys) in
    ap (write ys) first
    ∙ write-feed ys p.0 p.1 _ (feed-IsOpen xs (h.state, h.tail) o)
    ∙ rw (same_total, feed-append xs ys (h.state, h.tail)) refl
    ∙ sym whole
