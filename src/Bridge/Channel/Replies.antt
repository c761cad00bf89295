-- ===== src/Bridge/Channel/Replies.antt =====
-- src/bridge/channel.rs: what becomes of those that wait for a reply.
use fareward.Common.{
  ℕ, ◌+◌, ◌≡◌, refl, ap, ◌∙◌, inl, inr, Bool, List, [], ◌∷◌, ◌++◌, map, times, times-append, arith,
  Bool-cases, Option-cases,
}
use fareward.Common.KeyMap.{get, values_of, times-put, times-take_out}
use fareward.Bridge.Channel.{
  ReplyEnvelope, ClientChannel, same_number, new_channel, waiter_list, await_reply,
  release_pending_reply, answer, deliver_reply, answer_all, fail_all_pending_replies,
}
use Prim.Native.String.{String}

-- A call on the replies of a channel. A waiter may go away before any call.
pub data Call : Type 0 where
  awaited : ℕ → ℕ → Call
  released : ℕ → Call
  delivered : (ℕ → Bool) → ℕ → ReplyEnvelope → Call
  failed : (ℕ → Bool) → (String → String) → String → Call

unfoldable pub call : Call → ClientChannel → ClientChannel
unfolding await_reply release_pending_reply deliver_reply fail_all_pending_replies
call (awaited command_id waiter) c = await_reply command_id waiter c
call (released command_id) c = release_pending_reply command_id c
call (delivered gone command_id envelope) c = (deliver_reply gone command_id envelope c).0
call (failed gone message reason) c = (fail_all_pending_replies gone message reason c).0

unfoldable pub calls : List Call → ClientChannel → ClientChannel
unfolding call
calls [] c = c
calls (k ∷ ks) c = calls ks (call k c)

-- The waiters that are registered.
unfoldable pub registered : List Call → List ℕ
registered [] = []
registered (awaited command_id waiter ∷ ks) = waiter ∷ registered ks
registered (_ ∷ ks) = registered ks

abbrev pub answered_waiters : ClientChannel → List ℕ
answered_waiters c = map (λ entry. entry.0) c.answered

map-append :
    (xs ys : List (ℕ × ReplyEnvelope))
    → map (λ entry. entry.0) (xs ++ ys) ≡ map (λ entry. entry.0) xs ++ map (λ entry. entry.0) ys
map-append [] ys = refl
map-append (x ∷ xs) ys = ap (◌∷◌ x.0) (map-append xs ys)

module _ (w : ℕ) where
  unfoldable settled : ClientChannel → ℕ
  unfolding times
  settled c = times w (answered_waiters c) + times w c.dropped

  unfoldable known : ClientChannel → ℕ
  unfolding settled times
  known c = times w (values_of (λ waiter. waiter) c.pending_replies) + settled c

  settled-answer :
      (gone : ℕ → Bool) (waiter : ℕ) (envelope : ReplyEnvelope) (c : ClientChannel)
      → settled (answer gone waiter envelope c) ≡ settled c + times w (waiter ∷ [])
  unfolding settled answer
  settled-answer gone waiter envelope c = elim (Bool-cases (gone waiter)) [
    | inl away ↦ rw (answer, away) (omega (arith, times-append w c.dropped (waiter ∷ [])))
    | inr there ↦
        rw (answer, there)
          (omega (
            arith,
            ap (times w) (map-append c.answered ((waiter, envelope) ∷ [])),
            times-append w (answered_waiters c) (waiter ∷ []),
          ))
  ]

  known-await_reply :
      (command_id waiter : ℕ) (c : ClientChannel)
      → known (await_reply command_id waiter c) ≡ known c + times w (waiter ∷ [])
  unfolding known settled await_reply
  known-await_reply command_id waiter c = omega (
    arith,
    times-put same_number (λ v. v) w command_id waiter c.pending_replies,
    times-append w c.dropped (waiter_list (get same_number command_id c.pending_replies)),
  )

  known-release_pending_reply :
      (command_id : ℕ) (c : ClientChannel) → known (release_pending_reply command_id c) ≡ known c
  unfolding known settled release_pending_reply
  known-release_pending_reply command_id c = omega (
    arith,
    times-take_out same_number (λ v. v) w command_id c.pending_replies,
    times-append w c.dropped (waiter_list (get same_number command_id c.pending_replies)),
  )

  pending-answer :
      (gone : ℕ → Bool) (waiter : ℕ) (envelope : ReplyEnvelope) (c : ClientChannel)
      → (answer gone waiter envelope c).pending_replies ≡ c.pending_replies
  unfolding answer
  pending-answer gone waiter envelope c = elim (Bool-cases (gone waiter)) [
    | inl away ↦ rw (answer, away) refl
    | inr there ↦ rw (answer, there) refl
  ]

  known-answer :
      (gone : ℕ → Bool) (waiter : ℕ) (envelope : ReplyEnvelope) (c : ClientChannel)
      → known (answer gone waiter envelope c) ≡ known c + times w (waiter ∷ [])
  unfolding known
  known-answer gone waiter envelope c = omega (
    arith,
    ap (λ m. times w (values_of (λ v. v) m)) (pending-answer gone waiter envelope c),
    settled-answer gone waiter envelope c,
  )

  known-deliver_reply :
      (gone : ℕ → Bool) (command_id : ℕ) (envelope : ReplyEnvelope) (c : ClientChannel)
      → known (deliver_reply gone command_id envelope c).0 ≡ known c
  unfolding deliver_reply
  known-deliver_reply gone command_id envelope c =
      elim (Option-cases (get same_number command_id c.pending_replies)) [
        | inl missing ↦ rw (deliver_reply, missing) refl
        | inr (waiter, found) ↦
            let out = times-take_out same_number (λ v. v) w command_id c.pending_replies in
            let one = ap (λ o. times w (waiter_list o)) found in
            rw (deliver_reply, found)
              (known-answer gone waiter envelope _
                ∙ unfold known settled in omega (arith, out, one))
      ]

  known-answer_all :
      (gone : ℕ → Bool) (envelope : ReplyEnvelope) (replies : List (ℕ × ℕ)) (c : ClientChannel)
      → known (answer_all gone envelope replies c) ≡ known c + times w (values_of (λ v. v) replies)
  unfolding answer_all times
  known-answer_all gone envelope [] c = omega arith
  known-answer_all gone envelope ((command_id, waiter) ∷ replies) c = ground (
    arith,
    known-answer gone waiter envelope c,
    known-answer_all gone envelope replies (answer gone waiter envelope c),
  )

  pending-answer_all :
      (gone : ℕ → Bool) (envelope : ReplyEnvelope) (replies : List (ℕ × ℕ)) (c : ClientChannel)
      → (answer_all gone envelope replies c).pending_replies ≡ c.pending_replies
  unfolding answer_all
  pending-answer_all gone envelope [] c = refl
  pending-answer_all gone envelope ((command_id, waiter) ∷ replies) c =
      pending-answer_all gone envelope replies (answer gone waiter envelope c)
      ∙ pending-answer gone waiter envelope c

  known-fail_all_pending_replies :
      (gone : ℕ → Bool) (message : String → String) (reason : String) (c : ClientChannel)
      → known (fail_all_pending_replies gone message reason c).0 ≡ known c
  unfolding fail_all_pending_replies
  known-fail_all_pending_replies gone message reason c =
      known-answer_all gone _ c.pending_replies (record c { pending_replies = [] })
      ∙ unfold known settled times in omega arith

  known-call :
      (k : Call) (c : ClientChannel) → known (call k c) ≡ known c + times w (registered (k ∷ []))
  unfolding call registered times
  known-call (awaited command_id waiter) c = known-await_reply command_id waiter c
  known-call (released command_id) c = omega (arith, known-release_pending_reply command_id c)
  known-call (delivered gone command_id envelope) c =
      omega (arith, known-deliver_reply gone command_id envelope c)
  known-call (failed gone message reason) c =
      omega (arith, known-fail_all_pending_replies gone message reason c)

  times-registered :
      (k : Call) (ks : List Call)
      → times w (registered (k ∷ ks)) ≡ times w (registered (k ∷ [])) + times w (registered ks)
  unfolding registered times
  times-registered (awaited command_id waiter) ks = times-append w (waiter ∷ []) (registered ks)
  times-registered (released command_id) ks = omega arith
  times-registered (delivered gone command_id envelope) ks = omega arith
  times-registered (failed gone message reason) ks = omega arith

  known-calls :
      (ks : List Call) (c : ClientChannel) → known (calls ks c) ≡ known c + times w (registered ks)
  unfolding calls
  known-calls [] c = unfold registered times in omega arith
  known-calls (k ∷ ks) c =
      omega (arith, known-call k c, known-calls ks (call k c), times-registered k ks)

-- Once all that is pending on a channel is failed, after any calls on it from its start, nothing is
-- pending, and each waiter was sent an answer or lost its sender as often in all as it was
-- registered: one that is registered once is answered at most once and is never left waiting.
pub calls-settled :
    (key : String) (ks : List Call) (gone : ℕ → Bool) (message : String → String) (reason : String)
    (w : ℕ)
    → let c : ClientChannel =
        (fail_all_pending_replies gone message reason (calls ks (new_channel key))).0 in
      (c.pending_replies ≡ [])
      × (times w (answered_waiters c ++ c.dropped) ≡ times w (registered ks))
unfolding new_channel
calls-settled key ks gone message reason w =
    let before : ClientChannel = calls ks (new_channel key) in
    let c : ClientChannel = (fail_all_pending_replies gone message reason before).0 in
    let envelope : ReplyEnvelope = record { kind = "error"; payload = message reason } in
    let empty : c.pending_replies ≡ [] =
      unfold fail_all_pending_replies in
      pending-answer_all w gone envelope before.pending_replies
        (record before { pending_replies = [] }) in
    let total = known-calls w ks (new_channel key) in
    let same = known-fail_all_pending_replies w gone message reason before in
    let both = times-append w (answered_waiters c) c.dropped in
    (
      empty,
      unfold known settled times in
          omega (arith, total, same, both, ap (λ m. times w (values_of (λ v. v) m)) empty),
    )
