-- ===== src/Sched/Fini.antt =====
-- The end of a context on a pipe: lima_sched_context_fini of lima_sched.c waits for its tasks.
use lima_backport_sprd7730se.Prelude.{
  ℕ, zero, suc, ◌+◌, ◌<◌, ◌≡◌, refl, Bool, true, false, ◌||◌, not, ap, ◌∙◌, Option, some, none,
  Bool-cases, inl, inr, ◌==◌, ltb, if◌then◌else◌, arith,
}
use lima_backport_sprd7730se.Fence.{◌>>=◌, >>=-some}
use lima_backport_sprd7730se.Sched.Pipe.{Pipe}

-- What a loop sees in its k-th round: the number of tasks in flight, and whether the time is over.
pub record Rounds : Type 0 where
  pub in_flight : ℕ → ℕ
  pub late : ℕ → Bool

-- Either loop from the k-th round on: whether the time was over before the tasks were done; `none` is
-- still waiting.
unfoldable pub drain : ℕ → Rounds → ℕ → Option Bool
drain zero w k = none
drain (suc fuel) w k =
    let rest = drain fuel w (k + 1) in
    if w.in_flight k == 0 then some false else if w.late k then some true else rest

-- The forced error after the first loop.
abbrev pub force : Bool → Pipe → Pipe
force true p = record p { error = true; done_pending = true }
force false p = p

-- lima_sched_context_fini, with the pipe after the first loop and whether it warns; `left` is the
-- number of tasks that it reads at the end.
unfoldable pub context_fini : ℕ → Rounds → Rounds → ℕ → Pipe → Option (Pipe × Bool)
unfolding drain
context_fini fuel five_seconds one_second left p = drain fuel five_seconds 0 >>= λ over.
    drain fuel one_second 0 >>= λ u. some (force over p, ltb 0 left)

-- The time is over in the n-th round from the k-th on, and not before.
abbrev pub Ends : Rounds → ℕ → ℕ → Type 0
Ends w zero k = w.late k ≡ true
Ends w (suc n) k = (w.late k ≡ false) × Ends w n (k + 1)

-- Whether the tasks are done in one of the n + 1 rounds from the k-th on.
abbrev pub done_in : Rounds → ℕ → ℕ → Bool
done_in w zero k = w.in_flight k == 0
done_in w (suc n) k = (w.in_flight k == 0) || done_in w n (k + 1)

drain-done_in :
    (fuel : ℕ) (w : Rounds) (n k : ℕ)
    → n < fuel
    → Ends w n k
    → drain fuel w k ≡ some (if done_in w n k then false else true)
unfolding drain
drain-done_in zero w n k l d = absurd (omega (arith, l))
drain-done_in (suc fuel) w zero k l d = elim (Bool-cases (w.in_flight k == 0)) [
  | inl e ↦ rw (e) refl
  | inr e ↦ rw (e, d) refl
]
drain-done_in (suc fuel) w (suc n) k l d = elim (Bool-cases (w.in_flight k == 0)) [
  | inl e ↦ rw (e) refl
  | inr e ↦ rw (e, d.0) (drain-done_in fuel w n (k + 1) (omega (arith, l)) d.1)
]

context_fini-over :
    (done : Bool) (p : Pipe)
    → force (if done then false else true) p
      ≡ (if done then p else record p { error = true; done_pending = true })
context_fini-over true p = refl
context_fini-over false p = refl

warns_if_left : (left : ℕ) → ltb 0 left ≡ not (left == 0)
warns_if_left left = ground arith

-- Closing a context does not hang: if the two times are over in the n-th and the m-th round, more
-- rounds than these are enough. If the tasks are done in one of the rounds of the first loop, the pipe
-- is unchanged; if not, its error is set and its done work is queued, and nothing else is changed. A
-- warning is given just when the number of tasks read at the end is not 0.
pub context_fini-drain :
    (fuel n m left : ℕ) (w v : Rounds) (p : Pipe)
    → n < fuel
    → m < fuel
    → Ends w n 0
    → Ends v m 0
    → context_fini fuel w v left p
      ≡ some (
        if done_in w n 0 then p else record p { error = true; done_pending = true },
        not (left == 0),
      )
unfolding context_fini
context_fini-drain fuel n m left w v p l1 l2 d1 d2 =
    >>=-some (λ over. drain fuel v 0 >>= λ u. some (force over p, ltb 0 left))
      (drain-done_in fuel w n 0 l1 d1)
      (>>=-some (λ u. some (force (if done_in w n 0 then false else true) p, ltb 0 left))
        (drain-done_in fuel v m 0 l2 d2) refl)
    ∙ ap (λ (q : Pipe). some (q, ltb 0 left)) (context_fini-over (done_in w n 0) p)
    ∙ ap
        (λ (x : Bool).
          some (if done_in w n 0 then p else record p { error = true; done_pending = true }, x))
        (warns_if_left left)
