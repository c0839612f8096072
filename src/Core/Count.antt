-- ===== src/Core/Count.antt =====
-- How the pixel processors are counted down to the end of a task.
use lima_backport_sprd7730se.Prelude.{
  ℕ, zero, suc, ◌+◌, ◌^◌, ◌≤◌, ◌<◌, ◌≡◌, refl, inl, inr, Bool, true, false, List, [], ◌∷◌, ◌==◌,
  if◌then◌else◌, has_bits, Bool-cases, arith, ap, ◌∙◌, update,
}
use lima_backport_sprd7730se.Core.Regs.{pp_irq_mask_error, pp_status_rendering_active}
use lima_backport_sprd7730se.Core.Pp.{
  Pp, handle_irq, count_down, bcast_round, bcast_loop, bcast_irq_handler,
}

-- The counters of a pipe, which only a start or an interrupt changes.
pub record SameCounters (p q : Pp) : Type 0 where
  pub task : q.task ≡ p.task
  pub done : q.done ≡ p.done
  pub done_calls : q.done_calls ≡ p.done_calls

pub same : (p : Pp) → SameCounters p p
same p = record { task = refl; done = refl; done_calls = refl }

pub same_trans : (p q r : Pp) → SameCounters p q → SameCounters q r → SameCounters p r
same_trans p q r a b = record {
  task = b.task ∙ a.task;
  done = b.done ∙ a.done;
  done_calls = b.done_calls ∙ a.done_calls;
}

-- How many of the first `n` processors are not done.
abbrev pub remaining : ℕ → (ℕ → Bool) → ℕ
remaining zero f = 0
remaining (suc n) f = remaining n f + (if f n then 0 else 1)

remaining_le : (n : ℕ) (f : ℕ → Bool) → remaining n f ≤ n
remaining_le zero f = omega arith
remaining_le (suc n) f = ground (arith, remaining_le n f)

remaining-update_above :
    (n i : ℕ) (f : ℕ → Bool) → n ≤ i → remaining n (update f i true) ≡ remaining n f
remaining-update_above zero i f h = refl
remaining-update_above (suc n) i f h =
    ground (arith, remaining-update_above n i f (omega (arith, h)))

remaining-update :
    (n i : ℕ) (f : ℕ → Bool)
    → i < n
    → f i ≡ false
    → remaining n (update f i true) + 1 ≡ remaining n f
remaining-update zero i f h e = ground (arith, h)
remaining-update (suc n) i f h e = elim (Bool-cases (i == n)) [
  | inl t ↦ ground (arith, t, e, remaining-update_above n i f)
  | inr t ↦ ground (arith, t, e, h, remaining-update n i f)
]

-- The counter is the number of processors that are not done, and the end of the task was reported
-- once if that number is 0, on top of `calls`.
pub record Counted (n calls : ℕ) (p : Pp) : Type 0 where
  pub task : p.task ≡ remaining n p.done
  pub done_calls : p.done_calls ≡ calls + (if remaining n p.done == 0 then 1 else 0)

pub handle_irq-SameCounters : (i state : ℕ) (p : Pp) → SameCounters p (handle_irq i state p)
unfolding handle_irq
handle_irq-SameCounters i state p = elim (Bool-cases (has_bits state pp_irq_mask_error)) [
  | inl t ↦ simp t (record { task = refl; done = refl; done_calls = refl })
  | inr t ↦ simp t (record { task = refl; done = refl; done_calls = refl })
]

-- One processor that was not done is now, in a state with the same counters.
count_down-Counted :
    (n calls i : ℕ) (p q : Pp)
    → SameCounters p q
    → n < 2 ^ 32
    → i < n
    → p.done i ≡ false
    → Counted n calls p
    → Counted n calls (count_down (record q { done = update q.done i true }))
unfolding count_down
count_down-Counted n calls i p q s b h e c =
    let e' = ap (λ (f : ℕ → Bool). f i) s.done ∙ e in
    let r = ap (remaining n) s.done in
    record {
      task =
          ground
            (arith, b, c.task, s.task, r, remaining-update n i q.done h e', remaining_le n q.done);
      done_calls = ground (
        arith,
        b,
        c.task,
        c.done_calls,
        s.task,
        s.done_calls,
        r,
        remaining-update n i q.done h e',
        remaining_le n q.done,
      );
    }

bcast_round-Counted :
    (n calls i status state : ℕ) (r : Bool) (p : Pp)
    → n < 2 ^ 32
    → i < n
    → Counted n calls p
    → Counted n calls (bcast_round i status state (r, p)).1
unfolding bcast_round
bcast_round-Counted n calls i status state r p b h c = elim (Bool-cases (p.done i)) [
  | inl t ↦ simp t c
  | inr t ↦ elim (Bool-cases (state == 0)) [
    | inr u ↦
        simp (t, u)
          (count_down-Counted n calls i p (handle_irq i state p) (handle_irq-SameCounters i state p)
            b h t c)
    | inl u ↦ elim (Bool-cases (has_bits status pp_status_rendering_active)) [
      | inl v ↦ simp (t, u, v) c
      | inr v ↦ simp (t, u, v) (count_down-Counted n calls i p p (same p) b h t c)
    ]
  ]
]

bcast_loop-Counted :
    (n calls k i : ℕ) (reads : ℕ → ℕ × ℕ) (r : Bool) (p : Pp)
    → n < 2 ^ 32
    → i + k ≤ n
    → Counted n calls p
    → Counted n calls (bcast_loop k i reads (r, p)).1
unfolding bcast_loop
bcast_loop-Counted n calls zero i reads r p b h c = c
bcast_loop-Counted n calls (suc k) i reads r p b h c =
    let x = bcast_round i (reads i).0 (reads i).1 (r, p) in
    bcast_loop-Counted n calls k (i + 1) reads x.0 x.1 b (omega (arith, h))
      (bcast_round-Counted n calls i (reads i).0 (reads i).1 r p b (omega (arith, h)) c)

-- Interrupts of the broadcast block one after the other.
unfoldable pub bcast_irqs : ℕ → List (ℕ → ℕ × ℕ) → Pp → Pp
unfolding bcast_irq_handler
bcast_irqs n [] p = p
bcast_irqs n (reads ∷ rest) p = bcast_irqs n rest (bcast_irq_handler n reads p).1

pub bcast_irqs-Counted :
    (n calls : ℕ) (irqs : List (ℕ → ℕ × ℕ)) (p : Pp)
    → n < 2 ^ 32
    → Counted n calls p
    → Counted n calls (bcast_irqs n irqs p)
unfolding bcast_irqs bcast_irq_handler
bcast_irqs-Counted n calls [] p b c = c
bcast_irqs-Counted n calls (reads ∷ rest) p b c =
    bcast_irqs-Counted n calls rest (bcast_irq_handler n reads p).1 b
      (bcast_loop-Counted n calls n 0 reads false p b (omega arith) c)
