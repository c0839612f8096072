-- ===== src/Core/Irqs.antt =====
-- The interrupts of the single pixel processors.
use lima_backport_sprd7730se.Prelude.{
  ℕ, ◌+◌, ◌-◌, ◌%◌, ◌^◌, ◌≤◌, ◌<◌, ◌≡◌, refl, inl, inr, Bool, ap, ◌∙◌, true, false, List, [], ◌∷◌,
  ◌==◌, leb, if◌then◌else◌, Bool-cases, arith,
}
use lima_backport_sprd7730se.Core.Pp.{Cores, Pp, count_down, irq_handler}
use lima_backport_sprd7730se.Core.PpTask.{Frame, task_run}
use lima_backport_sprd7730se.Core.Start.{task_run-StartedEach}
use lima_backport_sprd7730se.Core.Count.{handle_irq-SameCounters}

-- The count of an interrupt that is a processor's own, or of an error of its MMU.
abbrev pub counts : ℕ × ℕ → ℕ
counts (i, state) = if state == 0 then 0 else 1

abbrev pub own_irqs : List (ℕ × ℕ) → ℕ
own_irqs [] = 0
own_irqs (x ∷ xs) = counts x + own_irqs xs

-- Interrupts of the processors one after the other: the number of the processor and its state.
unfoldable pub irqs : List (ℕ × ℕ) → Pp → Pp
unfolding irq_handler
irqs [] p = p
irqs ((i, state) ∷ rest) p = irqs rest (irq_handler i state p).1

-- The counter one lower, modulo 2 ^ 32.
abbrev pred32 : ℕ → ℕ
pred32 n = (n + (2 ^ 32 - 1)) % 2 ^ 32

irq_handler-task :
    (i state : ℕ) (p : Pp) → (state == 0) ≡ false → (irq_handler i state p).1.task ≡ pred32 p.task
unfolding irq_handler count_down
irq_handler-task i state p e = ground (arith, e, (handle_irq-SameCounters i state p).task)

irq_handler-done_calls :
    (i state : ℕ) (p : Pp)
    → (state == 0) ≡ false
    → (irq_handler i state p).1.done_calls
      ≡ (if pred32 p.task == 0 then p.done_calls + 1 else p.done_calls)
unfolding irq_handler count_down
irq_handler-done_calls i state p e = ground (
  arith,
  e,
  (handle_irq-SameCounters i state p).task,
  (handle_irq-SameCounters i state p).done_calls,
)

irq_handler-none : (i state : ℕ) (p : Pp) → (state == 0) ≡ true → (irq_handler i state p).1 ≡ p
unfolding irq_handler
irq_handler-none i state p e = rw e refl

-- Once the end was reported, further interrupts do not report it again before the counter has gone
-- all the way round.
irqs-after_end :
    (xs : List (ℕ × ℕ)) (p : Pp)
    → own_irqs xs ≤ pred32 p.task
    → (irqs xs p).done_calls ≡ p.done_calls
unfolding irqs
irqs-after_end [] p c = refl
irqs-after_end ((i, state) ∷ rest) p c = elim (Bool-cases (state == 0)) [
  | inl t ↦ rw (irq_handler-none i state p t, irqs) (irqs-after_end rest p (ground (arith, t, c)))
  | inr t ↦
      let q = (irq_handler i state p).1 in
      let task = irq_handler-task i state p t in
      let calls = irq_handler-done_calls i state p t in
      ground (arith, irqs-after_end rest q (ground (arith, t, c, task)), calls, c, t)
]

-- From a counter of `n` on, interrupts report the end once, when there are `n` of them.
irqs-counted :
    (n : ℕ) (xs : List (ℕ × ℕ)) (p : Pp)
    → p.task ≡ n
    → 1 ≤ n
    → n < 2 ^ 32
    → own_irqs xs < 2 ^ 32
    → (irqs xs p).done_calls ≡ p.done_calls + (if leb n (own_irqs xs) then 1 else 0)
unfolding irqs
irqs-counted n [] p e h b c = ground (arith, h)
irqs-counted n ((i, state) ∷ rest) p e h b c = elim (Bool-cases (state == 0)) [
  | inl t ↦
      rw (irq_handler-none i state p t, irqs)
        (ground (arith, irqs-counted n rest p e h b (ground (arith, t, c)), t))
  | inr t ↦
      let q = (irq_handler i state p).1 in
      let task = irq_handler-task i state p t in
      let calls = irq_handler-done_calls i state p t in
      elim (Bool-cases (n == 1)) [
        | inl u ↦
            ground (arith, irqs-after_end rest q (ground (arith, task, e, u, c, t)), calls, e, u, t)
        | inr u ↦ ground (
          arith,
          irqs-counted (n - 1) rest q (ground (arith, task, e, u, h, b)) (ground (arith, u, h))
              (omega (arith, b)) (ground (arith, c, t)),
          calls,
          e,
          u,
          h,
          b,
          t,
        )
      ]
]

-- A start without the broadcast unit, then any interrupts of the processors, those with a state of 0
-- not counted: the end of the task was reported exactly once if there were as many interrupts as the
-- frame has processors or more (fewer than 2 ^ 32), and not at all if there were fewer. The
-- frame has at least one processor and fewer than 2 ^ 32.
pub irqs-done_calls :
    (c : Cores) (polled : ℕ → Bool) (old : ℕ) (f : Frame) (xs : List (ℕ × ℕ)) (p : Pp)
    → c.bcast_processor ≡ false
    → 1 ≤ f.num_pp
    → f.num_pp < 2 ^ 32
    → own_irqs xs < 2 ^ 32
    → (irqs xs (task_run c polled old f p)).done_calls
      ≡ p.done_calls + (if leb f.num_pp (own_irqs xs) then 1 else 0)
irqs-done_calls c polled old f xs p e h b l =
    let s = task_run-StartedEach c polled old f p e in
    let q = task_run c polled old f p in
    irqs-counted f.num_pp xs q s.task h b l
    ∙ ap (λ n. n + (if leb f.num_pp (own_irqs xs) then 1 else 0)) s.done_calls
