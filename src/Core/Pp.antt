-- ===== src/Core/Pp.antt =====
-- The state of the pixel processors, and their interrupts: lima_pp.c.
use lima_backport_sprd7730se.Prelude.{
  ℕ, zero, suc, ◌+◌, ◌-◌, ◌%◌, ◌^◌, Bool, true, false, List, [], ◌∷◌, ◌++◌, ◌==◌, if◌then◌else◌,
  has_bits, update,
}
use lima_backport_sprd7730se.Core.Regs.{
  pp_status_rendering_active, pp_int_clear, pp_int_mask, pp_irq_mask_error,
}

-- Where a write goes: the i-th processor of the pipe, or one of the shared blocks.
pub data Block : Type 0 where
  processor : ℕ → Block
  pp_bcast dlbu bcast : Block

-- What the pipe has: how many processors, which pixel processor each is, and whether the broadcast
-- unit is there.
pub record Cores : Type 0 where
  pub num_processor : ℕ
  pub number : ℕ → ℕ
  pub bcast_processor : Bool

-- The atomic counter `task` modulo 2 ^ 32, the bits of `done` (a 32-bit mask in the code, which has no
-- more processors than bits), `error`, how often
-- lima_sched_pipe_task_done was called, `async_reset` of each processor and of the broadcast
-- block, and the writes.
pub record Pp : Type 0 where
  pub task : ℕ
  pub done : ℕ → Bool
  pub error : Bool
  pub done_calls : ℕ
  pub async_reset : ℕ → Bool
  pub bcast_reset : Bool
  pub writes : List (Block × (ℕ × ℕ))

abbrev pub write : Block → ℕ → ℕ → Pp → Pp
write x reg value p = record p { writes = p.writes ++ (x, (reg, value)) ∷ [] }

-- lima_pp_handle_irq.
unfoldable pub handle_irq : ℕ → ℕ → Pp → Pp
handle_irq i state p =
    if has_bits state pp_irq_mask_error
    then write (processor i) pp_int_clear state
        (write (processor i) pp_int_mask 0 (record p { error = true }))
    else write (processor i) pp_int_clear state p

-- `if (atomic_dec_and_test(&pipe->task)) lima_sched_pipe_task_done(pipe)`
unfoldable pub count_down : Pp → Pp
count_down p =
    let left = (p.task + (2 ^ 32 - 1)) % 2 ^ 32 in
    record p { task = left; done_calls = if left == 0 then p.done_calls + 1 else p.done_calls }

-- lima_pp_irq_handler: whether the interrupt was the processor's.
unfoldable pub irq_handler : ℕ → ℕ → Pp → Bool × Pp
unfolding handle_irq count_down
irq_handler i state p = if state == 0 then (false, p) else (true, count_down (handle_irq i state p))

-- One round of the loop of lima_pp_bcast_irq_handler, given the status and the interrupt state of
-- the processor.
unfoldable pub bcast_round : ℕ → ℕ → ℕ → Bool × Pp → Bool × Pp
unfolding handle_irq count_down
bcast_round i status state (ret, p) =
    if p.done i
    then (ret, p)
    else if state == 0
    then (if has_bits status pp_status_rendering_active
        then (ret, p)
        else (ret, count_down (record p { done = update p.done i true })))
    else (
      true,
      count_down
          (record (handle_irq i state p) { done = update (handle_irq i state p).done i true }),
    )

-- The loop, `k` rounds from the `i`-th processor on.
unfoldable pub bcast_loop : ℕ → ℕ → (ℕ → ℕ × ℕ) → Bool × Pp → Bool × Pp
unfolding bcast_round
bcast_loop zero i reads x = x
bcast_loop (suc k) i reads x = bcast_loop k (i + 1) reads (bcast_round i (reads i).0 (reads i).1 x)

-- lima_pp_bcast_irq_handler, `num_pp` being that of the frame of the current task.
unfoldable pub bcast_irq_handler : ℕ → (ℕ → ℕ × ℕ) → Pp → Bool × Pp
unfolding bcast_loop
bcast_irq_handler num_pp reads p = bcast_loop num_pp 0 reads (false, p)

-- lima_pp_task_mmu_error.
unfoldable pub task_mmu_error : Pp → Pp
unfolding count_down
task_mmu_error p = count_down p
