-- ===== src/Core/Gp.antt =====
-- The geometry processor: lima_gp.c.
use lima_backport_sprd7730se.Prelude.{
  ℕ, ◌+◌, ◌*◌, Bool, true, false, not, ◌&&◌, ◌||◌, zero, suc, List, [], ◌∷◌, ◌++◌, ◌==◌, ltb,
  if◌then◌else◌, has_bits,
}
use lima_backport_sprd7730se.Errno.{einval, Result, ok, err}
use lima_backport_sprd7730se.Core.Regs.{
  gp_vscl_start_addr, gp_cmd, gp_cmd_start_vs, gp_cmd_start_plbu, gp_cmd_update_plbu_alloc,
  gp_cmd_reset, gp_cmd_soft_reset, gp_int_clear, gp_int_mask, gp_irq_vs_end_cmd_lst,
  gp_irq_plbu_end_cmd_lst, gp_irq_reset_completed, gp_irq_mask_all, gp_irq_mask_error,
  gp_irq_mask_used, gp_perf_cnt_0_limit, gp_status_vs_active, gp_status_plbu_active,
}

-- `data.async_reset` of the block, `error` of the pipe, how often lima_sched_pipe_task_done was
-- called, and the writes.
pub record Gp : Type 0 where
  pub async_reset : Bool
  pub error : Bool
  pub done_calls : ℕ
  pub writes : List (ℕ × ℕ)

abbrev pub write : ℕ → ℕ → Gp → Gp
write reg value g = record g { writes = g.writes ++ (reg, value) ∷ [] }

abbrev pub task_done : Gp → Gp
task_done g = record g { done_calls = g.done_calls + 1 }

abbrev pub done_without_error : ℕ → ℕ → Bool
done_without_error state status =
    has_bits state (gp_irq_vs_end_cmd_lst + gp_irq_plbu_end_cmd_lst)
    && not (has_bits status (gp_status_vs_active + gp_status_plbu_active))

-- lima_gp_irq_handler: whether the interrupt was the block's.
unfoldable pub irq_handler : ℕ → ℕ → Gp → Bool × Gp
irq_handler state status g =
    if state == 0
    then (false, g)
    else if has_bits state gp_irq_mask_error
    then (
      true,
      task_done (write gp_int_clear state (record (write gp_int_mask 0 g) { error = true })),
    )
    else if done_without_error state status
    then (true, task_done (write gp_int_clear state g))
    else (true, write gp_int_clear state g)

unfoldable pub soft_reset_async : Gp → Gp
soft_reset_async g =
    if g.async_reset
    then g
    else record (write gp_cmd gp_cmd_soft_reset
        (write gp_int_clear gp_irq_reset_completed (write gp_int_mask 0 g))) { async_reset = true }

-- `poll` is the result of `readl_poll_timeout` on the raw interrupt status.
unfoldable pub soft_reset_async_wait : Result (Unit {0}) → Gp → Result (Unit {0}) × Gp
soft_reset_async_wait poll g =
    if g.async_reset
    then elim poll [
      | err e ↦ (err e, g)
      | ok u ↦ (
        ok tt,
        record (write gp_int_mask gp_irq_mask_used (write gp_int_clear gp_irq_mask_all g)) {
          async_reset = false;
        },
      )
    ]
    else (ok tt, g)

-- The words of a frame: LIMA_GP_VSCL_START_ADDR >> 2 and so on.
abbrev pub vs_start : (ℕ → ℕ) → ℕ
vs_start f = f 0

abbrev pub vs_end : (ℕ → ℕ) → ℕ
vs_end f = f 1

abbrev pub plbu_start : (ℕ → ℕ) → ℕ
plbu_start f = f 2

abbrev pub plbu_end : (ℕ → ℕ) → ℕ
plbu_end f = f 3

abbrev pub alloc_start : (ℕ → ℕ) → ℕ
alloc_start f = f 4

abbrev pub alloc_end : (ℕ → ℕ) → ℕ
alloc_end f = f 5

unfoldable pub task_validate : (ℕ → ℕ) → Result (Unit {0})
task_validate f =
    if ltb (vs_end f) (vs_start f)
      || (ltb (plbu_end f) (plbu_start f) || ltb (alloc_end f) (alloc_start f))
    then err einval
    else if (vs_start f == vs_end f) && (plbu_start f == plbu_end f)
    then err einval
    else ok tt

-- The command that starts the parts of the block that have something to do; `|` of distinct bits.
abbrev pub start_cmd : (ℕ → ℕ) → ℕ
start_cmd f =
    (if vs_start f == vs_end f then 0 else gp_cmd_start_vs)
    + (if plbu_start f == plbu_end f then 0 else gp_cmd_start_plbu)

abbrev pub write_frame : (ℕ → ℕ) → Gp → Gp
write_frame f g = record g {
  writes =
      g.writes
      ++ ((gp_vscl_start_addr + 0 * 4, f 0)
          ∷ (gp_vscl_start_addr + 1 * 4, f 1)
          ∷ (gp_vscl_start_addr + 2 * 4, f 2)
          ∷ (gp_vscl_start_addr + 3 * 4, f 3)
          ∷ (gp_vscl_start_addr + 4 * 4, f 4)
          ∷ (gp_vscl_start_addr + 5 * 4, f 5)
          ∷ []);
}

-- lima_gp_task_run goes on whether or not the reset completed.
unfoldable pub task_run : Result (Unit {0}) → (ℕ → ℕ) → Gp → Gp
unfolding soft_reset_async_wait
task_run poll f g =
    write gp_cmd (start_cmd f)
      (write gp_cmd gp_cmd_update_plbu_alloc (write_frame f (soft_reset_async_wait poll g).1))

-- lima_gp_hard_reset: `poll` is the result of `lima_poll_timeout`, and `polls` how often it polled,
-- each time with one write.
abbrev pub poll_writes : ℕ → Gp → Gp
poll_writes zero g = g
poll_writes (suc n) g = poll_writes n (write gp_perf_cnt_0_limit 3222929408 g)

unfoldable pub hard_reset : ℕ → Result (Unit {0}) → Gp → Result (Unit {0}) × Gp
hard_reset polls poll g =
    let h =
      poll_writes polls (
        write gp_cmd gp_cmd_reset (write gp_int_mask 0 (write gp_perf_cnt_0_limit 3237994496 g))) in
    elim poll [
      | err e ↦ (err e, h)
      | ok u ↦ (
        ok tt,
        write gp_int_mask gp_irq_mask_used
            (write gp_int_clear gp_irq_mask_all (write gp_perf_cnt_0_limit 0 h)),
      )
    ]
