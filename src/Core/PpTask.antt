-- ===== src/Core/PpTask.antt =====
-- Resets, validation and start of the pixel processors: lima_pp.c, with lima_dlbu_enable,
-- lima_dlbu_disable and lima_dlbu_set_reg of lima_dlbu.c and lima_bcast_enable of lima_bcast.c.
use lima_backport_sprd7730se.Prelude.{
  ℕ, zero, suc, ◌+◌, ◌*◌, ◌/◌, ◌%◌, ◌^◌, Bool, true, false, not, ◌&&◌, ◌||◌, ◌==◌, ltb,
  if◌then◌else◌, bit, update,
}
use Prim.Native.Nat.{bit_or}
use lima_backport_sprd7730se.Errno.{einval, etimedout, Result, ok, err}
use lima_backport_sprd7730se.Core.Regs.{
  pp_frame, pp_stack, pp_wb, pp_ctrl, pp_ctrl_force_reset, pp_ctrl_start_rendering,
  pp_ctrl_soft_reset, pp_int_rawstat, pp_int_clear, pp_int_mask, pp_irq_mask_all, pp_irq_mask_used,
  pp_perf_cnt_0_limit,
}
use lima_backport_sprd7730se.Core.Pp.{Block, processor, pp_bcast, dlbu, bcast, Cores, Pp, write}

-- The writes of lima_pp_soft_reset_async, and what follows a successful poll.
abbrev reset_writes : Block → Pp → Pp
reset_writes x p =
    write x pp_ctrl pp_ctrl_soft_reset
      (write x pp_int_rawstat pp_irq_mask_all (write x pp_int_mask 0 p))

abbrev unmask : Block → Pp → Pp
unmask x p = write x pp_int_mask pp_irq_mask_used (write x pp_int_clear pp_irq_mask_all p)

unfoldable pub soft_reset_async : ℕ → Pp → Pp
soft_reset_async i p =
    if p.async_reset i
    then p
    else record (reset_writes (processor i) p) { async_reset = update p.async_reset i true }

unfoldable pub soft_reset_async_bcast : Pp → Pp
soft_reset_async_bcast p =
    if p.bcast_reset then p else record (reset_writes pp_bcast p) { bcast_reset = true }

-- lima_pp_soft_reset_async_wait_one: `polled` is whether the poll saw the reset complete in time.
unfoldable pub soft_reset_async_wait_one : ℕ → Bool → Pp → Result (Unit {0}) × Pp
soft_reset_async_wait_one i polled p =
    if polled then (ok tt, unmask (processor i) p) else (err etimedout, p)

-- lima_pp_soft_reset_async_wait on a processor and on the broadcast block. The errors that the
-- second one joins by `|` are all the same.
unfoldable pub soft_reset_async_wait : ℕ → Bool → Pp → Result (Unit {0}) × Pp
unfolding soft_reset_async_wait_one
soft_reset_async_wait i polled p =
    if p.async_reset i
    then (
      (soft_reset_async_wait_one i polled p).0,
      record (soft_reset_async_wait_one i polled p).1 {
        async_reset = update p.async_reset i false;
      },
    )
    else (ok tt, p)

abbrev join : Result (Unit {0}) → Result (Unit {0}) → Result (Unit {0})
join (ok u) r = r
join (err e) r = err e

unfoldable pub wait_all : ℕ → ℕ → (ℕ → Bool) → Pp → Result (Unit {0}) × Pp
unfolding soft_reset_async_wait_one
wait_all zero i polled p = (ok tt, p)
wait_all (suc k) i polled p =
    let x = soft_reset_async_wait_one i (polled i) p in
    let rest = wait_all k (i + 1) polled x.1 in (join x.0 rest.0, rest.1)

unfoldable pub soft_reset_async_wait_bcast : ℕ → (ℕ → Bool) → Pp → Result (Unit {0}) × Pp
unfolding wait_all
soft_reset_async_wait_bcast num_pp polled p =
    if p.bcast_reset
    then (
      (wait_all num_pp 0 polled p).0,
      record (wait_all num_pp 0 polled p).1 { bcast_reset = false },
    )
    else (ok tt, p)

-- The frames of both GPUs; a Mali-400 frame has no `use_dlbu` and no `pad`. The registers of the
-- DLBU share their place with the addresses of the PLBU arrays.
pub record Frame : Type 0 where
  pub frame : ℕ → ℕ
  pub num_pp : ℕ
  pub wb : ℕ → ℕ
  pub use_dlbu : ℕ
  pub pad : ℕ
  pub plbu_array_address : ℕ → ℕ
  pub fragment_stack_address : ℕ → ℕ

-- `n` writes of consecutive words from the `j`-th on.
unfoldable pub write_words : Block → ℕ → (ℕ → ℕ) → ℕ → ℕ → Pp → Pp
write_words x base words zero j p = p
write_words x base words (suc n) j p =
    write_words x base words n (j + 1) (write x (base + j * 4) (words j) p)

abbrev pub frame_reg_num : ℕ
frame_reg_num = 23

abbrev pub wb_reg_num : ℕ
wb_reg_num = 12

-- lima_pp_write_frame.
unfoldable pub write_frame : Block → Frame → Pp → Pp
unfolding write_words
write_frame x f p =
    write_words x (pp_wb 2) (λ j. f.wb (2 * wb_reg_num + j)) wb_reg_num 0
      (write_words x (pp_wb 1) (λ j. f.wb (wb_reg_num + j)) wb_reg_num 0
        (write_words x (pp_wb 0) f.wb wb_reg_num 0
          (write_words x pp_frame f.frame frame_reg_num 0 p)))

-- lima_pp_hard_reset: `polls` is how often it polled, `polled` whether it succeeded.
abbrev poll_writes : ℕ → ℕ → Pp → Pp
poll_writes i zero p = p
poll_writes i (suc n) p = poll_writes i n (write (processor i) pp_perf_cnt_0_limit 3222929408 p)

unfoldable pub hard_reset : ℕ → ℕ → Bool → Pp → Result (Unit {0}) × Pp
hard_reset i polls polled p =
    let q = poll_writes i polls (
      write (processor i) pp_ctrl pp_ctrl_force_reset (
        write (processor i) pp_int_mask 0
          (write (processor i) pp_perf_cnt_0_limit 3237994496 p))) in
    if polled
    then (ok tt, unmask (processor i) (write (processor i) pp_perf_cnt_0_limit 0 q))
    else (err etimedout, q)

-- lima_pp_task_validate.
unfoldable pub task_validate : Cores → Frame → Result (Unit {0})
task_validate c f =
    if c.bcast_processor && not (f.pad == 0)
    then err einval
    else if (f.num_pp == 0) || ltb c.num_processor f.num_pp
    then err einval
    else ok tt

-- The bits of the first processors, joined to a mask.
abbrev pub mask_of : Cores → ℕ → ℕ → ℕ → ℕ
mask_of c zero i mask = mask
mask_of c (suc k) i mask = mask_of c k (i + 1) (bit_or mask (bit (c.number i)))

-- LIMA_DLBU_PP_ENABLE_MASK and the four registers that a frame sets; LIMA_BCAST_BROADCAST_MASK, of
-- which `old` is the value read.
abbrev pub dlbu_enable : Cores → ℕ → Pp → Pp
dlbu_enable c num_pp p = write dlbu 24 (mask_of c num_pp 0 0) p

abbrev pub dlbu_disable : Pp → Pp
dlbu_disable p = write dlbu 24 0 p

abbrev pub dlbu_set_reg : (ℕ → ℕ) → Pp → Pp
dlbu_set_reg reg p =
    write dlbu 20 (reg 3) (write dlbu 16 (reg 2) (write dlbu 12 (reg 1) (write dlbu 8 (reg 0) p)))

abbrev pub bcast_enable : Cores → ℕ → ℕ → Pp → Pp
bcast_enable c old num_pp p = write bcast 0 (mask_of c num_pp 0 (old / 2 ^ 16 % 2 ^ 16 * 2 ^ 16)) p

-- The loop of the broadcast branch over the processors.
unfoldable pub set_stacks : Frame → ℕ → ℕ → Pp → Pp
set_stacks f zero i p = p
set_stacks f (suc k) i p = set_stacks f k (i + 1) (
    if f.use_dlbu == 0
    then write (processor i) pp_frame (f.plbu_array_address i)
        (write (processor i) pp_stack (f.fragment_stack_address i) p)
    else write (processor i) pp_stack (f.fragment_stack_address i) p)

-- The loop of the other branch: the frame's own words are set for each processor.
unfoldable pub start_each : Frame → (ℕ → Bool) → ℕ → ℕ → Pp → Pp
unfolding soft_reset_async_wait write_frame
start_each f polled zero i p = p
start_each f polled (suc k) i p =
    let own = record f {
      frame = update (update f.frame 0 (f.plbu_array_address i)) 12 (f.fragment_stack_address i);
    } in
    start_each own polled k (i + 1) (
      write (processor i) pp_ctrl pp_ctrl_start_rendering
        (write_frame (processor i) own (soft_reset_async_wait i (polled i) p).1))

-- LIMA_VA_RESERVE_DLBU
abbrev va_reserve_dlbu : ℕ
va_reserve_dlbu = 4293918720

abbrev pub dlbu_frame : Frame → Frame
dlbu_frame f = if f.use_dlbu == 0 then f else record f { frame = update f.frame 0 va_reserve_dlbu }

-- lima_pp_task_run: `polled` is what the polls for the resets saw, `old` the mask of the broadcast
-- unit.
unfoldable pub task_run : Cores → (ℕ → Bool) → ℕ → Frame → Pp → Pp
unfolding soft_reset_async_wait_bcast write_frame set_stacks start_each
task_run c polled old f p =
    if c.bcast_processor
    then (let p1 = record p { done = λ _. false; task = f.num_pp } in
        let p2 =
          if f.use_dlbu == 0
          then dlbu_disable p1
          else dlbu_set_reg f.plbu_array_address (dlbu_enable c f.num_pp p1) in
        let p3 = (soft_reset_async_wait_bcast f.num_pp polled (bcast_enable c old f.num_pp p2)).1 in
        write pp_bcast pp_ctrl pp_ctrl_start_rendering
          (set_stacks f f.num_pp 0 (write_frame pp_bcast (dlbu_frame f) p3)))
    else start_each f polled f.num_pp 0 (record p { task = f.num_pp })

-- lima_pp_task_fini, for `k` processors from the `i`-th on, and lima_pp_task_error.
unfoldable pub reset_each : ℕ → ℕ → Pp → Pp
unfolding soft_reset_async
reset_each zero i p = p
reset_each (suc k) i p = reset_each k (i + 1) (soft_reset_async i p)

unfoldable pub task_fini : Cores → Pp → Pp
unfolding soft_reset_async_bcast reset_each
task_fini c p =
    if c.bcast_processor then soft_reset_async_bcast p else reset_each c.num_processor 0 p

unfoldable pub task_error : (ℕ → ℕ) → (ℕ → Bool) → ℕ → ℕ → Pp → Pp
unfolding hard_reset
task_error polls polled zero i p = p
task_error polls polled (suc k) i p =
    task_error polls polled k (i + 1) (hard_reset i (polls i) (polled i) p).1
