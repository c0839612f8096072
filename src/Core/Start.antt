-- ===== src/Core/Start.antt =====
-- What starting a task writes: the command of the geometry processor, and the counters of the pixel
-- processors.
use lima_backport_sprd7730se.Prelude.{
  ℕ, zero, suc, ◌+◌, ◌*◌, ◌^◌, ◌≤◌, ◌<◌, ◌≡◌, ap, ◌∙◌, refl, if◌then◌else◌, inl, inr, Bool, true,
  false, List, [], ◌∷◌, ◌++◌, ◌==◌, Bool-cases, arith, update,
}
use lima_backport_sprd7730se.Errno.{Result, ok}
use lima_backport_sprd7730se.Core.Regs.{
  pp_ctrl, pp_ctrl_start_rendering, pp_frame, pp_stack, pp_wb, gp_cmd, gp_cmd_update_plbu_alloc,
}
use lima_backport_sprd7730se.Core.Gp.{Gp, start_cmd, vs_start, vs_end, plbu_start, plbu_end}
use lima_backport_sprd7730se.Core.Gp
use lima_backport_sprd7730se.Core.Pp.{Block, Cores, Pp, pp_bcast, write, processor}
use lima_backport_sprd7730se.Core.PpTask.{
  dlbu_enable, dlbu_disable, dlbu_set_reg, bcast_enable, dlbu_frame, frame_reg_num, wb_reg_num,
  Frame, task_run, write_words, write_frame, set_stacks, soft_reset_async_wait_one, wait_all,
  soft_reset_async_wait_bcast, soft_reset_async_wait, start_each,
}
use lima_backport_sprd7730se.Core.Count.{
  SameCounters, same, same_trans, Counted, remaining, bcast_irqs, bcast_irqs-Counted,
}

-- A frame that lima_gp_task_validate accepts makes lima_gp_task_run start a part of the block: its
-- last write is to the command register, with a command other than 0.
pub task_run-task_validate :
    (poll : Result (Unit {0})) (f : ℕ → ℕ) (g : Gp)
    → Gp.task_validate f ≡ ok tt
    → (before : List (ℕ × ℕ)) × (cmd : ℕ) × ((Gp.task_run poll f g).writes
        ≡ before ++ (gp_cmd, cmd) ∷ [])
      × (1 ≤ cmd)
unfolding Gp.task_run Gp.task_validate
task_run-task_validate poll f g h = (
  (Gp.write gp_cmd gp_cmd_update_plbu_alloc
      (Gp.write_frame f (Gp.soft_reset_async_wait poll g).1)).writes,
  start_cmd f,
  refl,
  ground (arith, h),
)

write_words-SameCounters :
    (x : Block) (base : ℕ) (words : ℕ → ℕ) (n j : ℕ) (p : Pp)
    → SameCounters p (write_words x base words n j p)
unfolding write_words
write_words-SameCounters x base words zero j p = same p
write_words-SameCounters x base words (suc n) j p =
    let rest =
      write_words-SameCounters x base words n (j + 1) (write x (base + j * 4) (words j) p) in
    record { task = rest.task; done = rest.done; done_calls = rest.done_calls }

write_frame-SameCounters : (x : Block) (f : Frame) (p : Pp) → SameCounters p (write_frame x f p)
unfolding write_frame
write_frame-SameCounters x f p =
    let p1 = write_words x pp_frame f.frame frame_reg_num 0 p in
    let p2 = write_words x (pp_wb 0) f.wb wb_reg_num 0 p1 in
    let p3 = write_words x (pp_wb 1) (λ j. f.wb (wb_reg_num + j)) wb_reg_num 0 p2 in
    let p4 = write_words x (pp_wb 2) (λ j. f.wb (2 * wb_reg_num + j)) wb_reg_num 0 p3 in
    same_trans p p1 p4 (write_words-SameCounters x pp_frame f.frame frame_reg_num 0 p) (
      same_trans p1 p2 p4 (write_words-SameCounters x (pp_wb 0) f.wb wb_reg_num 0 p1) (
        same_trans p2 p3 p4
          (write_words-SameCounters x (pp_wb 1) (λ j. f.wb (wb_reg_num + j)) wb_reg_num 0 p2)
          (write_words-SameCounters x (pp_wb 2) (λ j. f.wb (2 * wb_reg_num + j)) wb_reg_num 0 p3)))

wait_one-SameCounters :
    (i : ℕ) (polled : Bool) (p : Pp) → SameCounters p (soft_reset_async_wait_one i polled p).1
unfolding soft_reset_async_wait_one
wait_one-SameCounters i true p = record { task = refl; done = refl; done_calls = refl }
wait_one-SameCounters i false p = same p

wait_all-SameCounters :
    (k i : ℕ) (polled : ℕ → Bool) (p : Pp) → SameCounters p (wait_all k i polled p).1
unfolding wait_all
wait_all-SameCounters zero i polled p = same p
wait_all-SameCounters (suc k) i polled p =
    let q = (soft_reset_async_wait_one i (polled i) p).1 in
    same_trans p q (wait_all k (i + 1) polled q).1 (wait_one-SameCounters i (polled i) p)
      (wait_all-SameCounters k (i + 1) polled q)

wait_bcast-SameCounters :
    (n : ℕ) (polled : ℕ → Bool) (p : Pp) → SameCounters p (soft_reset_async_wait_bcast n polled p).1
unfolding soft_reset_async_wait_bcast
wait_bcast-SameCounters n polled p = elim (Bool-cases p.bcast_reset) [
  | inl t ↦
      let a = wait_all-SameCounters n 0 polled p in
      simp t (record { task = a.task; done = a.done; done_calls = a.done_calls })
  | inr t ↦ simp t (same p)
]

set_stacks-SameCounters : (f : Frame) (k i : ℕ) (p : Pp) → SameCounters p (set_stacks f k i p)
unfolding set_stacks
set_stacks-SameCounters f zero i p = same p
set_stacks-SameCounters f (suc k) i p = elim (Bool-cases (f.use_dlbu == 0)) [
  | inl t ↦
      let q =
        write (processor i) pp_frame (f.plbu_array_address i)
          (write (processor i) pp_stack (f.fragment_stack_address i) p) in
      let a = set_stacks-SameCounters f k (i + 1) q in
      simp t (record { task = a.task; done = a.done; done_calls = a.done_calls })
  | inr t ↦
      let a =
        set_stacks-SameCounters f k (i + 1)
          (write (processor i) pp_stack (f.fragment_stack_address i) p) in
      simp t (record { task = a.task; done = a.done; done_calls = a.done_calls })
]

wait-SameCounters :
    (i : ℕ) (polled : Bool) (p : Pp) → SameCounters p (soft_reset_async_wait i polled p).1
unfolding soft_reset_async_wait
wait-SameCounters i polled p = elim (Bool-cases (p.async_reset i)) [
  | inl t ↦
      let a = wait_one-SameCounters i polled p in
      simp t (record { task = a.task; done = a.done; done_calls = a.done_calls })
  | inr t ↦ simp t (same p)
]

start_each-SameCounters :
    (f : Frame) (polled : ℕ → Bool) (k i : ℕ) (p : Pp) → SameCounters p (start_each f polled k i p)
unfolding start_each
start_each-SameCounters f polled zero i p = same p
start_each-SameCounters f polled (suc k) i p =
    let own = record f {
      frame = update (update f.frame 0 (f.plbu_array_address i)) 12 (f.fragment_stack_address i);
    } in
    let q = (soft_reset_async_wait i (polled i) p).1 in
    let r = write_frame (processor i) own q in
    let a =
      same_trans p q r (wait-SameCounters i (polled i) p)
        (write_frame-SameCounters (processor i) own q) in
    let w = write (processor i) pp_ctrl pp_ctrl_start_rendering r in
    same_trans p w (start_each own polled k (i + 1) w)
      (record { task = a.task; done = a.done; done_calls = a.done_calls })
      (start_each-SameCounters own polled k (i + 1) w)

-- The counters after a start on the single processors.
pub task_run-StartedEach :
    (c : Cores) (polled : ℕ → Bool) (old : ℕ) (f : Frame) (p : Pp)
    → c.bcast_processor ≡ false
    → SameCounters (record p { task = f.num_pp }) (task_run c polled old f p)
unfolding task_run
task_run-StartedEach c polled old f p e =
    let a = start_each-SameCounters f polled f.num_pp 0 (record p { task = f.num_pp }) in
    simp e (record { task = a.task; done = a.done; done_calls = a.done_calls })

dlbu-SameCounters :
    (c : Cores) (f : Frame) (without : Bool) (p : Pp)
    → SameCounters p (
        if without
        then dlbu_disable p
        else dlbu_set_reg f.plbu_array_address (dlbu_enable c f.num_pp p))
dlbu-SameCounters c f true p = record { task = refl; done = refl; done_calls = refl }
dlbu-SameCounters c f false p = record { task = refl; done = refl; done_calls = refl }

remaining-none : (n : ℕ) → remaining n (λ _. false) ≡ n
remaining-none zero = refl
remaining-none (suc n) = omega (arith, remaining-none n)

-- The counters after a start on the broadcast unit.
task_run-Started :
    (c : Cores) (polled : ℕ → Bool) (old : ℕ) (f : Frame) (p : Pp)
    → c.bcast_processor ≡ true
    → SameCounters (record p { done = λ _. false; task = f.num_pp }) (task_run c polled old f p)
unfolding task_run
task_run-Started c polled old f p e =
    let p1 = record p { done = λ _. false; task = f.num_pp } in
    let p2 =
      if f.use_dlbu == 0
      then dlbu_disable p1
      else dlbu_set_reg f.plbu_array_address (dlbu_enable c f.num_pp p1) in
    let p2' = bcast_enable c old f.num_pp p2 in
    let p3 = (soft_reset_async_wait_bcast f.num_pp polled p2').1 in
    let p4 = write_frame pp_bcast (dlbu_frame f) p3 in
    let p5 = set_stacks f f.num_pp 0 p4 in
    let a = dlbu-SameCounters c f (f.use_dlbu == 0) p1 in
    let b = same_trans p2' p3 p5 (wait_bcast-SameCounters f.num_pp polled p2') (
      same_trans p3 p4 p5 (write_frame-SameCounters pp_bcast (dlbu_frame f) p3)
        (set_stacks-SameCounters f f.num_pp 0 p4)) in
    simp e (record {
      task = b.task ∙ a.task;
      done = b.done ∙ a.done;
      done_calls = b.done_calls ∙ a.done_calls;
    })

Counted-Started :
    (n : ℕ) (p q : Pp)
    → 1 ≤ n
    → SameCounters (record p { done = λ _. false; task = n }) q
    → Counted n p.done_calls q
Counted-Started n p q h s =
    let r = ap (remaining n) s.done in
    record {
      task = ground (arith, s.task, r, remaining-none n);
      done_calls = ground (arith, s.done_calls, r, remaining-none n, h);
    }

-- A frame started on the broadcast unit, then any interrupts of that unit, with any values of the
-- registers: the counter is the number of the frame's processors that are not done, and the end of
-- the task was reported exactly once if that is none of them, else not at all. The frame has at
-- least one processor and fewer than 2 ^ 32.
pub bcast_irqs-task_run :
    (c : Cores) (polled : ℕ → Bool) (old : ℕ) (f : Frame) (irqs : List (ℕ → ℕ × ℕ)) (p : Pp)
    → c.bcast_processor ≡ true
    → 1 ≤ f.num_pp
    → f.num_pp < 2 ^ 32
    → Counted f.num_pp p.done_calls (bcast_irqs f.num_pp irqs (task_run c polled old f p))
unfolding task_run
bcast_irqs-task_run c polled old f irqs p e h b =
    bcast_irqs-Counted f.num_pp p.done_calls irqs (task_run c polled old f p) b (
      Counted-Started f.num_pp p (task_run c polled old f p) h
        (task_run-Started c polled old f p e))
