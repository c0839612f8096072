-- ===== src/Examples/Cores.antt =====
-- Frames on the processors.
use lima_backport_sprd7730se.Prelude.{
  ℕ, ◌+◌, ◌≤◌, ◌≡◌, refl, true, false, List, [], ◌∷◌, ◌++◌, leb, ◌==◌, if◌then◌else◌, arith,
}
use lima_backport_sprd7730se.Errno.{ok}
use lima_backport_sprd7730se.Core.Regs.{gp_cmd}
use lima_backport_sprd7730se.Core.Gp.{Gp}
use lima_backport_sprd7730se.Core.Gp
use lima_backport_sprd7730se.Core.Pp.{Cores, Pp}
use lima_backport_sprd7730se.Core.PpTask.{Frame, task_run}
use lima_backport_sprd7730se.Core.Count.{Counted, bcast_irqs}
use lima_backport_sprd7730se.Core.Irqs.{irqs, own_irqs, irqs-done_calls}
use lima_backport_sprd7730se.Core.Start.{task_run-task_validate, bcast_irqs-task_run}

abbrev idle_gp : Gp
idle_gp = record { async_reset = false; error = false; done_calls = 0; writes = [] }

-- A vertex list of 16 bytes and no PLBU list.
abbrev vertices : ℕ → ℕ
vertices i = if i == 1 then 16 else 0

task_run-task_validate_example :
    (before : List (ℕ × ℕ)) × (cmd : ℕ) × ((Gp.task_run (ok tt) vertices idle_gp).writes
      ≡ before ++ (gp_cmd, cmd) ∷ [])
    × (1 ≤ cmd)
unfolding Gp.task_validate
task_run-task_validate_example = task_run-task_validate (ok tt) vertices idle_gp refl

abbrev idle_pp : Pp
idle_pp = record {
  task = 2;
  done = λ _. false;
  error = false;
  done_calls = 0;
  async_reset = λ _. false;
  bcast_reset = false;
  writes = [];
}

abbrev frame : Frame
frame = record {
  frame = λ _. 0;
  num_pp = 2;
  wb = λ _. 0;
  use_dlbu = 0;
  pad = 0;
  plbu_array_address = λ i. i;
  fragment_stack_address = λ i. i;
}

abbrev cores : Cores
cores = record { num_processor = 2; number = λ i. i; bcast_processor = true }

-- The first processor has ended, the second is still rendering; then both have ended.
abbrev bcast_reads : List (ℕ → ℕ × ℕ)
bcast_reads = (λ i. if i == 0 then (0, 1) else (1, 0)) ∷ (λ i. (0, 1)) ∷ []

bcast_irqs-task_run_example :
    Counted 2 0 (bcast_irqs 2 bcast_reads (task_run cores (λ _. true) 0 frame idle_pp))
bcast_irqs-task_run_example =
    bcast_irqs-task_run cores (λ _. true) 0 frame bcast_reads idle_pp refl (omega arith)
      (omega arith)

abbrev two_irqs : List (ℕ × ℕ)
two_irqs = (0, 1) ∷ (1, 0) ∷ (1, 1) ∷ []

abbrev single_cores : Cores
single_cores = record cores { bcast_processor = false }

irqs-done_calls_example :
    (irqs two_irqs (task_run single_cores (λ _. true) 0 frame idle_pp)).done_calls
    ≡ 0 + (if leb 2 (own_irqs two_irqs) then 1 else 0)
irqs-done_calls_example =
    irqs-done_calls single_cores (λ _. true) 0 frame two_irqs idle_pp refl (omega arith)
      (omega arith) (omega arith)
