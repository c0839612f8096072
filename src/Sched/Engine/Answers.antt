-- ===== src/Sched/Engine/Answers.antt =====
-- Every task that a history submits is answered in the end.
use lima_backport_sprd7730se.Prelude.{
  some_inj, ℕ, ◌≤◌, ◌<◌, ◌≡◌, refl, ap, sym, ◌∙◌, true, some, none, Option, List, [], ◌∷◌, ◌++◌,
  map, length, option_list, arith,
}
use mathlib.Core.List.{append_assoc, append-nil}
use mathlib.Core.Path.{subst}
use lima_backport_sprd7730se.Fence.{Fences, ◌>>=◌}
use lima_backport_sprd7730se.Sched.Task.{Task}
use lima_backport_sprd7730se.Sched.Pipe.{Config, Pipe, pipe_init}
use lima_backport_sprd7730se.Sched.Engine.{Event, steps, pending}
use lima_backport_sprd7730se.Sched.Engine.Core.{task_of, Answered}
use lima_backport_sprd7730se.Sched.Engine.History.{AllowedAll, After, pipe_init-Inv}
use lima_backport_sprd7730se.Sched.Engine.Grows.{submitted_by, submitted_in, step-Grows}
use lima_backport_sprd7730se.Sched.Engine.Drain.{
  Answer, Ready, rounds, step-Ready, rounds-Ready, steps-append, lengths,
}

history-Ready :
    (c : Config) (es : List Event) (p : Pipe)
    → 0 < c.sched_timeout_ms
    → AllowedAll c es p
    → Ready p
    → (q : Pipe) × (steps c es p ≡ some q)
      × (q.submitted ≡ p.submitted ++ submitted_in es)
      × Ready q
unfolding steps AllowedAll
history-Ready c [] p l h r = (p, refl, sym (append-nil p.submitted), r)
history-Ready c (e ∷ es) p l h r =
    let (p1, e1, r1) = step-Ready c e p l h.0 r in
    let (q, e2, all, r2) = history-Ready c es p1 l (subst (After (AllowedAll c es)) e1 h.1) r1 in
    let (done, g) = step-Grows c e p p1 e1 in
    (
      q,
      rw (e1, steps) e2,
      all
          ∙ ap (λ (l : List Task). l ++ submitted_in es) g.submitted
          ∙ append_assoc p.submitted (submitted_by e) (submitted_in es),
      r2,
    )

pipe_init-empty :
    (store : Fences) (mmu : List ℕ) (p : Pipe)
    → pipe_init true store mmu ≡ some p
    → (p.submitted ≡ []) × (p.current_task ≡ none)
unfolding pipe_init
pipe_init-empty store mmu p e = rw (sym (some_inj e)) (refl, refl)

none_left :
    (cur : Option Task) (queue : List Task)
    → length (option_list cur ++ queue) ≤ 0
    → (cur ≡ none) × (queue ≡ [])
none_left none [] h = (refl, refl)
none_left none (t ∷ ts) h = absurd (omega (arith, h))
none_left (some t) queue h = absurd (omega (arith, h))

-- Every task is answered, also when the hardware never answers, if the timeout is on and every wait for
-- a dependency, which has no time limit and comes before the timeout is armed, returns: after any
-- allowed history of a new pipe, at least as many rounds of the run work, an interrupt or the timeout,
-- and the done work as there are submitted tasks are carried out to their end and leave no task running
-- and none queued; the tasks finished are the submitted ones in order, and the fence of each was
-- signaled, with success or an error, when the completion of the task was over.
pub history-answers :
    (c : Config) (es : List Event) (rs : List (ℕ × Answer × ℕ)) (store : Fences) (mmu : List ℕ)
    → 0 < c.sched_timeout_ms
    → length (submitted_in es) ≤ length rs
    → After (AllowedAll c es) (pipe_init true store mmu)
    → (q : Pipe) × ((pipe_init true store mmu >>= steps c (es ++ rounds rs)) ≡ some q)
      × (q.current_task ≡ none)
      × (q.queue ≡ [])
      × (map task_of q.finished ≡ submitted_in es)
      × Answered q.finished q.answered
history-answers c es rs store mmu l enough h =
    let (p, e, v) = pipe_init-Inv store mmu in
    let (none_submitted, none_runs) = pipe_init-empty store mmu p e in
    let r : Ready p = record { inv = v; watched = rw none_runs tt } in
    let (p1, e1, all, r1) = history-Ready c es p l (subst (After (AllowedAll c es)) e h) r in
    let (q, e2, same, le, r2) = rounds-Ready c rs p1 l r1 in
    let sent : q.submitted ≡ submitted_in es =
      same ∙ all ∙ ap (λ (l : List Task). l ++ submitted_in es) none_submitted in
    let bound : length (pending p1) ≤ length (submitted_in es) = omega (
      arith,
      lengths p1 r1.inv,
      ap (λ (l : List Task). length l) all,
      ap (λ (l : List Task). length (l ++ submitted_in es)) none_submitted,
    ) in
    let (idle, empty) = none_left q.current_task q.queue (omega (arith, le, bound)) in
    let answered : q.submitted ≡ map task_of q.finished ++ [] =
      subst (λ (o : Option Task). q.submitted ≡ map task_of q.finished ++ (option_list o ++ []))
        idle
        (subst
          (λ (l : List Task).
            q.submitted ≡ map task_of q.finished ++ (option_list q.current_task ++ l))
          empty r2.inv.core.order) in
    (
      q,
      rw (e, steps-append c es (rounds rs) p, e1) e2,
      idle,
      empty,
      sym (append-nil (map task_of q.finished)) ∙ sym answered ∙ sent,
      r2.inv.core.answered,
    )
