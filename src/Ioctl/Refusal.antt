-- ===== src/Ioctl/Refusal.antt =====
-- Which submits are refused before the buffers are looked at, with which error, and that nothing stays.
use lima_backport_sprd7730se.Prelude.{
  ◌++◌, update, List, [], ◌∷◌, some_inj, ◌⊎◌, if_true, ℕ, ◌+◌, ◌≤◌, ◌≡◌, refl, ◌∙◌, Bool, true,
  false, not, ◌||◌, Option, none, some, Bool-cases, inl, inr, ◌==◌, leb, if◌then◌else◌, if_false,
  arith,
}
use lima_backport_sprd7730se.Errno.{einval, enomem, efault, Errno, Result, err}
use lima_backport_sprd7730se.Fence.{◌>>=◌, >>=-some}
use lima_backport_sprd7730se.Fence.Refs.{get-some}
use lima_backport_sprd7730se.Ctx.{Ctxs, ctx_get, take_found, idr_find}
use lima_backport_sprd7730se.Gem.{SubmitBo, Answers}
use lima_backport_sprd7730se.Ioctl.Checks.{
  usable, is_none, first_failing, later_checks, checks, not_lem, not-true, is_none_lem,
  is_none-none,
}
use lima_backport_sprd7730se.Ioctl.Unwind.{
  Unchanged, Got, Got-more, Refused, out_ctx-Refused, out_bos-Refused, out_task-Refused,
}
use lima_backport_sprd7730se.Ioctl.{
  File, Args, User, store_of, ctxs_of, with_ctxs, out_bos, out_task, with_task, with_bos, with_ctx,
  ioctl_gem_submit,
}

-- Either the first check decides, or it passes.
first_failing-cases :
    (b : Bool) (x e : Errno) (l : List (Bool × Errno))
    → first_failing ((b, x) ∷ l) ≡ some e
    → ((b ≡ true) × (x ≡ e)) ⊎ ((b ≡ false) × (first_failing l ≡ some e))
first_failing-cases true x e l h = inl (refl, some_inj h)
first_failing-cases false x e l h = inr (refl, h)

-- The refusal of the part that a call has come to.
Refused-part :
    (f : File) (x e : Errno) (o p : Option (Result (Unit {0}) × File))
    → x ≡ e
    → o ≡ p
    → Refused f x p
    → Refused f e o
Refused-part f x e o p h k (g, i, u) = (g, rw⁻¹ h (k ∙ i), u)

with_task-none :
    (a : Answers) (u : User) (args : Args) (c : ℕ) (bos : List SubmitBo) (g : File)
    → u.frame ≡ none
    → with_task a u args c bos g ≡ out_task (err efault) c g
unfolding with_task
with_task-none a u args c bos g h = rw (h, with_task) refl

with_bos-none :
    (a : Answers) (u : User) (args : Args) (c : ℕ) (g : File)
    → u.bos ≡ none
    → with_bos a u args c g ≡ out_bos (err efault) c g
unfolding with_bos
with_bos-none a u args c g h = rw (h, with_bos) refl

pub with_bos-some :
    (a : Answers) (u : User) (args : Args) (c : ℕ) (g : File) (bos : List SubmitBo)
    → u.bos ≡ some bos
    → with_bos a u args c g ≡ (
        if u.task_allocated
        then with_task a u args c bos (record g { tasks = g.tasks + 1 })
        else out_bos (err enomem) c g)
unfolding with_bos
with_bos-some a u args c g bos h = rw (h, with_bos) refl

with_bos-Refused :
    (a : Answers) (u : User) (args : Args) (c : ℕ) (f g : File) (e : Errno)
    → Got c 1 0 f g
    → first_failing
        ((is_none u.bos, efault) ∷ (not u.task_allocated, enomem) ∷ (is_none u.frame, efault) ∷ [])
      ≡ some e
    → Refused f e (with_bos a u args c g)
with_bos-Refused a u args c f g e x h =
    elim (first_failing-cases (is_none u.bos) efault e
      ((not u.task_allocated, enomem) ∷ (is_none u.frame, efault) ∷ []) h) [
        | inl (b, same) ↦
            Refused-part f efault e _ _ same (with_bos-none a u args c g (is_none-none u.bos b))
              (out_bos-Refused efault c f g x)
        | inr (b, h2) ↦
            let (bos, k) = is_none_lem u.bos b in
            let there = with_bos-some a u args c g bos k in
            elim (first_failing-cases (not u.task_allocated) enomem e
              ((is_none u.frame, efault) ∷ []) h2) [
                | inl (b2, same) ↦
                    Refused-part f enomem e _ _ same
                      (there ∙ if_false _ _ (not-true u.task_allocated b2))
                      (out_bos-Refused enomem c f g x)
                | inr (b2, h3) ↦ elim (first_failing-cases (is_none u.frame) efault e [] h3) [
                  | inl (b3, same) ↦
                      let g' = record g { tasks = g.tasks + 1 } in
                      let x' =
                        Got-more c 1 0 1 1 f g x g.arrays (g.tasks + 1) x.arrays
                          (omega (arith, x.tasks)) in
                      Refused-part f efault e _ _ same
                        (there
                          ∙ (if_true _ _ (not_lem u.task_allocated b2)
                              ∙ with_task-none a u args c bos g' (is_none-none u.frame b3)))
                        (out_task-Refused efault c f g' x')
                  | inr (b3, h4) ↦ cc
                ]
              ]
      ]

with_ctx-Refused :
    (a : Answers) (u : User) (args : Args) (c : ℕ) (f g : File) (e : Errno)
    → Got c 0 0 f g
    → first_failing (later_checks u) ≡ some e
    → Refused f e (with_ctx a u args (some c) g)
unfolding with_ctx
with_ctx-Refused a u args c f g e x h =
    elim (first_failing-cases (not u.bos_allocated) enomem e
      ((is_none u.bos, efault) ∷ (not u.task_allocated, enomem) ∷ (is_none u.frame, efault) ∷ [])
      h) [
        | inl (b, same) ↦
            Refused-part f enomem e _ _ same (if_false _ _ (not-true u.bos_allocated b))
              (out_ctx-Refused enomem c f g x)
        | inr (b, h2) ↦
            let g' = record g { arrays = g.arrays + 1 } in
            let x' =
              Got-more c 0 0 1 0 f g x (g.arrays + 1) g.tasks (omega (arith, x.arrays)) x.tasks in
            Refused-part f e e _ _ refl (if_true _ _ (not_lem u.bos_allocated b))
              (with_bos-Refused a u args c f g' e x' h2)
      ]

Unchanged-ctxs_of : (f : File) → Unchanged f (with_ctxs (ctxs_of f) f)
Unchanged-ctxs_of f = record {
  refs = λ a. refl;
  status = refl;
  queue = refl;
  resv = refl;
  bufs = refl;
  vm = refl;
  arrays = refl;
  tasks = refl;
  handles = refl;
  released = refl;
}

Unchanged-refl : (f : File) → Unchanged f f
Unchanged-refl f = record {
  refs = λ a. refl;
  status = refl;
  queue = refl;
  resv = refl;
  bufs = refl;
  vm = refl;
  arrays = refl;
  tasks = refl;
  handles = refl;
  released = refl;
}

-- The lookup of the context, in both outcomes.
found_lem :
    (a : Answers) (u : User) (args : Args) (o : Option ℕ) (f : File) (e : Errno)
    → ((c : ℕ) → o ≡ some c → 1 ≤ (store_of f).refcount c)
    → first_failing ((is_none (usable o f.ctxs), einval) ∷ later_checks u) ≡ some e
    → Refused f e (take_found o (ctxs_of f) >>= λ r. with_ctx a u args r.0 (with_ctxs r.1 f))
unfolding with_ctx
found_lem a u args none f e live h =
    Refused-part f einval e _ _ (some_inj h) refl
      (with_ctxs (ctxs_of f) f, refl, Unchanged-ctxs_of f)
found_lem a u args (some c) f e live h = elim (Bool-cases (f.ctxs.freed c)) [
  | inl fr ↦
      let k = rw (fr) at h in
      Refused-part f einval e _ _ (some_inj k) (>>=-some _ (if_true _ _ fr) refl)
        (with_ctxs (ctxs_of f) f, refl, Unchanged-ctxs_of f)
  | inr nf ↦
      let k = rw (nf) at h in
      let one = live c refl in
      let m : Ctxs = record f.ctxs {
        store = record (store_of f) {
          refcount = update (store_of f).refcount c ((store_of f).refcount c + 1);
        };
        held = f.ctxs.held ++ c ∷ [];
      } in
      let x : Got c 0 0 f (with_ctxs m f) = record {
        live = one;
        refs = λ a. ground (arith, one);
        status = refl;
        queue = refl;
        resv = refl;
        bufs = refl;
        vm = refl;
        arrays = omega arith;
        tasks = omega arith;
        handles = refl;
        released = refl;
      } in
      Refused-part f e e _ _ refl
        (>>=-some _ (if_false _ _ nf ∙ >>=-some _ (get-some c (store_of f) one) refl) refl)
        (with_ctx-Refused a u args c f (with_ctxs m f) e x k)
]

-- A submit that fails one of the checks, of the pipe and the number of buffers, the flags, the frame
-- size, the context, the allocation and the copy of the buffers, the allocation of the task and the copy
-- of the frame, in this order, is refused with the error of the first that fails, and it gives back what
-- it took: counts, fences, the queue, the reservation objects, arrays, tasks and the contexts
-- are as before. The contexts in the table must be alive.
pub ioctl_gem_submit-checks :
    (a : Answers) (u : User) (args : Args) (f : File) (e : Errno)
    → ((c : ℕ) → idr_find args.ctx f.ctxs.handles ≡ some c → 1 ≤ (store_of f).refcount c)
    → first_failing (checks u args f) ≡ some e
    → (g : File) × (ioctl_gem_submit a u args f ≡ some (err e, g)) × Unchanged f g
unfolding ioctl_gem_submit ctx_get
ioctl_gem_submit-checks a u args f e live h =
    let bad_ctx = is_none (usable (idr_find args.ctx f.ctxs.handles) f.ctxs) in
    let bad_size = not (args.frame_size == u.pipe_frame_size args.pipe) in
    let bad_pipe = (leb 2 args.pipe || args.nr_bos == 0) in
    let refused : Refused f einval (some (err einval, f)) = (f, refl, Unchanged-refl f) in
    elim (first_failing-cases bad_pipe einval e
      ((leb 2 args.flags, einval) ∷ (bad_size, einval) ∷ (bad_ctx, einval) ∷ later_checks u) h) [
        | inl (b, same) ↦ Refused-part f einval e _ _ same (if_true _ _ b) refused
        | inr (b, h1) ↦
            elim (first_failing-cases (leb 2 args.flags) einval e
              ((bad_size, einval) ∷ (bad_ctx, einval) ∷ later_checks u) h1) [
                | inl (b1, same) ↦
                    Refused-part f einval e _ _ same (if_false _ _ b ∙ if_true _ _ b1) refused
                | inr (b1, h2) ↦
                    elim (first_failing-cases bad_size einval e ((bad_ctx, einval) ∷ later_checks u)
                      h2) [
                        | inl (b2, same) ↦
                            Refused-part f einval e _ _ same
                              (if_false _ _ b ∙ (if_false _ _ b1 ∙ if_true _ _ b2)) refused
                        | inr (b2, h3) ↦
                            Refused-part f e e _ _ refl
                              (if_false _ _ b ∙ (if_false _ _ b1 ∙ if_false _ _ b2))
                              (found_lem a u args (idr_find args.ctx f.ctxs.handles) f e live h3)
                      ]
              ]
      ]
