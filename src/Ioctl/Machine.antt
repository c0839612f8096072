-- ===== src/Ioctl/Machine.antt =====
-- A file and its pipe as one machine: submits through the ioctl, and between them whatever the
-- workqueue, the interrupts and the timeout do to the pipe.
use lima_backport_sprd7730se.Prelude.{ℕ, ◌≡◌, refl, Option, none, some, List, [], ◌∷◌, arith}
use mathlib.Core.Path.{subst}
use lima_backport_sprd7730se.Fence.{◌>>=◌, >>=-some}
use lima_backport_sprd7730se.Sched.Pipe.{Config, Pipe}
use lima_backport_sprd7730se.Sched.Engine.{step, Allowed}
use lima_backport_sprd7730se.Sched.Engine.Balance.{
  Work, runs, completes, times_out, faults, interrupts, event_of, step-Balanced,
}
use lima_backport_sprd7730se.Sched.Engine.History.{step-Inv}
use lima_backport_sprd7730se.Gem.{Answers}
use lima_backport_sprd7730se.Gem.System.{Fresh}
use lima_backport_sprd7730se.Ioctl.{File, Args, User, store_of, ioctl_gem_submit}
use lima_backport_sprd7730se.Ioctl.Returns.{Whole, Handles, ioctl_gem_submit-Submitted}

pub data Turn : Type 0 where
  submits : Answers → User → Args → Turn
  works : Work → Turn

abbrev with_pipe : File → Pipe → File
with_pipe f q = record f { bufs = record f.bufs { pipe = q } }

unfoldable pub turn : Config → Turn → File → Option File
turn c (submits a u args) f = ioctl_gem_submit a u args f >>= λ r. some r.1
turn c (works w) f = step c (event_of w) f.bufs.pipe >>= λ q. some (with_pipe f q)

unfoldable pub turns : Config → List Turn → File → Option File
unfolding turn
turns c [] f = some f
turns c (t ∷ ts) f = turn c t f >>= turns c ts

-- A submit names the pipe of the machine, whose number is `k`; its handles name listed buffers of the
-- file, and its fence is at an unused address.
abbrev pub AllowedTurn : ℕ → List ℕ → List ℕ → Turn → File → Type 0
AllowedTurn k objs own (submits a u args) f =
    (args.pipe ≡ k) × Handles a.find objs own × Fresh a.fresh (store_of f)
AllowedTurn k objs own (works w) f = Unit

abbrev pub After : (File → Type 0) → Option File → Type 0
After P none = Unit
After P (some f) = P f

unfoldable pub AllowedTurns : Config → ℕ → List ℕ → List ℕ → List Turn → File → Type 0
unfolding turn
AllowedTurns c k objs own [] f = Unit
AllowedTurns c k objs own (t ∷ ts) f =
    AllowedTurn k objs own t f × After (AllowedTurns c k objs own ts) (turn c t f)

work-Allowed : (w : Work) (p : Pipe) → Allowed (event_of w) p
work-Allowed (runs now) p = tt
work-Allowed (completes now) p = tt
work-Allowed times_out p = tt
work-Allowed faults p = tt
work-Allowed (interrupts failed) p = tt

turn-Whole :
    (c : Config) (k : ℕ) (objs own : List ℕ) (t : Turn) (f : File)
    → AllowedTurn k objs own t f
    → Whole objs own f
    → (g : File) × (turn c t f ≡ some g) × Whole objs own g
unfolding turn
turn-Whole c k objs own (submits a u args) f (same, handles, fresh) w =
    let (r, g, e, s) = ioctl_gem_submit-Submitted objs own a u args f w handles fresh in
    (g, >>=-some _ e refl, s.whole)
turn-Whole c k objs own (works x) f h w =
    let p = f.bufs.pipe in
    let (q, e, v) = step-Inv c (event_of x) p (work-Allowed x p) w.system.inv in
    (
      with_pipe f q,
      >>=-some _ e refl,
      record {
        system = record {
          inv = v;
          covers = λ a. omega (arith, w.system.covers a, step-Balanced c x p q a e);
        };
        table = w.table;
        vm = w.vm;
      },
    )

-- Starting from a file whose parts fit together, any history of submits through the ioctl to one and the
-- same pipe, with whatever other arguments and failures, and of works, interrupts, faults and timeouts
-- of that pipe between them, is carried out to its end without the use of a freed object, if each submit's
-- handles name listed buffers of the file and each new fence is at an unused address. The submits and
-- the works take place one after the other: while a submit is under way, and so between its queueing of
-- the task and the end of its loop over the buffers, the pipe does nothing. The parts fit together at the
-- end: the invariant of the pipe holds, and the store has the references of the pending tasks, of the
-- reservation objects and of the file.
pub turns-Whole :
    (c : Config) (k : ℕ) (objs own : List ℕ) (ts : List Turn) (f : File)
    → AllowedTurns c k objs own ts f
    → Whole objs own f
    → (g : File) × (turns c ts f ≡ some g) × Whole objs own g
unfolding turns AllowedTurns
turns-Whole c k objs own [] f h w = (f, refl, w)
turns-Whole c k objs own (t ∷ ts) f h w =
    let (g, e, v) = turn-Whole c k objs own t f h.0 w in
    let (last, e', u) =
      turns-Whole c k objs own ts g (subst (After (AllowedTurns c k objs own ts)) e h.1) v in
    (last, >>=-some _ e e', u)
