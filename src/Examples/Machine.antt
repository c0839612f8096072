-- ===== src/Examples/Machine.antt =====
-- A submit and the works that run its task.
use lima_backport_sprd7730se.Prelude.{◌≡◌, refl, false, Option, none, some, List, [], ◌∷◌, map}
use lima_backport_sprd7730se.Errno.{ok, nonneg}
use lima_backport_sprd7730se.Sched.Pipe.{Config}
use lima_backport_sprd7730se.Sched.Engine.Balance.{Work, runs, completes, interrupts}
use lima_backport_sprd7730se.Ioctl.{File}
use lima_backport_sprd7730se.Ioctl.Returns.{Whole}
use lima_backport_sprd7730se.Ioctl.Machine.{
  submits, works, turn, turns, After, AllowedTurns, turns-Whole,
}
use lima_backport_sprd7730se.Examples.Files.{answers3, user2, args, whole, own, whole-Whole, named}

abbrev config : Config
config = record {
  sched_timeout_ms = 500;
  task_validate = λ _. ok tt;
  waiting = λ k intr t f st. (nonneg t, st);
}

abbrev running : List Work
running = runs 0 ∷ interrupts false ∷ completes 1 ∷ []

everywhere : (P : File → Type 0) → ((f : File) → P f) → (o : Option File) → After P o
everywhere P h none = tt
everywhere P h (some f) = h f

works_allowed :
    (ws : List Work) (f : File) → AllowedTurns config args.pipe (3 ∷ []) own (map works ws) f
unfolding AllowedTurns
works_allowed [] f = tt
works_allowed (w ∷ ws) f = (
  tt,
  everywhere (AllowedTurns config args.pipe (3 ∷ []) own (map works ws)) (works_allowed ws)
      (turn config (works w) f),
)

turns-Whole_example :
    (g : File) × (turns config (submits answers3 user2 args ∷ map works running) whole ≡ some g)
    × Whole (3 ∷ []) own g
unfolding AllowedTurns
turns-Whole_example =
    turns-Whole config args.pipe (3 ∷ []) own (submits answers3 user2 args ∷ map works running)
      whole
      (
        (refl, named, refl),
        everywhere (AllowedTurns config args.pipe (3 ∷ []) own (map works running))
            (works_allowed running) (turn config (submits answers3 user2 args) whole),
      )
      whole-Whole
