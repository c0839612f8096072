-- ===== src/Ioctl/Checks.antt =====
-- The checks of a submit, in their order.
use lima_backport_sprd7730se.Prelude.{
  List, [], ◌∷◌, ℕ, ◌≡◌, refl, Bool, true, false, not, ◌||◌, Option, none, some, ◌==◌, leb,
  if◌then◌else◌,
}
use lima_backport_sprd7730se.Errno.{einval, enomem, efault, Errno}
use lima_backport_sprd7730se.Ctx.{Ctxs, idr_find}
use lima_backport_sprd7730se.Ioctl.{File, Args, User}

-- The context that an id stands for, unless it is being freed.
abbrev pub usable : Option ℕ → Ctxs → Option ℕ
usable none m = none
usable (some c) m = if m.freed c then none else some c

abbrev pub is_none {ℓ} : {A : Type ℓ} → Option A → Bool
is_none none = true
is_none (some a) = false

-- The checks in their order, each with its error; the first that fails decides.
abbrev pub first_failing : List (Bool × Errno) → Option Errno
first_failing [] = none
first_failing ((failed, e) ∷ l) = let rest = first_failing l in if failed then some e else rest

abbrev pub later_checks : User → List (Bool × Errno)
later_checks u =
    (not u.bos_allocated, enomem)
    ∷ (is_none u.bos, efault)
    ∷ (not u.task_allocated, enomem)
    ∷ (is_none u.frame, efault)
    ∷ []

abbrev pub checks : User → Args → File → List (Bool × Errno)
checks u args f =
    ((leb 2 args.pipe || args.nr_bos == 0), einval)
    ∷ (leb 2 args.flags, einval)
    ∷ (not (args.frame_size == u.pipe_frame_size args.pipe), einval)
    ∷ (is_none (usable (idr_find args.ctx f.ctxs.handles) f.ctxs), einval)
    ∷ later_checks u

pub not_lem : (b : Bool) → not b ≡ false → b ≡ true
not_lem true h = refl
not_lem false h = cc

pub not-true : (b : Bool) → not b ≡ true → b ≡ false
not-true false h = refl
not-true true h = cc

pub is_none_lem {ℓ} : {A : Type ℓ} (o : Option A) → is_none o ≡ false → (a : A) × (o ≡ some a)
is_none_lem none h = cc
is_none_lem (some a) h = (a, refl)

pub is_none-none {ℓ} : {A : Type ℓ} (o : Option A) → is_none o ≡ true → o ≡ none
is_none-none none h = refl
is_none-none (some a) h = cc

-- Every check passes.
abbrev pub Passes : List (Bool × Errno) → Type 0
Passes [] = Unit
Passes ((failed, e) ∷ []) = failed ≡ false
Passes ((failed, e) ∷ c ∷ l) = (failed ≡ false) × Passes (c ∷ l)

first_passes :
    (failed : Bool) (e : Errno) (l : List (Bool × Errno))
    → first_failing ((failed, e) ∷ l) ≡ none
    → (failed ≡ false) × (first_failing l ≡ none)
first_passes true e l h = cc
first_passes false e l h = (refl, h)

pub all_pass : (l : List (Bool × Errno)) → first_failing l ≡ none → Passes l
all_pass [] h = tt
all_pass ((failed, e) ∷ []) h = (first_passes failed e [] h).0
all_pass ((failed, e) ∷ c ∷ l) h =
    let (now, later) = first_passes failed e (c ∷ l) h in (now, all_pass (c ∷ l) later)
