-- ===== src/Gem/System.antt =====
-- A pipe, the buffers and their reservation objects in one store of counts.
use lima_backport_sprd7730se.Prelude.{
  ℕ, ◌≤◌, ◌≡◌, inl, inr, Bool-cases, Option, none, some, List, [], ◌∷◌, ◌==◌, All, ==_iff, arith,
  count,
}
use mathlib.Core.Path.{subst}
use lima_backport_sprd7730se.Fence.{Fences}
use lima_backport_sprd7730se.Resv.{Resv}
use lima_backport_sprd7730se.Sched.Pipe.{Pipe}
use lima_backport_sprd7730se.Sched.Engine.{pending, owned_all}
use lima_backport_sprd7730se.Sched.Engine.Invariant.{Inv}
use lima_backport_sprd7730se.Gem.{Buffers, with_store}
use lima_backport_sprd7730se.Gem.Deps.{HeldLive}
use lima_backport_sprd7730se.Gem.Publish.{in_resvs, in_resvs-held, Covers}

-- The references of the tasks that a pipe has to finish.
abbrev pub task_refs : Pipe → ℕ → ℕ
task_refs p a = count a (owned_all (pending p))

-- The pipe is well formed, and the store has the references of its tasks, of the reservation objects
-- of the buffers `objs`, and those in `own`.
pub record System (objs own : List ℕ) (b : Buffers) : Type 0 where
  pub inv : Inv b.pipe
  pub covers : Covers (task_refs b.pipe) b.resv objs own b.pipe.store

-- A buffer of the list, which is allocated.
abbrev pub Known : List ℕ → Fences → ℕ → Type 0
Known objs s x = (1 ≤ s.refcount x) × (count x objs ≡ 1)

-- The fence slab answers with an address that is not in use.
abbrev pub Fresh : Option ℕ → Fences → Type 0
Fresh none s = Unit
Fresh (some f) s = s.refcount f ≡ 0

All-count : (P : ℕ → Type 0) (xs : List ℕ) (a : ℕ) → All P xs → 1 ≤ count a xs → P a
All-count P [] a h k = absurd (omega (arith, k))
All-count P (x ∷ xs) a h k = elim (Bool-cases (x == a)) [
  | inl e ↦ subst P ((==_iff x a).0 e) h.0
  | inr e ↦ All-count P xs a h.1 (ground (arith, k, e))
]

pub Known-HeldLive :
    (objs : List ℕ) (s0 : Fences) (g : ℕ → ℕ) (resv : ℕ → Resv) (xs : List ℕ)
    → ((a : ℕ) → in_resvs resv objs a ≤ s0.refcount a)
    → ((a : ℕ) → 1 ≤ s0.refcount a → 1 ≤ g a)
    → All (Known objs s0) xs
    → HeldLive g resv xs
Known-HeldLive objs s0 g resv [] h k l = tt
Known-HeldLive objs s0 g resv (x ∷ xs) h k l = (
  (λ a m. k a (omega (arith, m, h a, in_resvs-held resv x objs a l.0.1))),
  Known-HeldLive objs s0 g resv xs h k l.1,
)

pub Known-once :
    (objs : List ℕ) (s0 : Fences) (xs : List ℕ)
    → All (Known objs s0) xs
    → All (λ x. count x objs ≡ 1) xs
Known-once objs s0 [] l = tt
Known-once objs s0 (x ∷ xs) l = (l.0.1, Known-once objs s0 xs l.1)

pub Known-apart :
    (objs : List ℕ) (s0 : Fences) (lbos : List ℕ) (f : ℕ)
    → All (Known objs s0) lbos
    → s0.refcount f ≡ 0
    → count f lbos ≡ 0
Known-apart objs s0 lbos f known new = elim (Bool-cases (count f lbos == 0)) [
  | inl n ↦ ground (arith, n)
  | inr n ↦
      absurd (omega (arith, new, (All-count (Known objs s0) lbos f known (ground (arith, n))).0))
]

-- A system with another store.
pub System-with_store :
    (objs own own' : List ℕ) (b : Buffers) (s : Fences)
    → System objs own b
    → Covers (task_refs b.pipe) b.resv objs own' s
    → System objs own' (with_store s b)
System-with_store objs own own' b s v h = record {
  inv = record {
    core = record {
      holds = λ q. omega (arith, h q);
      order = v.inv.core.order;
      flights = v.inv.core.flights;
      blame = v.inv.core.blame;
      answered = v.inv.core.answered;
    };
    mapped = v.inv.mapped;
    runs_task = v.inv.runs_task;
    awake = v.inv.awake;
  };
  covers = h;
}
