-- ===== src/Examples/Submits.antt =====
-- Two submits on a shared buffer.
use lima_backport_sprd7730se.Prelude.{
  ◌+◌, Option, ◌≤◌, count, ℕ, ◌≡◌, ◌≤◌, refl, true, false, Bool-cases, inl, inr, some, none, List,
  [], ◌∷◌, ◌==◌, if◌then◌else◌, arith, some_inj,
}
use lima_backport_sprd7730se.Errno.{Result, ok, err, eio}
use lima_backport_sprd7730se.Fence.{Fences, unsignaled}
use lima_backport_sprd7730se.Fence.{create, get, put}
use lima_backport_sprd7730se.Fence.Refs.{get_all}
use lima_backport_sprd7730se.Sched.Task.{Task, task_init, task_add_dep}
use lima_backport_sprd7730se.Sched.Pipe.{queue_task}
use lima_backport_sprd7730se.Resv.{get_fences, set_excl, resv_init}
use lima_backport_sprd7730se.Sched.Pipe.{Pipe}
use lima_backport_sprd7730se.Sched.Engine.Invariant.{Inv}
use lima_backport_sprd7730se.Gem.{
  collect, look_up, map_all, submit_bos, add_deps, add_each, queue_submit, publish, Submit,
  SubmitBo, Answers, Buffers, gem_submit, with_store,
}
use lima_backport_sprd7730se.Gem.Follows.{named, Succeeds, IsLast, gem_submit_follows}
use lima_backport_sprd7730se.Gem.System.{System, Known}
use lima_backport_sprd7730se.Gem.Collect.{gem_submit_leaks}
use lima_backport_sprd7730se.Gem.Submits.{Ends, gem_submit-System}

-- The fence slab's next address is not in use, all else has references.
abbrev store : ℕ → Fences
store fresh = record {
  refcount = λ a. if a == fresh then 0 else 5;
  status = λ _. unsignaled;
  timestamp_ns = λ _. 0;
}

abbrev pipe : Fences → Pipe
pipe s = record {
  store = s;
  queue = [];
  current_task = none;
  current_vm = none;
  mmu = 0 ∷ [];
  pd = λ _. 0;
  running = none;
  error = false;
  in_flight = λ _. 0;
  guilty = λ _. 0;
  run_pending = false;
  done_pending = false;
  timeout_pending = false;
  submitted = [];
  finished = [];
  answered = [];
}

pipe-Inv : (s : Fences) → Inv (pipe s)
pipe-Inv s = record {
  core = record {
    holds = λ a. omega arith;
    order = refl;
    flights = λ c. refl;
    blame = λ c. refl;
    answered = tt;
  };
  mapped = tt;
  runs_task = tt;
  awake = tt;
}

-- Handle 1 names the buffer at 3, handle 2 the one at 4.
abbrev answers : ℕ → Answers
answers fresh = record {
  find = λ h. if h == 1 then some 3 else if h == 2 then some 4 else none;
  lbos_allocated = true;
  map = λ _. ok tt;
  fresh = some fresh;
  fences_allocated = λ _. true;
  dep_allocated = λ _ _. true;
}

abbrev sub : List SubmitBo → Submit
sub bos = record {
  ctx = 6;
  context = 0;
  vm = 7;
  bos = bos;
  flags = 0;
  in_sync0 = 0;
  in_sync1 = 0;
  out_sync = 0;
  frame = λ _. 0;
}

abbrev one : SubmitBo
one = record { handle = 1; flags = 1 }

abbrev two : SubmitBo
two = record { handle = 2; flags = 2 }

abbrev objs : List ℕ
objs = 3 ∷ 4 ∷ []

known :
    (fresh : ℕ)
    → 5 ≤ fresh
    → (h x : ℕ) → (answers fresh).find h ≡ some x
    → Known objs (store fresh) x
known fresh ge h x e = elim (Bool-cases (h == 1)) [
  | inl a ↦ let k = some_inj (rw (a) at e) in ground (arith, k, ge)
  | inr a ↦ elim (Bool-cases (h == 2)) [
    | inl b ↦ let k = some_inj (rw (a, b) at e) in ground (arith, k, ge)
    | inr b ↦ let k = rw (a, b) at e in ground (arith, k)
  ]
]

abbrev before : Buffers
before = record { pipe = pipe (store 9); resv = λ _. resv_init }

before-System : System objs (6 ∷ []) before
unfolding resv_init
before-System = record { inv = pipe-Inv (store 9); covers = λ a. ground arith }

gem_submit-System_example :
    (x : Result (Unit {0}) × Buffers) × (gem_submit (answers 9) (sub (one ∷ two ∷ [])) before
      ≡ some x)
    × Ends objs [] (answers 9) (sub (one ∷ two ∷ [])) before x
gem_submit-System_example =
    gem_submit-System objs [] (answers 9) (sub (one ∷ two ∷ [])) before before-System
      (known 9 (omega arith)) (omega arith) refl

-- The second buffer cannot be mapped.
abbrev full : Answers
full = record (answers 9) { map = λ j. if j == 1 then err eio else ok tt }

gem_submit_leaks_example :
    (t : Fences) × (gem_submit full (sub (one ∷ two ∷ [])) before
      ≡ some (err eio, with_store t before))
    × ((q : ℕ) → t.refcount q ≡ before.pipe.store.refcount q + count q (4 ∷ []))
gem_submit_leaks_example =
    gem_submit_leaks full (sub (one ∷ two ∷ [])) before (3 ∷ []) [] 4 eio refl refl
      (λ h x e. let k = known 9 (omega arith) h x e in ground (arith, k))
      (refl, refl, (refl, refl, tt)) (refl, tt) refl

-- What a submit that returns leaves.
abbrev left : Option (Result (Unit {0}) × Buffers) → Buffers
left none = before
left (some (r, b)) = b

abbrev middle : Buffers
middle = left (gem_submit (answers 9) (sub (one ∷ [])) before)

-- The second submit finds the objects as the first left them, and the pipe idle again.
abbrev again : Buffers
again = record { pipe = pipe (store 10); resv = middle.resv }

again-System : System objs (6 ∷ []) again
unfolding resv_init gem_submit collect look_up map_all submit_bos task_init create get put add_deps
    get_fences queue_submit queue_task publish set_excl
again-System = record { inv = pipe-Inv (store 10); covers = λ a. ground arith }

first : Succeeds objs [] (answers 9) (sub (one ∷ [])) before middle
unfolding resv_init gem_submit collect look_up map_all submit_bos task_init create get put add_deps
    get_fences queue_submit queue_task publish set_excl
first = record {
  system = before-System;
  known = known 9 (omega arith);
  vm_live = omega arith;
  fresh = refl;
  returns = refl;
}

abbrev final : Buffers
final = left (gem_submit (answers 10) (sub (two ∷ one ∷ [])) again)

second : Succeeds objs [] (answers 10) (sub (two ∷ one ∷ [])) again final
unfolding resv_init gem_submit collect look_up map_all submit_bos task_init create get put add_deps
    get_fences queue_submit queue_task publish set_excl add_each task_add_dep get_all
second = record {
  system = again-System;
  known = known 10 (omega arith);
  vm_live = omega arith;
  fresh = refl;
  returns = refl;
}

gem_submit_follows_example :
    (t u : Task) × IsLast t before middle × IsLast u again final × (1 ≤ count t.fence u.deps)
unfolding named
gem_submit_follows_example =
    gem_submit_follows objs [] [] (answers 9) (answers 10) (sub (one ∷ [])) (sub (two ∷ one ∷ []))
      before middle again final 3 first second refl (omega arith) (omega arith)
