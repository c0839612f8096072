-- ===== src/Examples/Files.antt =====
-- A file that creates two contexts and frees one while a task has it, and is closed.
use lima_backport_sprd7730se.Prelude.{
  ℕ, if◌then◌else◌, ◌==◌, Bool-cases, inl, inr, some_inj, none, ◌≡◌, refl, true, false, some, List,
  [], ◌∷◌, arith,
}
use lima_backport_sprd7730se.Vm.Tables.{returns}
use lima_backport_sprd7730se.Vm.Create.{new_tables}
use lima_backport_sprd7730se.Ioctl.Session.{Priv, Memory, Opening, drm_open}
use lima_backport_sprd7730se.Ioctl.Returns.{Whole, Submitted, Handles, ioctl_gem_submit-Submitted}
use lima_backport_sprd7730se.Ioctl.Close.{Life, drm_postclose-drm_open}
use lima_backport_sprd7730se.Errno.{Result, nonneg, ok, err, efault}
use lima_backport_sprd7730se.Fence.{Fences, unsignaled, get, put}
use lima_backport_sprd7730se.Resv.{resv_init}
use lima_backport_sprd7730se.Gem.{Answers}
use lima_backport_sprd7730se.Ioctl.{File, Args, User, ioctl_gem_submit}
use lima_backport_sprd7730se.Ioctl.Unwind.{Unchanged}
use lima_backport_sprd7730se.Ioctl.Refusal.{ioctl_gem_submit-checks}
use lima_backport_sprd7730se.Ctx.{Ctxs, mgr_init, mgr_fini, ctx_create, ctx_get, ctx_free, ctx_put}
use lima_backport_sprd7730se.Ctx.Balance.{Call, creates, gets, frees, drops, call}
use lima_backport_sprd7730se.Ctx.Close.{calls, AllowedAll, Closed, mgr_fini-calls}

abbrev no_refs : Fences
no_refs = record { refcount = λ _. 0; status = λ _. unsignaled; timestamp_ns = λ _. 0 }

abbrev session : List Call
session =
    creates (some 5) true (nonneg 1)
    ∷ gets 1
    ∷ frees 1
    ∷ creates (some 6) true (nonneg 1)
    ∷ drops 5
    ∷ []

mgr_fini-calls_example :
    (m : Ctxs) × (n : Ctxs) × (calls session (mgr_init no_refs) ≡ some m)
    × (mgr_fini m ≡ some n)
    × Closed m n
unfolding AllowedAll call mgr_init ctx_create ctx_get ctx_free ctx_put get put
mgr_fini-calls_example =
    mgr_fini-calls session no_refs (λ a. refl) (refl, (tt, (tt, (refl, (omega arith, tt)))))

abbrev one_ref : Fences
one_ref = record { refcount = λ _. 1; status = λ _. unsignaled; timestamp_ns = λ _. 0 }

abbrev file : File
file = record {
  ctxs = record (mgr_init one_ref) { handles = (1, 5) ∷ [] };
  bufs = record {
    pipe = record {
      store = one_ref;
      queue = [];
      current_task = none;
      current_vm = none;
      mmu = 0 ∷ [];
      pd = λ _. 0;
      running = none;
      error = false;
      in_flight = λ _. 0;
      guilty = λ _. 0;
      run_pending = false;
      done_pending = false;
      timeout_pending = false;
      submitted = [];
      finished = [];
      answered = [];
    };
    resv = λ _. resv_init;
  };
  arrays = 0;
  tasks = 0;
  vm = 2;
}

abbrev answers : Answers
answers = record {
  find = λ h. some h;
  lbos_allocated = true;
  map = λ _. ok tt;
  fresh = some 9;
  fences_allocated = λ _. true;
  dep_allocated = λ _ _. true;
}

-- The frame of this user cannot be read.
abbrev user : User
user = record {
  bos_allocated = true;
  bos = some (record { handle = 3; flags = 1 } ∷ []);
  task_allocated = true;
  frame = none;
  pipe_frame_size = λ _. 24;
  context_of = λ c pipe. c;
}

abbrev pub args : Args
args = record {
  pipe = 0;
  nr_bos = 1;
  flags = 0;
  frame_size = 24;
  ctx = 1;
  in_sync0 = 0;
  in_sync1 = 0;
  out_sync = 0;
}

ioctl_gem_submit-checks_example :
    (g : File) × (ioctl_gem_submit answers user args file ≡ some (err efault, g)) × Unchanged file g
unfolding mgr_init
ioctl_gem_submit-checks_example =
    ioctl_gem_submit-checks answers user args file efault (λ c h. omega arith) refl

-- The frame of this one can be read.
abbrev pub user2 : User
user2 = record user { frame = some (λ _. 0) }

-- A file of a Mali-400, which has no DLBU, whose space a task still uses when the file is closed.
abbrev opening : Opening
opening = record {
  priv_allocated = true;
  vm_allocated = true;
  directory = some 4096;
  dlbu = none;
  table = λ _. none;
}

abbrev memory : Memory
memory = record { privs = 2; heap = record { vms = 3; directories = 3 } }

drm_postclose-drm_open_example :
    (r : Result Priv × Memory) × (drm_open 2 opening no_refs memory ≡ returns r)
    × Life opening session (new_tables 4096) 1 memory r
unfolding AllowedAll call mgr_init ctx_create ctx_get ctx_free ctx_put get put
drm_postclose-drm_open_example =
    drm_postclose-drm_open 2 opening session no_refs (new_tables 4096) 1 memory (omega arith)
      (λ a. refl) (refl, (tt, (tt, (refl, (omega arith, tt)))))

-- The file with the references of its context, its space and its one buffer.
abbrev pub whole : File
whole = record file {
  bufs = record file.bufs {
    pipe = record file.bufs.pipe {
      store = record one_ref { refcount = λ a. if a == 9 then 0 else 1 };
    };
  };
}

abbrev pub answers3 : Answers
answers3 = record answers { find = λ h. if h == 3 then some 3 else none }

abbrev pub own : List ℕ
own = 5 ∷ 2 ∷ 3 ∷ []

pub whole-Whole : Whole (3 ∷ []) own whole
unfolding mgr_init resv_init
whole-Whole = record {
  system = record {
    inv = record {
      core = record {
        holds = λ a. omega arith;
        order = refl;
        flights = λ c. refl;
        blame = λ c. refl;
        answered = tt;
      };
      mapped = tt;
      runs_task = tt;
      awake = tt;
    };
    covers = λ a. ground arith;
  };
  table = λ id c e. elim (Bool-cases (1 == id)) [
    | inl a ↦ let k = some_inj (rw (a) at e) in ground (arith, k)
    | inr a ↦ let k = rw (a) at e in cc
  ];
  vm = omega arith;
}

pub named : Handles answers3.find (3 ∷ []) own
named h x e = elim (Bool-cases (h == 3)) [
  | inl a ↦ let k = some_inj (rw (a) at e) in ground (arith, k)
  | inr a ↦ let k = rw (a) at e in cc
]

ioctl_gem_submit-Submitted_example :
    (r : Result (Unit {0})) × (g : File) × (ioctl_gem_submit answers3 user2 args whole
      ≡ some (r, g))
    × Submitted (3 ∷ []) own whole r g
ioctl_gem_submit-Submitted_example =
    ioctl_gem_submit-Submitted (3 ∷ []) own answers3 user2 args whole whole-Whole named refl
