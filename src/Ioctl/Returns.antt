-- ===== src/Ioctl/Returns.antt =====
-- The submit ioctl on a file whose parts fit together.
use lima_backport_sprd7730se.Prelude.{
  ℕ, ◌+◌, ◌≤◌, ◌≡◌, refl, ap, ◌∙◌, Bool-cases, inl, inr, Option, none, some, Option-cases, List, [],
  ◌∷◌, length, length-append, arith, count,
}
use lima_backport_sprd7730se.Errno.{Errno, Result, ok, err}
use lima_backport_sprd7730se.Fence.{Fences}
use lima_backport_sprd7730se.Ctx.{Ctxs, idr_find}
use lima_backport_sprd7730se.Gem.{SubmitBo, Answers, Submit, Buffers, with_store}
use lima_backport_sprd7730se.Gem.System.{System, Fresh, System-with_store}
use lima_backport_sprd7730se.Gem.Submits.{Ends, gem_submit-System}
use lima_backport_sprd7730se.Ioctl.{File, Args, User, store_of, submit_of, ioctl_gem_submit}
use lima_backport_sprd7730se.Ioctl.Unwind.{Unchanged}
use lima_backport_sprd7730se.Ioctl.Checks.{all_pass, is_none_lem, usable, first_failing, checks}
use lima_backport_sprd7730se.Ioctl.Refusal.{ioctl_gem_submit-checks}
use lima_backport_sprd7730se.Ioctl.Accept.{taken, Settled, entered, ioctl_gem_submit-gem_submit}

-- The references of the file are in `own`: those of its contexts and that of its address space.
pub record Whole (objs own : List ℕ) (f : File) : Type 0 where
  pub system : System objs own f.bufs
  pub table : (id c : ℕ) → idr_find id f.ctxs.handles ≡ some c → 1 ≤ count c own
  pub vm : 1 ≤ count f.vm own

-- The file as it was, with the array given back, and one task more if the pipe took it.
pub record Submitted (objs own : List ℕ) (f : File) (r : Result (Unit {0})) (g : File)
    : Type 0 where
  pub whole : Whole objs own g
  pub arrays : g.arrays ≡ f.arrays
  pub tasks : g.tasks ≡ f.tasks + taken r
  pub queue : length g.bufs.pipe.queue ≡ length f.bufs.pipe.queue + taken r
  pub handles : g.ctxs.handles ≡ f.ctxs.handles

Whole-next :
    (objs own : List ℕ) (f g : File)
    → Whole objs own f
    → System objs own g.bufs
    → g.ctxs.handles ≡ f.ctxs.handles
    → g.vm ≡ f.vm
    → Whole objs own g
Whole-next objs own f g w s h v = record {
  system = s;
  table = λ id c e. w.table id c (rw (← h) e);
  vm = rw (v) w.vm;
}

Unchanged-Submitted :
    (objs own : List ℕ) (f g : File) (e : Errno)
    → Whole objs own f
    → Unchanged f g
    → Submitted objs own f (err e) g
Unchanged-Submitted objs own f g e w u =
    let s : System objs own g.bufs = rw (u.bufs) (
      System-with_store objs own own f.bufs (store_of g) w.system
        (λ a. omega (arith, u.refs a, w.system.covers a))) in
    record {
      whole = Whole-next objs own f g w s u.handles u.vm;
      arrays = u.arrays;
      tasks = omega (arith, u.tasks);
      queue = ap (λ l. length l) u.queue ∙ omega arith;
      handles = u.handles;
    }

entered-Fresh :
    (o : Option ℕ) (c : ℕ) (f : File)
    → 1 ≤ (store_of f).refcount c
    → Fresh o (store_of f)
    → Fresh o (store_of (entered c f))
entered-Fresh none c f h e = tt
entered-Fresh (some x) c f h e = ground (arith, h, e)

-- What is settled after a submit that ended in this way.
Settled-Submitted :
    (objs own : List ℕ) (a : Answers) (sub : Submit) (f g : File) (c : ℕ)
    (x : Result (Unit {0}) × Buffers)
    → Whole objs own f
    → sub.ctx ≡ c
    → Ends objs own a sub (entered c f).bufs x
    → Settled f c x.0 x.1 g
    → Submitted objs own f x.0 g
Settled-Submitted objs own a sub f g c (ok u, b) w same (v, (t, last, _, _, _, _, _, _)) z =
    let s : System objs own g.bufs = rw (z.bufs) (
      System-with_store objs own own b (store_of g) v
        (λ q. ground (arith, z.refs q, v.covers q))) in
    record {
      whole = Whole-next objs own f g w s z.handles z.vm;
      arrays = z.arrays;
      tasks = z.tasks;
      queue = ap (λ l. length l) (z.queue ∙ last) ∙ length-append f.bufs.pipe.queue (t ∷ []);
      handles = z.handles;
    }
Settled-Submitted objs own a sub f g c (err e, b) w same (v, (s0, kept)) z =
    let s : System objs own g.bufs = rw (z.bufs) (
      System-with_store objs (sub.ctx ∷ own) own b (store_of g) v
        (λ q. ground (arith, same, z.refs q, v.covers q))) in
    record {
      whole = Whole-next objs own f g w s z.handles z.vm;
      arrays = z.arrays;
      tasks = z.tasks;
      queue = ap (λ l. length l) (z.queue ∙ ap (λ (k : Buffers). k.pipe.queue) kept) ∙ omega arith;
      handles = z.handles;
    }

usable-some : (o : Option ℕ) (m : Ctxs) (c : ℕ) → usable o m ≡ some c → o ≡ some c
usable-some none m c e = cc
usable-some (some x) m c e = elim (Bool-cases (m.freed x)) [
  | inl f ↦ let k = rw (f) at e in cc
  | inr f ↦ rw (f) at e
]

-- What a submit that passes its checks has.
record Passed (u : User) (args : Args) (f : File) : Type 0 where
  c : ℕ
  bos : List SubmitBo
  frame : ℕ → ℕ
  found : usable (idr_find args.ctx f.ctxs.handles) f.ctxs ≡ some c
  copied : u.bos ≡ some bos
  framed : u.frame ≡ some frame

checks-Passed :
    (u : User) (args : Args) (f : File) → first_failing (checks u args f) ≡ none → Passed u args f
checks-Passed u args f h =
    let (b1, (b2, (b3, (b4, (b5, (b6, (b7, b8))))))) = all_pass (checks u args f) h in
    let (c, found) = is_none_lem (usable (idr_find args.ctx f.ctxs.handles) f.ctxs) b4 in
    let (bos, copied) = is_none_lem u.bos b6 in
    let (frame, framed) = is_none_lem u.frame b8 in
    record { c = c; bos = bos; frame = frame; found = found; copied = copied; framed = framed }

refs-System :
    (objs own own' : List ℕ) (b : Buffers) (s : Fences)
    → System objs own b
    → ((q : ℕ) → s.refcount q + count q own ≡ b.pipe.store.refcount q + count q own')
    → System objs own' (with_store s b)
refs-System objs own own' b s v h =
    System-with_store objs own own' b s v (λ q. omega (arith, h q, v.covers q))

-- The buffers that the handles of a file name, each with a reference among `own`.
abbrev pub Handles : (ℕ → Option ℕ) → List ℕ → List ℕ → Type 0
Handles find objs own = (h x : ℕ) → find h ≡ some x → (1 ≤ count x own) × (count x objs ≡ 1)

after-count :
    (objs own : List ℕ) (a : Answers) (sub : Submit) (b : Buffers) (c : ℕ)
    (x : Result (Unit {0}) × Buffers)
    → 1 ≤ count c own
    → Ends objs own a sub b x
    → 1 ≤ x.1.pipe.store.refcount c
after-count objs own a sub b c (ok u, b') h (v, rest) = omega (arith, v.covers c, h)
after-count objs own a sub b c (err e, b') h (v, rest) = omega (arith, v.covers c, h)

Passed-Submitted :
    (objs own : List ℕ) (a : Answers) (u : User) (args : Args) (f : File)
    → Whole objs own f
    → Handles a.find objs own
    → Fresh a.fresh (store_of f)
    → first_failing (checks u args f) ≡ none
    → Passed u args f
    → (r : Result (Unit {0})) × (g : File) × (ioctl_gem_submit a u args f ≡ some (r, g))
      × Submitted objs own f r g
Passed-Submitted objs own a u args f w handles fresh pass k =
    let sub = submit_of u args k.c k.bos k.frame f in
    let listed : 1 ≤ count k.c own =
      w.table args.ctx k.c (usable-some (idr_find args.ctx f.ctxs.handles) f.ctxs k.c k.found) in
    let live : (x : ℕ) → 1 ≤ count x own → 1 ≤ (store_of f).refcount x =
      λ x m. omega (arith, w.system.covers x, m) in
    let v : System objs (k.c ∷ own) (entered k.c f).bufs =
      refs-System objs own (k.c ∷ own) f.bufs (store_of (entered k.c f)) w.system
        (λ q. ground arith) in
    let (x, e, d) =
      gem_submit-System objs own a sub (entered k.c f).bufs v
        (λ h x m. (omega (arith, v.covers x, (handles h x m).0), (handles h x m).1))
        (omega (arith, v.covers f.vm, w.vm))
        (entered-Fresh a.fresh k.c f (live k.c listed) fresh) in
    let (g, e', z) =
      ioctl_gem_submit-gem_submit a u args f k.c k.bos k.frame x pass k.found k.copied k.framed
        (live k.c listed) e (after-count objs own a sub (entered k.c f).bufs k.c x listed d) in
    (x.0, g, e', Settled-Submitted objs own a sub f g k.c x w refl d z)

-- On a file whose parts fit together, a submit ioctl returns, whatever its arguments, what is copied
-- and which allocation fails, if the handles name listed buffers that the file has references of and the
-- fence slab answers with an unused address or none. The parts fit together again, with the same
-- references of the file; the array of the buffers is given back; and a task more is allocated and
-- queued just when the result is 0.
pub ioctl_gem_submit-Submitted :
    (objs own : List ℕ) (a : Answers) (u : User) (args : Args) (f : File)
    → Whole objs own f
    → Handles a.find objs own
    → Fresh a.fresh (store_of f)
    → (r : Result (Unit {0})) × (g : File) × (ioctl_gem_submit a u args f ≡ some (r, g))
      × Submitted objs own f r g
ioctl_gem_submit-Submitted objs own a u args f w handles fresh =
    elim (Option-cases (first_failing (checks u args f))) [
      | inl pass ↦
          Passed-Submitted objs own a u args f w handles fresh pass (checks-Passed u args f pass)
      | inr (e, fails) ↦
          let (g, k, same) =
            ioctl_gem_submit-checks a u args f e
              (λ c m. omega (arith, w.system.covers c, w.table args.ctx c m)) fails in
          (err e, g, k, Unchanged-Submitted objs own f g e w same)
    ]
