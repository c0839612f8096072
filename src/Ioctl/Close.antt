-- ===== src/Ioctl/Close.antt =====
-- What a file gives back: lima_drm_open and lima_drm_postclose together.
use lima_backport_sprd7730se.Prelude.{
  ℕ, zero, suc, ◌+◌, ◌-◌, ◌<◌, ◌≡◌, refl, ap, ◌∙◌, false, Option, none, some, List, count,
  count-append, ◌⊎◌, [], ◌∷◌, ◌++◌, ◌==◌, if◌then◌else◌, Bool-cases, inl, inr, if_true, if_false,
  arith,
}
use mathlib.Core.Path.{subst}
use lima_backport_sprd7730se.Errno.{enomem, Result, ok, err}
use lima_backport_sprd7730se.Fence.{Fences, ◌>>=◌, >>=-some}
use lima_backport_sprd7730se.Vm.Tables.{Page, Tables, returns, and_then}
use lima_backport_sprd7730se.Vm.Create.{Heap, Failed, Ended, vm_create-map_page_table}
use lima_backport_sprd7730se.Vm.Release.{table_of, block_tables, num_bt, vm_release, vm_put}
use lima_backport_sprd7730se.Ctx.{Ctxs, mgr_init}
use lima_backport_sprd7730se.Ctx.Balance.{Call}
use lima_backport_sprd7730se.Ctx.Close.{calls, AllowedAll, Closed, mgr_fini-calls}
use lima_backport_sprd7730se.Ioctl.Session.{
  Priv, Memory, Opening, after_vm, drm_open, drm_postclose,
}

-- Whether a block table is at an address, and how many of the first `n` of a space are.
abbrev pub at_address : ℕ → Option Page → ℕ
at_address a none = 0
at_address a (some t) = if a == t.dma then 1 else 0

abbrev pub tables_at : ℕ → Tables → ℕ → ℕ
tables_at zero vm a = 0
tables_at (suc n) vm a = tables_at n vm a + at_address a (vm.bts n)

-- What closing gives: `tasks` is how many others have a reference of the space.
abbrev pub Gone : ℕ → Tables → Ctxs → Memory → Ctxs × (ℕ × (List ℕ × Memory)) → Type 0
Gone tasks vm c m (n, (left, (freed, m'))) =
    Closed c n
    × (left ≡ tasks)
    × (m'.privs ≡ m.privs)
    × (m'.heap.vms ≡ m.heap.vms + (if tasks == 0 then 0 else 1))
    × (m'.heap.directories ≡ m.heap.directories + (if tasks == 0 then 0 else 1))
    × ((a : ℕ)
        → count a freed
          ≡ (if tasks == 0 then tables_at 128 vm a + (if a == vm.pd.dma then 1 else 0) else 0))

-- How an opening ends, and what follows after these calls.
abbrev pub Life : Opening → List Call → Tables → ℕ → Memory → Result Priv × Memory → Type 0
Life o ks vm tasks m (err e, m') =
    (e ≡ enomem)
    × ((o.priv_allocated ≡ false) ⊎ Failed o.vm_allocated o.directory o.dlbu o.table)
    × (m'.privs ≡ m.privs)
    × (m'.heap.vms ≡ m.heap.vms)
    × (m'.heap.directories ≡ m.heap.directories)
Life o ks vm tasks m (ok p, m') =
    (c : Ctxs) × (calls ks p.ctxs ≡ some c)
    × ((x : Ctxs × (ℕ × (List ℕ × Memory))) × (drm_postclose
            (record p { vm = vm; vm_refs = suc tasks; ctxs = c }) m'
          ≡ some x)
        × Gone tasks vm c m x)

-- The memory after an opening that succeeded.
abbrev Held : Memory → Memory → Type 0
Held m m' =
    (m'.privs ≡ m.privs + 1)
    × (m'.heap.vms ≡ m.heap.vms + 1)
    × (m'.heap.directories ≡ m.heap.directories + 1)

count-table_of : (o : Option Page) (a : ℕ) → count a (table_of o) ≡ at_address a o
count-table_of none a = refl
count-table_of (some t) a = ground arith

count-block_tables :
    (n i : ℕ) (vm : Tables) (a : ℕ)
    → count a (block_tables n i vm) + tables_at i vm a ≡ tables_at (i + n) vm a
unfolding block_tables
count-block_tables zero i vm a =
    let end : i ≡ i + 0 = omega arith in
    let same : tables_at i vm a ≡ tables_at (i + 0) vm a = ap (λ n. tables_at n vm a) end in
    omega (arith, same)
count-block_tables (suc n) i vm a =
    let next : i + 1 ≡ suc i = omega arith in
    let rest =
      subst
        (λ j. count a (block_tables n (i + 1) vm) + tables_at j vm a ≡ tables_at (i + 1 + n) vm a)
        next (count-block_tables n (i + 1) vm a) in
    let end : tables_at (i + 1 + n) vm a ≡ tables_at (i + suc n) vm a =
      let same : i + 1 + n ≡ i + suc n = omega arith in ap (λ j. tables_at j vm a) same in
    omega (
      arith,
      rest,
      end,
      count-append a (table_of (vm.bts i)) (block_tables n (i + 1) vm),
      count-table_of (vm.bts i) a,
    )

-- What a release frees: each block table and the directory.
count-freed :
    (n : ℕ) (vm : Tables) (a : ℕ)
    → count a (block_tables n 0 vm ++ vm.pd.dma ∷ [])
      ≡ tables_at n vm a + (if a == vm.pd.dma then 1 else 0)
count-freed n vm a =
    let end : 0 + n ≡ n = omega arith in
    let same : tables_at (0 + n) vm a ≡ tables_at n vm a = ap (λ j. tables_at j vm a) end in
    let none : tables_at 0 vm a ≡ 0 = refl in
    ground (
      arith,
      count-block_tables n 0 vm a,
      same,
      none,
      count-append a (block_tables n 0 vm) (vm.pd.dma ∷ []),
    )

vm_put-suc : (t : ℕ) (vm : Tables) (h : Heap) → vm_put (suc (suc t)) vm h ≡ some (suc t, ([], h))
unfolding vm_put
vm_put-suc t vm h = ground arith

vm_put-Gone :
    (tasks : ℕ) (vm : Tables) (c n : Ctxs) (m m' : Memory)
    → Closed c n
    → Held m m'
    → (x : Ctxs × (ℕ × (List ℕ × Memory))) × ((vm_put (suc tasks) vm m'.heap >>= λ r.
          if m'.privs == 0
          then none
          else some (n, (r.0, (r.1.0, record { privs = m'.privs - 1; heap = r.1.1 }))))
        ≡ some x)
      × Gone tasks vm c m x
unfolding vm_put vm_release
vm_put-Gone zero vm c n m m' d (p, v, q) =
    let some_left : (m'.privs == 0) ≡ false = ground (arith, p) in
    let freed = vm_release vm m'.heap in
    (
      (n, (0, (freed.0, record { privs = m'.privs - 1; heap = freed.1 }))),
      if_false _ _ some_left,
      (d, refl, omega (arith, p), omega (arith, v), omega (arith, q), λ a. count-freed num_bt vm a),
    )
vm_put-Gone (suc t) vm c n m m' d (p, v, q) =
    let some_left : (m'.privs == 0) ≡ false = ground (arith, p) in
    let others : (suc t == 0) ≡ false = ground arith in
    (
      (n, (suc t, ([], record { privs = m'.privs - 1; heap = m'.heap }))),
      >>=-some _ (vm_put-suc t vm m'.heap) (if_false _ _ some_left),
      (d, refl, omega (arith, p), rw (others) v, rw (others) q, λ a. rw (others) refl),
    )

opened-Life :
    (o : Opening) (ks : List Call) (store : Fences) (vm0 vm : Tables) (tasks : ℕ) (m m' : Memory)
    → ((a : ℕ) → store.refcount a ≡ 0)
    → AllowedAll ks (mgr_init store)
    → Held m m'
    → Life o ks vm tasks m (ok (record { vm = vm0; vm_refs = 1; ctxs = mgr_init store }), m')
unfolding drm_postclose
opened-Life o ks store vm0 vm tasks m m' z allowed held =
    let (c, n, e, f, d) = mgr_fini-calls ks store z allowed in
    let (x, g, gone) = vm_put-Gone tasks vm c n m m' d held in (c, e, (x, >>=-some _ f g, gone))

after_vm-Life :
    (o : Opening) (ks : List Call) (store : Fences) (vm : Tables) (tasks : ℕ) (m : Memory)
    (y : Option Tables × Heap)
    → ((a : ℕ) → store.refcount a ≡ 0)
    → AllowedAll ks (mgr_init store)
    → Ended o.vm_allocated o.directory o.dlbu o.table m.heap y
    → (r : Result Priv × Memory) × (after_vm store m y ≡ returns r) × Life o ks vm tasks m r
after_vm-Life o ks store vm tasks m (none, h) z allowed (v, d, why) = (
  (err enomem, record { privs = m.privs + 1 - 1; heap = h }),
  refl,
  (refl, inr why, omega arith, v, d),
)
after_vm-Life o ks store vm tasks m (some vm0, h) z allowed (v, d, at, entries) =
    let m' : Memory = record { privs = m.privs + 1; heap = h } in
    (
      (ok (record { vm = vm0; vm_refs = 1; ctxs = mgr_init store }), m'),
      refl,
      opened-Life o ks store vm0 vm tasks m m' z allowed (refl, v, d),
    )

-- With two rounds of fuel the opening of a file returns. If it fails, it fails with -ENOMEM because the
-- file's struct, the space, its directory or the table for the DLBU cannot be allocated, and all that it
-- allocated is given back. If it succeeds, then whatever calls are made on the contexts of the file,
-- if they are allowed where they happen, and whatever block tables its space has by then: closing the
-- file uses nothing freed, releases the contexts as `Closed` says and gives back the file's struct; if
-- no other has a reference of the space, then the space is given back, and the memory freed is that
-- of its directory and of each of its 128 block tables that is there, each once; otherwise nothing of
-- the space is freed and the references of the others are left.
pub drm_postclose-drm_open :
    (fuel : ℕ) (o : Opening) (ks : List Call) (store : Fences) (vm : Tables) (tasks : ℕ)
    (m : Memory)
    → 1 < fuel
    → ((a : ℕ) → store.refcount a ≡ 0)
    → AllowedAll ks (mgr_init store)
    → (r : Result Priv × Memory) × (drm_open fuel o store m ≡ returns r) × Life o ks vm tasks m r
unfolding drm_open
drm_postclose-drm_open fuel o ks store vm tasks m f z allowed = elim (Bool-cases o.priv_allocated) [
  | inl e ↦
      let (y, k, d) =
        vm_create-map_page_table fuel o.vm_allocated o.directory o.dlbu o.table m.heap f in
      let (r, j, life) = after_vm-Life o ks store vm tasks m y z allowed d in
      (r, if_true _ _ e ∙ (ap (λ x. and_then x (after_vm store m)) k ∙ j), life)
  | inr e ↦ ((err enomem, m), if_false _ _ e, (refl, inl e, refl, refl, refl))
]
