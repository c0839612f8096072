-- ===== src/Vm/Bo/Del.antt =====
-- `lima_vm_bo_del` undoes `lima_vm_bo_add`.
use lima_backport_sprd7730se.Prelude.{
  ℕ, ◌+◌, ◌-◌, ◌*◌, ◌%◌, ◌^◌, ◌<◌, ◌≡◌, ◌⊎◌, refl, true, false, none, some, List, [], ◌∷◌, ◌++◌,
  ◌==◌, arith, inl, inr, Option-cases, ap, ◌∙◌,
}
use mathlib.Core.Path.{ap₂}
use lima_backport_sprd7730se.Errno.{Errno, ok, err}
use lima_backport_sprd7730se.Vm.Tables.{Run, returns, page_size}
use lima_backport_sprd7730se.Vm.Entries.{entry}
use lima_backport_sprd7730se.Vm.Unmap.{unmap_page_table-Cleared}
use lima_backport_sprd7730se.Vm.Bo.{
  Bo, BoVa, Vm, Env, find, set_ref_count, list_del, remove_node, unmap_node, vm_bo_add, vm_bo_del,
}
use lima_backport_sprd7730se.Vm.Bo.Add.{MappedAt, NodeLaws, Unchanged, vm_bo_add_new}

find-new :
    (vm : ℕ) (b : BoVa) (bs : List BoVa)
    → find vm bs ≡ none
    → (b.vm == vm) ≡ true
    → find vm (bs ++ b ∷ []) ≡ some b
unfolding find
find-new vm b [] h e = rw e
find-new vm b (c ∷ bs) h e = ground (arith, find-new vm b bs)

list_del-new :
    (vm : ℕ) (b : BoVa) (bs : List BoVa)
    → find vm bs ≡ none
    → (b.vm == vm) ≡ true
    → list_del vm (bs ++ b ∷ []) ≡ bs
unfolding find list_del
list_del-new vm b [] h e = rw e
list_del-new vm b (c ∷ bs) h e = ground (arith, list_del-new vm b bs)

find-set_ref_count :
    (vm n : ℕ) (b : BoVa) (bs : List BoVa)
    → find vm bs ≡ some b
    → find vm (set_ref_count vm n bs) ≡ some (record b { ref_count = n })
unfolding find set_ref_count
find-set_ref_count vm n b [] h = cc
find-set_ref_count vm n b (c ∷ bs) h = ground (arith, find-set_ref_count vm n b bs)

set_ref_count-set_ref_count :
    (vm n : ℕ) (b : BoVa) (bs : List BoVa)
    → find vm bs ≡ some b
    → set_ref_count vm b.ref_count (set_ref_count vm n bs) ≡ bs
unfolding find set_ref_count
set_ref_count-set_ref_count vm n b [] h = refl
set_ref_count-set_ref_count vm n b (c ∷ bs) h =
    ground (arith, set_ref_count-set_ref_count vm n b bs)

-- The same entries, nodes and buffer as before.
pub record Restored (vm : Vm) (bo : Bo) (r : Run (Vm × Bo)) : Type 0 where
  pub vm' : Vm
  pub bo' : Bo
  pub returned : r ≡ returns (vm', bo')
  pub entries : (q : ℕ) → entry vm'.tables q ≡ entry vm.tables q
  pub nodes : vm'.nodes ≡ vm.nodes
  pub same_bo : bo' ≡ bo

module _ (fuel limit : ℕ) (vm : Vm) (bo : Bo) (n : ℕ) where
  del-MappedAt :
      (p : ℕ) (vm1 : Vm) (bo1 : Bo)
      → limit < 2 ^ 20
      → find vm.id bo.va ≡ none
      → 0 < n
      → n < fuel
      → MappedAt limit vm bo p n vm1 bo1
      → Restored vm bo (vm_bo_del fuel vm1 bo1)
  unfolding vm_bo_del unmap_node remove_node
  del-MappedAt p vm1 bo1 top new pos f m =
      let b : BoVa = record {
        vm = vm.id;
        ref_count = 1;
        start = page_size * p;
        size = page_size * n;
      } in
      let same : (vm.id == vm.id) ≡ true = ground arith in
      let found : find vm1.id bo1.va ≡ some b =
        ap₂ find m.id (ap (λ (x : Bo). x.va) m.bo_va) ∙ find-new vm.id b bo.va new same in
      let (t, e, c) =
        unmap_page_table-Cleared n fuel vm1.tables p (page_size * p + page_size * n - 1)
          (omega arith) (omega (arith, m.fits)) m.present f in
      record {
        vm' = record vm1 { tables = t; nodes = remove_node (page_size * p) vm1.nodes };
        bo' = record bo1 { va = list_del vm1.id bo1.va };
        returned = rw (found, vm_bo_del) (rw e refl);
        entries = λ q. ground (arith, c.entries q, m.entries q, m.free q);
        nodes = ap (remove_node (page_size * p)) m.nodes ∙ ground arith;
        same_bo =
            ap₂ (λ (i : ℕ) (x : Bo). record x { va = list_del i x.va }) m.id m.bo_va
            ∙ ap (λ (v : List BoVa). record bo { va = v }) (list_del-new vm.id b bo.va new same);
      }

  -- Take a buffer of n pages, n > 0, and let the allocator keep its laws below the last page of the
  -- 32-bit space. Whether or not the buffer has a mapping already, whose count has not run full: if
  -- `lima_vm_bo_add` returns 0, then a `lima_vm_bo_del` that follows returns, and every entry, the
  -- nodes and the buffer are again what they were; and if it returns an error, they still are.
  pub del-add :
      (env : Env)
      → limit < 2 ^ 20
      → bo.size ≡ page_size * n
      → 0 < n
      → n < fuel
      → ((start : ℕ) → env.insert_node ≡ ok start → NodeLaws limit vm n start)
      → ((b : BoVa) → find vm.id bo.va ≡ some b → (0 < b.ref_count) × (b.ref_count + 1 < 2 ^ 32))
      → ((vm1 : Vm) × (bo1 : Bo) × (vm_bo_add fuel env vm bo true ≡ returns (ok tt, vm1, bo1))
          × Restored vm bo (vm_bo_del fuel vm1 bo1))
        ⊎ ((e : Errno) × (vm1 : Vm) × (bo1 : Bo) × (vm_bo_add fuel env vm bo true
              ≡ returns (err e, vm1, bo1))
            × Unchanged vm bo vm1 bo1)
  unfolding vm_bo_add vm_bo_del
  del-add env top size pos f laws counts = elim (Option-cases (find vm.id bo.va)) [
    | inl new ↦
        elim (vm_bo_add_new fuel limit env vm bo n true new size pos f (omega arith) laws).0 [
          | inl (p, vm1, bo1, e, m) ↦ inl (vm1, bo1, e, del-MappedAt p vm1 bo1 top new pos f m)
          | inr r ↦ inr r
        ]
    | inr (b, old) ↦
        let up : ℕ = (b.ref_count + 1) % 2 ^ 32 in
        let vas = set_ref_count vm.id up bo.va in
        let back : (up + 2 ^ 32 - 1) % 2 ^ 32 ≡ b.ref_count = omega (arith, counts b old) in
        let live : (b.ref_count == 0) ≡ false = ground (arith, counts b old) in
        inl (
          vm,
          record bo { va = vas },
          rw (old, vm_bo_add) refl,
          record {
            vm' = vm;
            bo' = record bo { va = set_ref_count vm.id b.ref_count vas };
            returned =
                rw (find-set_ref_count vm.id up b bo.va old, vm_bo_del) (rw back (rw live refl));
            entries = λ q. refl;
            nodes = refl;
            same_bo =
                ap (λ (v : List BoVa). record bo { va = v })
                  (set_ref_count-set_ref_count vm.id up b bo.va old);
          },
        )
  ]
