-- ===== src/Vm/Bo.antt =====
-- Mappings of buffers in an address space: lima_vm_bo_find, lima_vm_bo_add, lima_vm_bo_del and
-- lima_vm_get_va of lima_vm.c. The locks make each call one step.
pub mod Add
pub mod Del
use lima_backport_sprd7730se.Prelude.{
  ℕ, zero, suc, ◌+◌, ◌-◌, ◌*◌, ◌%◌, ◌^◌, Bool, true, false, Option, none, some, List, [], ◌∷◌, ◌++◌,
  ◌==◌, if◌then◌else◌, leb,
}
use lima_backport_sprd7730se.Errno.{Errno, enoent, enomem, Result, ok, err}
use lima_backport_sprd7730se.Vm.Tables.{
  Tables, Run, returns, fault, out_of_fuel, and_then, map_page_table, unmap_page_table,
}

-- `struct lima_bo_va`: `start` and `size` are those of its `drm_mm_node`, in bytes.
pub record BoVa : Type 0 where
  pub vm : ℕ
  pub ref_count : ℕ
  pub start : ℕ
  pub size : ℕ

-- What lima_vm.c reads and writes of `struct lima_bo`.
pub record Bo : Type 0 where
  pub size : ℕ
  pub pages_dma_addr : ℕ → ℕ
  pub va : List BoVa

-- `struct lima_vm`: `nodes` holds the start of each node in `mm`.
pub record Vm : Type 0 where
  pub id : ℕ
  pub tables : Tables
  pub nodes : List ℕ

unfoldable pub find : ℕ → List BoVa → Option BoVa
find vm [] = none
find vm (b ∷ bs) = if b.vm == vm then some b else find vm bs

-- `bo_va->ref_count = n` for the entry that `find` gives, and its removal from the list.
unfoldable pub set_ref_count : ℕ → ℕ → List BoVa → List BoVa
set_ref_count vm n [] = []
set_ref_count vm n (b ∷ bs) =
    if b.vm == vm then record b { ref_count = n } ∷ bs else b ∷ set_ref_count vm n bs

unfoldable pub list_del : ℕ → List BoVa → List BoVa
list_del vm [] = []
list_del vm (b ∷ bs) = if b.vm == vm then bs else b ∷ list_del vm bs

-- drm_mm_remove_node
unfoldable pub remove_node : ℕ → List ℕ → List ℕ
remove_node start [] = []
remove_node start (n ∷ ns) = if n == start then ns else n ∷ remove_node start ns

-- What the kernel answers during one call: whether `kzalloc` gives memory, the start of the node
-- that `drm_mm_insert_node_generic` finds or its error, and the block tables of `dma_alloc_wc`.
pub record Env : Type 0 where
  pub kzalloc : Bool
  pub insert_node : Result ℕ
  pub alloc : ℕ → Option ℕ

abbrev pub Out : Type 0
Out = Run (Result (Unit {0}) × Vm × Bo)

-- From the node on: enter the pages, or give the node back.
unfoldable pub map_node : ℕ → Env → Vm → Bo → ℕ → Out
map_node fuel env vm bo start =
    and_then (map_page_table fuel env.alloc vm.tables bo.pages_dma_addr start (start + bo.size - 1))
      λ (ret, tables). elim ret [
        | err e ↦
            returns (
              err e,
              record vm { tables = tables; nodes = remove_node start (start ∷ vm.nodes) },
              bo,
            )
        | ok u ↦ returns (
          ok tt,
          record vm { tables = tables; nodes = start ∷ vm.nodes },
          record bo {
            va = bo.va ++ record { vm = vm.id; ref_count = 1; start = start; size = bo.size } ∷ [];
          },
        )
      ]

unfoldable pub new_bo_va : ℕ → Env → Vm → Bo → Out
unfolding map_node
new_bo_va fuel env vm bo =
    if env.kzalloc
    then elim env.insert_node [
      | err e ↦ returns (err e, vm, bo)
      | ok start ↦ map_node fuel env vm bo start
    ]
    else returns (err enomem, vm, bo)

unfoldable pub vm_bo_add : ℕ → Env → Vm → Bo → Bool → Out
unfolding new_bo_va find
vm_bo_add fuel env vm bo create = elim (find vm.id bo.va) [
  | some b ↦
      returns (ok tt, vm, record bo { va = set_ref_count vm.id ((b.ref_count + 1) % 2 ^ 32) bo.va })
  | none ↦ if create then new_bo_va fuel env vm bo else returns (err enoent, vm, bo)
]

-- The last mapping goes.
unfoldable pub unmap_node : ℕ → Vm → Bo → BoVa → Run (Vm × Bo)
unmap_node fuel vm bo b =
    and_then (unmap_page_table fuel vm.tables b.start (b.start + b.size - 1)) λ tables. returns (
      record vm { tables = tables; nodes = remove_node b.start vm.nodes },
      record bo { va = list_del vm.id bo.va },
    )

-- Without a mapping the code reads through a null pointer.
unfoldable pub vm_bo_del : ℕ → Vm → Bo → Run (Vm × Bo)
unfolding unmap_node find
vm_bo_del fuel vm bo = elim (find vm.id bo.va) [
  | none ↦ fault
  | some b ↦
      let n = (b.ref_count + 2 ^ 32 - 1) % 2 ^ 32 in
      if n == 0
      then unmap_node fuel vm bo b
      else returns (vm, record bo { va = set_ref_count vm.id n bo.va })
]

unfoldable pub get_va : Vm → Bo → Run ℕ
unfolding find
get_va vm bo = elim (find vm.id bo.va) [ none ↦ fault | some b ↦ returns b.start ]
