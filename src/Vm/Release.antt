-- ===== src/Vm/Release.antt =====
-- The end of an address space: lima_vm_release of lima_vm.c and lima_vm_put of lima_vm.h.
use lima_backport_sprd7730se.Prelude.{
  ℕ, zero, suc, ◌+◌, ◌-◌, Option, none, some, List, [], ◌∷◌, ◌++◌, ◌==◌, if◌then◌else◌,
}
use lima_backport_sprd7730se.Vm.Tables.{Page, Tables}
use lima_backport_sprd7730se.Vm.Create.{Heap}

-- LIMA_VM_NUM_BT
abbrev pub num_bt : ℕ
num_bt = 128

abbrev pub table_of : Option Page → List ℕ
table_of none = []
table_of (some t) = t.dma ∷ []

-- The block tables that are allocated, of `n` from the `i`-th on.
unfoldable pub block_tables : ℕ → ℕ → Tables → List ℕ
block_tables zero i vm = []
block_tables (suc n) i vm = table_of (vm.bts i) ++ block_tables n (i + 1) vm

-- lima_vm_release: where the freed memory was, and what is left allocated.
unfoldable pub vm_release : Tables → Heap → List ℕ × Heap
unfolding block_tables
vm_release vm h = (
  block_tables num_bt 0 vm ++ vm.pd.dma ∷ [],
  record { vms = h.vms - 1; directories = h.directories - 1 },
)

-- lima_vm_put of a space with so many references: how many are left, and what a release did.
unfoldable pub vm_put : ℕ → Tables → Heap → Option (ℕ × (List ℕ × Heap))
unfolding vm_release
vm_put refs vm h =
    if refs == 0
    then none
    else if refs == 1
    then some (0, vm_release vm h)
    else some (refs - 1, ([], h))
