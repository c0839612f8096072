-- ===== src/Vm/Tables.antt =====
-- The two-level page table of an address space and the loops that fill and clear it:
-- lima_vm.c and the VM flags of lima_regs.h.
-- 128 block tables hold 8 page tables each, one after the other, so that a block table is indexed
-- by bits 12 to 24 of an address, and the page directory by bits 22 to 31.
use Prim.Native.Nat.{bit_or}
use lima_backport_sprd7730se.Prelude.{
  ℕ, zero, suc, ◌+◌, ◌-◌, ◌*◌, ◌/◌, ◌%◌, ◌^◌, true, false, Option, none, some, ◌==◌, leb,
  if◌then◌else◌, update,
}
use lima_backport_sprd7730se.Errno.{enomem, Result, ok, err}

abbrev pub page_size : ℕ
page_size = 4096

abbrev pub num_pt_per_bt : ℕ
num_pt_per_bt = 8

-- LIMA_PDE, LIMA_PTE, LIMA_PBE and LIMA_BTE
abbrev pub pde : ℕ → ℕ
pde va = va / 2 ^ 22

abbrev pub pte : ℕ → ℕ
pte va = va % 2 ^ 22 / 2 ^ 12

abbrev pub pbe : ℕ → ℕ
pbe va = va / 2 ^ 25

abbrev pub bte : ℕ → ℕ
bte va = va % 2 ^ 25 / 2 ^ 12

-- LIMA_VM_FLAG_PRESENT and LIMA_VM_FLAGS_CACHE
abbrev pub flag_present : ℕ
flag_present = 1

abbrev pub flags_cache : ℕ
flags_cache = 0x1df

-- `struct lima_vm_page` with memory behind it: where the device sees it, and its 32-bit words.
pub record Page : Type 0 where
  pub dma : ℕ
  pub cpu : ℕ → ℕ

-- A block table whose `cpu` is NULL is `none`.
pub record Tables : Type 0 where
  pub pd : Page
  pub bts : ℕ → Option Page

-- A loop returns, reads through a null pointer, or is still running when the fuel is spent.
pub data Run {ℓ} (A : Type ℓ) : Type ℓ where
  returns : A → Run A
  fault : Run A
  out_of_fuel : Run A

abbrev pub and_then {ℓ κ} : {A : Type ℓ} {B : Type κ} → Run A → (A → Run B) → Run B
and_then (returns a) k = k a
and_then fault k = fault
and_then out_of_fuel k = out_of_fuel

-- vm->bts[b].cpu[i] = v
unfoldable pub set_word : Tables → ℕ → ℕ → ℕ → Run Tables
set_word vm b i v = elim (vm.bts b) [
  | none ↦ fault
  | some bt ↦
      returns (record vm { bts = update vm.bts b (some (record bt { cpu = update bt.cpu i v })) })
]

unfoldable pub set_entry : Tables → ℕ → ℕ → Run Tables
unfolding set_word
set_entry vm addr v = set_word vm (pbe addr) (bte addr) v

-- `addr` is a `u32`, which wraps.
unfoldable pub unmap_page_table : ℕ → Tables → ℕ → ℕ → Run Tables
unmap_page_table zero vm addr end = out_of_fuel
unmap_page_table (suc k) vm addr end = elim (leb addr end) [
  | false ↦ returns vm
  | true ↦
      and_then (set_entry vm addr 0) λ vm'. unmap_page_table k vm' ((addr + page_size) % 2 ^ 32) end
]

-- The directory entries from `index` on, for `n` page tables from `pts` on.
unfoldable pub fill_directory : ℕ → (ℕ → ℕ) → ℕ → ℕ → ℕ → ℕ
fill_directory zero pd index pts = pd
fill_directory (suc n) pd index pts =
    fill_directory n (update pd index (bit_or pts flag_present)) (index + 1)
      ((pts + page_size) % 2 ^ 32)

-- A new zeroed block table at `dma`, entered in the directory.
unfoldable pub add_table : Tables → ℕ → ℕ → Tables
add_table vm b dma = record {
  pd = record {
    dma = vm.pd.dma;
    cpu = fill_directory num_pt_per_bt vm.pd.cpu (b * num_pt_per_bt) dma;
  };
  bts = update vm.bts b (some (record { dma = dma; cpu = λ _. 0 }));
}

-- The block table of an index, allocated if need be. `alloc` is the answer of `dma_alloc_wc` for
-- the zeroed table of an index; `none` is its failure.
unfoldable pub ensure_table : (ℕ → Option ℕ) → Tables → ℕ → Option Tables
ensure_table alloc vm b = elim (vm.bts b) [
  | some bt ↦ some vm
  | none ↦ elim (alloc b) [ none ↦ none | some dma ↦ some (add_table vm b dma) ]
]

-- The way out when a table cannot be allocated at `addr`.
unfoldable pub rollback : ℕ → Tables → ℕ → ℕ → Run (Result (Unit {0}) × Tables)
rollback fuel vm start addr =
    if addr == start
    then returns (err enomem, vm)
    else and_then (unmap_page_table fuel vm start (addr - 1)) (λ vm'. returns (err enomem, vm'))

-- `addr` is a `u64`, and `i` the index of the next page. The rollback gets `fuel` rounds.
unfoldable pub map_loop :
    (fuel : ℕ) (alloc : ℕ → Option ℕ) (dma : ℕ → ℕ) (start end : ℕ)
    → ℕ
    → Tables
    → (addr i : ℕ) → Run (Result (Unit {0}) × Tables)
map_loop fuel alloc dma start end zero vm addr i = out_of_fuel
map_loop fuel alloc dma start end (suc k) vm addr i = elim (leb addr end) [
  | false ↦ returns (ok tt, vm)
  | true ↦ elim (ensure_table alloc vm (pbe addr)) [
    | none ↦ rollback fuel vm start addr
    | some vm' ↦
        and_then (set_entry vm' addr (bit_or (dma i) flags_cache))
          λ vm''. map_loop fuel alloc dma start end k vm'' ((addr + page_size) % 2 ^ 64) (i + 1)
  ]
]

unfoldable pub map_page_table :
    ℕ → (ℕ → Option ℕ) → Tables → (ℕ → ℕ) → ℕ → ℕ → Run (Result (Unit {0}) × Tables)
unfolding map_loop
map_page_table fuel alloc vm dma start end = map_loop fuel alloc dma start end fuel vm start 0
