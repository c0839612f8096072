-- ===== src/Object.antt =====
-- Buffer objects: lima_object.c of src-kernel/drivers/gpu/drm/lima.
-- The state counts what the kernel has given out: references of pages, mappings of pages for the GPU by
-- their DMA address, and so on. A release of what is not held gives `none`. A kernel page is its number.
pub mod Create
pub mod Pages
pub mod Alive
pub mod Made
pub mod Lifetime
pub mod Prime
pub mod Import
pub mod Handle
pub mod Handles
pub mod Faults
use lima_backport_sprd7730se.Prelude.{
  ℕ, zero, suc, ◌+◌, ◌-◌, ◌*◌, ◌/◌, ◌%◌, ◌^◌, Bool, true, false, Option, none, some, List, [], ◌∷◌,
  ◌==◌, if◌then◌else◌, update,
}
use lima_backport_sprd7730se.Errno.{Errno, einval, enomem, Result, ok, err}
use lima_backport_sprd7730se.Fence.{Fences, ◌>>=◌}
use lima_backport_sprd7730se.Resv.{Resv, resv_init, resv_fini}

-- `filps` counts the shmem files of the GEM objects.
pub record Mem : Type 0 where
  pub page_refs : ℕ → ℕ
  pub mappings : ℕ → ℕ
  pub arrays : ℕ
  pub objects : ℕ
  pub filps : ℕ
  pub vmaps : ℕ
  pub store : Fences

-- The two arrays of a buffer.
pub record Arrays : Type 0 where
  pub pages : ℕ → ℕ
  pub pages_dma_addr : ℕ → ℕ

-- `struct lima_bo` without its list of mappings, which is in Vm/Bo. `arrays` is there from the
-- creation on; `imported` says that there is a table of the exporter.
pub record Buffer : Type 0 where
  pub size : ℕ
  pub arrays : Arrays
  pub vaddr : Option ℕ
  pub imported : Bool
  pub resv : Resv

-- The answers of the kernel. `dma_map` is `none` for an address that `dma_mapping_error` refuses.
-- `unset` is what the caller sees of a variable that was not set.
pub record Kernel : Type 0 where
  pub bo_allocated : Bool
  pub gem_init : Result (Unit {0})
  pub pages_allocated : Bool
  pub dma_allocated : Bool
  pub read_page : ℕ → Option ℕ
  pub dma_map : ℕ → Option ℕ
  pub unset : Result Buffer

abbrev pub take_page : ℕ → Mem → Mem
take_page p m = record m { page_refs = update m.page_refs p (m.page_refs p + 1) }

abbrev pub take_mapping : ℕ → Mem → Mem
take_mapping d m = record m { mappings = update m.mappings d (m.mappings d + 1) }

unfoldable pub put_page : ℕ → Mem → Option Mem
put_page p m =
    if m.page_refs p == 0
    then none
    else some (record m { page_refs = update m.page_refs p (m.page_refs p - 1) })

unfoldable pub dma_unmap_page : ℕ → Mem → Option Mem
dma_unmap_page d m =
    if m.mappings d == 0
    then none
    else some (record m { mappings = update m.mappings d (m.mappings d - 1) })

unfoldable pub kfree_array : Mem → Option Mem
kfree_array m = if m.arrays == 0 then none else some (record m { arrays = m.arrays - 1 })

unfoldable pub kfree_bo : Mem → Option Mem
kfree_bo m = if m.objects == 0 then none else some (record m { objects = m.objects - 1 })

-- `drm_gem_object_release`: an object without a file of its own has nothing to give back.
unfoldable pub gem_object_release : Bool → Mem → Option Mem
gem_object_release imported m =
    if imported
    then some m
    else if m.filps == 0
    then none
    else some (record m { filps = m.filps - 1 })

-- A page of the loop after `err`, and the loop, for the pages below an index.
unfoldable pub undo_page : ℕ → ℕ → Mem → Option Mem
unfolding put_page dma_unmap_page
undo_page p d m = (if d == 0 then some m else dma_unmap_page d m) >>= put_page p

unfoldable pub undo_pages : ℕ → Arrays → Mem → Option Mem
undo_pages zero ar m = some m
undo_pages (suc i) ar m = undo_page (ar.pages i) (ar.pages_dma_addr i) m >>= undo_pages i ar

abbrev pub set_page : ℕ → ℕ → ℕ → Arrays → Arrays
set_page i p d ar = record {
  pages = update ar.pages i p;
  pages_dma_addr = update ar.pages_dma_addr i d;
}

abbrev failed_pages : Option Mem → Option (Result Arrays × Mem)
failed_pages o = o >>= λ m. some (err enomem, m)

-- The loop over the pages from the i-th on.
unfoldable pub get_loop : Kernel → ℕ → ℕ → Arrays → Mem → Option (Result Arrays × Mem)
unfolding undo_pages
get_loop a zero i ar m = some (ok ar, m)
get_loop a (suc k) i ar m = elim (a.read_page i) [
  | none ↦ failed_pages (undo_pages i ar m)
  | some p ↦ elim (a.dma_map i) [
    | none ↦ failed_pages (undo_pages (i + 1) (set_page i p 0 ar) (take_page p m))
    | some d ↦ get_loop a k (i + 1) (set_page i p d ar) (take_mapping d (take_page p m))
  ]
]

-- On an error both arrays are freed.
abbrev pub after_loop : Result Arrays × Mem → Option (Result Arrays × Mem)
after_loop (ok ar, m) = some (ok ar, m)
after_loop (err e, m) = kfree_array m >>= kfree_array >>= λ t. some (err enomem, t)

abbrev pub zeroed : Arrays
zeroed = record { pages = λ _. 0; pages_dma_addr = λ _. 0 }

-- lima_bo_get_pages.
unfoldable pub get_pages : Kernel → ℕ → Mem → Option (Result Arrays × Mem)
unfolding get_loop kfree_array
get_pages a npages m =
    if a.pages_allocated
    then (if a.dma_allocated
        then (get_loop a npages 0 zeroed (record m { arrays = m.arrays + 2 }) >>= after_loop)
        else (kfree_array (record m { arrays = m.arrays + 1 }) >>= λ t. some (err enomem, t)))
    else some (err enomem, m)
