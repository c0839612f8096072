-- ===== src/Object/Create.antt =====
-- lima_bo_create and lima_bo_destroy, with the kernel mapping of a buffer.
use lima_backport_sprd7730se.Prelude.{
  ℕ, zero, suc, ◌+◌, ◌-◌, ◌*◌, ◌/◌, ◌%◌, ◌^◌, Bool, true, false, Option, none, some, List, [], ◌∷◌,
  ◌==◌, ltb, if◌then◌else◌,
}
use lima_backport_sprd7730se.Errno.{einval, enomem, Result, ok, err}
use lima_backport_sprd7730se.Fence.{◌>>=◌}
use lima_backport_sprd7730se.Resv.{Resv, resv_init, resv_fini}
use lima_backport_sprd7730se.Object.{
  Mem, Arrays, Buffer, Kernel, put_page, dma_unmap_page, kfree_array, kfree_bo, gem_object_release,
  set_page, zeroed, get_pages,
}

abbrev pub page_align : ℕ → ℕ
page_align size = (size + 4095) % 2 ^ 32 / 4096 * 4096

unfoldable pub fini_resv : Resv → Mem → Option Mem
fini_resv r m = resv_fini r m.store >>= λ s. some (record m { store = s })

-- A run of pages of a scatter table.
pub record Segment : Type 0 where
  pub page : ℕ
  pub dma_address : ℕ
  pub length : ℕ

-- The inner loop over a segment, k pages before its end; the index is counted on.
unfoldable pub fill_segment : ℕ → ℕ → ℕ → ℕ → ℕ → Arrays → ℕ × Arrays
fill_segment zero p d idx npages ar = (idx, ar)
fill_segment (suc k) p d idx npages ar =
    let rest = fill_segment k (p + 1) (d + 4096) (idx + 1) npages (set_page idx p d ar) in
    if ltb idx npages then rest else (idx, ar)

unfoldable pub fill_table : List Segment → ℕ → ℕ → Arrays → Arrays
unfolding fill_segment
fill_table [] idx npages ar = ar
fill_table (g ∷ gs) idx npages ar =
    let filled = fill_segment (g.length / 4096) g.page g.dma_address idx npages ar in
    fill_table gs filled.0 npages filled.1

-- A `kfree` of an array that may be null.
abbrev free_if : Bool → Mem → Option Mem
free_if there m = if there then kfree_array m else some m

-- From `err_free` on.
unfoldable pub err_free : Bool → Bool → Result Buffer → Mem → Option (Result Buffer × Mem)
unfolding fini_resv kfree_array kfree_bo
err_free pages dma result m = fini_resv resv_init m >>= λ m1.
    free_if pages m1 >>= λ m2. free_if dma m2 >>= λ m3. kfree_bo m3 >>= λ m4. some (result, m4)

-- With the arrays freed by `lima_bo_get_pages`, `err_free` has none left to free.
abbrev pub after_pages : ℕ → Result Arrays × Mem → Option (Result Buffer × Mem)
after_pages size (ok ar, m) =
    some (
      ok (record { size = size; arrays = ar; vaddr = none; imported = false; resv = resv_init }),
      m,
    )
after_pages size (err e, m) = gem_object_release false m >>= err_free false false (err e)

-- Without a table, for a size that is aligned and not 0.
unfoldable pub own_pages : Kernel → ℕ → Mem → Option (Result Buffer × Mem)
unfolding get_pages err_free gem_object_release
own_pages a size m = elim a.gem_init [
  | err e ↦ err_free false false (err e) m
  | ok u ↦ get_pages a (size / 4096) (record m { filps = m.filps + 1 }) >>= after_pages size
]

abbrev pub count_of : Bool → ℕ
count_of b = if b then 1 else 0

-- With the table of an exporter. Both arrays are asked for before the test.
unfoldable pub import_pages : Kernel → List Segment → ℕ → Mem → Option (Result Buffer × Mem)
unfolding fill_table err_free
import_pages a table size m =
    let m' = record m {
      arrays = m.arrays + count_of a.pages_allocated + count_of a.dma_allocated;
    } in
    if a.pages_allocated
    then (if a.dma_allocated
        then some (
          ok (record {
            size = size;
            arrays = fill_table table 0 (size / 4096) zeroed;
            vaddr = none;
            imported = true;
            resv = resv_init;
          }),
          m',
        )
        else err_free true false a.unset m')
    else err_free false a.dma_allocated a.unset m'

-- lima_bo_create.
unfoldable pub bo_create : Kernel → Option (List Segment) → ℕ → Mem → Option (Result Buffer × Mem)
unfolding own_pages import_pages
bo_create a sgt size m =
    if page_align size == 0
    then some (err einval, m)
    else (if a.bo_allocated
        then elim sgt [
          | none ↦ own_pages a (page_align size) (record m { objects = m.objects + 1 })
          | some table ↦
              import_pages a table (page_align size) (record m { objects = m.objects + 1 })
        ]
        else some (err enomem, m))

-- The loop of lima_bo_destroy, k pages before the end.
unfoldable pub free_pages : ℕ → ℕ → Arrays → Mem → Option Mem
free_pages zero i ar m = some m
free_pages (suc k) i ar m =
    dma_unmap_page (ar.pages_dma_addr i) m >>= put_page (ar.pages i) >>= free_pages k (i + 1) ar

-- lima_bo_vmap, where `mapped` is the answer of `vmap`.
unfoldable pub bo_vmap : Option ℕ → Buffer → Mem → Buffer × Mem
bo_vmap mapped b m = elim b.vaddr [
  | some v ↦ (b, m)
  | none ↦ elim mapped [
    | none ↦ (b, m)
    | some v ↦ (record b { vaddr = some v }, record m { vmaps = m.vmaps + 1 })
  ]
]

-- lima_bo_vunmap.
unfoldable pub bo_vunmap : Buffer → Mem → Option (Buffer × Mem)
bo_vunmap b m = elim b.vaddr [
  | none ↦ some (b, m)
  | some v ↦
      if m.vmaps == 0
      then none
      else some (record b { vaddr = none }, record m { vmaps = m.vmaps - 1 })
]

-- lima_bo_destroy.
unfoldable pub bo_destroy : Buffer → Mem → Option Mem
unfolding fini_resv bo_vunmap free_pages kfree_array kfree_bo gem_object_release
bo_destroy b m = fini_resv b.resv m >>= λ m1. bo_vunmap b m1 >>= λ (b2, m2).
    (if b2.imported then some m2 else free_pages (b2.size / 4096) 0 b2.arrays m2) >>= λ m3.
    kfree_array m3 >>= λ m4. kfree_array m4 >>= λ m5. gem_object_release b2.imported m5 >>= kfree_bo
