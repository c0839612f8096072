-- ===== src/Object/Prime.antt =====
-- Sharing buffers with other drivers: lima_gem_prime.c.
use lima_backport_sprd7730se.Prelude.{
  ℕ, zero, suc, ◌+◌, ◌-◌, ◌/◌, Bool, Option, some, List, [], ◌∷◌, if◌then◌else◌,
}
use lima_backport_sprd7730se.Errno.{enomem, Result, ok, err}
use lima_backport_sprd7730se.Object.{Mem, Buffer, Kernel}
use lima_backport_sprd7730se.Object.Create.{Segment, bo_create}

-- lima_gem_prime_import_sg_table.
unfoldable pub prime_import_sg_table :
    Kernel → ℕ → List Segment → Mem → Option (Result Buffer × Mem)
unfolding bo_create
prime_import_sg_table a size table m = bo_create a (some table) size m

-- One segment for each page, `n` of them from the `i`-th on; the DMA address is left zeroed.
unfoldable pub page_segments : (ℕ → ℕ) → ℕ → ℕ → List Segment
page_segments pages zero i = []
page_segments pages (suc n) i =
    record { page = pages i; dma_address = 0; length = 4096 } ∷ page_segments pages n (i + 1)

-- lima_gem_prime_get_sg_table: the answers for the struct and for its table, and how many such structs
-- are allocated.
unfoldable pub prime_get_sg_table : Bool → Bool → Buffer → ℕ → Result (List Segment) × ℕ
unfolding page_segments
prime_get_sg_table allocated table_allocated b tables =
    if allocated
    then (if table_allocated
        then (ok (page_segments b.arrays.pages (b.size / 4096) 0), tables + 1)
        else (err enomem, tables + 1 - 1))
    else (err enomem, tables)
