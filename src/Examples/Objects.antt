-- ===== src/Examples/Objects.antt =====
-- A buffer of two pages, and an import of a table that is longer than the buffer.
use lima_backport_sprd7730se.Prelude.{
  ap, refl, none, ℕ, ◌<◌, ◌+◌, ◌≡◌, true, some, List, [], ◌∷◌, arith,
}
use lima_backport_sprd7730se.Errno.{Result, ok, err, einval}
use lima_backport_sprd7730se.Fence.{unsignaled}
use lima_backport_sprd7730se.Object.{Mem, Kernel, Buffer, zeroed}
use lima_backport_sprd7730se.Resv.{resv_init}
use lima_backport_sprd7730se.Object.Handle.{Drm, Handled, nopage, ioctl_gem_create, gem_fault}
use lima_backport_sprd7730se.Object.Handles.{Ended, ioctl_gem_create-Kept}
use lima_backport_sprd7730se.Object.Faults.{page_or_0, gem_fault-table_page}
use lima_backport_sprd7730se.Object.Create.{Segment, bo_create, fill_table}
use lima_backport_sprd7730se.Object.Alive.{Use, vmaps, vunmaps}
use lima_backport_sprd7730se.Object.Lifetime.{Lived, bo_create-bo_destroy}
use lima_backport_sprd7730se.Object.Import.{Holds, fill_table-table_page}

abbrev kernel : Kernel
kernel = record {
  bo_allocated = true;
  gem_init = ok tt;
  pages_allocated = true;
  dma_allocated = true;
  read_page = λ i. some (7 + i);
  dma_map = λ i. some (100 + i);
  unset = err einval;
}

abbrev mem : Mem
mem = record {
  page_refs = λ _. 1;
  mappings = λ _. 0;
  arrays = 0;
  objects = 0;
  filps = 0;
  vmaps = 0;
  store = record { refcount = λ _. 0; status = λ _. unsignaled; timestamp_ns = λ _. 0 };
}

abbrev uses : List Use
uses = vmaps (some 5) ∷ vunmaps ∷ vmaps (some 6) ∷ []

some_pos : (j d : ℕ) → some (100 + j) ≡ some d → 0 < d
some_pos j d h = ground (arith, h)

bo_create-bo_destroy_example :
    (r : Result Buffer × Mem) × (bo_create kernel none 8000 mem ≡ some r) × Lived uses mem r
bo_create-bo_destroy_example = bo_create-bo_destroy kernel none 8000 uses mem some_pos

abbrev table : List Segment
table =
    record { page = 40; dma_address = 163840; length = 8192 }
    ∷ record { page = 90; dma_address = 368640; length = 8192 }
    ∷ []

fill_table-table_page_example : Holds (some (90, 368640)) zeroed (fill_table table 0 3 zeroed) 2
fill_table-table_page_example = fill_table-table_page table 3 2

abbrev drm : Drm
drm = record { handle_create = ok 1; mmap_offset = err einval }

ioctl_gem_create-Kept_example :
    (s : Handled) × (ioctl_gem_create kernel drm 8000 0 0 mem ≡ some s)
    × Ended kernel drm 8000 0 0 mem s
ioctl_gem_create-Kept_example = ioctl_gem_create-Kept kernel drm 8000 0 0 mem some_pos

abbrev imported_buffer : Buffer
imported_buffer = record {
  size = 12288;
  arrays = fill_table table 0 3 zeroed;
  vaddr = none;
  imported = true;
  resv = resv_init;
}

gem_fault-table_page_example :
    gem_fault (λ _. ok tt) 65536 (65536 + 8200) true imported_buffer ≡ some (some 90, nopage)
gem_fault-table_page_example =
    gem_fault-table_page (λ _. ok tt) 65536 8200 true table imported_buffer
      (λ p d e. ground (arith, ap page_or_0 e)) refl
