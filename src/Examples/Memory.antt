-- ===== src/Examples/Memory.antt =====
-- Address spaces: a buffer of two pages, mapped and unmapped in an empty space.
use lima_backport_sprd7730se.Prelude.{
  ℕ, ◌+◌, ◌-◌, ◌*◌, ◌≡◌, ◌≢◌, refl, true, false, Option, none, some, [], ◌⊎◌, if◌then◌else◌, arith,
}
use Prim.Native.Nat.{bit_or}
use lima_backport_sprd7730se.Errno.{Errno, enoent, enomem, Result, ok, err}
use lima_backport_sprd7730se.Vm.Create.{Heap, Ended, vm_create, vm_create-map_page_table}
use lima_backport_sprd7730se.Vm.Tables.{
  Page, Tables, returns, page_size, flags_cache, map_page_table, unmap_page_table,
}
use lima_backport_sprd7730se.Vm.Entries.{Present, entry, within}
use lima_backport_sprd7730se.Vm.Unmap.{Cleared, unmap_page_table-Cleared, unmap_top_never_returns}
use lima_backport_sprd7730se.Vm.Map.{map_page_table_lem}
use lima_backport_sprd7730se.Vm.Bo.{Bo, Vm, Env, find, vm_bo_add, vm_bo_del}
use lima_backport_sprd7730se.Vm.Bo.Add.{Added, NodeLaws, Unchanged, vm_bo_add_new}
use lima_backport_sprd7730se.Vm.Bo.Del.{Restored, del-add}

abbrev zeros : Page
zeros = record { dma = 4096; cpu = λ _. 0 }

-- A space with no block table, and one with all of them.
abbrev empty : Tables
empty = record { pd = zeros; bts = λ _. none }

abbrev full : Tables
full = record { pd = zeros; bts = λ _. some zeros }

abbrev alloc : ℕ → Option ℕ
alloc b = some 8192

abbrev dma : ℕ → ℕ
dma j = 65536 + 4096 * j

map_page_table_lem_example :
    (ret : Result (Unit {0})) × (vm' : Tables) × (map_page_table 3 alloc empty dma
        (page_size * 5)
        (page_size * (5 + 2) - 1)
      ≡ returns (ret, vm'))
    × (((ret ≡ ok tt)
          × ((q : ℕ)
              → entry vm' q
                ≡ (if within 5 2 q then bit_or (dma (q - 5)) flags_cache else entry empty q))
          × ((q : ℕ) → within 5 2 q ≡ true → Present vm' q))
        ⊎ ((ret ≡ err enomem) × ((q : ℕ) → entry vm' q ≡ entry empty q)))
map_page_table_lem_example =
    map_page_table_lem 3 alloc dma empty 5 2 (omega arith) (omega arith) (omega arith) (λ q h. refl)

unmap_page_table-Cleared_example :
    (vm' : Tables) × (unmap_page_table 3 full (page_size * 5) 28671 ≡ returns vm')
    × Cleared full 5 2 vm'
unmap_page_table-Cleared_example =
    unmap_page_table-Cleared 2 3 full 5 28671 refl (omega arith) (λ q h. refl) (omega arith)

unmap_top_never_returns_example :
    unmap_page_table 100 full (page_size * 1048575) 0xffff_ffff ≢ returns full
unmap_top_never_returns_example = unmap_top_never_returns 100 full full 1048575 (omega arith)

abbrev env : Env
env = record { kzalloc = true; insert_node = ok (page_size * 5); alloc = alloc }

abbrev space : Vm
space = record { id = 1; tables = empty; nodes = [] }

abbrev buffer : Bo
buffer = record { size = page_size * 2; pages_dma_addr = dma; va = [] }

-- The only start that the allocator gives.
laws : (start : ℕ) → env.insert_node ≡ ok start → NodeLaws 1048575 space 2 start
laws start h = record { page = 5; aligned = cc; fits = omega arith; free = λ q w. refl }

vm_bo_add_new_example :
    Added 3 1048575 env space buffer 2 (vm_bo_add 3 env space buffer true)
    × (true ≡ false → vm_bo_add 3 env space buffer true ≡ returns (err enoent, space, buffer))
unfolding find
vm_bo_add_new_example =
    vm_bo_add_new 3 1048575 env space buffer 2 true refl refl (omega arith) (omega arith)
      (omega arith) laws

del-add_example :
    ((vm1 : Vm) × (bo1 : Bo) × (vm_bo_add 3 env space buffer true ≡ returns (ok tt, vm1, bo1))
      × Restored space buffer (vm_bo_del 3 vm1 bo1))
    ⊎ ((e : Errno) × (vm1 : Vm) × (bo1 : Bo) × (vm_bo_add 3 env space buffer true
          ≡ returns (err e, vm1, bo1))
        × Unchanged space buffer vm1 bo1)
unfolding find
del-add_example =
    del-add 3 1048575 space buffer 2 env (omega arith) refl (omega arith) (omega arith) laws
      (λ b h. cc)

vm_create-map_page_table_example :
    (r : Option Tables × Heap) × (vm_create 2 true
        (some 8192)
        (some 12288)
        alloc
        (record { vms = 3; directories = 3 })
      ≡ returns r)
    × Ended true (some 8192) (some 12288) alloc (record { vms = 3; directories = 3 }) r
vm_create-map_page_table_example =
    vm_create-map_page_table 2 true (some 8192) (some 12288) alloc
      (record { vms = 3; directories = 3 }) (omega arith)
