-- ===== src/Vm/Create.antt =====
-- lima_vm_create of lima_vm.c: a new address space, with the page of the DLBU if the GPU has one.
use lima_backport_sprd7730se.Prelude.{
  ℕ, zero, suc, ◌⊎◌, Option-cases, ◌+◌, ◌-◌, ◌<◌, ◌≡◌, refl, ◌∙◌, ap, sym, Bool, true, false,
  Option, none, some, inl, inr, ◌==◌, if◌then◌else◌, arith,
}
use Prim.Native.Nat.{bit_or}
use lima_backport_sprd7730se.Errno.{Errno, enomem, Result, ok, err}
use lima_backport_sprd7730se.Vm.Tables.{
  Tables, Run, returns, fault, out_of_fuel, and_then, page_size, flags_cache, map_page_table,
  map_loop, ensure_table, add_table, set_entry, set_word, rollback,
}
use lima_backport_sprd7730se.Vm.Entries.{entry}
use lima_backport_sprd7730se.Vm.Map.{map_page_table_lem}

-- How many spaces and directories are allocated.
pub record Heap : Type 0 where
  pub vms : ℕ
  pub directories : ℕ

-- LIMA_VA_RESERVE_DLBU
abbrev pub va_reserve_dlbu : ℕ
va_reserve_dlbu = 0xfff0_0000

-- A new space whose directory is at `dma`; all is zeroed.
abbrev pub new_tables : ℕ → Tables
new_tables dma = record { pd = record { dma = dma; cpu = λ _. 0 }; bts = λ _. none }

-- `err_out1` for an error, where `err_out0` follows.
abbrev pub after_dlbu : Heap → Result (Unit {0}) × Tables → Run (Option Tables × Heap)
after_dlbu h (ok u, vm) = returns (some vm, h)
after_dlbu h (err e, vm) =
    returns (none, record { vms = h.vms - 1; directories = h.directories - 1 })

-- `dlbu` is the page of the DLBU, if there is one, and `directory` the answer for the directory.
unfoldable pub vm_create :
    ℕ → Bool → Option ℕ → Option ℕ → (ℕ → Option ℕ) → Heap → Run (Option Tables × Heap)
unfolding map_page_table
vm_create fuel vm_allocated directory dlbu alloc h =
    if vm_allocated
    then elim directory [
      | none ↦ returns (none, record h { vms = h.vms + 1 - 1 })
      | some dma ↦ elim dlbu [
        | none ↦
            returns
              (some (new_tables dma), record { vms = h.vms + 1; directories = h.directories + 1 })
        | some page ↦
            and_then
              (map_page_table fuel alloc (new_tables dma) (λ _. page) va_reserve_dlbu
                (va_reserve_dlbu + page_size - 1))
              (after_dlbu (record { vms = h.vms + 1; directories = h.directories + 1 }))
      ]
    ]
    else returns (none, h)

-- The entry of a page in a new space.
abbrev pub new_entry : Option ℕ → ℕ → ℕ
new_entry none q = 0
new_entry (some page) q = if q == 1048320 then bit_or page flags_cache else 0

-- Why a creation fails: the space, its directory, or the block table of the DLBU's page, which has the
-- index 127, cannot be allocated.
abbrev pub Failed : Bool → Option ℕ → Option ℕ → (ℕ → Option ℕ) → Type 0
Failed vm_allocated directory dlbu alloc =
    (vm_allocated ≡ false)
    ⊎ ((directory ≡ none) ⊎ ((page : ℕ) × (dlbu ≡ some page) × (alloc 127 ≡ none)))

-- How a creation ends.
abbrev pub Ended :
    Bool → Option ℕ → Option ℕ → (ℕ → Option ℕ) → Heap → Option Tables × Heap → Type 0
Ended vm_allocated directory dlbu alloc h (none, h') =
    (h'.vms ≡ h.vms) × (h'.directories ≡ h.directories) × Failed vm_allocated directory dlbu alloc
Ended vm_allocated directory dlbu alloc h (some vm, h') =
    (h'.vms ≡ h.vms + 1)
    × (h'.directories ≡ h.directories + 1)
    × (directory ≡ some vm.pd.dma)
    × ((q : ℕ) → entry vm q ≡ new_entry dlbu q)

abbrev succeeded : Run (Result (Unit {0}) × Tables) → Bool
succeeded (returns (ok u, vm)) = true
succeeded (returns (err e, vm)) = false
succeeded fault = false
succeeded out_of_fuel = false

-- With its block table the page of the DLBU is mapped.
map_dlbu :
    (k page dma table : ℕ) (alloc : ℕ → Option ℕ)
    → alloc 127 ≡ some table
    → succeeded (
        map_page_table
          (suc (suc k))
          alloc
          (new_tables dma)
          (λ _. page)
          va_reserve_dlbu
          (va_reserve_dlbu + page_size - 1))
      ≡ true
unfolding map_page_table map_loop ensure_table add_table set_entry set_word
map_dlbu k page dma table alloc e = rw (e) refl

failed_if_err :
    (vm : Tables) (x : Errno) (r : Result (Unit {0}))
    → r ≡ err x
    → succeeded (returns (r, vm)) ≡ false
failed_if_err vm x r e = rw (e) refl

-- Whether or not the mapping succeeds, the directory stays where it is.
abbrev dma_of : Run (Result (Unit {0}) × Tables) → ℕ
dma_of (returns (r, vm)) = vm.pd.dma
dma_of fault = 0
dma_of out_of_fuel = 0

map-dma_of :
    (k page dma : ℕ) (alloc : ℕ → Option ℕ)
    → dma_of (
        map_page_table
          (suc (suc k))
          alloc
          (new_tables dma)
          (λ _. page)
          va_reserve_dlbu
          (va_reserve_dlbu + page_size - 1))
      ≡ dma
unfolding map_page_table map_loop ensure_table add_table set_entry set_word rollback
map-dma_of k page dma alloc = elim (Option-cases (alloc 127)) [
  | inl e ↦ rw (e) refl
  | inr (table, e) ↦ rw (e) refl
]

with_dlbu :
    (fuel page dma : ℕ) (alloc : ℕ → Option ℕ) (h : Heap)
    → 1 < fuel
    → (r : Option Tables × Heap) × (and_then
          (map_page_table fuel alloc
            (new_tables dma)
            (λ _. page)
            va_reserve_dlbu
            (va_reserve_dlbu + page_size - 1))
          (after_dlbu (record { vms = h.vms + 1; directories = h.directories + 1 }))
        ≡ returns r)
      × Ended true (some dma) (some page) alloc h r
with_dlbu zero page dma alloc h f = absurd (omega (arith, f))
with_dlbu (suc zero) page dma alloc h f = absurd (omega (arith, f))
with_dlbu (suc (suc k)) page dma alloc h f =
    let (ret, vm, e, out) =
      map_page_table_lem (suc (suc k)) alloc (λ _. page) (new_tables dma) 1048320 1 (omega arith)
        (omega arith) f (λ q u. refl) in
    let full : Heap = record { vms = h.vms + 1; directories = h.directories + 1 } in
    let mapped = ap (λ x. and_then x (after_dlbu full)) e in
    elim out [
      | inl (y, entries, present) ↦ (
        (some vm, record { vms = h.vms + 1; directories = h.directories + 1 }),
        mapped ∙ ap (λ x. after_dlbu full (x, vm)) y,
        (
          refl,
          refl,
          ap some (sym (map-dma_of k page dma alloc) ∙ ap dma_of e),
          λ q. ground (arith, entries q),
        ),
      )
      | inr (x, entries) ↦ (
        (none, record { vms = h.vms + 1 - 1; directories = h.directories + 1 - 1 }),
        mapped ∙ ap (λ x. after_dlbu full (x, vm)) x,
        (
          omega arith,
          omega arith,
          inr (
              inr (
                page,
                refl,
                elim (Option-cases (alloc 127)) [
                  | inl n ↦ n
                  | inr (table, a) ↦
                      let yes = map_dlbu k page dma table alloc a in
                      let same = ap succeeded e in
                      let no = failed_if_err vm enomem ret x in
                      absurd (ground (arith, sym yes ∙ same ∙ no))
                ],
              )),
        ),
      )
    ]

with_directory :
    (fuel dma : ℕ) (dlbu : Option ℕ) (alloc : ℕ → Option ℕ) (h : Heap)
    → 1 < fuel
    → (r : Option Tables × Heap) × (vm_create fuel true (some dma) dlbu alloc h ≡ returns r)
      × Ended true (some dma) dlbu alloc h r
unfolding vm_create
with_directory fuel dma none alloc h f = (
  (some (new_tables dma), record { vms = h.vms + 1; directories = h.directories + 1 }),
  refl,
  (refl, refl, refl, λ q. refl),
)
with_directory fuel dma (some page) alloc h f = with_dlbu fuel page dma alloc h f

-- The creation of an address space returns, with two rounds of fuel, and reads no null pointer. Either it
-- fails, and then the space, its directory or, if there is a page for the DLBU, the table for it
-- cannot be allocated, and neither the space nor the directory stays; or there is one more of
-- each, the new space has the directory that was allocated, and in it just the page at LIMA_VA_RESERVE_DLBU has an entry, that of the DLBU's
-- page with the cached flags, and none if the GPU has no DLBU.
pub vm_create-map_page_table :
    (fuel : ℕ) (vm_allocated : Bool) (directory dlbu : Option ℕ) (alloc : ℕ → Option ℕ) (h : Heap)
    → 1 < fuel
    → (r : Option Tables × Heap) × (vm_create fuel vm_allocated directory dlbu alloc h ≡ returns r)
      × Ended vm_allocated directory dlbu alloc h r
unfolding vm_create
vm_create-map_page_table fuel false directory dlbu alloc h f =
    ((none, h), refl, (refl, refl, inl refl))
vm_create-map_page_table fuel true none dlbu alloc h f =
    ((none, record h { vms = h.vms + 1 - 1 }), refl, (omega arith, refl, inr (inl refl)))
vm_create-map_page_table fuel true (some dma) dlbu alloc h f =
    with_directory fuel dma dlbu alloc h f
