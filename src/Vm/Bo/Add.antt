-- ===== src/Vm/Bo/Add.antt =====
-- `lima_vm_bo_add` on every branch.
use Prim.Native.Nat.{bit_or}
use lima_backport_sprd7730se.Prelude.{
  ℕ, ◌+◌, ◌-◌, ◌*◌, ◌^◌, ◌≤◌, ◌<◌, ◌≡◌, ◌⊎◌, refl, Bool, true, false, none, [], ◌∷◌, ◌++◌,
  if◌then◌else◌, arith, inl, inr, ap, ◌∙◌,
}
use mathlib.Core.Path.{ap₂}
use lima_backport_sprd7730se.Errno.{Errno, enoent, enomem, Result, ok, err}
use lima_backport_sprd7730se.Vm.Tables.{returns, page_size, flags_cache, map_page_table}
use lima_backport_sprd7730se.Vm.Entries.{entry, within, Present}
use lima_backport_sprd7730se.Vm.Map.{map_page_table_lem}
use lima_backport_sprd7730se.Vm.Bo.{
  Bo, Vm, Env, Out, find, remove_node, map_node, new_bo_va, vm_bo_add,
}

-- The buffer with a new mapping at the end of its list.
abbrev pub with_va : Vm → Bo → ℕ → ℕ → Bo
with_va vm bo start size = record bo {
  va = bo.va ++ record { vm = vm.id; ref_count = 1; start = start; size = size } ∷ [];
}

-- A new mapping of n pages at page p: entries, node and list entry are there.
pub record MappedAt (limit : ℕ) (vm : Vm) (bo : Bo) (p n : ℕ) (vm' : Vm) (bo' : Bo) : Type 0 where
  pub fits : p + n ≤ limit
  pub free : (q : ℕ) → within p n q ≡ true → entry vm.tables q ≡ 0
  pub entries :
      (q : ℕ)
      → entry vm'.tables q ≡ (
          if within p n q
          then bit_or (bo.pages_dma_addr (q - p)) flags_cache
          else entry vm.tables q)
  pub nodes : vm'.nodes ≡ page_size * p ∷ vm.nodes
  pub id : vm'.id ≡ vm.id
  pub present : (q : ℕ) → within p n q ≡ true → Present vm'.tables q
  pub bo_va : bo' ≡ with_va vm bo (page_size * p) (page_size * n)

-- Nothing that the hardware or a later call can see has changed.
pub record Unchanged (vm : Vm) (bo : Bo) (vm' : Vm) (bo' : Bo) : Type 0 where
  pub entries : (q : ℕ) → entry vm'.tables q ≡ entry vm.tables q
  pub nodes : vm'.nodes ≡ vm.nodes
  pub id : vm'.id ≡ vm.id
  pub bo_va : bo' ≡ bo

-- What `drm_mm` promises of a node for `n` pages: it is page aligned and ends at `limit` pages at
-- most, the end of the range of the allocator; and its pages are free, so that they have no entries.
pub record NodeLaws (limit : ℕ) (vm : Vm) (n start : ℕ) : Type 0 where
  pub page : ℕ
  pub aligned : start ≡ page_size * page
  pub fits : page + n ≤ limit
  pub free : (q : ℕ) → within page n q ≡ true → entry vm.tables q ≡ 0

module _ (fuel limit : ℕ) (env : Env) (vm : Vm) (bo : Bo) (n : ℕ) where
  abbrev pub Added : Out → Type 0
  Added r =
      ((p : ℕ) × (vm' : Vm) × (bo' : Bo) × (r ≡ returns (ok tt, vm', bo'))
        × MappedAt limit vm bo p n vm' bo')
      ⊎ ((e : Errno) × (vm' : Vm) × (bo' : Bo) × (r ≡ returns (err e, vm', bo'))
          × Unchanged vm bo vm' bo')

  map_node-Added :
      (start : ℕ)
      → bo.size ≡ page_size * n
      → 0 < n
      → n < fuel
      → limit ≤ 2 ^ 20
      → NodeLaws limit vm n start
      → Added (map_node fuel env vm bo start)
  unfolding map_node remove_node
  map_node-Added start size pos f top laws =
      let p : ℕ = laws.page in
      let last : start + bo.size - 1 ≡ page_size * (p + n) - 1 = omega (arith, laws.aligned) in
      let (ret, t, e, d) =
        map_page_table_lem fuel env.alloc bo.pages_dma_addr vm.tables p n pos
          (omega (arith, laws.fits)) f laws.free in
      let call =
        ap₂ (map_page_table fuel env.alloc vm.tables bo.pages_dma_addr) laws.aligned last ∙ e in
      rw call (elim d [
        | inl (o, x, y) ↦ rw o (
            inl (
              p,
              record vm { tables = t; nodes = start ∷ vm.nodes },
              with_va vm bo start bo.size,
              refl,
              record {
                fits = laws.fits;
                free = laws.free;
                entries = x;
                nodes = ap (λ s. s ∷ vm.nodes) laws.aligned;
                id = refl;
                present = y;
                bo_va = ap₂ (with_va vm bo) laws.aligned size;
              },
            ))
        | inr (o, x) ↦ rw o (
            inr (
              enomem,
              record vm { tables = t; nodes = remove_node start (start ∷ vm.nodes) },
              bo,
              refl,
              record { entries = x; nodes = ground arith; id = refl; bo_va = refl },
            ))
      ])

  -- A buffer of n pages, n > 0, that has no mapping in this space, and a kernel that keeps the laws of
  -- `drm_mm`: either the call returns 0, and the n pages of a new node hold the buffer's addresses with
  -- the cached flags, no other entry has changed, and the buffer has a mapping with one reference; or
  -- it returns an error, and every entry, the nodes and the buffer are as they were. It returns an
  -- error whenever the caller did not ask for a new mapping.
  pub vm_bo_add_new :
      (create : Bool)
      → find vm.id bo.va ≡ none
      → bo.size ≡ page_size * n
      → 0 < n
      → n < fuel
      → limit ≤ 2 ^ 20
      → ((start : ℕ) → env.insert_node ≡ ok start → NodeLaws limit vm n start)
      → Added (vm_bo_add fuel env vm bo create)
        × (create ≡ false → vm_bo_add fuel env vm bo create ≡ returns (err enoent, vm, bo))
  unfolding vm_bo_add new_bo_va
  vm_bo_add_new create new size pos f top laws =
      rw (new, vm_bo_add) (by_create create, λ c. rw c refl)
    where
      same : Unchanged vm bo vm bo
      same = record { entries = λ q. refl; nodes = refl; id = refl; bo_va = refl }

      by_node :
          (r : Result ℕ)
          → env.insert_node ≡ r
          → Added (elim r [
            | err e ↦ returns (err e, vm, bo)
            | ok start ↦ map_node fuel env vm bo start
          ])
      by_node (err e) q = inr (e, vm, bo, refl, same)
      by_node (ok start) q = map_node-Added start size pos f top (laws start q)

      by_memory :
          (b : Bool)
          → Added (
              if b
              then (elim env.insert_node [
                | err e ↦ returns (err e, vm, bo)
                | ok start ↦ map_node fuel env vm bo start
              ])
              else returns (err enomem, vm, bo))
      by_memory true = by_node env.insert_node refl
      by_memory false = inr (enomem, vm, bo, refl, same)

      by_create :
          (c : Bool) → Added (if c then new_bo_va fuel env vm bo else returns (err enoent, vm, bo))
      by_create true = by_memory env.kzalloc
      by_create false = inr (enoent, vm, bo, refl, same)
