-- ===== src/Object/Alive.antt =====
-- What a living buffer holds, and that its destruction gives it back.
use lima_backport_sprd7730se.Prelude.{
  ℕ, zero, suc, ◌+◌, ◌-◌, ◌/◌, ◌≡◌, refl, Bool, true, false, Option, none, some, List, [], ◌∷◌,
  ◌==◌, if◌then◌else◌, arith,
}
use lima_backport_sprd7730se.Fence.{◌>>=◌, >>=-some, put}
use lima_backport_sprd7730se.Fence.Refs.{put_all}
use lima_backport_sprd7730se.Resv.{resv_init, resv_fini}
use lima_backport_sprd7730se.Object.{Mem, Arrays, Buffer, kfree_array, kfree_bo, gem_object_release}
use lima_backport_sprd7730se.Object.Create.{fini_resv, free_pages, bo_vmap, bo_vunmap, bo_destroy}
use lima_backport_sprd7730se.Object.Pages.{span, Extra, Same, put_page-Extra, dma_unmap_page-Extra}

-- What happens to a buffer while it lives: `vmaps` with the answer of the kernel.
pub data Use : Type 0 where
  vmaps : Option ℕ → Use
  vunmaps : Use

unfoldable pub use_all : List Use → Buffer → Mem → Option (Buffer × Mem)
use_all [] b m = some (b, m)
use_all (vmaps v ∷ l) b m = let r = bo_vmap v b m in use_all l r.0 r.1
use_all (vunmaps ∷ l) b m = bo_vunmap b m >>= λ r. use_all l r.0 r.1

abbrev pub one_if : Option ℕ → ℕ
one_if none = 0
one_if (some v) = 1

abbrev pub pages_of : Bool → Arrays → ℕ → ℕ → ℕ
pages_of true ar n a = 0
pages_of false ar n a = span ar.pages 0 n a

abbrev pub dmas_of : Bool → Arrays → ℕ → ℕ → ℕ
dmas_of true ar n a = 0
dmas_of false ar n a = span ar.pages_dma_addr 0 n a

abbrev pub filps_of : Bool → ℕ
filps_of imported = if imported then 0 else 1

-- `m` with what a buffer holds besides its pages.
abbrev pub with_buffer : Bool → Option ℕ → Mem → Mem
with_buffer imported vaddr m = record m {
  arrays = m.arrays + 2;
  objects = m.objects + 1;
  filps = m.filps + filps_of imported;
  vmaps = m.vmaps + one_if vaddr;
}

-- `m'` is `m` with the buffer.
pub record Alive (m : Mem) (b : Buffer) (m' : Mem) : Type 0 where
  pub resv : b.resv ≡ resv_init
  pub extra :
      Extra
        (pages_of b.imported b.arrays (b.size / 4096))
        (dmas_of b.imported b.arrays (b.size / 4096))
        (with_buffer b.imported b.vaddr m)
        m'

bo_vmap-Alive :
    (v old : Option ℕ) (b : Buffer) (m m' : Mem)
    → Alive m (record b { vaddr = old }) m'
    → Alive m
        (bo_vmap v (record b { vaddr = old }) m').0
        (bo_vmap v (record b { vaddr = old }) m').1
unfolding bo_vmap
bo_vmap-Alive v (some x) b m m' a = a
bo_vmap-Alive none none b m m' a = a
bo_vmap-Alive (some x) none b m m' a = record {
  resv = a.resv;
  extra = record {
    refs_more = a.extra.refs_more;
    maps_more = a.extra.maps_more;
    arrays_same = a.extra.arrays_same;
    objects_same = a.extra.objects_same;
    filps_same = a.extra.filps_same;
    vmaps_same = omega (arith, a.extra.vmaps_same);
    store_same = a.extra.store_same;
  };
}

bo_vunmap-Alive :
    (old : Option ℕ) (b : Buffer) (m m' : Mem)
    → Alive m (record b { vaddr = old }) m'
    → (q : Mem) × (bo_vunmap (record b { vaddr = old }) m' ≡ some (record b { vaddr = none }, q))
      × Alive m (record b { vaddr = none }) q
unfolding bo_vunmap
bo_vunmap-Alive none b m m' a = (m', refl, a)
bo_vunmap-Alive (some x) b m m' a = (
  record m' { vmaps = m'.vmaps - 1 },
  ground (arith, a.extra.vmaps_same),
  record {
    resv = a.resv;
    extra = record {
      refs_more = a.extra.refs_more;
      maps_more = a.extra.maps_more;
      arrays_same = a.extra.arrays_same;
      objects_same = a.extra.objects_same;
      filps_same = a.extra.filps_same;
      vmaps_same = omega (arith, a.extra.vmaps_same);
      store_same = a.extra.store_same;
    };
  },
)

pub use_all-Alive :
    (l : List Use) (b : Buffer) (m m' : Mem)
    → Alive m b m'
    → (c : Buffer) × (q : Mem) × (use_all l b m' ≡ some (c, q)) × Alive m c q
unfolding use_all
use_all-Alive [] b m m' a = (b, m', refl, a)
use_all-Alive (vmaps v ∷ l) b m m' a = use_all-Alive l _ m _ (bo_vmap-Alive v b.vaddr b m m' a)
use_all-Alive (vunmaps ∷ l) b m m' a =
    let (q, e, a') = bo_vunmap-Alive b.vaddr b m m' a in
    let (c, q', e', a'') = use_all-Alive l (record b { vaddr = none }) m q a' in
    (c, q', rw (e) e', a'')

free_pages-Extra :
    (k i : ℕ) (ar : Arrays) (m m' : Mem)
    → Extra (span ar.pages i k) (span ar.pages_dma_addr i k) m m'
    → (q : Mem) × (free_pages k i ar m' ≡ some q) × Same m q
unfolding free_pages
free_pages-Extra zero i ar m m' x = (m', refl, x)
free_pages-Extra (suc k) i ar m m' x =
    let (m1, e1, x1) =
      dma_unmap_page-Extra (ar.pages_dma_addr i) _ (span ar.pages_dma_addr (i + 1) k) m m' x in
    let (m2, e2, x2) = put_page-Extra (ar.pages i) (span ar.pages (i + 1) k) _ m m1 x1 in
    let (q, e3, s) = free_pages-Extra k (i + 1) ar m m2 x2 in (q, rw (e1, e2) e3, s)

-- The rest of the destruction, once the pages are given back.
abbrev free_rest : Bool → Mem → Option Mem
free_rest imported m =
    kfree_array m >>= λ m4. kfree_array m4 >>= λ m5. gem_object_release imported m5 >>= kfree_bo

free_rest_lem :
    (imported : Bool) (m m' : Mem)
    → Same (with_buffer imported none m) m'
    → (q : Mem) × (free_rest imported m' ≡ some q) × Same m q
unfolding kfree_array gem_object_release kfree_bo
free_rest_lem true m m' x =
    let h1 : (m'.arrays == 0) ≡ false = ground (arith, x.arrays_same) in
    let h2 : (m'.arrays - 1 == 0) ≡ false = ground (arith, x.arrays_same) in
    let h3 : (m'.objects == 0) ≡ false = ground (arith, x.objects_same) in
    (
      record m' { arrays = m'.arrays - 1 - 1; objects = m'.objects - 1 },
      rw (h1, h2, h3) refl,
      record {
        refs_more = x.refs_more;
        maps_more = x.maps_more;
        arrays_same = omega (arith, x.arrays_same);
        objects_same = omega (arith, x.objects_same);
        filps_same = omega (arith, x.filps_same);
        vmaps_same = omega (arith, x.vmaps_same);
        store_same = x.store_same;
      },
    )
free_rest_lem false m m' x =
    let h1 : (m'.arrays == 0) ≡ false = ground (arith, x.arrays_same) in
    let h2 : (m'.arrays - 1 == 0) ≡ false = ground (arith, x.arrays_same) in
    let h3 : (m'.objects == 0) ≡ false = ground (arith, x.objects_same) in
    let h4 : (m'.filps == 0) ≡ false = ground (arith, x.filps_same) in
    (
      record m' { arrays = m'.arrays - 1 - 1; objects = m'.objects - 1; filps = m'.filps - 1 },
      rw (h1, h2, h4, h3) refl,
      record {
        refs_more = x.refs_more;
        maps_more = x.maps_more;
        arrays_same = omega (arith, x.arrays_same);
        objects_same = omega (arith, x.objects_same);
        filps_same = omega (arith, x.filps_same);
        vmaps_same = omega (arith, x.vmaps_same);
        store_same = x.store_same;
      },
    )

pub fini_resv-resv_init : (m : Mem) → fini_resv resv_init m ≡ some m
unfolding fini_resv resv_init resv_fini put put_all
fini_resv-resv_init m = refl

pages_lem :
    (imported : Bool) (n : ℕ) (ar : Arrays) (m m' : Mem)
    → Extra (pages_of imported ar n) (dmas_of imported ar n) m m'
    → (q : Mem) × ((if imported then some m' else free_pages n 0 ar m') ≡ some q) × Same m q
pages_lem true n ar m m' x = (m', refl, x)
pages_lem false n ar m m' x = free_pages-Extra n 0 ar m m' x

pub bo_destroy-Same :
    (b : Buffer) (m m' : Mem) → Alive m b m' → (q : Mem) × (bo_destroy b m' ≡ some q) × Same m q
unfolding bo_destroy
bo_destroy-Same b m m' a =
    let (m2, e2, a2) = bo_vunmap-Alive b.vaddr b m m' a in
    let (m3, e3, x3) =
      pages_lem b.imported (b.size / 4096) b.arrays (with_buffer b.imported none m) m2 a2.extra in
    let (q, e4, s) = free_rest_lem b.imported m m3 x3 in
    let kept : fini_resv b.resv m' ≡ some m' = rw (a.resv) (fini_resv-resv_init m') in
    (q, >>=-some _ kept (>>=-some _ e2 (>>=-some _ e3 e4)), s)
