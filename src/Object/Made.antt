-- ===== src/Object/Made.antt =====
-- How lima_bo_create ends, part by part.
use lima_backport_sprd7730se.Prelude.{
  if_false, none, true, ◌/◌, List, ℕ, ◌+◌, ◌-◌, ◌<◌, ◌≡◌, refl, ◌∙◌, if_true, false, some,
  Bool-cases, inl, inr, ◌==◌, arith,
}
use lima_backport_sprd7730se.Errno.{Result-cases, Errno, enomem, Result, ok, err}
use lima_backport_sprd7730se.Resv.{resv_init}
use lima_backport_sprd7730se.Fence.{◌>>=◌, >>=-some}
use lima_backport_sprd7730se.Object.{
  gem_object_release, Mem, Arrays, Buffer, Kernel, kfree_array, kfree_bo, zeroed, get_pages,
  after_loop,
}
use lima_backport_sprd7730se.Object.Create.{
  count_of, after_pages, own_pages, import_pages, Segment, fill_table, err_free,
}
use lima_backport_sprd7730se.Object.Pages.{Held, Same, Got, get_loop-Got}
use lima_backport_sprd7730se.Object.Alive.{Alive, fini_resv-resv_init}

pub Same-refl : (m : Mem) → Same m m
Same-refl m = record {
  refs_more = λ a. omega arith;
  maps_more = λ a. omega arith;
  arrays_same = refl;
  objects_same = refl;
  filps_same = refl;
  vmaps_same = refl;
  store_same = refl;
}

-- How a creation ends: with a living buffer, or with everything given back.
abbrev pub Made : Mem → Result Buffer × Mem → Type 0
Made m (ok b, m') = Alive m b m'
Made m (err e, m') = Same m m'

-- The same for the pages.
abbrev GotPages : ℕ → Mem → Result Arrays × Mem → Type 0
GotPages n m (ok ar, m') = Held ar n (record m { arrays = m.arrays + 2 }) m'
GotPages n m (err e, m') = Same m m'

after_loop_lem :
    (n : ℕ) (m : Mem) (r : Result Arrays × Mem)
    → Got n (record m { arrays = m.arrays + 2 }) r
    → (s : Result Arrays × Mem) × (after_loop r ≡ some s) × GotPages n m s
unfolding kfree_array
after_loop_lem n m (ok ar, m') x = ((ok ar, m'), refl, x)
after_loop_lem n m (err e, m') x =
    let h1 : (m'.arrays == 0) ≡ false = ground (arith, x.arrays_same) in
    let h2 : (m'.arrays - 1 == 0) ≡ false = ground (arith, x.arrays_same) in
    (
      (err enomem, record m' { arrays = m'.arrays - 1 - 1 }),
      rw (h1, h2) refl,
      record {
        refs_more = x.refs_more;
        maps_more = x.maps_more;
        arrays_same = omega (arith, x.arrays_same);
        objects_same = x.objects_same;
        filps_same = x.filps_same;
        vmaps_same = x.vmaps_same;
        store_same = x.store_same;
      },
    )

get_pages_lem :
    (a : Kernel) (n : ℕ) (m : Mem)
    → ((j d : ℕ) → a.dma_map j ≡ some d → 0 < d)
    → (s : Result Arrays × Mem) × (get_pages a n m ≡ some s) × GotPages n m s
unfolding get_pages kfree_array
get_pages_lem a n m h = elim (Bool-cases a.pages_allocated) [
  | inr e ↦ ((err enomem, m), rw e refl, Same-refl m)
  | inl e ↦ elim (Bool-cases a.dma_allocated) [
    | inr f ↦
        let h1 : (m.arrays + 1 == 0) ≡ false = ground arith in
        (
          (err enomem, record m { arrays = m.arrays + 1 - 1 }),
          rw (e, f, h1) refl,
          record {
            refs_more = λ a. omega arith;
            maps_more = λ a. omega arith;
            arrays_same = omega arith;
            objects_same = refl;
            filps_same = refl;
            vmaps_same = refl;
            store_same = refl;
          },
        )
    | inl f ↦
        let m2 : Mem = record m { arrays = m.arrays + 2 } in
        let (r, e1, g) =
          get_loop-Got a n 0 zeroed m2 m2 h (λ j l. absurd (omega (arith, l))) (Same-refl m2) in
        let z : 0 + n ≡ n = omega arith in
        let (s, e2, p) = after_loop_lem n m r (rw (z) at g) in
        (s, if_true _ _ e ∙ (if_true _ _ f ∙ >>=-some _ e1 e2), p)
  ]
]

-- `err_free` after the loop or the GEM object failed, both arrays being freed or never there.
err_free_lem :
    (e : Errno) (m m' : Mem)
    → Same (record m { objects = m.objects + 1 }) m'
    → (s : Result Buffer × Mem) × (err_free false false (err e) m' ≡ some s) × Made m s
unfolding err_free kfree_bo
err_free_lem e m m' x =
    let h : (m'.objects == 0) ≡ false = ground (arith, x.objects_same) in
    (
      (err e, record m' { objects = m'.objects - 1 }),
      rw (fini_resv-resv_init m', h) refl,
      record {
        refs_more = x.refs_more;
        maps_more = x.maps_more;
        arrays_same = x.arrays_same;
        objects_same = omega (arith, x.objects_same);
        filps_same = x.filps_same;
        vmaps_same = x.vmaps_same;
        store_same = x.store_same;
      },
    )

after_pages_lem :
    (size : ℕ) (m : Mem) (r : Result Arrays × Mem)
    → GotPages (size / 4096) (record m { objects = m.objects + 1; filps = m.filps + 1 }) r
    → (s : Result Buffer × Mem) × (after_pages size r ≡ some s) × Made m s
unfolding gem_object_release
after_pages_lem size m (ok ar, m') x = (
  (ok (record { size = size; arrays = ar; vaddr = none; imported = false; resv = resv_init }), m'),
  refl,
  record {
    resv = refl;
    extra = record {
      refs_more = x.refs_more;
      maps_more = x.maps_more;
      arrays_same = x.arrays_same;
      objects_same = x.objects_same;
      filps_same = x.filps_same;
      vmaps_same = omega (arith, x.vmaps_same);
      store_same = x.store_same;
    };
  },
)
after_pages_lem size m (err e, m') x =
    let h : (m'.filps == 0) ≡ false = ground (arith, x.filps_same) in
    let (s, e1, d) =
      err_free_lem e m (record m' { filps = m'.filps - 1 })
        (record {
          refs_more = x.refs_more;
          maps_more = x.maps_more;
          arrays_same = x.arrays_same;
          objects_same = x.objects_same;
          filps_same = omega (arith, x.filps_same);
          vmaps_same = x.vmaps_same;
          store_same = x.store_same;
        }) in
    (s, >>=-some _ (if_false _ _ h) e1, d)

own_pages-ok :
    (a : Kernel) (size : ℕ) (m : Mem) (u : Unit {0})
    → a.gem_init ≡ ok u
    → own_pages a size m
      ≡ (get_pages a (size / 4096) (record m { filps = m.filps + 1 }) >>= after_pages size)
unfolding own_pages
own_pages-ok a size m u f = rw (f, own_pages) refl

pub own_pages_lem :
    (a : Kernel) (size : ℕ) (m : Mem)
    → ((j d : ℕ) → a.dma_map j ≡ some d → 0 < d)
    → (s : Result Buffer × Mem) × (own_pages a size (record m { objects = m.objects + 1 }) ≡ some s)
      × Made m s
unfolding own_pages
own_pages_lem a size m h = elim (Result-cases a.gem_init) [
  | inr (e, f) ↦
      let m1 : Mem = record m { objects = m.objects + 1 } in
      rw (f, own_pages) (err_free_lem e m m1 (Same-refl m1))
  | inl (u, f) ↦
      let (r, e1, g) =
        get_pages_lem a (size / 4096) (record m { objects = m.objects + 1; filps = m.filps + 1 })
          h in
      let (s, e2, d) = after_pages_lem size m r g in
      (s, own_pages-ok a size _ u f ∙ >>=-some (after_pages size) e1 e2, d)
]

pub import_pages_lem :
    (a : Kernel) (table : List Segment) (size : ℕ) (m : Mem)
    → a.pages_allocated ≡ true
    → a.dma_allocated ≡ true
    → (s : Result Buffer × Mem) × (import_pages a table size (record m { objects = m.objects + 1 })
        ≡ some s)
      × Made m s
unfolding import_pages
import_pages_lem a table size m e f = (
  (
    ok (record {
      size = size;
      arrays = fill_table table 0 (size / 4096) zeroed;
      vaddr = none;
      imported = true;
      resv = resv_init;
    }),
    record m {
      objects = m.objects + 1;
      arrays = m.arrays + count_of a.pages_allocated + count_of a.dma_allocated;
    },
  ),
  if_true _ _ e ∙ if_true _ _ f,
  record {
    resv = refl;
    extra = record {
      refs_more = λ a. omega arith;
      maps_more = λ a. omega arith;
      arrays_same = rw (e, f) (omega arith);
      objects_same = refl;
      filps_same = omega arith;
      vmaps_same = omega arith;
      store_same = refl;
    };
  },
)
