-- ===== src/Object/Pages.antt =====
-- What the loops over the pages of a buffer take and give back.
use lima_backport_sprd7730se.Prelude.{
  ℕ, zero, suc, ◌+◌, ◌-◌, ◌≤◌, ◌<◌, ◌≡◌, refl, sym, true, false, Option, some, Option-cases, inl,
  inr, ◌==◌, if◌then◌else◌, update, arith,
}
use lima_backport_sprd7730se.Errno.{enomem, Result, ok, err}
use lima_backport_sprd7730se.Fence.{◌>>=◌}
use lima_backport_sprd7730se.Object.{
  Mem, Arrays, Kernel, take_page, take_mapping, put_page, dma_unmap_page, undo_page, undo_pages,
  set_page, get_loop,
}

-- How often `a` occurs in `f` at the k indices from i on.
abbrev pub span : (ℕ → ℕ) → ℕ → ℕ → ℕ → ℕ
span f i zero a = 0
span f i (suc k) a = (if f i == a then 1 else 0) + span f (i + 1) k a

pub span_snoc :
    (f : ℕ → ℕ) (i k a : ℕ) → span f i (suc k) a ≡ span f i k a + (if f (i + k) == a then 1 else 0)
span_snoc f i zero a = ground arith
span_snoc f i (suc k) a = ground (arith, span_snoc f (i + 1) k a)

pub span_last :
    (f : ℕ → ℕ) (n a : ℕ) → span f 0 (suc n) a ≡ (if f n == a then 1 else 0) + span f 0 n a
span_last f n a =
    let e : 0 + n ≡ n = omega arith in let h = rw (e) at (span_snoc f 0 n a) in omega (arith, h)

pub span-update : (f : ℕ → ℕ) (i k n v a : ℕ) → i + k ≤ n → span (update f n v) i k a ≡ span f i k a
span-update f i zero n v a h = refl
span-update f i (suc k) n v a h = ground (arith, span-update f (i + 1) k n v a)

-- `m'` is `m` with so many more references and mappings, and the rest the same.
pub record Extra (refs maps : ℕ → ℕ) (m m' : Mem) : Type 0 where
  pub refs_more : (a : ℕ) → m'.page_refs a ≡ m.page_refs a + refs a
  pub maps_more : (a : ℕ) → m'.mappings a ≡ m.mappings a + maps a
  pub arrays_same : m'.arrays ≡ m.arrays
  pub objects_same : m'.objects ≡ m.objects
  pub filps_same : m'.filps ≡ m.filps
  pub vmaps_same : m'.vmaps ≡ m.vmaps
  pub store_same : m'.store ≡ m.store

abbrev pub once : ℕ → ℕ → ℕ
once x a = if x == a then 1 else 0

pub put_page-Extra :
    (p : ℕ) (refs maps : ℕ → ℕ) (m m' : Mem)
    → Extra (λ a. once p a + refs a) maps m m'
    → (q : Mem) × (put_page p m' ≡ some q) × Extra refs maps m q
unfolding put_page
put_page-Extra p refs maps m m' x = (
  record m' { page_refs = update m'.page_refs p (m'.page_refs p - 1) },
  ground (arith, x.refs_more p),
  record {
    refs_more = λ a. ground (arith, x.refs_more a);
    maps_more = x.maps_more;
    arrays_same = x.arrays_same;
    objects_same = x.objects_same;
    filps_same = x.filps_same;
    vmaps_same = x.vmaps_same;
    store_same = x.store_same;
  },
)

pub dma_unmap_page-Extra :
    (d : ℕ) (refs maps : ℕ → ℕ) (m m' : Mem)
    → Extra refs (λ a. once d a + maps a) m m'
    → (q : Mem) × (dma_unmap_page d m' ≡ some q) × Extra refs maps m q
unfolding dma_unmap_page
dma_unmap_page-Extra d refs maps m m' x = (
  record m' { mappings = update m'.mappings d (m'.mappings d - 1) },
  ground (arith, x.maps_more d),
  record {
    refs_more = x.refs_more;
    maps_more = λ a. ground (arith, x.maps_more a);
    arrays_same = x.arrays_same;
    objects_same = x.objects_same;
    filps_same = x.filps_same;
    vmaps_same = x.vmaps_same;
    store_same = x.store_same;
  },
)

-- The extras may be counted in another way.
pub Extra-recount :
    (refs refs' maps maps' : ℕ → ℕ) (m m' : Mem)
    → ((a : ℕ) → refs a ≡ refs' a)
    → ((a : ℕ) → maps a ≡ maps' a)
    → Extra refs maps m m'
    → Extra refs' maps' m m'
Extra-recount refs refs' maps maps' m m' h k x = record {
  refs_more = λ a. omega (arith, x.refs_more a, h a);
  maps_more = λ a. omega (arith, x.maps_more a, k a);
  arrays_same = x.arrays_same;
  objects_same = x.objects_same;
  filps_same = x.filps_same;
  vmaps_same = x.vmaps_same;
  store_same = x.store_same;
}

-- The extras of the first n pages.
abbrev pub Held : Arrays → ℕ → Mem → Mem → Type 0
Held ar n m m' = Extra (span ar.pages 0 n) (span ar.pages_dma_addr 0 n) m m'

abbrev pub Same : Mem → Mem → Type 0
Same m m' = Extra (λ _. 0) (λ _. 0) m m'

pub undo_pages-Same :
    (n : ℕ) (ar : Arrays) (m m' : Mem)
    → ((i : ℕ) → i < n → 0 < ar.pages_dma_addr i)
    → Held ar n m m'
    → (q : Mem) × (undo_pages n ar m' ≡ some q) × Same m q
unfolding undo_pages undo_page
undo_pages-Same zero ar m m' z x = (m', refl, x)
undo_pages-Same (suc n) ar m m' z x =
    let nonzero : (ar.pages_dma_addr n == 0) ≡ false = ground (arith, z n (omega arith)) in
    let x' =
      Extra-recount _ (λ a. once (ar.pages n) a + span ar.pages 0 n a) _
        (λ a. once (ar.pages_dma_addr n) a + span ar.pages_dma_addr 0 n a) m m'
        (λ a. span_last ar.pages n a) (λ a. span_last ar.pages_dma_addr n a) x in
    let (m1, e1, x1) =
      dma_unmap_page-Extra (ar.pages_dma_addr n) _ (span ar.pages_dma_addr 0 n) m m' x' in
    let (m2, e2, x2) =
      put_page-Extra (ar.pages n) (span ar.pages 0 n) (span ar.pages_dma_addr 0 n) m m1 x1 in
    let (q, e3, s) = undo_pages-Same n ar m m2 (λ i l. z i (omega (arith, l))) x2 in
    (q, rw (nonzero, e1, e2) e3, s)

-- A loop to the n-th page ends with all of them, or with an error and none.
abbrev pub Got : ℕ → Mem → Result Arrays × Mem → Type 0
Got n m (ok ar, m') = Held ar n m m'
Got n m (err e, m') = Same m m'

failed_lem :
    (n : ℕ) (m : Mem) (o : Option Mem)
    → (q : Mem) × (o ≡ some q) × Same m q
    → (r : Result Arrays × Mem) × ((o >>= λ q. some (err enomem, q)) ≡ some r) × Got n m r
failed_lem n m o (q, e, s) = ((err enomem, q), rw e refl, s)

span_set : (f : ℕ → ℕ) (i v a : ℕ) → span (update f i v) 0 (i + 1) a ≡ once v a + span f 0 i a
span_set f i v a =
    let e : i + 1 ≡ suc i = omega arith in
    rw (e) (ground (arith, span_last (update f i v) i a, span-update f 0 i i v a (omega arith)))

set_page-Held :
    (i p d : ℕ) (ar : Arrays) (m m' : Mem)
    → Held ar i m m'
    → Held (set_page i p d ar) (i + 1) m (take_mapping d (take_page p m'))
set_page-Held i p d ar m m' x = record {
  refs_more = λ a. ground (arith, x.refs_more a, span_set ar.pages i p a);
  maps_more = λ a. ground (arith, x.maps_more a, span_set ar.pages_dma_addr i d a);
  arrays_same = x.arrays_same;
  objects_same = x.objects_same;
  filps_same = x.filps_same;
  vmaps_same = x.vmaps_same;
  store_same = x.store_same;
}

-- A page whose mapping was refused has the DMA address 0.
refused_lem :
    (i p : ℕ) (ar : Arrays) (m m' : Mem)
    → ((j : ℕ) → j < i → 0 < ar.pages_dma_addr j)
    → Held ar i m m'
    → (q : Mem) × (undo_pages (i + 1) (set_page i p 0 ar) (take_page p m') ≡ some q) × Same m q
unfolding undo_pages undo_page
refused_lem i p ar m m' z x =
    let e : i + 1 ≡ suc i = omega arith in
    let at_i : (i == i) ≡ true = ground arith in
    let taken : Extra (λ a. once p a + span ar.pages 0 i a) (span ar.pages_dma_addr 0 i) m
        (take_page p m') =
      record {
        refs_more = λ a. ground (arith, x.refs_more a);
        maps_more = x.maps_more;
        arrays_same = x.arrays_same;
        objects_same = x.objects_same;
        filps_same = x.filps_same;
        vmaps_same = x.vmaps_same;
        store_same = x.store_same;
      } in
    let (m1, e1, x1) =
      put_page-Extra p (span ar.pages 0 i) (span ar.pages_dma_addr 0 i) m (take_page p m') taken in
    let below =
      Extra-recount _ (span (update ar.pages i p) 0 i) _ (span (update ar.pages_dma_addr i 0) 0 i) m
        m1 (λ a. sym (span-update ar.pages 0 i i p a (omega arith)))
        (λ a. sym (span-update ar.pages_dma_addr 0 i i 0 a (omega arith))) x1 in
    let (q, e2, s) =
      undo_pages-Same i (set_page i p 0 ar) m m1 (λ j l. ground (arith, z j l, l)) below in
    (q, rw (e, at_i, e1) e2, s)

-- The loop ends with the pages up to the end, or with an error and everything given back.
pub get_loop-Got :
    (a : Kernel) (k i : ℕ) (ar : Arrays) (m m' : Mem)
    → ((j d : ℕ) → a.dma_map j ≡ some d → 0 < d)
    → ((j : ℕ) → j < i → 0 < ar.pages_dma_addr j)
    → Held ar i m m'
    → (r : Result Arrays × Mem) × (get_loop a k i ar m' ≡ some r) × Got (i + k) m r
unfolding get_loop
get_loop-Got a zero i ar m m' h z x =
    let e : i + 0 ≡ i = omega arith in ((ok ar, m'), refl, rw (e) x)
get_loop-Got a (suc k) i ar m m' h z x = elim (Option-cases (a.read_page i)) [
  | inl e ↦
      rw (e, get_loop)
        (failed_lem (i + suc k) m (undo_pages i ar m') (undo_pages-Same i ar m m' z x))
  | inr (p, e) ↦ elim (Option-cases (a.dma_map i)) [
    | inl f ↦ rw (e, f, get_loop) (failed_lem (i + suc k) m _ (refused_lem i p ar m m' z x))
    | inr (d, f) ↦
        let next : i + suc k ≡ (i + 1) + k = omega arith in
        rw (e, f, next, get_loop)
          (get_loop-Got a k (i + 1) (set_page i p d ar) m (take_mapping d (take_page p m')) h
            (λ j l. ground (arith, z j, h i d f, l)) (set_page-Held i p d ar m m' x))
  ]
]
