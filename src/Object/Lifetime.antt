-- ===== src/Object/Lifetime.antt =====
-- The life of a buffer, from lima_bo_create to lima_bo_destroy, gives back all that it takes.
use lima_backport_sprd7730se.Prelude.{
  ℕ, ◌<◌, ◌≡◌, ◌∙◌, if_true, if_false, true, false, Option, none, some, Bool-cases, inl, inr, List,
  ◌==◌,
}
use lima_backport_sprd7730se.Errno.{einval, enomem, Result, ok, err}
use lima_backport_sprd7730se.Fence.{◌>>=◌, >>=-some}
use lima_backport_sprd7730se.Object.{Mem, Buffer, Kernel}
use lima_backport_sprd7730se.Object.Create.{Segment, bo_create, bo_destroy, page_align}
use lima_backport_sprd7730se.Object.Pages.{Same}
use lima_backport_sprd7730se.Object.Alive.{Use, use_all, use_all-Alive, bo_destroy-Same}
use lima_backport_sprd7730se.Object.Made.{Made, Same-refl, own_pages_lem, import_pages_lem}

-- What the kernel has to keep to: no page is mapped at the address 0, and the arrays of an import are
-- there.
abbrev pub Sound : Kernel → Option (List Segment) → Type 0
Sound a none = (j d : ℕ) → a.dma_map j ≡ some d → 0 < d
Sound a (some table) = (a.pages_allocated ≡ true) × (a.dma_allocated ≡ true)

-- Both kinds of buffer, once the object is there.
made_lem :
    (a : Kernel) (sgt : Option (List Segment)) (size : ℕ) (m : Mem)
    → Sound a sgt
    → (page_align size == 0) ≡ false
    → a.bo_allocated ≡ true
    → (s : Result Buffer × Mem) × (bo_create a sgt size m ≡ some s) × Made m s
unfolding bo_create
made_lem a none size m h e f =
    let (s, k, d) = own_pages_lem a (page_align size) m h in
    (s, if_false _ _ e ∙ (if_true _ _ f ∙ k), d)
made_lem a (some table) size m h e f =
    let (s, k, d) = import_pages_lem a table (page_align size) m h.0 h.1 in
    (s, if_false _ _ e ∙ (if_true _ _ f ∙ k), d)

bo_create-Made :
    (a : Kernel) (sgt : Option (List Segment)) (size : ℕ) (m : Mem)
    → Sound a sgt
    → (s : Result Buffer × Mem) × (bo_create a sgt size m ≡ some s) × Made m s
unfolding bo_create
bo_create-Made a sgt size m h = elim (Bool-cases (page_align size == 0)) [
  | inl e ↦ ((err einval, m), if_true _ _ e, Same-refl m)
  | inr e ↦ elim (Bool-cases a.bo_allocated) [
    | inr f ↦ ((err enomem, m), if_false _ _ e ∙ if_false _ _ f, Same-refl m)
    | inl f ↦ made_lem a sgt size m h e f
  ]
]

-- What is left after a creation, the uses of the buffer and its destruction.
abbrev pub Lived : List Use → Mem → Result Buffer × Mem → Type 0
Lived l m (ok b, m') =
    (q : Mem) × ((use_all l b m' >>= λ r. bo_destroy r.0 r.1) ≡ some q) × Same m q
Lived l m (err e, m') = Same m m'

Made-Lived : (l : List Use) (m : Mem) (r : Result Buffer × Mem) → Made m r → Lived l m r
Made-Lived l m (err e, m') s = s
Made-Lived l m (ok b, m') a =
    let (c, q, e, a') = use_all-Alive l b m m' a in
    let (q', e', s) = bo_destroy-Same c m q a' in (q', >>=-some _ e e', s)

-- A creation, with or without the table of an exporter, comes to an end. If it fails, at whichever
-- allocation or page, every page reference, mapping, array, object and file that it took is given back.
-- If it succeeds, then after any kernel mappings and unmappings of the buffer its destruction releases
-- nothing that is not held, and leaves all these counts and the fences as they were before the creation.
-- Pages of its own must not be mapped at the address 0, and for an import both arrays must be there.
pub bo_create-bo_destroy :
    (a : Kernel) (sgt : Option (List Segment)) (size : ℕ) (l : List Use) (m : Mem)
    → Sound a sgt
    → (r : Result Buffer × Mem) × (bo_create a sgt size m ≡ some r) × Lived l m r
bo_create-bo_destroy a sgt size l m h =
    let (r, e, d) = bo_create-Made a sgt size m h in (r, e, Made-Lived l m r d)
