-- ===== src/Object/Handles.antt =====
-- A handle keeps its buffer, and a failed creation keeps nothing.
use lima_backport_sprd7730se.Prelude.{
  ℕ, ◌<◌, ◌≡◌, refl, ◌∙◌, not, ◌||◌, ◌&&◌, ◌⊎◌, ltb, true, false, arith, none, some, Bool-cases,
  inl, inr, [], ◌==◌, if_true, if_false,
}
use lima_backport_sprd7730se.Errno.{einval, Errno, Result, ok, err, Result-cases}
use lima_backport_sprd7730se.Fence.{◌>>=◌, >>=-some}
use lima_backport_sprd7730se.Object.{Mem, Buffer, Kernel}
use lima_backport_sprd7730se.Object.Pages.{Same}
use lima_backport_sprd7730se.Object.Alive.{use_all}
use lima_backport_sprd7730se.Object.Create.{bo_create}
use lima_backport_sprd7730se.Object.Lifetime.{Lived, bo_create-bo_destroy}
use lima_backport_sprd7730se.Object.Handle.{
  Drm, Handled, object_put, with_handle, after_create, create_handle, ioctl_gem_create,
}

-- How a creation of a handle ends: with one reference, whose put gives everything back, or with none
-- and nothing taken, for an error that has a cause.
abbrev pub Kept : (Errno → Type 0) → Mem → Handled → Type 0
Kept cause m (ok (handle, b), (refs, m')) =
    (refs ≡ 1) × ((q : Mem) × (object_put refs b m' ≡ some (0, q)) × Same m q)
Kept cause m (err e, (refs, m')) = cause e × (refs ≡ 0) × Same m m'

-- What can fail: the creation of the buffer, that of the handle, and the offset for mappings.
abbrev pub Cause : Kernel → Drm → ℕ → Mem → Errno → Type 0
Cause a d size m e =
    ((m' : Mem) × (bo_create a none size m ≡ some (err e, m')))
    ⊎ ((d.handle_create ≡ err e) ⊎ (d.mmap_offset ≡ err e))

-- The end of the ioctl, by whether the request has no flags, no padding and a size.
abbrev pub Ended : Kernel → Drm → ℕ → ℕ → ℕ → Mem → Handled → Type 0
Ended a d size flags pad m s =
    ((((flags == 0) && (pad == 0) && ltb 0 size) ≡ false) × (s ≡ (err einval, (0, m))))
    ⊎ ((((flags == 0) && (pad == 0) && ltb 0 size) ≡ true) × Kept (Cause a d size m) m s)

put_last :
    (b : Buffer) (m m' : Mem)
    → Lived [] m (ok b, m')
    → (q : Mem) × (object_put 1 b m' ≡ some (0, q)) × Same m q
unfolding object_put use_all
put_last b m m' (q, e, s) = (q, >>=-some _ e refl, s)

put_one : (b : Buffer) (m : Mem) → object_put 2 b m ≡ some (1, m)
unfolding object_put
put_one b m = refl

mmap_offset-err :
    (d : Drm) (handle : ℕ) (b : Buffer) (m : Mem) (x : Errno)
    → d.mmap_offset ≡ err x
    → with_handle d handle b m
      ≡ (object_put 2 b m >>= λ r. object_put r.0 b r.1 >>= λ s. some (err x, s))
unfolding with_handle
mmap_offset-err d handle b m x e = rw (e, with_handle) refl

handle_create-ok :
    (d : Drm) (b : Buffer) (m : Mem) (handle : ℕ)
    → d.handle_create ≡ ok handle
    → after_create d (ok b, m) ≡ with_handle d handle b m
unfolding after_create
handle_create-ok d b m handle e = rw (e, after_create) refl

handle_create-err :
    (d : Drm) (b : Buffer) (m : Mem) (x : Errno)
    → d.handle_create ≡ err x
    → after_create d (ok b, m) ≡ (object_put 1 b m >>= λ r. some (err x, r))
unfolding after_create
handle_create-err d b m x e = rw (e, after_create) refl

with_handle-Kept :
    (cause : Errno → Type 0) (d : Drm) (handle : ℕ) (b : Buffer) (m m' : Mem)
    → ((e : Errno) → d.mmap_offset ≡ err e → cause e)
    → Lived [] m (ok b, m')
    → (r : Handled) × (with_handle d handle b m' ≡ some r) × Kept cause m r
unfolding with_handle
with_handle-Kept cause d handle b m m' c l = elim (Result-cases d.mmap_offset) [
  | inl (u, e) ↦ (
    (ok (handle, b), (1, m')),
    rw (e, with_handle) (>>=-some (λ x. some (ok (handle, b), x)) (put_one b m') refl),
    (refl, put_last b m m' l),
  )
  | inr (x, e) ↦
      let (q, f, s) = put_last b m m' l in
      (
        (err x, (0, q)),
        mmap_offset-err d handle b m' x e
            ∙ >>=-some (λ r. object_put r.0 b r.1 >>= λ s. some (err x, s)) (put_one b m')
                (>>=-some (λ s. some (err x, s)) f refl),
        (c x e, refl, s),
      )
]

after_create-Kept :
    (a : Kernel) (d : Drm) (size : ℕ) (m : Mem) (r : Result Buffer × Mem)
    → bo_create a none size m ≡ some r
    → Lived [] m r
    → (s : Handled) × (after_create d r ≡ some s) × Kept (Cause a d size m) m s
unfolding after_create
after_create-Kept a d size m (err e, m') h l = ((err e, (0, m')), refl, (inl (m', h), refl, l))
after_create-Kept a d size m (ok b, m') h l = elim (Result-cases d.handle_create) [
  | inl (handle, e) ↦
      let (s, f, k) = with_handle-Kept (Cause a d size m) d handle b m m' (λ x g. inr (inr g)) l in
      (s, handle_create-ok d b m' handle e ∙ f, k)
  | inr (x, e) ↦
      let (q, f, s) = put_last b m m' l in
      ((err x, (0, q)), handle_create-err d b m' x e ∙ >>=-some _ f refl, (inr (inl e), refl, s))
]

-- The ioctl that creates a buffer comes to an end. A request with flags, with padding or without a size
-- is refused with -EINVAL and changes nothing. Any other either fails, with nothing taken and with the
-- error of the creation of the buffer, of its handle or of its offset for mappings, or ends with a
-- handle that has the only reference, whose put destroys the buffer and gives everything back. No
-- page may be mapped at the address 0.
pub ioctl_gem_create-Kept :
    (a : Kernel) (d : Drm) (size flags pad : ℕ) (m : Mem)
    → ((j x : ℕ) → a.dma_map j ≡ some x → 0 < x)
    → (s : Handled) × (ioctl_gem_create a d size flags pad m ≡ some s)
      × Ended a d size flags pad m s
unfolding ioctl_gem_create create_handle
ioctl_gem_create-Kept a d size flags pad m h =
    elim (Bool-cases (not (flags == 0) || not (pad == 0))) [
      | inl e ↦ ((err einval, (0, m)), if_true _ _ e, inl (ground (arith, e), refl))
      | inr e ↦ elim (Bool-cases (size == 0)) [
        | inl f ↦
            ((err einval, (0, m)), if_false _ _ e ∙ if_true _ _ f, inl (ground (arith, f), refl))
        | inr f ↦
            let (r, g, l) = bo_create-bo_destroy a none size [] m h in
            let (s, k, kept) = after_create-Kept a d size m r g l in
            (
              s,
              if_false _ _ e ∙ (if_false _ _ f ∙ >>=-some _ g k),
              inr (ground (arith, e, f), kept),
            )
      ]
    ]
