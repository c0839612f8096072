-- ===== src/Gem/Publish.antt =====
-- The references that the reservation objects hold, and what publishing a fence does to them.
use lima_backport_sprd7730se.Prelude.{
  ◌⊎◌, ℕ, ◌+◌, ◌≤◌, ◌≡◌, refl, some, List, [], ◌∷◌, ◌==◌, Bool-cases, inl, inr, true, false, arith,
  count, count-append, option_list, update, ==_iff, All,
}
use lima_backport_sprd7730se.Fence.{Fences, >>=-some}
use lima_backport_sprd7730se.Fence.Refs.{get-some, put-Released}
use lima_backport_sprd7730se.Resv.{Resv, held, set_excl}
use lima_backport_sprd7730se.Gem.{Buffers, publish}

-- How often the buffers of a list hold a fence.
abbrev pub in_resvs : (ℕ → Resv) → List ℕ → ℕ → ℕ
in_resvs resv [] a = 0
in_resvs resv (x ∷ xs) a = count a (held (resv x)) + in_resvs resv xs a

in_resvs-update_none :
    (resv : ℕ → Resv) (x : ℕ) (r : Resv) (objs : List ℕ) (a : ℕ)
    → count x objs ≡ 0
    → in_resvs (update resv x r) objs a ≡ in_resvs resv objs a
in_resvs-update_none resv x r [] a h = refl
in_resvs-update_none resv x r (y ∷ ys) a h = elim (Bool-cases (y == x)) [
  | inl e ↦ absurd (ground (arith, h, e))
  | inr e ↦
      let other : (x == y) ≡ false = ground (arith, e) in
      let k = in_resvs-update_none resv x r ys a (ground (arith, h, e)) in
      rw (other) (omega (arith, k))
]

-- The buffer whose object is set stands once in the list.
pub in_resvs-update :
    (resv : ℕ → Resv) (x : ℕ) (r : Resv) (objs : List ℕ) (a : ℕ)
    → count x objs ≡ 1
    → in_resvs (update resv x r) objs a + count a (held (resv x))
      ≡ in_resvs resv objs a + count a (held r)
in_resvs-update resv x r [] a h = absurd (omega (arith, h))
in_resvs-update resv x r (y ∷ ys) a h = elim (Bool-cases (y == x)) [
  | inl e ↦
      let same : y ≡ x = (==_iff y x).0 e in
      let self : (x == x) ≡ true = ground arith in
      let k = in_resvs-update_none resv x r ys a (ground (arith, h, e)) in
      rw (same, self) (omega (arith, k))
  | inr e ↦
      let other : (x == y) ≡ false = ground (arith, e) in
      let k = in_resvs-update resv x r ys a (ground (arith, h, e)) in rw (other) (omega (arith, k))
]

pub in_resvs-held :
    (resv : ℕ → Resv) (x : ℕ) (objs : List ℕ) (a : ℕ)
    → count x objs ≡ 1
    → count a (held (resv x)) ≤ in_resvs resv objs a
in_resvs-held resv x [] a h = absurd (omega (arith, h))
in_resvs-held resv x (y ∷ ys) a h = elim (Bool-cases (y == x)) [
  | inl e ↦ let same : y ≡ x = (==_iff y x).0 e in rw (same) (omega arith)
  | inr e ↦ let k = in_resvs-held resv x ys a (ground (arith, h, e)) in omega (arith, k)
]

-- The store has the references that `g` counts, those of the objects and those of a list.
abbrev pub Covers : (ℕ → ℕ) → (ℕ → Resv) → List ℕ → List ℕ → Fences → Type 0
Covers g resv objs own s = (a : ℕ) → g a + in_resvs resv objs a + count a own ≤ s.refcount a

-- The fence is the exclusive one of every buffer that it was published to.
abbrev pub Published : ℕ → List ℕ → (ℕ → Resv) → (ℕ → Resv) → Type 0
Published fence xs resv resv' =
    (x : ℕ)
    → ((resv x).fence_excl ≡ some fence) ⊎ (1 ≤ count x xs)
    → (resv' x).fence_excl ≡ some fence

none-Published : (fence : ℕ) (resv : ℕ → Resv) → Published fence [] resv resv
none-Published fence resv x (inl e) = e
none-Published fence resv x (inr h) = absurd (omega (arith, h))

first-Published :
    (fence x : ℕ) (xs : List ℕ) (resv resv' : ℕ → Resv) (r : Resv)
    → r.fence_excl ≡ some fence
    → Published fence xs (update resv x r) resv'
    → Published fence (x ∷ xs) resv resv'
first-Published fence x xs resv resv' r e h y before = elim (Bool-cases (x == y)) [
  | inl same ↦ h y (inl (rw (same) e))
  | inr other ↦
      h y (elim before [ inl e0 ↦ inl (rw (other) e0) | inr m ↦ inr (ground (arith, m, other)) ])
]

-- A published fence replaces the exclusive fence of each buffer, whose reference is dropped.
pub publish-Covers :
    (g : ℕ → ℕ) (fence : ℕ) (objs own xs : List ℕ) (b : Buffers)
    → All (λ x. count x objs ≡ 1) xs
    → Covers g b.resv objs (fence ∷ own) b.pipe.store
    → (s : Fences) × (resv : ℕ → Resv) × (publish fence xs b
        ≡ some (record { pipe = record b.pipe { store = s }; resv = resv }))
      × Covers g resv objs (fence ∷ own) s
      × Published fence xs b.resv resv
unfolding publish set_excl
publish-Covers g fence objs own [] b l h =
    (b.pipe.store, b.resv, refl, h, none-Published fence b.resv)
publish-Covers g fence objs own (x ∷ xs) b l h =
    let s = b.pipe.store in
    let one : 1 ≤ s.refcount fence = ground (arith, h fence) in
    let s1 : Fences = record s { refcount = update s.refcount fence (s.refcount fence + 1) } in
    let old = (b.resv x).fence_excl in
    let (s2, e2, r2) = put-Released old s1 (λ a. ground (
      arith,
      h a,
      in_resvs-held b.resv x objs a l.0,
      count-append a (option_list old) (b.resv x).shared,
    )) in
    let r' : Resv = record (b.resv x) { fence_excl = some fence } in
    let resv' = update b.resv x r' in
    let b' : Buffers = record { pipe = record b.pipe { store = s2 }; resv = resv' } in
    let (t, resv, e3, c, p) = publish-Covers g fence objs own xs b' l.1 (λ a. ground (
      arith,
      h a,
      r2.refs a,
      in_resvs-update b.resv x r' objs a l.0,
      count-append a (option_list old) (b.resv x).shared,
    )) in
    (
      t,
      resv,
      >>=-some _ (get-some fence s one) (>>=-some _ (>>=-some _ e2 refl) e3),
      c,
      first-Published fence x xs b.resv resv r' refl p,
    )

-- The fence is the exclusive one of every buffer of the list.
abbrev pub Exclusive : ℕ → List ℕ → (ℕ → Resv) → Type 0
Exclusive fence xs resv = All (λ x. (resv x).fence_excl ≡ some fence) xs

excl_all :
    (fence : ℕ) (xs : List ℕ) (resv : ℕ → Resv)
    → ((x : ℕ) → 1 ≤ count x xs → (resv x).fence_excl ≡ some fence)
    → Exclusive fence xs resv
excl_all fence [] resv h = tt
excl_all fence (x ∷ xs) resv h =
    (h x (ground arith), excl_all fence xs resv (λ y m. h y (ground (arith, m))))

pub Published-Exclusive :
    (fence : ℕ) (xs : List ℕ) (resv resv' : ℕ → Resv)
    → Published fence xs resv resv'
    → Exclusive fence xs resv'
Published-Exclusive fence xs resv resv' h = excl_all fence xs resv' (λ x m. h x (inr m))
