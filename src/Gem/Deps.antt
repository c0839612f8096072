-- ===== src/Gem/Deps.antt =====
-- lima_gem_add_deps: the references that the dependencies of a task take.
use lima_backport_sprd7730se.Prelude.{
  ℕ, ◌+◌, ◌≤◌, ◌≡◌, refl, ap, ◌∙◌, Bool, Bool-cases, inl, inr, Option, some, List, [], ◌∷◌, ◌++◌,
  ◌==◌, length, if_true, if_false, arith, count, count-append,
}
use lima_backport_sprd7730se.Errno.{enomem, Result, ok, err}
use lima_backport_sprd7730se.Fence.{Fences, >>=-some}
use lima_backport_sprd7730se.Fence.Refs.{get_all-Taken, put_all-Released, put-Released, Live}
use lima_backport_sprd7730se.Resv.{Resv, held, get_fences}
use lima_backport_sprd7730se.Sched.Task.{Task, task_add_dep}
use lima_backport_sprd7730se.Gem.{Answers, DepsResult, add_each, after_each, after_fences, add_deps}

-- The store counts `g` and a reference for each entry of the list.
abbrev pub Counts : (ℕ → ℕ) → List ℕ → Fences → Type 0
Counts g own s = (a : ℕ) → s.refcount a ≡ g a + count a own

-- A success means that nothing needed is missing.
abbrev pub HasAll : Result (Unit {0}) → List ℕ → List ℕ → Type 0
HasAll (ok u) need deps = (a : ℕ) → count a need ≤ count a deps
HasAll (err e) need deps = Unit

-- The task has more dependencies, and the store their references.
abbrev pub Grown : (ℕ → ℕ) → Task → List ℕ → DepsResult → Type 0
Grown g t need (r, (t', s)) =
    (deps : List ℕ) × (t' ≡ record t { deps = deps }) × Counts g deps s × HasAll r need deps

HasAll-need :
    (r : Result (Unit {0})) (need need' deps : List ℕ)
    → ((a : ℕ) → count a need' ≤ count a need)
    → HasAll r need deps
    → HasAll r need' deps
HasAll-need (ok u) need need' deps h k = λ a. omega (arith, h a, k a)
HasAll-need (err e) need need' deps h k = tt

-- Less may be needed, and the dependencies of before do not matter.
Grown-need :
    (g : ℕ → ℕ) (t : Task) (old : List ℕ) (x : DepsResult) (need need' : List ℕ)
    → ((a : ℕ) → count a need' ≤ count a need)
    → Grown g (record t { deps = old }) need x
    → Grown g t need' x
Grown-need g t old (r, (t', s)) need need' h (deps, same, c, k) =
    (deps, same, c, HasAll-need r need need' deps h k)

add_each-Grown :
    (g : ℕ → ℕ) (allocated : ℕ → Bool) (j : ℕ) (fs : List ℕ) (t : Task) (s : Fences)
    → Counts g (t.deps ++ fs) s
    → (r : DepsResult) × (add_each allocated j fs t s ≡ some r) × Grown g t (t.deps ++ fs) r
unfolding add_each task_add_dep
add_each-Grown g allocated j [] t s h = (
  (ok tt, (t, s)),
  refl,
  (
    t.deps,
    refl,
    (λ a. omega (arith, h a, count-append a t.deps [])),
    λ a. omega (arith, count-append a t.deps []),
  ),
)
add_each-Grown g allocated j (f ∷ fs) t s h = elim (Bool-cases (allocated j)) [
  | inl e ↦
      let t' = record t { deps = t.deps ++ f ∷ [] } in
      let (r, k, d) = add_each-Grown g allocated (j + 1) fs t' s (λ a. omega (
        arith,
        h a,
        count-append a t.deps (f ∷ fs),
        count-append a (t.deps ++ f ∷ []) fs,
        count-append a t.deps (f ∷ []),
      )) in
      (
        r,
        rw (e, add_each) k,
        Grown-need g t (t.deps ++ f ∷ []) r ((t.deps ++ f ∷ []) ++ fs) (t.deps ++ f ∷ fs)
            (λ a. omega (
              arith,
              count-append a t.deps (f ∷ fs),
              count-append a (t.deps ++ f ∷ []) fs,
              count-append a t.deps (f ∷ []),
            ))
            d,
      )
  | inr e ↦
      let (s1, k1, r1) =
        put-Released (some f) s (λ a. omega (arith, h a, count-append a t.deps (f ∷ fs))) in
      let (s2, k2, r2) =
        put_all-Released fs s1
          (λ a. omega (arith, h a, r1.refs a, count-append a t.deps (f ∷ fs))) in
      (
        (err enomem, (t, s2)),
        rw (e, add_each) (>>=-some _ k1 (>>=-some _ k2 refl)),
        (
          t.deps,
          refl,
          (λ a. omega (arith, h a, r1.refs a, r2.refs a, count-append a t.deps (f ∷ fs))),
          tt,
        ),
      )
]

-- What get_fences took.
abbrev got : Result (List ℕ) → List ℕ
got (ok fences) = fences
got (err e) = []

abbrev done_of : Result (List ℕ) → Result (Unit {0})
done_of (ok fences) = ok tt
done_of (err e) = err e

none_held : (l : List ℕ) → length l ≡ 0 → (a : ℕ) → count a l ≤ count a []
none_held [] h a = omega arith
none_held (x ∷ l) h a = absurd (omega (arith, h))

get_fences-Counts :
    (g : ℕ → ℕ) (own : List ℕ) (allocated : Bool) (r : Resv) (s : Fences)
    → Counts g own s
    → Live (held r) s
    → (x : Result (List ℕ) × Fences) × (get_fences allocated r s ≡ some x)
      × Counts g (own ++ got x.0) x.1
      × HasAll (done_of x.0) (held r) (got x.0)
unfolding get_fences
get_fences-Counts g own allocated r s h live = elim (Bool-cases (length (held r) == 0)) [
  | inl e ↦ (
    (ok [], s),
    if_true _ _ e,
    (λ a. omega (arith, h a, count-append a own [])),
    none_held (held r) (ground (arith, e)),
  )
  | inr e ↦ elim (Bool-cases allocated) [
    | inl f ↦
        let (t, k, x) = get_all-Taken (held r) s live in
        (
          (ok (held r), t),
          if_false _ _ e ∙ (if_true _ _ f ∙ >>=-some _ k refl),
          (λ a. omega (arith, h a, x.refs a, count-append a own (held r))),
          λ a. omega arith,
        )
    | inr f ↦ (
      (err enomem, s),
      if_false _ _ e ∙ if_false _ _ f,
      (λ a. omega (arith, h a, count-append a own [])),
      tt,
    )
  ]
]

-- The rest of the loop over the buffers grows a task that has some dependencies already.
abbrev More : (ℕ → ℕ) → Task → List ℕ → List ℕ → (Task → Fences → Option DepsResult) → Type 0
More g t had need next =
    (deps : List ℕ) (s : Fences)
    → Counts g deps s
    → ((a : ℕ) → count a had ≤ count a deps)
    → (r : DepsResult) × (next (record t { deps = deps }) s ≡ some r) × Grown g t need r

after_each-Grown :
    (g : ℕ → ℕ) (t : Task) (had need : List ℕ) (next : Task → Fences → Option DepsResult)
    (x : DepsResult)
    → Grown g t had x
    → More g t had need next
    → (r : DepsResult) × (after_each next x ≡ some r) × Grown g t need r
after_each-Grown g t had need next (err e, (t', s)) (deps, same, c, k) more =
    ((err e, (t', s)), refl, (deps, same, c, tt))
after_each-Grown g t had need next (ok u, (t', s)) (deps, same, c, k) more =
    let (r, j, d) = more deps s c k in (r, ap (λ (q : Task). next q s) same ∙ j, d)

after_fences-Grown :
    (g : ℕ → ℕ) (allocated : ℕ → Bool) (t : Task) (need fs : List ℕ)
    (next : Task → Fences → Option DepsResult) (x : Result (List ℕ) × Fences)
    → HasAll (done_of x.0) fs (got x.0)
    → Counts g (t.deps ++ got x.0) x.1
    → More g t (t.deps ++ fs) need next
    → (r : DepsResult) × (after_fences allocated t next x ≡ some r) × Grown g t need r
after_fences-Grown g allocated t need fs next (err e, s) l h more =
    ((err e, (t, s)), refl, (t.deps, refl, (λ a. omega (arith, h a, count-append a t.deps [])), tt))
after_fences-Grown g allocated t need fs next (ok fences, s) l h more =
    let (x, k, d) = add_each-Grown g allocated 0 fences t s h in
    let d' =
      Grown-need g t t.deps x (t.deps ++ fences) (t.deps ++ fs)
        (λ a. omega (arith, l a, count-append a t.deps fences, count-append a t.deps fs)) d in
    let (r, j, d'') = after_each-Grown g t (t.deps ++ fs) need next x d' more in
    (r, >>=-some (after_each next) k j, d'')

-- The fences of these buffers are allocated, as far as `g` counts.
abbrev pub HeldLive : (ℕ → ℕ) → (ℕ → Resv) → List ℕ → Type 0
HeldLive g resv [] = Unit
HeldLive g resv (x ∷ xs) = ((a : ℕ) → 1 ≤ count a (held (resv x)) → 1 ≤ g a) × HeldLive g resv xs

-- The fences that a list of buffers holds.
abbrev pub all_held : (ℕ → Resv) → List ℕ → List ℕ
all_held resv [] = []
all_held resv (x ∷ xs) = held (resv x) ++ all_held resv xs

-- Whether or not it succeeds, the task has exactly the references of its dependencies; after a success
-- all fences of the buffers are among them.
pub add_deps-Grown :
    (g : ℕ → ℕ) (a : Answers) (resv : ℕ → Resv) (k : ℕ) (xs : List ℕ) (t : Task) (s : Fences)
    → HeldLive g resv xs
    → Counts g t.deps s
    → (r : DepsResult) × (add_deps a resv k xs t s ≡ some r)
      × Grown g t (t.deps ++ all_held resv xs) r
unfolding add_deps
add_deps-Grown g a resv k [] t s l h =
    ((ok tt, (t, s)), refl, (t.deps, refl, h, λ q. omega (arith, count-append q t.deps [])))
add_deps-Grown g a resv k (x ∷ xs) t s l h =
    let fs = held (resv x) in
    let rest = all_held resv xs in
    let (y, e, c, n) =
      get_fences-Counts g t.deps (a.fences_allocated k) (resv x) s h
        (λ q m. omega (arith, l.0 q m, h q)) in
    let (r, j, d) =
      after_fences-Grown g (a.dep_allocated k) t (t.deps ++ (fs ++ rest)) fs
        (add_deps a resv (k + 1) xs) y n c
        (λ deps s' c' had.
          let (r, j, d) = add_deps-Grown g a resv (k + 1) xs (record t { deps = deps }) s' l.1 c' in
          (
            r,
            j,
            Grown-need g t deps r (deps ++ rest) (t.deps ++ (fs ++ rest))
                (λ q. omega (
                  arith,
                  had q,
                  count-append q deps rest,
                  count-append q t.deps fs,
                  count-append q t.deps (fs ++ rest),
                  count-append q fs rest,
                ))
                d,
          )) in
    (r, >>=-some _ e j, d)
