-- ===== src/Gem/Collect.antt =====
-- The references that the two loops of lima_gem_submit take and give back.
use lima_backport_sprd7730se.Prelude.{
  ℕ, suc, length, count, sym, ap, true, false, if_true, if_false, ◌+◌, ◌≤◌, ◌≡◌, refl, ◌∙◌, inl,
  inr, Option, some, List, [], ◌∷◌, ◌++◌, leb, arith, count-append, Bool-cases, Option-cases,
  update,
}
use lima_backport_sprd7730se.Errno.{Errno, einval, enoent, Result, ok, err}
use lima_backport_sprd7730se.Fence.{Fences}
use lima_backport_sprd7730se.Fence.Refs.{Taken, Released, Holds, get-some, put-Released}
use mathlib.Core.Path.{subst}
use mathlib.Core.List.{append_assoc, append-nil}
use lima_backport_sprd7730se.Gem.{
  Submit, Buffers, explicit_sync, with_store, gem_submit, SubmitBo, Answers, look_up, map_all,
  put_down, collect,
}

pub put_down-Released :
    (xs : List ℕ) (s : Fences)
    → Holds xs s
    → (t : Fences) × (put_down xs s ≡ some t) × Released xs s t
unfolding put_down
put_down-Released [] s h = (s, refl, record { refs = λ a. omega arith; status = refl })
put_down-Released (x ∷ xs) s h =
    let (t, e, r) = put_down-Released xs s (λ a. ground (arith, h a)) in
    let (u, f, q) = put-Released (some x) t (λ a. ground (arith, h a, r.refs a)) in
    (
      u,
      rw e f,
      record { refs = λ a. ground (arith, r.refs a, q.refs a); status = q.status ∙ r.status },
    )

-- Every handle names a buffer that is allocated.
abbrev pub Table : (ℕ → Option ℕ) → Fences → Type 0
Table find s = (h x : ℕ) → find h ≡ some x → 1 ≤ s.refcount x

-- Whether or not every buffer is found, there is a reference for each of those found.
pub look_up-Taken :
    (find : ℕ → Option ℕ) (bos : List SubmitBo) (found : List ℕ) (s0 s : Fences)
    → Table find s
    → Taken found s0 s
    → (r : Result (Unit {0})) × (all : List ℕ) × (t : Fences) × (look_up find bos found s
        ≡ some (r, (all, t)))
      × Taken all s0 t
unfolding look_up
look_up-Taken find [] found s0 s h k = (ok tt, found, s, refl, k)
look_up-Taken find (b ∷ bos) found s0 s h k = elim (Bool-cases (leb 4 b.flags)) [
  | inl e ↦ (err einval, found, s, rw e refl, k)
  | inr e ↦ elim (Option-cases (find b.handle)) [
    | inl f ↦ (err enoent, found, s, rw (e, f, look_up) refl, k)
    | inr (x, f) ↦
        let one = h b.handle x f in
        let s' = record s { refcount = update s.refcount x (s.refcount x + 1) } in
        let (r, all, t, q, k') =
          look_up-Taken find bos (found ++ x ∷ []) s0 s' (λ n y m. ground (arith, h n y m))
            (record {
              refs = λ a. ground (arith, k.refs a, count-append a found (x ∷ []));
              status = k.status;
            }) in
        (r, all, t, rw (e, f, look_up, get-some x s one) q, k')
  ]
]

map_all-ok :
    (map : ℕ → Result (Unit {0})) (k : ℕ) (xs mapped : List ℕ)
    → ((j : ℕ) → map j ≡ ok tt)
    → (all : List ℕ) × (map_all map k xs mapped ≡ (ok tt, all))
unfolding map_all
map_all-ok map k [] mapped h = (mapped, refl)
map_all-ok map k (x ∷ xs) mapped h =
    let (all, e) = map_all-ok map (k + 1) xs (mapped ++ x ∷ []) h in (all, rw (h k, map_all) e)

-- What is held after the loops: a reference for each buffer that is passed on, else none.
abbrev passed : Result (List ℕ) → List ℕ
passed (ok xs) = xs
passed (err e) = []

collect-passed :
    (a : Answers) (bos : List SubmitBo) (s : Fences) (r : Result (Unit {0})) (all : List ℕ)
    (t : Fences)
    → look_up a.find bos [] s ≡ some (r, (all, t))
    → Taken all s t
    → ((j : ℕ) → a.map j ≡ ok tt)
    → (q : Result (List ℕ)) × (u : Fences) × (collect a bos s ≡ some (q, u)) × Taken (passed q) s u
unfolding collect
collect-passed a bos s (ok u) all t e k m =
    let (mapped, f) = map_all-ok a.map 0 all [] m in (ok all, t, rw (e, f) refl, k)
collect-passed a bos s (err x) all t e k m =
    let (u, f, r) = put_down-Released all t (λ a. omega (arith, k.refs a)) in
    (
      err x,
      u,
      rw (e, f) refl,
      record { refs = λ a. omega (arith, k.refs a, r.refs a); status = r.status ∙ k.status },
    )

-- If every handle names an allocated buffer and no mapping fails: the two loops run, on every list of
-- buffers, and take exactly one reference for each buffer that they pass on; when a lookup or a
-- flag is refused, every reference taken before is given back.
collect-Taken :
    (a : Answers) (bos : List SubmitBo) (s : Fences)
    → Table a.find s
    → ((j : ℕ) → a.map j ≡ ok tt)
    → (r : Result (List ℕ)) × (t : Fences) × (collect a bos s ≡ some (r, t)) × Taken (passed r) s t
unfolding collect
collect-Taken a bos s h m =
    let (r, all, t, e, k) =
      look_up-Taken a.find bos [] s s h (record { refs = λ a. omega arith; status = refl }) in
    collect-passed a bos s r all t e k m

-- The entries of a submit have valid flags and name these buffers.
abbrev pub Names : (ℕ → Option ℕ) → List SubmitBo → List ℕ → Type 0
Names find [] [] = Unit
Names find [] (x ∷ xs) = ⊥
Names find (b ∷ bos) [] = ⊥
Names find (b ∷ bos) (x ∷ xs) =
    (leb 4 b.flags ≡ false) × (find b.handle ≡ some x) × Names find bos xs

look_up-Names :
    (find : ℕ → Option ℕ) (bos : List SubmitBo) (xs found : List ℕ) (s0 s : Fences)
    → Names find bos xs
    → Table find s
    → Taken found s0 s
    → (t : Fences) × (look_up find bos found s ≡ some (ok tt, (found ++ xs, t)))
      × Taken (found ++ xs) s0 t
unfolding look_up
look_up-Names find [] [] found s0 s n h k = (s, rw (append-nil found) refl, rw (append-nil found) k)
look_up-Names find [] (x ∷ xs) found s0 s n h k = absurd n
look_up-Names find (b ∷ bos) [] found s0 s n h k = absurd n
look_up-Names find (b ∷ bos) (x ∷ xs) found s0 s (e, f, n) h k =
    let one = h b.handle x f in
    let s' = record s { refcount = update s.refcount x (s.refcount x + 1) } in
    let (t, q, k') =
      look_up-Names find bos xs (found ++ x ∷ []) s0 s' n (λ n y m. ground (arith, h n y m))
        (record {
          refs = λ a. ground (arith, k.refs a, count-append a found (x ∷ []));
          status = k.status;
        }) in
    let same = append_assoc found (x ∷ []) xs in
    (
      t,
      rw (e, f, look_up, get-some x s one) (q ∙ ap (λ l. some (ok tt, (l, t))) same),
      subst (λ l. Taken l s0 t) same k',
    )

-- The mapping of each of `n` buffers from the k-th on succeeds.
abbrev pub Maps : (ℕ → Result (Unit {0})) → ℕ → List ℕ → Type 0
Maps map k [] = Unit
Maps map k (x ∷ xs) = (map k ≡ ok tt) × Maps map (k + 1) xs

map_all-Maps :
    (map : ℕ → Result (Unit {0})) (k : ℕ) (front back mapped : List ℕ) (x : ℕ) (e : Errno)
    → Maps map k front
    → map (k + length front) ≡ err e
    → map_all map k (front ++ x ∷ back) mapped ≡ (err e, mapped ++ front)
unfolding map_all
map_all-Maps map k [] back mapped x e h f =
    let here : k + 0 ≡ k = omega arith in
    let f' : map k ≡ err e = rw (here) at f in rw (f', append-nil mapped) refl
map_all-Maps map k (y ∷ front) back mapped x e (g, h) f =
    let next : k + suc (length front) ≡ k + 1 + length front = omega arith in
    let f' : map (k + 1 + length front) ≡ err e = ap map (sym next) ∙ f in
    rw (g, map_all)
      (map_all-Maps map (k + 1) front back (mapped ++ y ∷ []) x e h f'
        ∙ ap (λ l. (err e, l)) (append_assoc mapped (y ∷ []) front))

collect-leaks :
    (a : Answers) (bos : List SubmitBo) (s : Fences) (front back : List ℕ) (x : ℕ) (e : Errno)
    → Table a.find s
    → Names a.find bos (front ++ x ∷ back)
    → Maps a.map 0 front
    → a.map (length front) ≡ err e
    → (t : Fences) × (collect a bos s ≡ some (err e, t)) × Taken (x ∷ back) s t
unfolding collect
collect-leaks a bos s front back x e h n m f =
    let (t, q, k) =
      look_up-Names a.find bos (front ++ x ∷ back) [] s s n h
        (record { refs = λ a. omega arith; status = refl }) in
    let start : 0 + length front ≡ length front = omega arith in
    let g = map_all-Maps a.map 0 front back [] x e m (ap a.map start ∙ f) in
    let (u, p, r) =
      put_down-Released front t (λ a. omega (arith, k.refs a, count-append a front (x ∷ back))) in
    (
      u,
      rw (q, g) (rw (p) refl),
      record {
        refs = λ a. omega (arith, k.refs a, r.refs a, count-append a front (x ∷ back));
        status = r.status ∙ k.status;
      },
    )

-- If a submit names buffers that exist, with valid flags, and the mapping of one of them fails after
-- those of the buffers in front of it succeeded, then the submit returns that error and nothing but counts
-- is changed: one reference is left on the buffer that failed and on each one behind it, although
-- no task was queued that would drop them.
pub gem_submit_leaks :
    (a : Answers) (sub : Submit) (b : Buffers) (front back : List ℕ) (x : ℕ) (e : Errno)
    → explicit_sync sub ≡ false
    → a.lbos_allocated ≡ true
    → Table a.find b.pipe.store
    → Names a.find sub.bos (front ++ x ∷ back)
    → Maps a.map 0 front
    → a.map (length front) ≡ err e
    → (t : Fences) × (gem_submit a sub b ≡ some (err e, with_store t b))
      × ((q : ℕ) → t.refcount q ≡ b.pipe.store.refcount q + count q (x ∷ back))
unfolding gem_submit
gem_submit_leaks a sub b front back x e i l h n m f =
    let (t, q, k) = collect-leaks a sub.bos b.pipe.store front back x e h n m f in
    (t, if_false _ _ i ∙ (if_true _ _ l ∙ rw (q) refl), k.refs)
