-- ===== src/Gem/Start.antt =====
-- The loops of lima_gem_submit, whatever the mapping of the buffers does.
use lima_backport_sprd7730se.Prelude.{
  ℕ, ◌+◌, ◌≤◌, ◌≡◌, refl, ap, sym, ◌∙◌, map, Option, some, some_inj, Option-cases, List, [], ◌∷◌,
  ◌++◌, All, leb, Bool-cases, inl, inr, arith, count, count-append,
}
use mathlib.Core.Path.{subst}
use mathlib.Core.List.{append_assoc, append-nil}
use lima_backport_sprd7730se.Errno.{Errno, einval, enoent, Result, ok, err, Result-cases}
use lima_backport_sprd7730se.Fence.{Fences, >>=-some, get}
use lima_backport_sprd7730se.Fence.Refs.{Taken}
use lima_backport_sprd7730se.Sched.Engine.Grows.{>>=-eq-some}
use lima_backport_sprd7730se.Gem.{
  SubmitBo, Answers, look_up, map_all, collect, after_map, after_look_up,
}
use lima_backport_sprd7730se.Gem.Collect.{Table, look_up-Taken, put_down-Released}

All-append {ℓ} : (P : ℕ → Type ℓ) (xs ys : List ℕ) → All P xs → All P ys → All P (xs ++ ys)
All-append P [] ys h k = k
All-append P (x ∷ xs) ys h k = (h.0, All-append P xs ys h.1 k)

-- Every buffer that is found has what the buffers of the handles have.
look_up-All :
    (P : ℕ → Type 0) (find : ℕ → Option ℕ) (bos : List SubmitBo) (found : List ℕ) (s : Fences)
    (r : Result (Unit {0})) (all : List ℕ) (t : Fences)
    → ((h x : ℕ) → find h ≡ some x → P x)
    → All P found
    → look_up find bos found s ≡ some (r, (all, t))
    → All P all
unfolding look_up
look_up-All P find [] found s r all t p h e = subst (All P) (ap (λ q. q.1.0) (some_inj e)) h
look_up-All P find (b ∷ bos) found s r all t p h e = elim (Bool-cases (leb 4 b.flags)) [
  | inl f ↦ let e' = rw (f) at e in subst (All P) (ap (λ q. q.1.0) (some_inj e')) h
  | inr f ↦ elim (Option-cases (find b.handle)) [
    | inl g ↦ let e' = rw (f, g, look_up) at e in subst (All P) (ap (λ q. q.1.0) (some_inj e')) h
    | inr (x, g) ↦
        let e' = rw (f, g, look_up) at e in
        let (s', k, e'') =
          >>=-eq-some (get x s) (look_up find bos (found ++ x ∷ [])) (r, (all, t)) e' in
        look_up-All P find bos (found ++ x ∷ []) s' r all t p
          (All-append P found (x ∷ []) h (p b.handle x g, tt)) e''
  ]
]

-- After a success the buffers are those that the handles name, in their order.
abbrev pub Named : (ℕ → Option ℕ) → List SubmitBo → List ℕ → Result (Unit {0}) → List ℕ → Type 0
Named find bos found (ok u) all =
    map some all ≡ map some found ++ map (λ (b : SubmitBo). find b.handle) bos
Named find bos found (err e) all = Unit

Named-err :
    (find : ℕ → Option ℕ) (bos : List SubmitBo) (found : List ℕ) (r : Result (Unit {0}))
    (all : List ℕ) (e : Errno)
    → err e ≡ r
    → Named find bos found r all
Named-err find bos found r all e same = subst (λ x. Named find bos found x all) same tt

map-append {ℓ} : {A : Type ℓ} (f : ℕ → A) (xs ys : List ℕ) → map f (xs ++ ys) ≡ map f xs ++ map f ys
map-append f [] ys = refl
map-append f (x ∷ xs) ys = ap (λ l. f x ∷ l) (map-append f xs ys)

Named-next :
    (find : ℕ → Option ℕ) (b : SubmitBo) (bos : List SubmitBo) (found : List ℕ) (x : ℕ)
    (r : Result (Unit {0})) (all : List ℕ)
    → find b.handle ≡ some x
    → Named find bos (found ++ x ∷ []) r all
    → Named find (b ∷ bos) found r all
Named-next find b bos found x (ok u) all e h =
    h
    ∙ ap (λ l. l ++ map (λ (c : SubmitBo). find c.handle) bos) (map-append some found (x ∷ []))
    ∙ append_assoc (map some found) (some x ∷ []) (map (λ (c : SubmitBo). find c.handle) bos)
    ∙ ap (λ o. map some found ++ o ∷ map (λ (c : SubmitBo). find c.handle) bos) (sym e)
Named-next find b bos found x (err y) all e h = tt

look_up-Named :
    (find : ℕ → Option ℕ) (bos : List SubmitBo) (found : List ℕ) (s : Fences)
    (r : Result (Unit {0})) (all : List ℕ) (t : Fences)
    → look_up find bos found s ≡ some (r, (all, t))
    → Named find bos found r all
unfolding look_up
look_up-Named find [] found s r all t e =
    subst (λ q. Named find [] found q.0 q.1.0) (some_inj e) (sym (append-nil (map some found)))
look_up-Named find (b ∷ bos) found s r all t e = elim (Bool-cases (leb 4 b.flags)) [
  | inl f ↦
      let e' = rw (f) at e in
      Named-err find (b ∷ bos) found r all einval (ap (λ q. q.0) (some_inj e'))
  | inr f ↦ elim (Option-cases (find b.handle)) [
    | inl g ↦
        let e' = rw (f, g, look_up) at e in
        Named-err find (b ∷ bos) found r all enoent (ap (λ q. q.0) (some_inj e'))
    | inr (x, g) ↦
        let e' = rw (f, g, look_up) at e in
        let (s', k, e'') =
          >>=-eq-some (get x s) (look_up find bos (found ++ x ∷ [])) (r, (all, t)) e' in
        Named-next find b bos found x r all g
          (look_up-Named find bos (found ++ x ∷ []) s' r all t e'')
  ]
]

map_all-count :
    (map : ℕ → Result (Unit {0})) (k : ℕ) (xs mapped : List ℕ) (a : ℕ)
    → count a (map_all map k xs mapped).1 ≤ count a mapped + count a xs
unfolding map_all
map_all-count map k [] mapped a = omega arith
map_all-count map k (x ∷ xs) mapped a = elim (Result-cases (map k)) [
  | inl (u, e) ↦
      rw (e, map_all)
        (omega (
          arith,
          map_all-count map (k + 1) xs (mapped ++ x ∷ []) a,
          count-append a mapped (x ∷ []),
        ))
  | inr (x', e) ↦ rw (e, map_all) (omega arith)
]

-- How the loops end: with the buffers that the handles name and a reference for each, or with no
-- fewer references than before.
abbrev pub Collected :
    (ℕ → Type 0) → (ℕ → Option ℕ) → List SubmitBo → Fences → Result (List ℕ) × Fences → Type 0
Collected P find bos s (ok all, t) =
    All P all
    × ((a : ℕ) → t.refcount a ≡ s.refcount a + count a all)
    × (map some all ≡ map (λ (b : SubmitBo). find b.handle) bos)
Collected P find bos s (err e, t) = (a : ℕ) → s.refcount a ≤ t.refcount a

module _ (P : ℕ → Type 0) (a : Answers) (bos : List SubmitBo) (s : Fences) where
  after_map-Collected :
      (found : List ℕ) (t : Fences) (m : Result (Unit {0}) × List ℕ)
      → All P found
      → Taken found s t
      → Named a.find bos [] (ok tt) found
      → ((q : ℕ) → count q m.1 ≤ count q found)
      → (x : Result (List ℕ) × Fences) × (after_map found t m ≡ some x) × Collected P a.find bos s x
  after_map-Collected found t (ok u, mapped) p k n c = ((ok found, t), refl, (p, k.refs, n))
  after_map-Collected found t (err e, mapped) p k n c =
      let (u, f, r) = put_down-Released mapped t (λ q. omega (arith, k.refs q, c q)) in
      ((err e, u), >>=-some _ f refl, λ q. omega (arith, k.refs q, c q, r.refs q))

  after_look_up-Collected :
      (r : Result (Unit {0})) (found : List ℕ) (t : Fences)
      → All P found
      → Taken found s t
      → Named a.find bos [] r found
      → (x : Result (List ℕ) × Fences) × (after_look_up a (r, (found, t)) ≡ some x)
        × Collected P a.find bos s x
  after_look_up-Collected (ok u) found t p k n =
      after_map-Collected found t (map_all a.map 0 found []) p k n
        (λ q. omega (arith, map_all-count a.map 0 found [] q))
  after_look_up-Collected (err e) found t p k n =
      let (u, f, r) = put_down-Released found t (λ q. omega (arith, k.refs q)) in
      ((err e, u), >>=-some _ f refl, λ q. omega (arith, k.refs q, r.refs q))

  pub collect-Collected :
      Table a.find s
      → ((h x : ℕ) → a.find h ≡ some x → P x)
      → (x : Result (List ℕ) × Fences) × (collect a bos s ≡ some x) × Collected P a.find bos s x
  unfolding collect
  collect-Collected h p =
      let (r, all, t, e, k) =
        look_up-Taken a.find bos [] s s h (record { refs = λ q. omega arith; status = refl }) in
      let (x, f, c) =
        after_look_up-Collected r all t (look_up-All P a.find bos [] s r all t p tt e) k
          (look_up-Named a.find bos [] s r all t e) in
      (x, >>=-some _ e f, c)
