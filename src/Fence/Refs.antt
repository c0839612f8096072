-- ===== src/Fence/Refs.antt =====
-- Counting references: what a list of gets or puts does to every fence at once.
use lima_backport_sprd7730se.Prelude.{
  ℕ, ◌+◌, ◌-◌, ◌≤◌, ◌≡◌, refl, Option, none, some, List, [], ◌∷◌, arith, count, option_list, update,
}
use lima_backport_sprd7730se.Fence.{Fences, ◌>>=◌, get, put}

unfoldable pub get_all : List ℕ → Fences → Option Fences
get_all [] s = some s
get_all (f ∷ fs) s = get f s >>= get_all fs

unfoldable pub put_all : List ℕ → Fences → Option Fences
put_all [] s = some s
put_all (f ∷ fs) s = put (some f) s >>= put_all fs

-- `s` holds a reference for each entry of the list.
abbrev pub Holds : List ℕ → Fences → Type 0
Holds fs s = (a : ℕ) → count a fs ≤ s.refcount a

-- `t` is `s` with one more reference for each entry, and nothing else changed.
pub record Taken (fs : List ℕ) (s t : Fences) : Type 0 where
  pub refs : (a : ℕ) → t.refcount a ≡ s.refcount a + count a fs
  pub status : t.status ≡ s.status

-- `t` is `s` with one reference less for each entry, and nothing else changed.
pub record Released (fs : List ℕ) (s t : Fences) : Type 0 where
  pub refs : (a : ℕ) → t.refcount a + count a fs ≡ s.refcount a
  pub status : t.status ≡ s.status

pub get-some :
    (f : ℕ) (s : Fences)
    → 1 ≤ s.refcount f
    → get f s ≡ some (record s { refcount = update s.refcount f (s.refcount f + 1) })
unfolding get
get-some f s h = ground arith

pub put-some :
    (f : ℕ) (s : Fences)
    → 1 ≤ s.refcount f
    → put (some f) s ≡ some (record s { refcount = update s.refcount f (s.refcount f - 1) })
unfolding put
put-some f s h = ground arith

-- Every entry of the list is allocated.
abbrev pub Live : List ℕ → Fences → Type 0
Live fs s = (a : ℕ) → 1 ≤ count a fs → 1 ≤ s.refcount a

pub count_self : (f : ℕ) (fs : List ℕ) → 1 ≤ count f (f ∷ fs)
count_self f fs = ground arith

pub put_all-Released :
    (fs : List ℕ) (s : Fences)
    → Holds fs s
    → (t : Fences) × (put_all fs s ≡ some t) × Released fs s t
unfolding put_all
put_all-Released [] s h = (s, refl, record { refs = λ a. omega arith; status = refl })
put_all-Released (f ∷ fs) s h =
    let one : 1 ≤ s.refcount f = omega (arith, h f, count_self f fs) in
    let s' : Fences = record s { refcount = update s.refcount f (s.refcount f - 1) } in
    let (t, e, r) = put_all-Released fs s' (λ a. ground (arith, h a)) in
    (t, rw (put-some f s one) e, record { refs = λ a. ground (arith, r.refs a); status = r.status })

pub get_all-Taken :
    (fs : List ℕ) (s : Fences) → Live fs s → (t : Fences) × (get_all fs s ≡ some t) × Taken fs s t
unfolding get_all
get_all-Taken [] s h = (s, refl, record { refs = λ a. omega arith; status = refl })
get_all-Taken (f ∷ fs) s h =
    let one : 1 ≤ s.refcount f = h f (count_self f fs) in
    let s' : Fences = record s { refcount = update s.refcount f (s.refcount f + 1) } in
    let (t, e, r) = get_all-Taken fs s' (λ a i. ground (arith, h a)) in
    (t, rw (get-some f s one) e, record { refs = λ a. ground (arith, r.refs a); status = r.status })

-- A put of a pointer that may be null.
pub put-Released :
    (o : Option ℕ) (s : Fences)
    → Holds (option_list o) s
    → (t : Fences) × (put o s ≡ some t) × Released (option_list o) s t
unfolding put
put-Released none s h = (s, refl, record { refs = λ a. omega arith; status = refl })
put-Released (some f) s h =
    let one : 1 ≤ s.refcount f = omega (arith, h f, count_self f []) in
    (
      record s { refcount = update s.refcount f (s.refcount f - 1) },
      put-some f s one,
      record { refs = λ a. ground (arith, h a); status = refl },
    )
