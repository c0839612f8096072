-- ===== src/Resv/Balance.antt =====
-- References over the life of a reservation object: what goes in comes out.
use lima_backport_sprd7730se.Prelude.{
  ℕ, ◌+◌, ◌≤◌, ◌≡◌, refl, Bool, true, false, Option, none, some, List, [], ◌∷◌, ◌++◌, arith, count,
  option_list, count-append, length, ◌==◌, update, Bool-cases, inl, inr, if◌then◌else◌,
}
use lima_backport_sprd7730se.Errno.{Result, err, enomem}
use lima_backport_sprd7730se.Fence.{Fences, ◌>>=◌}
use lima_backport_sprd7730se.Fence.Refs.{
  Holds, get-some, put_all-Released, put-Released, count_self,
}
use lima_backport_sprd7730se.Resv.{
  Resv, resv_init, held, set_excl, add_shared, push_shared, resv_fini, grown,
}

-- What the driver does with the object between its creation and its end.
pub data Op : Type 0 where
  publishes : ℕ → Op
  shares : Bool → ℕ → Op

-- The references that the calls take over, and those that their callers keep.
abbrev pub handed : List Op → List ℕ
handed [] = []
handed (publishes f ∷ ops) = f ∷ handed ops
handed (shares b f ∷ ops) = handed ops

abbrev pub lent : List Op → List ℕ
lent [] = []
lent (publishes f ∷ ops) = lent ops
lent (shares b f ∷ ops) = f ∷ lent ops

abbrev state_of : Option (Result (Unit {0}) × Resv × Fences) → Option (Resv × Fences)
state_of none = none
state_of (some (e, r, t)) = some (r, t)

pub step : Op → Resv → Fences → Option (Resv × Fences)
step (publishes f) r s = set_excl r f s
step (shares b f) r s = state_of (add_shared b r f s)

pub run : List Op → Resv → Fences → Option (Resv × Fences)
run [] r s = some (r, s)
run (op ∷ ops) r s = step op r s >>= λ (r', t). run ops r' t

-- From `lima_resv_init` to `lima_resv_fini`.
pub lifetime : List Op → Fences → Option Fences
unfolding run
lifetime ops s = run ops resv_init s >>= λ (r, t). resv_fini r t

-- The balance of one step, for every fence.
record Balanced (op : Op) (r : Resv) (s : Fences) (r' : Resv) (t : Fences) : Type 0 where
  refs :
      (a : ℕ)
      → t.refcount a + count a (held r) + count a (handed (op ∷ []))
        ≡ s.refcount a + count a (held r')

Steps : Op → Resv → Fences → Option (Resv × Fences) → Type 0
Steps op r s out = (r' : Resv) × (t : Fences) × (out ≡ some (r', t)) × Balanced op r s r' t

set_excl-Steps :
    (f : ℕ) (r : Resv) (s : Fences) → Holds (held r) s → Steps (publishes f) r s (set_excl r f s)
unfolding set_excl Steps
set_excl-Steps f r s h =
    let part : Holds (option_list r.fence_excl) s =
      λ a. omega (arith, h a, count-append a (option_list r.fence_excl) r.shared) in
    let (t, e, rel) = put-Released r.fence_excl s part in
    (
      record r { fence_excl = some f },
      t,
      rw e refl,
      record {
        refs = λ a. omega (arith, rel.refs a, count-append a (option_list r.fence_excl) r.shared);
      },
    )

push_shared-Steps :
    (b : Bool) (f m : ℕ) (r : Resv) (s : Fences)
    → 1 ≤ s.refcount f
    → Steps (shares b f) r s (state_of (push_shared (record r { max_shared = m }) f s))
unfolding push_shared Steps
push_shared-Steps b f m r s one = (
  record r { shared = r.shared ++ f ∷ []; max_shared = m },
  record s { refcount = update s.refcount f (s.refcount f + 1) },
  rw (get-some f s one) refl,
  record {
    refs = λ a. ground (
      arith,
      count-append a (option_list r.fence_excl) r.shared,
      count-append a (option_list r.fence_excl) (r.shared ++ f ∷ []),
      count-append a r.shared (f ∷ []),
    );
  },
)

add_shared-Steps :
    (b : Bool) (f : ℕ) (r : Resv) (s : Fences)
    → 1 ≤ s.refcount f
    → Steps (shares b f) r s (state_of (add_shared b r f s))
unfolding add_shared
add_shared-Steps b f r s one = elim (Bool-cases (length r.shared == r.max_shared)) [
  | inl full ↦ rw full (grow b)
  | inr room ↦ rw room (push_shared-Steps b f r.max_shared r s one)
]
  where
    grow :
        (b : Bool)
        → Steps (shares b f) r s (
            state_of (
              if b
              then push_shared (record r { max_shared = grown r.max_shared }) f s
              else some (err enomem, r, s)))
    grow true = push_shared-Steps true f _ r s one
    grow false = unfold Steps in (r, s, refl, record { refs = λ a. omega arith })

-- References enough for the object, for what the calls take over, and for what their callers keep.
abbrev Enough : Resv → List Op → Fences → Type 0
Enough r ops s =
    (a : ℕ) → count a (held r) + count a (handed ops) + count a (lent ops) ≤ s.refcount a

run-Balance :
    (ops : List Op) (r : Resv) (s : Fences)
    → Enough r ops s
    → (r' : Resv) × (t : Fences) × (run ops r s ≡ some (r', t))
      × ((a : ℕ)
          → t.refcount a + count a (held r) + count a (handed ops)
            ≡ s.refcount a + count a (held r'))
unfolding run step Steps
run-Balance [] r s h = (r, s, refl, λ a. omega arith)
run-Balance (publishes f ∷ ops) r s h =
    let (r', t, e, b) = set_excl-Steps f r s (λ a. omega (arith, h a)) in
    let (q, u, e', b') = run-Balance ops r' t (λ a. omega (arith, h a, b.refs a)) in
    (q, u, rw e e', λ a. omega (arith, b.refs a, b' a))
run-Balance (shares c f ∷ ops) r s h =
    let (r', t, e, b) = add_shared-Steps c f r s (omega (arith, h f, count_self f (lent ops))) in
    let (q, u, e', b') = run-Balance ops r' t (λ a. omega (arith, h a, b.refs a)) in
    (q, u, rw e e', λ a. omega (arith, b.refs a, b' a))

-- Take any sequence of publications and shared additions on a fresh object, each `krealloc` of which
-- may fail, in a store that has a reference for each fence handed over or lent. Then no call touches
-- a freed fence, and after the final `lima_resv_fini` every fence has given up exactly the
-- references that were handed over: none is leaked and none is dropped twice.
pub lifetime_balance :
    (ops : List Op) (s : Fences)
    → ((a : ℕ) → count a (handed ops) + count a (lent ops) ≤ s.refcount a)
    → (t : Fences) × (lifetime ops s ≡ some t)
      × ((a : ℕ) → t.refcount a + count a (handed ops) ≡ s.refcount a)
unfolding lifetime resv_init resv_fini
lifetime_balance ops s h =
    let (r, t, e, b) = run-Balance ops resv_init s (λ a. omega (arith, h a)) in
    let (u, e', x) =
      put-Released r.fence_excl t
        (λ a. omega (arith, h a, b a, count-append a (option_list r.fence_excl) r.shared)) in
    let (v, e'', x') = put_all-Released r.shared u (λ a.
      omega (arith, h a, b a, x.refs a, count-append a (option_list r.fence_excl) r.shared)) in
    (
      v,
      rw (e, e') e'',
      λ a.
          omega
            (arith, b a, x.refs a, x'.refs a, count-append a (option_list r.fence_excl) r.shared),
    )
