-- ===== src/Gem/Follows.antt =====
-- Implicit synchronisation: one submit after another on a shared buffer.
use lima_backport_sprd7730se.Prelude.{
  ℕ, ◌≤◌, ◌≡◌, refl, sym, ap, ◌∙◌, Bool-cases, inl, inr, Option, some, some_inj, List, [], ◌∷◌,
  ◌++◌, map, ◌==◌, ==_iff, arith, count, count-append, option_list,
}
use mathlib.Core.Path.{subst}
use lima_backport_sprd7730se.Errno.{ok}
use lima_backport_sprd7730se.Resv.{Resv, held}
use lima_backport_sprd7730se.Sched.Task.{Task}
use lima_backport_sprd7730se.Gem.{SubmitBo, Submit, Answers, Buffers, gem_submit}
use lima_backport_sprd7730se.Gem.Deps.{all_held}
use lima_backport_sprd7730se.Gem.Publish.{Exclusive}
use lima_backport_sprd7730se.Gem.System.{System, Known, Fresh}
use lima_backport_sprd7730se.Gem.Submits.{Ends, gem_submit-System}

-- The buffers that the handles of a submit name.
unfoldable pub flat : List (Option ℕ) → List ℕ
flat [] = []
flat (o ∷ os) = option_list o ++ flat os

unfoldable pub named : Answers → Submit → List ℕ
unfolding flat
named a sub = flat (map (λ (c : SubmitBo). a.find c.handle) sub.bos)

flat-map : (xs : List ℕ) → flat (map some xs) ≡ xs
unfolding flat
flat-map [] = refl
flat-map (x ∷ xs) = ap (λ l. x ∷ l) (flat-map xs)

held-excl : (r : Resv) (f : ℕ) → r.fence_excl ≡ some f → 1 ≤ count f (held r)
held-excl r f e = rw (e) (ground arith)

all_held-held :
    (resv : ℕ → Resv) (f x : ℕ) (xs : List ℕ)
    → 1 ≤ count x xs
    → count f (held (resv x)) ≤ count f (all_held resv xs)
all_held-held resv f x [] h = absurd (omega (arith, h))
all_held-held resv f x (y ∷ ys) h = elim (Bool-cases (y == x)) [
  | inl e ↦
      let same : y ≡ x = (==_iff y x).0 e in
      rw (same) (omega (arith, count-append f (held (resv x)) (all_held resv ys)))
  | inr e ↦ omega (
    arith,
    all_held-held resv f x ys (ground (arith, h, e)),
    count-append f (held (resv y)) (all_held resv ys),
  )
]

Exclusive-held :
    (f x : ℕ) (xs : List ℕ) (resv : ℕ → Resv)
    → Exclusive f xs resv
    → 1 ≤ count x xs
    → 1 ≤ count f (held (resv x))
Exclusive-held f x [] resv h m = absurd (omega (arith, m))
Exclusive-held f x (y ∷ ys) resv h m = elim (Bool-cases (y == x)) [
  | inl e ↦ held-excl (resv x) f (subst (λ z. (resv z).fence_excl ≡ some f) ((==_iff y x).0 e) h.0)
  | inr e ↦ Exclusive-held f x ys resv h.1 (ground (arith, m, e))
]

-- What a submit may rely on, and that it succeeds with these buffers.
pub record Succeeds (objs own : List ℕ) (a : Answers) (sub : Submit) (b c : Buffers) : Type 0 where
  pub system : System objs (sub.ctx ∷ own) b
  pub known : (h x : ℕ) → a.find h ≡ some x → Known objs b.pipe.store x
  pub vm_live : 1 ≤ b.pipe.store.refcount sub.vm
  pub fresh : Fresh a.fresh b.pipe.store
  pub returns : gem_submit a sub b ≡ some (ok tt, c)

Succeeds-Ends :
    (objs own : List ℕ) (a : Answers) (sub : Submit) (b c : Buffers)
    → Succeeds objs own a sub b c
    → Ends objs own a sub b (ok tt, c)
Succeeds-Ends objs own a sub b c h =
    let (x, e, d) = gem_submit-System objs own a sub b h.system h.known h.vm_live h.fresh in
    subst (Ends objs own a sub b) (some_inj (sym e ∙ h.returns)) d

-- The last task of a queue.
abbrev pub IsLast : Task → Buffers → Buffers → Type 0
IsLast t b c = c.pipe.queue ≡ b.pipe.queue ++ t ∷ []

-- If two submits succeed, the reservation objects being when the second begins as the first left them,
-- and some buffer is named by both: the fence of the task that the first queues is among the
-- dependencies of the task that the second queues.
pub gem_submit_follows :
    (objs own own' : List ℕ) (a a' : Answers) (sub sub' : Submit) (b c b' c' : Buffers) (x : ℕ)
    → Succeeds objs own a sub b c
    → Succeeds objs own' a' sub' b' c'
    → b'.resv ≡ c.resv
    → 1 ≤ count x (named a sub)
    → 1 ≤ count x (named a' sub')
    → (t u : Task) × IsLast t b c × IsLast u b' c' × (1 ≤ count t.fence u.deps)
unfolding named
gem_submit_follows objs own own' a a' sub sub' b c b' c' x h h' same m m' =
    let (y, (t, last, _, _, _, named_t, _, excl)) = Succeeds-Ends objs own a sub b c h in
    let (y', (u, last', _, _, _, named_u, deps, _)) = Succeeds-Ends objs own' a' sub' b' c' h' in
    let in_t : named a sub ≡ t.bos = ap flat (sym named_t) ∙ flat-map t.bos in
    let in_u : named a' sub' ≡ u.bos = ap flat (sym named_u) ∙ flat-map u.bos in
    let first : 1 ≤ count t.fence (held (c.resv x)) =
      Exclusive-held t.fence x t.bos c.resv excl (rw (← in_t) m) in
    let first' : 1 ≤ count t.fence (held (b'.resv x)) = rw (same) first in
    let second = all_held-held b'.resv t.fence x u.bos (rw (← in_u) m') in
    (t, u, last, last', omega (arith, first', second, deps t.fence))
