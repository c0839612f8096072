-- ===== src/Sched/Engine/Released.antt =====
-- The last reference of a context: what lima_ctx_release finds on a pipe.
use lima_backport_sprd7730se.Prelude.{
  ℕ, zero, suc, ◌≤◌, ◌≡◌, refl, sym, ap, ◌∙◌, true, false, Bool-cases, inl, inr, some, some_inj,
  List, [], ◌∷◌, ◌++◌, map, ◌==◌, ==_iff, All, arith, count, count-append, option_list,
}
use mathlib.Core.Path.{subst}
use mathlib.Core.List.{append_assoc, append-nil}
use lima_backport_sprd7730se.Fence.{Fences, ◌>>=◌, >>=-some}
use lima_backport_sprd7730se.Sched.Task.{Task, owned}
use lima_backport_sprd7730se.Sched.Pipe.{Config, Pipe, pipe_init}
use lima_backport_sprd7730se.Sched.Fini.{Rounds, drain, context_fini}
use lima_backport_sprd7730se.Sched.Engine.{Event, steps, step, pending, owned_all}
use lima_backport_sprd7730se.Sched.Engine.Core.{Core, tally, count-owned, task_of}
use lima_backport_sprd7730se.Sched.Engine.Invariant.{Inv}
use lima_backport_sprd7730se.Sched.Engine.History.{AllowedAll, After, history-Inv}
use lima_backport_sprd7730se.Sched.Engine.Grows.{>>=-eq-some, submitted_by, step-Grows}
use lima_backport_sprd7730se.Sched.Engine.Grows.{submitted_in}

-- The context `k` of the pipe is that of the object `c`: each of its tasks has a reference of it.
abbrev pub Owns : ℕ → ℕ → Task → Type 0
Owns k c t = t.context ≡ k → t.ctx ≡ some c

no_owner :
    (k c : ℕ) (ts : List Task) → All (Owns k c) ts → count c (owned_all ts) ≡ 0 → tally k ts ≡ 0
no_owner k c [] h e = refl
no_owner k c (t ∷ ts) h e = elim (Bool-cases (t.context == k)) [
  | inl m ↦
      let one : count c (option_list t.ctx) ≡ 1 =
        rw (h.0 ((==_iff t.context k).0 m)) (ground arith) in
      absurd (omega (arith, e, one, count-owned c t, count-append c (owned t) (owned_all ts)))
  | inr m ↦
      let rest = no_owner k c ts h.1 (omega (arith, e, count-append c (owned t) (owned_all ts))) in
      ground (arith, rest, m)
]

-- A context without references has no task in flight.
pub Core-idle :
    (k c : ℕ) (p : Pipe) (ts : List Task)
    → Core p ts
    → All (Owns k c) ts
    → p.store.refcount c ≡ 0
    → p.in_flight k ≡ 0
Core-idle k c p ts i h e = i.flights k ∙ no_owner k c ts h (omega (arith, i.holds c, e))

-- What the loops of lima_sched_context_fini see when they begin.
abbrev pub Sees : ℕ → Pipe → Rounds → Type 0
Sees k p w = w.in_flight 0 ≡ p.in_flight k

idle-drain : (fuel : ℕ) (w : Rounds) → 1 ≤ fuel → w.in_flight 0 ≡ 0 → drain fuel w 0 ≡ some false
unfolding drain
idle-drain zero w l e = absurd (omega (arith, l))
idle-drain (suc fuel) w l e = ground (arith, e)

pub context_fini-idle :
    (fuel k : ℕ) (w v : Rounds) (p : Pipe)
    → 1 ≤ fuel
    → Sees k p w
    → Sees k p v
    → p.in_flight k ≡ 0
    → context_fini fuel w v (p.in_flight k) p ≡ some (p, false)
unfolding context_fini
context_fini-idle fuel k w v p l s s' e =
    rw (e)
      (>>=-some _ (idle-drain fuel w l (s ∙ e)) (>>=-some _ (idle-drain fuel v l (s' ∙ e)) refl))

-- All that a history submits is in the record of the pipe.
steps-submitted :
    (c : Config) (es : List Event) (p q : Pipe)
    → steps c es p ≡ some q
    → q.submitted ≡ p.submitted ++ submitted_in es
unfolding steps
steps-submitted c [] p q e = rw (← some_inj e) (sym (append-nil p.submitted))
steps-submitted c (x ∷ es) p q e =
    let (p', e1, e2) = >>=-eq-some (step c x p) (steps c es) q e in
    let (done, g) = step-Grows c x p p' e1 in
    steps-submitted c es p' q e2
    ∙ ap (λ (l : List Task). l ++ submitted_in es) g.submitted
    ∙ append_assoc p.submitted (submitted_by x) (submitted_in es)

All-back {ℓ} : (P : Task → Type ℓ) (xs ys : List Task) → All P (xs ++ ys) → All P ys
All-back P [] ys h = h
All-back P (x ∷ xs) ys h = All-back P xs ys h.1

new-submitted :
    (c : Config) (es : List Event) (store : Fences) (mmu : List ℕ) (q : Pipe)
    → (pipe_init true store mmu >>= steps c es) ≡ some q
    → q.submitted ≡ submitted_in es
unfolding pipe_init
new-submitted c es store mmu q e =
    let (p, e1, e2) = >>=-eq-some (pipe_init true store mmu) (steps c es) q e in
    steps-submitted c es p q e2
    ∙ ap (λ (l : List Task). l ++ submitted_in es)
        (ap (λ (r : Pipe). r.submitted) (sym (some_inj e1)))

-- If the tasks that a history submits to one context each have a reference of one object, and after the
-- history that object has no reference left: the end of the context returns in the first round of both
-- loops, with the pipe as it is and no warning, whatever the clock says, when its loops see the counter
-- of the pipe.
pub history-released :
    (c : Config) (es : List Event) (store : Fences) (mmu : List ℕ) (q : Pipe) (fuel k o : ℕ)
    (w v : Rounds)
    → After (AllowedAll c es) (pipe_init true store mmu)
    → (pipe_init true store mmu >>= steps c es) ≡ some q
    → All (Owns k o) (submitted_in es)
    → q.store.refcount o ≡ 0
    → 1 ≤ fuel
    → Sees k q w
    → Sees k q v
    → context_fini fuel w v (q.in_flight k) q ≡ some (q, false)
history-released c es store mmu q fuel k o w v allowed e owners gone l s s' =
    let (q', e', inv') = history-Inv c es store mmu allowed in
    let inv : Inv q = subst Inv (some_inj (sym e' ∙ e)) inv' in
    let all : All (Owns k o) (map task_of q.finished ++ pending q) =
      subst (All (Owns k o)) (sym (new-submitted c es store mmu q e) ∙ inv.core.order) owners in
    context_fini-idle fuel k w v q l s s' (
      Core-idle k o q (pending q) inv.core
        (All-back (Owns k o) (map task_of q.finished) (pending q) all) gone)
