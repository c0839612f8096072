-- ===== src/Ctx/Close.antt =====
-- What is left of the contexts of a file when it is closed.
use lima_backport_sprd7730se.Prelude.{
  ℕ, ◌+◌, ◌≤◌, ◌≡◌, refl, ◌∙◌, Option, none, some, List, [], ◌∷◌, ◌==◌, if◌then◌else◌, count, arith,
}
use mathlib.Core.Path.{subst}
use lima_backport_sprd7730se.Fence.{Fences, ◌>>=◌, >>=-some}
use lima_backport_sprd7730se.Ctx.{Ctxs, detach, fini_loop, mgr_fini, mgr_init}
use lima_backport_sprd7730se.Ctx.Balance.{
  Call, call, Allowed, Inv, call-Inv, in_table, put_result, ctx_put-some, put_result-once,
}

unfoldable pub calls : List Call → Ctxs → Option Ctxs
unfolding call
calls [] m = some m
calls (k ∷ ks) m = call k m >>= calls ks

abbrev pub After : (Ctxs → Type 0) → Option Ctxs → Type 0
After P none = Unit
After P (some m) = P m

unfoldable pub AllowedAll : List Call → Ctxs → Type 0
AllowedAll [] m = Unit
AllowedAll (k ∷ ks) m = Allowed k m × After (AllowedAll ks) (call k m)

calls-Inv :
    (ks : List Call) (m : Ctxs)
    → AllowedAll ks m
    → Inv m
    → (n : Ctxs) × (calls ks m ≡ some n) × Inv n
unfolding calls AllowedAll
calls-Inv [] m h v = (m, refl, v)
calls-Inv (k ∷ ks) m h v =
    let (n, e, w) = call-Inv k m h.0 v in
    let (q, f, x) = calls-Inv ks n (subst (After (AllowedAll ks)) e h.1) w in (q, >>=-some _ e f, x)

-- The end of a file: an empty table, and the contexts of callers.
pub record Closed (m n : Ctxs) : Type 0 where
  pub empty : n.handles ≡ []
  pub created : n.created ≡ m.created
  pub held : n.held ≡ m.held
  pub refs : (a : ℕ) → n.store.refcount a ≡ count a m.held
  pub once :
      (a : ℕ) → count a m.created ≡ count a n.released + (if count a m.held == 0 then 0 else 1)

fini_loop-Closed :
    (l : List (ℕ × ℕ)) (m : Ctxs)
    → m.handles ≡ l
    → Inv m
    → (n : Ctxs) × (fini_loop l m ≡ some n) × Closed m n
unfolding fini_loop
fini_loop-Closed [] m h v =
    let refs : (a : ℕ) → m.store.refcount a ≡ count a m.held =
      λ a. v.refs a ∙ rw (h) (omega arith) in
    (
      m,
      refl,
      record {
        empty = h;
        created = refl;
        held = refl;
        refs = refs;
        once = λ a. rw⁻¹ (refs a) (v.once a);
      },
    )
fini_loop-Closed ((i, c) ∷ l) m h v =
    let all : (a : ℕ)
        → m.store.refcount a ≡ (if c == a then 1 else 0) + in_table a l + count a m.held =
      λ a. v.refs a ∙ rw (h) (omega arith) in
    let one : 1 ≤ m.store.refcount c = ground (arith, all c) in
    let d = detach c l m in
    let (n, e, w) = fini_loop-Closed l (put_result c d) refl (record {
      refs = λ a. ground (arith, all a, one);
      once = λ a. put_result-once c d a one (v.once a);
    }) in
    (
      n,
      >>=-some _ (ctx_put-some c d one) e,
      record { empty = w.empty; created = w.created; held = w.held; refs = w.refs; once = w.once },
    )

-- Whatever calls a file and its tasks make on its contexts, if memory is given out only when it is free
-- and nobody puts a reference that he does not have: no call uses a freed context, and closing the file
-- ends, with an empty table; a context is then counted just by the references that callers still have,
-- and every context that was created has been released once, unless a caller still has it.
pub mgr_fini-calls :
    (ks : List Call) (store : Fences)
    → ((a : ℕ) → store.refcount a ≡ 0)
    → AllowedAll ks (mgr_init store)
    → (m : Ctxs) × (n : Ctxs) × (calls ks (mgr_init store) ≡ some m)
      × (mgr_fini m ≡ some n)
      × Closed m n
unfolding mgr_fini mgr_init
mgr_fini-calls ks store z h =
    let v : Inv (mgr_init store) = record { refs = λ a. z a; once = λ a. rw (z a) refl } in
    let (m, e, w) = calls-Inv ks (mgr_init store) h v in
    let (n, f, c) = fini_loop-Closed m.handles m refl w in (m, n, e, f, c)
