-- ===== src/Resv/Wait.antt =====
-- Waiting for a reservation object: references, and what the result says.
use lima_backport_sprd7730se.Prelude.{
  ℕ, zero, suc, ◌+◌, ◌-◌, ◌≤◌, ◌≡◌, ◌⊎◌, refl, ap, Bool, true, false, some, List, [], ◌∷◌, arith,
  count, ◌==◌, update, Bool-cases, inl, inr, length, All, ◌∙◌,
}
use lima_backport_sprd7730se.Errno.{Long, nonneg, neg, ok, err, enomem}
use lima_backport_sprd7730se.Fence.{Fences, Waiting, wait_timeout, signaled, is_unsignaled, Status}
use lima_backport_sprd7730se.Fence.Refs.{
  Holds, Taken, put-some, put_all-Released, get_all-Taken, count_self,
}
use lima_backport_sprd7730se.Fence.Waits.{
  WaitLaws, wait_timeout-refcount, wait_timeout-keeps, wait_timeout-done,
}
use lima_backport_sprd7730se.Resv.{Resv, held, get_fences, wait_loop, resv_wait_timeout}

-- Every fence of the list has completed without error.
abbrev pub Done : List ℕ → Fences → Type 0
Done fs s = All (λ f. s.status f ≡ signaled) fs

-- The loop ran through: references given back, a positive result only if all have completed.
record Waited (fs : List ℕ) (ret : Long) (s : Fences) (laws : Type 0) (ret' : Long) (t : Fences)
    : Type 0 where
  refs : (a : ℕ) → t.refcount a + count a fs ≡ s.refcount a
  keeps : laws → (a : ℕ) → is_unsignaled (s.status a) ≡ false → t.status a ≡ s.status a
  done : laws → (n : ℕ) → ret' ≡ nonneg (suc n) → (ret ≡ nonneg (suc n)) × Done fs t

module _ (w : Waiting) (intr : Bool) (timeout : ℕ) where
  Loops : ℕ → List ℕ → Long → Fences → Type 0
  Loops k fs ret s =
      (ret' : Long) × (t : Fences) × (wait_loop w k intr timeout fs ret s ≡ some (ret', t))
      × Waited fs ret s (WaitLaws w) ret' t

  module _ (k f : ℕ) (fs : List ℕ) (ret : Long) (s : Fences) (h : Holds (f ∷ fs) s) where
    abbrev woken : Fences
    woken = (wait_timeout w k f intr timeout s).1

    woken_refs : (a : ℕ) → woken.refcount a ≡ s.refcount a
    woken_refs a = ap (λ (r : ℕ → ℕ). r a) (wait_timeout-refcount w k f intr timeout s)

    abbrev dropped : Fences
    dropped = record woken { refcount = update woken.refcount f (woken.refcount f - 1) }

    one : 1 ≤ woken.refcount f
    one = omega (arith, h f, count_self f fs, woken_refs f)

    dropped-Holds : Holds fs dropped
    dropped-Holds a = ground (arith, h a, woken_refs a)

    kept : WaitLaws w → (a : ℕ) → is_unsignaled (s.status a) ≡ false → woken.status a ≡ s.status a
    kept l a u = wait_timeout-keeps w k f intr timeout s l a u

    -- A later store keeps what the wait left.
    kept_on :
        (l : WaitLaws w) (a : ℕ) (t : Fences)
        → (is_unsignaled (woken.status a) ≡ false → t.status a ≡ woken.status a)
        → is_unsignaled (s.status a) ≡ false
        → t.status a ≡ s.status a
    kept_on l a t later u = later (rw (kept l a u) u) ∙ kept l a u

    ended :
        (l : WaitLaws w) (t : Fences) (n : ℕ)
        → (is_unsignaled (woken.status f) ≡ false → t.status f ≡ woken.status f)
        → (wait_timeout w k f intr timeout s).0 ≡ nonneg (suc n)
        → t.status f ≡ signaled
    ended l t n later q =
        let d = wait_timeout-done w k f intr timeout s l n q in later (rw d refl) ∙ d

    wait_loop-next :
        (r : Long)
        → (wait_timeout w k f intr timeout s).0 ≡ r
        → ((ret' : Long) → Loops (k + 1) fs ret' dropped)
        → Loops k (f ∷ fs) ret s
    unfolding Loops wait_loop
    wait_loop-next (neg e) q ih =
        let (t, p, x) = put_all-Released fs dropped dropped-Holds in
        (
          neg e,
          t,
          rw (put-some f woken one, q, p) refl,
          record {
            refs = λ a. ground (arith, x.refs a, h a, woken_refs a);
            keeps = λ l a u. kept_on l a t (λ _. ap (λ (v : ℕ → Status). v a) x.status) u;
            done = λ l n u. cc;
          },
        )
    wait_loop-next (nonneg zero) q ih =
        let (ret', t, p, x) = ih (nonneg 0) in
        (
          ret',
          t,
          rw (put-some f woken one, q) p,
          record {
            refs = λ a. ground (arith, x.refs a, h a, woken_refs a);
            keeps = λ l a u. kept_on l a t (x.keeps l a) u;
            done = λ l n u. cc ((x.done l n u).0);
          },
        )
    wait_loop-next (nonneg (suc n)) q ih =
        let (ret', t, p, x) = ih ret in
        (
          ret',
          t,
          rw (put-some f woken one, q) p,
          record {
            refs = λ a. ground (arith, x.refs a, h a, woken_refs a);
            keeps = λ l a u. kept_on l a t (x.keeps l a) u;
            done = λ l m u. ((x.done l m u).0, (ended l t n (x.keeps l f) q, (x.done l m u).1));
          },
        )

  wait_loop-Loops : (k : ℕ) (fs : List ℕ) (ret : Long) (s : Fences) → Holds fs s → Loops k fs ret s
  unfolding Loops wait_loop
  wait_loop-Loops k [] ret s h = (
    ret,
    s,
    refl,
    record { refs = λ a. omega arith; keeps = λ l a e. refl; done = λ l n e. (e, tt) },
  )
  wait_loop-Loops k (f ∷ fs) ret s h = wait_loop-next k f fs ret s h _ refl (λ ret'.
      wait_loop-Loops (k + 1) fs ret' (dropped k f fs ret s h) (dropped-Holds k f fs ret s h))

nil_of_length : (xs : List ℕ) → (length xs == 0) ≡ true → xs ≡ []
nil_of_length [] e = refl
nil_of_length (x ∷ xs) e = absurd (ground arith)

-- The copy fails and changes nothing, or gives all fences of the object with a reference for each.
pub get_fences_cases :
    (allocated : Bool) (r : Resv) (s : Fences)
    → Holds (held r) s
    → (get_fences allocated r s ≡ some (err enomem, s))
      ⊎ ((t : Fences) × (get_fences allocated r s ≡ some (ok (held r), t)) × Taken (held r) s t)
unfolding get_fences
get_fences_cases true r s h = elim (Bool-cases (length (held r) == 0)) [
  | inl e ↦
      let n = nil_of_length (held r) e in
      inr (s, rw e (rw n refl), record { refs = λ a. rw n (omega arith); status = refl })
  | inr e ↦
      let (t, q, x) = get_all-Taken (held r) s (λ a i. omega (arith, h a)) in
      inr (t, rw (e, q) refl, x)
]
get_fences_cases false r s h = elim (Bool-cases (length (held r) == 0)) [
  | inl e ↦
      let n = nil_of_length (held r) e in
      inr (s, rw e (rw n refl), record { refs = λ a. rw n (omega arith); status = refl })
  | inr e ↦ inl (rw e refl)
]

-- If the kernel's waits keep the laws of `WaitLaws` and the object's references are in the store:
-- waiting for the object leaves every count of references as it was, on each path: the copy fails,
-- a fence failed, the wait was interrupted or ran out, or all fences completed. It never touches a
-- freed fence. A positive result means that every fence of the object has completed without error,
-- and a completed fence keeps its status over the call.
pub resv_wait_timeout_lem :
    (w : Waiting) (allocated intr : Bool) (timeout : ℕ) (r : Resv) (s : Fences)
    → WaitLaws w
    → Holds (held r) s
    → (ret : Long) × (t : Fences) × (resv_wait_timeout w allocated r intr timeout s ≡ some (ret, t))
      × ((a : ℕ) → t.refcount a ≡ s.refcount a)
      × ((a : ℕ) → is_unsignaled (s.status a) ≡ false → t.status a ≡ s.status a)
      × ((n : ℕ) → ret ≡ nonneg (suc n) → Done (held r) t)
unfolding resv_wait_timeout Loops
resv_wait_timeout_lem w allocated intr timeout r s l h = elim (get_fences_cases allocated r s h) [
  | inl e ↦ (neg enomem, s, rw e refl, λ a. refl, λ a u. refl, λ n u. cc)
  | inr (t, e, x) ↦
      let holds : Holds (held r) t = λ a. omega (arith, h a, x.refs a) in
      let (ret, u, e', y) = wait_loop-Loops w intr timeout 0 (held r) (nonneg timeout) t holds in
      (
        ret,
        u,
        rw e e',
        λ a. omega (arith, x.refs a, y.refs a),
        λ a v.
            y.keeps l a (rw (ap (λ (st : ℕ → Status). st a) x.status) v)
            ∙ ap (λ (st : ℕ → Status). st a) x.status,
        λ n v. (y.done l n v).1,
      )
]
