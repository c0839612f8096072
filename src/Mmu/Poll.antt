-- ===== src/Mmu/Poll.antt =====
-- A poll ends once the deadline passes, and says whether the condition was met.
use lima_backport_sprd7730se.Prelude.{
  ℕ, zero, suc, ◌+◌, ◌<◌, ◌≡◌, refl, ◌∙◌, Bool, true, false, ◌||◌, some, Bool-cases, inl, inr,
  if◌then◌else◌, if_true, arith,
}
use lima_backport_sprd7730se.Errno.{etimedout, ok, err}
use lima_backport_sprd7730se.Mmu.{Reads, poll}

-- Whether one of the n + 1 reads from the k-th on meets the condition.
abbrev pub met : (ℕ → Bool) → Reads → ℕ → ℕ → Bool
met cond r zero k = cond (r.value k)
met cond r (suc n) k = cond (r.value k) || met cond r n (k + 1)

-- The deadline passes after the n-th read from the k-th on, and not before.
abbrev pub Deadline : Reads → ℕ → ℕ → Type 0
Deadline r zero k = r.late k ≡ true
Deadline r (suc n) k = (r.late k ≡ false) × Deadline r n (k + 1)

-- With the deadline after the n-th further read, n + 1 rounds are enough: the poll returns 0 if one of the
-- reads up to one after the deadline meets the condition, and -ETIMEDOUT if none does.
pub poll-met :
    (fuel : ℕ) (cond : ℕ → Bool) (r : Reads) (n k : ℕ)
    → n < fuel
    → Deadline r n k
    → poll fuel cond r k ≡ some (if met cond r (suc n) k then ok tt else err etimedout)
unfolding poll
poll-met zero cond r n k l d = absurd (omega (arith, l))
poll-met (suc fuel) cond r zero k l d = elim (Bool-cases (cond (r.value k))) [
  | inl e ↦ if_true _ _ e ∙ rw e refl
  | inr e ↦ elim (Bool-cases (cond (r.value (k + 1)))) [
    | inl f ↦ rw (e, d, f) refl
    | inr f ↦ rw (e, d, f) refl
  ]
]
poll-met (suc fuel) cond r (suc n) k l d = elim (Bool-cases (cond (r.value k))) [
  | inl e ↦ rw e refl
  | inr e ↦ rw (e, d.0) (poll-met fuel cond r n (k + 1) (omega (arith, l)) d.1)
]
