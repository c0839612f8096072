-- ===== src/Device/Power.antt =====
-- The power domain of the GPU: lima_platform_sprd.c.
use lima_backport_sprd7730se.Prelude.{
  ℕ, zero, suc, ◌+◌, ◌*◌, ◌≤◌, ◌≡◌, refl, ◌∙◌, ◌≢◌, ◌⊎◌, inl, inr, Bool, true, false, ◌&&◌, Option,
  none, some, ◌==◌, if◌then◌else◌, Bool-cases, arith,
}
use mathlib.Core.Path.{subst}
use lima_backport_sprd7730se.Errno.{etimedout, Result, ok, err}

-- `sprd_gpu_domain_state`: `read k` is the k-th read of the status register. The loop has no bound of
-- its own; here it has `fuel` rounds. The second part of the result is the number of the next read.
unfoldable pub domain_state : ℕ → (ℕ → ℕ) → ℕ → Option (ℕ × ℕ)
domain_state zero read k = none
domain_state (suc fuel) read k =
    let rest = domain_state fuel read (k + 3) in
    if (read k == read (k + 1)) && (read (k + 1) == read (k + 2))
    then some (read k, k + 3)
    else rest

-- `sprd_gpu_domain_wait_for_ready` with `left` the timeout count: `state k` is what the k-th call of
-- `sprd_gpu_domain_state` returns, and 0 is the state of a domain that is up.
unfoldable pub wait_for_ready : (ℕ → ℕ) → ℕ → ℕ → Result (Unit {0})
wait_for_ready state k zero = if state k == 0 then ok tt else err etimedout
wait_for_ready state k (suc left) =
    let rest = wait_for_ready state (k + 1) left in if state k == 0 then ok tt else rest

-- How many times the loop goes round before it gives up.
abbrev pub timeout_count : ℕ
timeout_count = 2000

-- The outcome of `lima_platform_power_on`: that of the platform's own function if it has one, else of
-- the wait in `sprd_gpu_power_on_builtin`. The writes to the power registers before it are left out.
unfoldable pub power_on : Option (Result (Unit {0})) → (ℕ → ℕ) → Result (Unit {0})
unfolding wait_for_ready
power_on none state = wait_for_ready state 0 timeout_count
power_on (some answer) state = answer

-- The stable state of the first three reads that agree, at a read number from `k` on in steps of 3.
abbrev pub Stable : (ℕ → ℕ) → ℕ → Type 0
Stable read k = (read k ≡ read (k + 1)) × (read (k + 1) ≡ read (k + 2))

abbrev agree : (ℕ → ℕ) → ℕ → Bool
agree read k = (read k == read (k + 1)) && (read (k + 1) == read (k + 2))

agree-Stable : (read : ℕ → ℕ) (k : ℕ) → agree read k ≡ true → Stable read k
agree-Stable read k h = ground arith

Stable-agree : (read : ℕ → ℕ) (k : ℕ) → Stable read k → agree read k ≡ true
Stable-agree read k h = ground arith

domain_state-now :
    (n : ℕ) (read : ℕ → ℕ) (k : ℕ)
    → agree read k ≡ true
    → domain_state (suc n) read k ≡ some (read k, k + 3)
unfolding domain_state
domain_state-now n read k h = rw h refl

domain_state-later :
    (n : ℕ) (read : ℕ → ℕ) (k : ℕ)
    → agree read k ≡ false
    → domain_state (suc n) read k ≡ domain_state n read (k + 3)
unfolding domain_state
domain_state-later n read k h = rw h refl

no_less : (m : ℕ) → suc m ≤ 0 → ⊥
no_less m h = omega (arith, h)

at_start : (k : ℕ) → k + 3 * 0 ≡ k
at_start k = omega arith

one_round : (k m : ℕ) → k + 3 * suc m ≡ k + 3 + 3 * m
one_round k m = omega arith

-- If three reads in a row agree in one of the first `suc n` rounds from read `k`, then `suc n`
-- rounds are enough, and the state returned is one that three reads in a row agreed on.
pub domain_state_lem :
    (n : ℕ) (read : ℕ → ℕ) (k m : ℕ)
    → m ≤ n
    → Stable read (k + 3 * m)
    → (j : ℕ) × (domain_state (suc n) read k ≡ some (read j, j + 3)) × Stable read j
domain_state_lem n read k zero h e =
    let e' = subst (Stable read) (at_start k) e in
    (k, domain_state-now n read k (Stable-agree read k e'), e')
domain_state_lem zero read k (suc m) h e = elim (no_less m h) [ ]
domain_state_lem (suc n) read k (suc m) h e = elim (Bool-cases (agree read k)) [
  | inl t ↦ (k, domain_state-now (suc n) read k t, agree-Stable read k t)
  | inr f ↦
      let (j, e', x) =
        domain_state_lem n read (k + 3) m (omega (arith, h))
          (subst (Stable read) (one_round k m) e) in
      (j, domain_state-later (suc n) read k f ∙ e', x)
]

-- The domain is up at one of the reads from `k` on, `left` more of them.
abbrev pub ComesUp : (ℕ → ℕ) → ℕ → ℕ → Type 0
ComesUp state k left = (m : ℕ) × (m ≤ left) × (state (k + m) ≡ 0)

up_now : (state : ℕ → ℕ) (k left : ℕ) → (state k == 0) ≡ true → ComesUp state k left
up_now state k left h = (0, omega arith, ground (arith, h))

up_later : (state : ℕ → ℕ) (k left : ℕ) → ComesUp state (k + 1) left → ComesUp state k (suc left)
up_later state k left (m, h, e) = (suc m, omega (arith, h), ground (arith, e))

not_now : (state : ℕ → ℕ) (k : ℕ) → (state k == 0) ≡ false → (m : ℕ) → state (k + m) ≡ 0 → 1 ≤ m
not_now state k f zero e = ground (arith, f, e)
not_now state k f (suc m) e = omega arith

never_up :
    (state : ℕ → ℕ) (k left : ℕ)
    → (state k == 0) ≡ false
    → ((m : ℕ) → m ≤ left → state (k + 1 + m) ≢ 0)
    → (m : ℕ) → m ≤ suc left
    → state (k + m) ≢ 0
never_up state k left f h zero b e = ground (arith, f, e)
never_up state k left f h (suc m) b e = h m (omega (arith, b)) (ground (arith, e))

-- The wait succeeds if the domain is up at one of the `left + 1` reads from the `k`-th on, and
-- returns -ETIMEDOUT if it is up at none of them.
pub wait_for_ready_lem :
    (state : ℕ → ℕ) (k left : ℕ)
    → (ComesUp state k left × (wait_for_ready state k left ≡ ok tt))
      ⊎ (((m : ℕ) → m ≤ left → state (k + m) ≢ 0) × (wait_for_ready state k left ≡ err etimedout))
unfolding wait_for_ready
wait_for_ready_lem state k zero = elim (Bool-cases (state k == 0)) [
  | inl t ↦ inl (up_now state k 0 t, rw t refl)
  | inr f ↦ inr (λ m h e. ground (arith, not_now state k f m e, h), rw f refl)
]
wait_for_ready_lem state k (suc left) = elim (Bool-cases (state k == 0)) [
  | inl t ↦ inl (up_now state k (suc left) t, rw t refl)
  | inr f ↦ elim (wait_for_ready_lem state (k + 1) left) [
    | inl (u, r) ↦ inl (up_later state k left u, rw f r)
    | inr (h, r) ↦ inr (never_up state k left f h, rw f r)
  ]
]
