-- ===== src/Mmu/Enable.antt =====
-- When an MMU translates, and with which directory.
use lima_backport_sprd7730se.Prelude.{
  ℕ, suc, ◌<◌, ◌≡◌, refl, ◌∙◌, Bool, true, false, ◌&&◌, Option, some, none, Bool-cases, inl, inr,
  [], ◌∷◌, ◌++◌, ◌==◌, if◌then◌else◌, if_true, if_false, has_bits,
}
use lima_backport_sprd7730se.Errno.{eio, etimedout, Result, ok, err}
use lima_backport_sprd7730se.Fence.{>>=-some}
use lima_backport_sprd7730se.Mmu.{
  mmu_int_mask, mmu_int_used, Reads, Writes, Start, send_command, enable_paging, after_reset,
  after_irq, mmu_init, mmu_dte_addr, mmu_command, mmu_command_enable_paging, mmu_command_hard_reset,
  mmu_status_paging_enabled,
}
use lima_backport_sprd7730se.Mmu.Poll.{met, Deadline, poll-met}

-- The directory that is in use when paging is enabled, if it is, the last one written being `pd`.
abbrev pub in_use : ℕ → Writes → Option ℕ
in_use pd [] = none
in_use pd ((reg, v) ∷ w) =
    let other = in_use pd w in
    let pointed = in_use v w in
    if reg == mmu_dte_addr
    then pointed
    else if reg == mmu_command
    then (if v == mmu_command_enable_paging then some pd else other)
    else other

abbrev pub is_ok {ℓ} : {A : Type ℓ} → Result A → Bool
is_ok (ok a) = true
is_ok (err e) = false

-- The value of a poll whose deadline passes after the n-th read.
abbrev pub polled : (ℕ → Bool) → Reads → ℕ → Result (Unit {0})
polled cond r n = if met cond r (suc n) 0 then ok tt else err etimedout

-- The first of two results that is an error, else the second.
abbrev pub first_error : Result (Unit {0}) → Result (Unit {0}) → Result (Unit {0})
first_error (ok u) r = r
first_error (err e) r = err e

-- What lima_mmu_init has to return.
abbrev pub init_result : Start → ℕ → ℕ → Result (Unit {0})
init_result s n m = first_error (if s.read_back == 0xcafe_b000 then ok tt else err eio) (
    first_error (polled (λ v. v == 0) s.reset n)
      (first_error s.irq (polled (λ v. has_bits v mmu_status_paging_enabled) s.paging m)))

-- The conditions for paging.
abbrev pub may_page : Start → ℕ → Bool
may_page s n =
    (s.read_back == 0xcafe_b000) && (is_ok (polled (λ v. v == 0) s.reset n) && is_ok s.irq)

send_command-poll :
    (fuel cmd : ℕ) (cond : ℕ → Bool) (r : Reads) (w : Writes) (n : ℕ)
    → n < fuel
    → Deadline r n 0
    → send_command fuel cmd cond r w ≡ some (polled cond r n, w ++ (mmu_command, cmd) ∷ [])
unfolding send_command
send_command-poll fuel cmd cond r w n l d = >>=-some _ (poll-met fuel cond r n 0 l d) refl

-- The writes of the test and of the reset.
abbrev reset_writes : Writes
reset_writes =
    (mmu_dte_addr, 0xcafe_babe)
    ∷ (mmu_command, mmu_command_hard_reset)
    ∷ (mmu_command, mmu_command_hard_reset)
    ∷ []

after_irq_lem :
    (fuel : ℕ) (r : Reads) (empty_pd m : ℕ) (irq : Result (Unit {0}))
    → m < fuel
    → Deadline r m 0
    → (x : Result (Unit {0}) × Writes) × (after_irq fuel r empty_pd irq reset_writes ≡ some x)
      × (x.0 ≡ first_error irq (polled (λ v. has_bits v mmu_status_paging_enabled) r m))
      × (in_use 0 x.1 ≡ (if is_ok irq then some empty_pd else none))
unfolding enable_paging
after_irq_lem fuel r empty_pd m (err e) l d = ((err e, reset_writes), refl, refl, refl)
after_irq_lem fuel r empty_pd m (ok u) l d = (
  _,
  send_command-poll fuel mmu_command_enable_paging _ r
      (reset_writes ++ (mmu_int_mask, mmu_int_used) ∷ (mmu_dte_addr, empty_pd) ∷ []) m l d,
  refl,
  refl,
)

after_reset_lem :
    (fuel : ℕ) (s : Start) (empty_pd m : ℕ) (ret : Result (Unit {0}))
    → m < fuel
    → Deadline s.paging m 0
    → (x : Result (Unit {0}) × Writes) × (after_reset fuel s empty_pd (ret, reset_writes) ≡ some x)
      × (x.0
          ≡ first_error ret
              (first_error s.irq (polled (λ v. has_bits v mmu_status_paging_enabled) s.paging m)))
      × (in_use 0 x.1 ≡ (if is_ok ret && is_ok s.irq then some empty_pd else none))
after_reset_lem fuel s empty_pd m (err e) l d = ((err e, reset_writes), refl, refl, refl)
after_reset_lem fuel s empty_pd m (ok u) l d = after_irq_lem fuel s.paging empty_pd m s.irq l d

-- The initialisation of an MMU that is not the broadcast unit's, whose polls have their deadlines after
-- the n-th and the m-th read, comes to an end with more rounds than these, and returns the error of the
-- first that fails of the test of the directory register, the poll for the reset, the request of the
-- interrupt and the poll for paging. It enables paging just when the first three succeeded, and
-- then with the empty space in the directory register.
pub mmu_init-poll :
    (fuel : ℕ) (s : Start) (empty_pd n m : ℕ)
    → n < fuel
    → m < fuel
    → Deadline s.reset n 0
    → Deadline s.paging m 0
    → (x : Result (Unit {0}) × Writes) × (mmu_init fuel false s empty_pd ≡ some x)
      × (x.0 ≡ init_result s n m)
      × (in_use 0 x.1 ≡ (if may_page s n then some empty_pd else none))
unfolding mmu_init
mmu_init-poll fuel s empty_pd n m l1 l2 d1 d2 = elim (Bool-cases (s.read_back == 0xcafe_b000)) [
  | inr e ↦
      let ends : mmu_init fuel false s empty_pd ≡ some (err eio, (mmu_dte_addr, 0xcafe_babe) ∷ []) =
        if_false _ _ e in
      ((err eio, (mmu_dte_addr, 0xcafe_babe) ∷ []), ends, rw (e) refl, rw (e) refl)
  | inl e ↦
      let (x, k, same, paged) =
        after_reset_lem fuel s empty_pd m (polled (λ v. v == 0) s.reset n) l2 d2 in
      (
        x,
        if_true _ (some (err eio, (mmu_dte_addr, 0xcafe_babe) ∷ [])) e
            ∙ >>=-some (after_reset fuel s empty_pd)
                (send_command-poll fuel mmu_command_hard_reset (λ v. v == 0) s.reset
                  ((mmu_dte_addr, 0xcafe_babe) ∷ (mmu_command, mmu_command_hard_reset) ∷ []) n l1
                  d1)
                k,
        rw (e) same,
        rw (e) paged,
      )
]
