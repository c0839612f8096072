-- ===== src/Mmu/Pmu.antt =====
-- The power management unit: lima_pmu.c.
use lima_backport_sprd7730se.Prelude.{
  ℕ, ◌<◌, ◌≡◌, refl, ◌∙◌, Bool, true, false, Option, some, Bool-cases, inl, inr, [], ◌∷◌, ◌++◌,
  ◌==◌, if◌then◌else◌, if_true, if_false, has_bits, arith,
}
use lima_backport_sprd7730se.Errno.{Result, ok, err}
use lima_backport_sprd7730se.Fence.{◌>>=◌, >>=-some}
use lima_backport_sprd7730se.Mmu.Poll.{Deadline, poll-met}
use lima_backport_sprd7730se.Mmu.Enable.{is_ok, polled}
use lima_backport_sprd7730se.Mmu.{Reads, Writes, poll}

abbrev pub pmu_power_up : ℕ
pmu_power_up = 0x0

abbrev pub pmu_int_mask : ℕ
pmu_int_mask = 0xc

abbrev pub pmu_int_clear : ℕ
pmu_int_clear = 0x18

abbrev pub pmu_int_cmd_mask : ℕ
pmu_int_cmd_mask = 1

abbrev pub pmu_sw_delay : ℕ
pmu_sw_delay = 0x1c

-- After the poll of lima_pmu_wait_cmd.
abbrev pub after_cmd : Result (Unit {0}) → Writes → Result (Unit {0}) × Writes
after_cmd (err e) w = (err e, w)
after_cmd (ok u) w = (ok tt, w ++ (pmu_int_clear, pmu_int_cmd_mask) ∷ [])

-- lima_pmu_wait_cmd.
unfoldable pub wait_cmd : ℕ → Reads → Writes → Option (Result (Unit {0}) × Writes)
unfolding poll
wait_cmd fuel r w =
    poll fuel (λ v. has_bits v pmu_int_cmd_mask) r 0 >>= λ ret. some (after_cmd ret w)

-- lima_pmu_init, with the status, in which a bit is set for a block that is off.
unfoldable pub pmu_init : ℕ → ℕ → Reads → Option (Result (Unit {0}) × Writes)
unfolding wait_cmd
pmu_init fuel stat r =
    if stat == 0
    then some (ok tt, (pmu_int_mask, 0) ∷ (pmu_sw_delay, 0xffff) ∷ [])
    else wait_cmd fuel r ((pmu_int_mask, 0) ∷ (pmu_sw_delay, 0xffff) ∷ (pmu_power_up, stat) ∷ [])

-- The blocks that are powered up by some writes, and whether the end of the command was confirmed.
abbrev pub powered : ℕ → Writes → ℕ × Bool
powered up [] = (up, false)
powered up ((reg, v) ∷ w) =
    let more = powered v w in
    let other = powered up w in
    if reg == pmu_power_up then more else if reg == pmu_int_clear then (other.0, true) else other

after_cmd_lem :
    (ret : Result (Unit {0})) (stat : ℕ)
    → powered 0
        (after_cmd ret ((pmu_int_mask, 0) ∷ (pmu_sw_delay, 0xffff) ∷ (pmu_power_up, stat) ∷ [])).1
      ≡ (stat, is_ok ret)
after_cmd_lem (ok u) stat = refl
after_cmd_lem (err e) stat = refl

after_cmd-result : (ret : Result (Unit {0})) (w : Writes) → (after_cmd ret w).0 ≡ ret
after_cmd-result (ok u) w = refl
after_cmd-result (err e) w = refl

-- The initialisation of the power unit, whose poll has its deadline after the n-th read, comes to an end
-- with more rounds than that. It powers up just the blocks that the status names as off; if there is
-- none it succeeds at once, otherwise its result is that of the poll for the command, and the interrupt
-- of the command is cleared just when the poll saw it.
pub pmu_init-poll :
    (fuel stat : ℕ) (r : Reads) (n : ℕ)
    → n < fuel
    → Deadline r n 0
    → (x : Result (Unit {0}) × Writes) × (pmu_init fuel stat r ≡ some x)
      × (x.0 ≡ (if stat == 0 then ok tt else polled (λ v. has_bits v pmu_int_cmd_mask) r n))
      × (powered 0 x.1 ≡ (
        stat,
        (if stat == 0 then false else is_ok (polled (λ v. has_bits v pmu_int_cmd_mask) r n)),
      ))
unfolding pmu_init wait_cmd
pmu_init-poll fuel stat r n l d =
    let start : Writes = (pmu_int_mask, 0) ∷ (pmu_sw_delay, 0xffff) ∷ [] in
    let on : Writes = (pmu_int_mask, 0) ∷ (pmu_sw_delay, 0xffff) ∷ (pmu_power_up, stat) ∷ [] in
    let ret = polled (λ v. has_bits v pmu_int_cmd_mask) r n in
    elim (Bool-cases (stat == 0)) [
      | inl e ↦
          let zero_stat : 0 ≡ stat = ground (arith, e) in
          (
            (ok tt, start),
            if_true _ (wait_cmd fuel r on) e,
            rw (e) refl,
            rw (e) (λ i. (zero_stat i, false)),
          )
      | inr e ↦
          let ends : wait_cmd fuel r on ≡ some (after_cmd ret on) =
            >>=-some (λ x. some (after_cmd x on)) (poll-met fuel _ r n 0 l d) refl in
          (
            after_cmd ret on,
            if_false (some (ok tt, start)) _ e ∙ ends,
            rw (e) (after_cmd-result ret on),
            rw (e) (after_cmd_lem ret stat),
          )
    ]
