-- ===== src/Examples/Hardware.antt =====
-- An MMU whose reset takes two reads and that never reports paging.
use lima_backport_sprd7730se.Prelude.{
  true, false, [], ◌∷◌, ◌≡◌, refl, false, some, leb, if◌then◌else◌, ◌==◌, arith,
}
use lima_backport_sprd7730se.Errno.{Result, ok, err, etimedout}
use lima_backport_sprd7730se.Mmu.{Reads, Writes, Start, poll, mmu_init}
use lima_backport_sprd7730se.Mmu.Poll.{poll-met}
use lima_backport_sprd7730se.Mmu.Enable.{in_use, mmu_init-poll}
use lima_backport_sprd7730se.Mmu.Cache.{l2_cache_init, enabled, l2_cache_init-poll}
use lima_backport_sprd7730se.Mmu.Pmu.{pmu_init, powered, pmu_init-poll}

abbrev resetting : Reads
resetting = record { value = λ k. if k == 1 then 0 else 7; late = λ k. leb 2 k }

abbrev silent : Reads
silent = record { value = λ _. 0; late = λ k. leb 1 k }

abbrev start : Start
start = record { read_back = 0xcafe_b000; reset = resetting; irq = ok tt; paging = silent }

poll-met_example : poll 3 (λ v. v == 0) resetting 0 ≡ some (ok tt)
poll-met_example = poll-met 3 (λ v. v == 0) resetting 2 0 (omega arith) (refl, (refl, refl))

mmu_init-poll_example :
    (x : Result (Unit {0}) × Writes) × (mmu_init 3 false start 4096 ≡ some x)
    × (x.0 ≡ err etimedout)
    × (in_use 0 x.1 ≡ some 4096)
mmu_init-poll_example =
    mmu_init-poll 3 start 4096 2 1 (omega arith) (omega arith) (refl, (refl, refl)) (refl, refl)

l2_cache_init-poll_example :
    (x : Result (Unit {0}) × Writes) × (l2_cache_init 2 true (false ∷ true ∷ []) silent ≡ some x)
    × (x.0 ≡ ok tt)
    × (enabled false x.1 ≡ (true, true))
l2_cache_init-poll_example =
    l2_cache_init-poll 2 true (false ∷ true ∷ []) silent 1 (omega arith) (refl, refl)

pmu_init-poll_example :
    (x : Result (Unit {0}) × Writes) × (pmu_init 3 6 silent ≡ some x)
    × (x.0 ≡ err etimedout)
    × (powered 0 x.1 ≡ (6, false))
pmu_init-poll_example = pmu_init-poll 3 6 silent 1 (omega arith) (refl, refl)
