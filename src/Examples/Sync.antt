-- ===== src/Examples/Sync.antt =====
-- Fences, reservation objects and buffers.
use lima_backport_sprd7730se.Prelude.{
  ℕ, suc, ◌+◌, ◌≡◌, ◌≢◌, refl, true, false, some, List, [], ◌∷◌, ◌==◌, if◌then◌else◌, arith, count,
}
use lima_backport_sprd7730se.Errno.{eio, etime, ok, err, Long, nonneg, neg}
use lima_backport_sprd7730se.Fence.{Fences, unsignaled, signaled, Waiting, is_unsignaled}
use lima_backport_sprd7730se.Fence.Signal.{
  Call, completes, fails, calls, verdict, time, all_busy, calls_first_wins,
}
use lima_backport_sprd7730se.Fence.Waits.{WaitLaws}
use lima_backport_sprd7730se.Resv.{Resv, resv_init, held, resv_wait_timeout}
use lima_backport_sprd7730se.Resv.Balance.{
  Op, publishes, shares, handed, lifetime, lifetime_balance,
}
use lima_backport_sprd7730se.Resv.Wait.{Done, resv_wait_timeout_lem}
use lima_backport_sprd7730se.Gem.{gem_wait, timeout_abs_to_jiffies}
use lima_backport_sprd7730se.Gem.Idle.{timeout_abs_to_jiffies_lem, gem_wait-resv_init}

abbrev store : Fences
store = record { refcount = λ _. 2; status = λ _. unsignaled; timestamp_ns = λ _. 0 }

abbrev twice : List Call
twice = fails (neg eio) 8 ∷ []

calls_first_wins_example :
    ((calls 3 (completes 7 ∷ twice) store).0 ≡ ok tt ∷ all_busy twice)
    × ((calls 3 (completes 7 ∷ twice) store).1.status 3 ≡ verdict (completes 7))
    × ((calls 3 (completes 7 ∷ twice) store).1.timestamp_ns 3 ≡ time (completes 7))
    × ((g : ℕ) → g ≢ 3 → (calls 3 (completes 7 ∷ twice) store).1.status g ≡ store.status g)
    × ((calls 3 (completes 7 ∷ twice) store).1.refcount ≡ store.refcount)
calls_first_wins_example = calls_first_wins 3 (completes 7) twice store refl

abbrev ops : List Op
ops = publishes 3 ∷ shares true 4 ∷ publishes 5 ∷ []

lifetime_balance_example :
    (t : Fences) × (lifetime ops store ≡ some t)
    × ((a : ℕ) → t.refcount a + count a (handed ops) ≡ store.refcount a)
lifetime_balance_example = lifetime_balance ops store (λ a. ground arith)

-- A wait that ends with every fence signaled.
abbrev prompt : Waiting
prompt k intr t f st = (nonneg 1, λ a. if is_unsignaled (st a) then signaled else st a)

prompt-WaitLaws : WaitLaws prompt
prompt-WaitLaws = record {
  keeps = λ k intr t f st a h. ground (arith, h);
  woken = λ k intr t f st r h. ground arith;
}

abbrev object : Resv
object = record { fence_excl = some 3; shared = 4 ∷ []; max_shared = 4 }

resv_wait_timeout_lem_example :
    (ret : Long) × (t : Fences) × (resv_wait_timeout prompt true object true 10 store
      ≡ some (ret, t))
    × ((a : ℕ) → t.refcount a ≡ store.refcount a)
    × ((a : ℕ) → is_unsignaled (store.status a) ≡ false → t.status a ≡ store.status a)
    × ((n : ℕ) → ret ≡ nonneg (suc n) → Done (held object) t)
resv_wait_timeout_lem_example =
    resv_wait_timeout_lem prompt true true 10 object store prompt-WaitLaws (λ a. ground arith)

timeout_abs_to_jiffies_lem_example : timeout_abs_to_jiffies (λ n. n) 500 400 ≡ 101
timeout_abs_to_jiffies_lem_example =
    timeout_abs_to_jiffies_lem (λ n. n) 500 400 (omega arith) (omega arith) (omega arith)
      (omega arith) (omega arith)

gem_wait-resv_init_example :
    (t : Fences) × (gem_wait prompt (λ h. some h) (λ _. resv_init) true 3 1 0 store
      ≡ some ((if 0 == 0 then err etime else ok tt), t))
    × ((a : ℕ) → t.refcount a ≡ store.refcount a)
gem_wait-resv_init_example =
    gem_wait-resv_init prompt (λ h. some h) (λ _. resv_init) true 3 1 0 3 store (omega arith) refl
      refl (omega arith)
