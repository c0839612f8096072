-- ===== src/Fence/Waits.antt =====
-- What `dma_fence_wait_timeout` tells its caller.
use lima_backport_sprd7730se.Prelude.{ℕ, suc, ◌≡◌, Bool, false, arith}
use lima_backport_sprd7730se.Errno.{nonneg}
use lima_backport_sprd7730se.Fence.{Fences, Status, signaled, Waiting, is_unsignaled, wait_timeout}

-- The kernel's wait: a signaled fence keeps its status while we sleep, and a value above 0 is
-- returned only when the condition, that the fence is signaled, was seen to hold.
pub record WaitLaws (w : Waiting) : Type 0 where
  pub keeps :
      (k : ℕ) (intr : Bool) (t f : ℕ) (st : ℕ → Status) (a : ℕ)
      → is_unsignaled (st a) ≡ false
      → (w k intr t f st).1 a ≡ st a
  pub woken :
      (k : ℕ) (intr : Bool) (t f : ℕ) (st : ℕ → Status) (r : ℕ)
      → (w k intr t f st).0 ≡ nonneg (suc r)
      → is_unsignaled ((w k intr t f st).1 f) ≡ false

module _ (w : Waiting) (k : ℕ) (f : ℕ) (intr : Bool) (t : ℕ) (s : Fences) where
  -- The wait touches no reference count.
  pub wait_timeout-refcount : (wait_timeout w k f intr t s).1.refcount ≡ s.refcount
  unfolding wait_timeout
  wait_timeout-refcount = ground arith

  -- A fence that is signaled stays as it is over the wait.
  pub wait_timeout-keeps :
      WaitLaws w
      → (a : ℕ) → is_unsignaled (s.status a) ≡ false
      → (wait_timeout w k f intr t s).1.status a ≡ s.status a
  unfolding wait_timeout
  wait_timeout-keeps laws a h = ground (arith, laws.keeps k intr t f s.status a)

  -- A positive result: the fence completed, without error.
  pub wait_timeout-done :
      WaitLaws w
      → (r : ℕ) → (wait_timeout w k f intr t s).0 ≡ nonneg (suc r)
      → (wait_timeout w k f intr t s).1.status f ≡ signaled
  unfolding wait_timeout
  wait_timeout-done laws r h = ground (arith, laws.woken k intr t f s.status r)
