-- ===== src/Fence.antt =====
-- The mini dma_fence: lima_compat.c and lima_compat_fence.h of src-kernel/drivers/gpu/drm/lima.
-- All fences of the driver live in one store, by address. A fence is allocated while its count is
-- positive; a call on a fence that is not is a use after free, and the result is `none`.
pub mod Refs
pub mod Signal
pub mod Waits
use lima_backport_sprd7730se.Prelude.{
  ℕ, zero, suc, ◌+◌, ◌-◌, Bool, true, false, ◌&&◌, not, Option, none, some, List, [], ◌∷◌, ◌==◌,
  if◌then◌else◌, update, ◌≡◌,
}
use lima_backport_sprd7730se.Errno.{Errno, ebusy, eio, Result, ok, err, Long, nonneg, neg}

-- `status` of a fence: 0, 1, or a negative code.
pub data Status : Type 0 where
  unsignaled signaled : Status
  failed : Errno → Status

pub record Fences : Type 0 where
  pub refcount : ℕ → ℕ
  pub status : ℕ → Status
  pub timestamp_ns : ℕ → ℕ

infixl 5 ◌>>=◌
abbrev pub ◌>>=◌ {ℓ κ} : {A : Type ℓ} {B : Type κ} → Option A → (A → Option B) → Option B
none >>= f = none
some a >>= f = f a

-- A call whose first part is known.
pub >>=-some {ℓ κ} :
    {A : Type ℓ} {B : Type κ} {o : Option A} {a : A} {r : Option B} (f : A → Option B)
    → o ≡ some a
    → f a ≡ r
    → (o >>= f) ≡ r
>>=-some f e h = rw e h

-- `fresh` is the answer of the slab.
unfoldable pub create : Option ℕ → Fences → Option ℕ × Fences
create none s = (none, s)
create (some f) s = (
  some f,
  record {
    refcount = update s.refcount f 1;
    status = update s.status f unsignaled;
    timestamp_ns = update s.timestamp_ns f 0;
  },
)

unfoldable pub get : ℕ → Fences → Option Fences
get f s =
    if s.refcount f == 0
    then none
    else some (record s { refcount = update s.refcount f (s.refcount f + 1) })

unfoldable pub put : Option ℕ → Fences → Option Fences
put none s = some s
put (some f) s =
    if s.refcount f == 0
    then none
    else some (record s { refcount = update s.refcount f (s.refcount f - 1) })

abbrev pub is_unsignaled : Status → Bool
is_unsignaled unsignaled = true
is_unsignaled signaled = false
is_unsignaled (failed e) = false

unfoldable pub is_signaled : ℕ → Fences → Bool
is_signaled f s = not (is_unsignaled (s.status f))

-- `now` is the monotonic clock. The exchange succeeds on a fence that is not signaled.
unfoldable pub do_signal : ℕ → Status → ℕ → Fences → Result (Unit {0}) × Fences
do_signal f v now s =
    if is_unsignaled (s.status f)
    then (
      ok tt,
      record s { status = update s.status f v; timestamp_ns = update s.timestamp_ns f now },
    )
    else (err ebusy, s)

unfoldable pub signal : ℕ → ℕ → Fences → Result (Unit {0}) × Fences
unfolding do_signal
signal f now s = do_signal f signaled now s

abbrev pub error_code : Long → Errno
error_code (nonneg n) = eio
error_code (neg e) = e

unfoldable pub signal_error : ℕ → Long → ℕ → Fences → Result (Unit {0}) × Fences
unfolding do_signal
signal_error f error now s = do_signal f (failed (error_code error)) now s

-- What the kernel's `wait_event_timeout` and `wait_event_interruptible_timeout` do: from whether
-- the wait may be interrupted, the jiffies, the fence and the statuses before, the returned value
-- and the statuses after. The number tells the waits of one caller apart.
abbrev pub Waiting : Type 0
Waiting = ℕ → Bool → ℕ → ℕ → (ℕ → Status) → Long × (ℕ → Status)

-- The tail of the wait, once it has returned.
abbrev pub after_wait : Long → Status → Long
after_wait (neg e) v = neg e
after_wait (nonneg zero) unsignaled = nonneg 0
after_wait (nonneg zero) signaled = nonneg 1
after_wait (nonneg (suc r)) unsignaled = nonneg (suc r)
after_wait (nonneg (suc r)) signaled = nonneg (suc r)
after_wait (nonneg n) (failed e) = neg e

abbrev pub signaled_result : Status → ℕ → Long
signaled_result (failed e) timeout = neg e
signaled_result unsignaled timeout = nonneg timeout
signaled_result signaled timeout = nonneg timeout

unfoldable pub wait_timeout : Waiting → ℕ → ℕ → Bool → ℕ → Fences → Long × Fences
unfolding is_signaled
wait_timeout w k f intr timeout s =
    if is_signaled f s then (signaled_result (s.status f) timeout, s) else (
      after_wait (w k intr timeout f s.status).0 ((w k intr timeout f s.status).1 f),
      record s { status = (w k intr timeout f s.status).1 },
    )
