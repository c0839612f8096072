-- ===== src/Gem/Idle.antt =====
-- Waiting for a buffer that no task uses.
use lima_backport_sprd7730se.Prelude.{
  ℕ, ◌+◌, ◌-◌, ◌^◌, ◌≤◌, ◌<◌, ◌≡◌, refl, Bool, false, Option, some, ◌==◌, leb, ◌||◌, true,
  Bool-cases, inl, inr, if◌then◌else◌, arith, update,
}
use lima_backport_sprd7730se.Errno.{etime, ok, err}
use lima_backport_sprd7730se.Fence.{Fences, Waiting}
use lima_backport_sprd7730se.Fence.Refs.{get-some, put-some}
use lima_backport_sprd7730se.Resv.{Resv, resv_init, get_fences, resv_wait_timeout}
use lima_backport_sprd7730se.Gem.{gem_wait, ns_left, timeout_abs_to_jiffies}

ns_left-later :
    (abs_ns now : ℕ) → now < abs_ns → abs_ns < 2 ^ 64 → ns_left abs_ns now ≡ abs_ns - now
ns_left-later a n l b = omega (arith, l, b)

-- If the deadline is less than 2 ^ 63 ns away, both times are 64-bit numbers, and the time left is
-- less than 2 ^ 31 - 1 jiffies: the timeout is 0 if the deadline is now or in the past, and otherwise
-- one jiffy more than the time left, so it is never 0 or negative before the deadline.
pub timeout_abs_to_jiffies_lem :
    (nsecs_to_jiffies : ℕ → ℕ) (abs_ns now : ℕ)
    → abs_ns < now + 2 ^ 63
    → now < abs_ns + 2 ^ 63
    → abs_ns < 2 ^ 64
    → now < 2 ^ 64
    → nsecs_to_jiffies (abs_ns - now) < 2 ^ 31 - 1
    → timeout_abs_to_jiffies nsecs_to_jiffies abs_ns now
      ≡ (if leb abs_ns now then 0 else nsecs_to_jiffies (abs_ns - now) + 1)
unfolding timeout_abs_to_jiffies
timeout_abs_to_jiffies_lem f a n h k b c j = elim (Bool-cases (leb a n)) [
  | inl e ↦
      let over : ((ns_left a n == 0) || leb (2 ^ 63) (ns_left a n)) ≡ true =
        ground (arith, h, k, b, c, e) in
      rw (e, over, timeout_abs_to_jiffies) refl
  | inr e ↦
      let left = ns_left-later a n (ground (arith, e)) b in
      let later : ((ns_left a n == 0) || leb (2 ^ 63) (ns_left a n)) ≡ false =
        ground (arith, h, k, b, c, e) in
      rw (e, later, left, timeout_abs_to_jiffies) (omega (arith, j))
]

-- A valid wait for a buffer without fences, whose handle is found: it returns -ETIME if the timeout
-- is 0, although there is nothing to wait for, and 0 if it is more; and no count changes.
pub gem_wait-resv_init :
    (w : Waiting) (find : ℕ → Option ℕ) (resv : ℕ → Resv) (allocated : Bool)
    (handle op jiffies x : ℕ) (s : Fences)
    → op < 4
    → find handle ≡ some x
    → resv x ≡ resv_init
    → 1 ≤ s.refcount x
    → (t : Fences) × (gem_wait w find resv allocated handle op jiffies s
        ≡ some ((if jiffies == 0 then err etime else ok tt), t))
      × ((a : ℕ) → t.refcount a ≡ s.refcount a)
unfolding gem_wait resv_wait_timeout get_fences resv_init
gem_wait-resv_init w find resv allocated handle op jiffies x s h e r l =
    let small : leb 4 op ≡ false = ground (arith, h) in
    let t = record s { refcount = update s.refcount x (s.refcount x + 1) } in
    let held : 1 ≤ t.refcount x = ground arith in
    (
      record t { refcount = update t.refcount x (t.refcount x - 1) },
      rw (small, e, gem_wait, get-some x s l, r, put-some x t held) refl,
      λ a. ground arith,
    )
