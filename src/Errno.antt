-- ===== src/Errno.antt =====
-- Error codes of the kernel, and the results of functions that return 0 or a negative code.
use lima_backport_sprd7730se.Prelude.{ℕ, ◌≡◌, refl, ◌⊎◌, inl, inr}

-- The negative codes that the driver returns or passes on; `other` is any further one.
pub data Errno : Type 0 where
  einval enomem enoent eio ebusy efault enodev etime etimedout erestartsys : Errno
  other : ℕ → Errno

-- A function that returns an object or an `ERR_PTR`, an id or a negative code.
pub data Result {ℓ} (A : Type ℓ) : Type ℓ where
  ok : A → Result A
  err : Errno → Result A

-- A `long`: a number that is not negative, or a negative code.
pub data Long : Type 0 where
  nonneg : ℕ → Long
  neg : Errno → Long

pub Result-cases {ℓ} :
    {A : Type ℓ} (r : Result A) → ((a : A) × (r ≡ ok a)) ⊎ ((e : Errno) × (r ≡ err e))
Result-cases (ok a) = inl (a, refl)
Result-cases (err e) = inr (e, refl)
