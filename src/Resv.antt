-- ===== src/Resv.antt =====
-- The mini reservation object of a buffer: lima_compat.c and lima_compat_resv.h of
-- src-kernel/drivers/gpu/drm/lima. Every function takes the object and the store of fences, whose
-- counts it changes; `none` is a use after free. The mutex makes each call one step.
pub mod Balance
pub mod Wait
use lima_backport_sprd7730se.Prelude.{
  ℕ, zero, suc, ◌+◌, ◌*◌, ◌%◌, ◌^◌, Bool, true, false, Option, none, some, List, [], ◌∷◌, ◌++◌,
  ◌==◌, if◌then◌else◌, length, option_list,
}
use lima_backport_sprd7730se.Errno.{Errno, enomem, Result, ok, err, Long, nonneg, neg}
use lima_backport_sprd7730se.Fence.{Fences, ◌>>=◌, get, put, Waiting, wait_timeout}
use lima_backport_sprd7730se.Fence.Refs.{get_all, put_all}

-- `num_shared` is the length of `shared`.
pub record Resv : Type 0 where
  pub fence_excl : Option ℕ
  pub shared : List ℕ
  pub max_shared : ℕ

unfoldable pub resv_init : Resv
resv_init = record { fence_excl = none; shared = []; max_shared = 0 }

-- The fences of the object, in the order in which they are copied out.
abbrev pub held : Resv → List ℕ
held r = option_list r.fence_excl ++ r.shared

unfoldable pub resv_fini : Resv → Fences → Option Fences
resv_fini r s = put r.fence_excl s >>= put_all r.shared

unfoldable pub set_excl : Resv → ℕ → Fences → Option (Resv × Fences)
set_excl r fence s = put r.fence_excl s >>= λ t. some (record r { fence_excl = some fence }, t)

abbrev pub grown : ℕ → ℕ
grown max_shared = if max_shared == 0 then 4 else max_shared * 2 % 2 ^ 32

push_shared : Resv → ℕ → Fences → Option (Result (Unit {0}) × Resv × Fences)
push_shared r fence s =
    get fence s >>= λ t. some (ok tt, record r { shared = r.shared ++ fence ∷ [] }, t)

-- `allocated`: whether `krealloc` succeeds, if it is called.
unfoldable pub add_shared : Bool → Resv → ℕ → Fences → Option (Result (Unit {0}) × Resv × Fences)
unfolding push_shared
add_shared allocated r fence s =
    if length r.shared == r.max_shared
    then (if allocated
        then push_shared (record r { max_shared = grown r.max_shared }) fence s
        else some (err enomem, r, s))
    else push_shared r fence s

-- `allocated`: whether `kcalloc` succeeds, if it is called.
unfoldable pub get_fences : Bool → Resv → Fences → Option (Result (List ℕ) × Fences)
get_fences allocated r s =
    if length (held r) == 0
    then some (ok [], s)
    else (if allocated
        then (get_all (held r) s >>= λ t. some (ok (held r), t))
        else some (err enomem, s))

-- `ret` after a wait that gave no error: 0 is a timeout, and is kept.
abbrev pub noted : ℕ → Long → Long
noted zero ret = nonneg 0
noted (suc n) ret = ret

-- The loop over the copied fences from the k-th on. `ret` is the result so far.
unfoldable pub wait_loop : Waiting → ℕ → Bool → ℕ → List ℕ → Long → Fences → Option (Long × Fences)
wait_loop w k intr timeout [] ret s = some (ret, s)
wait_loop w k intr timeout (f ∷ fs) ret s =
    put (some f) (wait_timeout w k f intr timeout s).1 >>= λ t.
    elim (wait_timeout w k f intr timeout s).0 [
      | neg e ↦ put_all fs t >>= λ u. some (neg e, u)
      | nonneg n ↦ wait_loop w (k + 1) intr timeout fs (noted n ret) t
    ]

unfoldable pub resv_wait_timeout :
    Waiting → Bool → Resv → Bool → ℕ → Fences → Option (Long × Fences)
unfolding wait_loop get_fences
resv_wait_timeout w allocated r intr timeout s = get_fences allocated r s >>= λ (got, t). elim got [
  | err e ↦ some (neg e, t)
  | ok fences ↦ wait_loop w 0 intr timeout fences (nonneg timeout) t
]
