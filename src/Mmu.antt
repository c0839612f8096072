-- ===== src/Mmu.antt =====
-- The MMU block: lima_mmu.c of src-kernel/drivers/gpu/drm/lima, with
-- readl_poll_timeout of lima_compat.h and the MMU registers of lima_regs.h.
-- The writes to a block are a list of registers and values; what its registers read is a parameter.
pub mod Poll
pub mod Enable
pub mod Cache
pub mod Pmu
use lima_backport_sprd7730se.Prelude.{
  ℕ, zero, suc, ◌+◌, ◌-◌, Bool, true, false, not, ◌||◌, Option, none, some, List, [], ◌∷◌, ◌++◌,
  ◌==◌, if◌then◌else◌, has_bits,
}
use lima_backport_sprd7730se.Errno.{eio, enodev, etimedout, Errno, Result, ok, err}
use lima_backport_sprd7730se.Fence.{◌>>=◌}

abbrev pub mmu_dte_addr : ℕ
mmu_dte_addr = 0x0

abbrev pub mmu_command : ℕ
mmu_command = 0x8

abbrev pub mmu_int_clear : ℕ
mmu_int_clear = 0x18

abbrev pub mmu_int_mask : ℕ
mmu_int_mask = 0x1c

abbrev pub mmu_status_paging_enabled : ℕ
mmu_status_paging_enabled = 1

abbrev pub mmu_status_page_fault_active : ℕ
mmu_status_page_fault_active = 2

abbrev pub mmu_status_stall_active : ℕ
mmu_status_stall_active = 4

abbrev pub mmu_command_enable_paging : ℕ
mmu_command_enable_paging = 0

abbrev pub mmu_command_enable_stall : ℕ
mmu_command_enable_stall = 2

abbrev pub mmu_command_disable_stall : ℕ
mmu_command_disable_stall = 3

abbrev pub mmu_command_zap_cache : ℕ
mmu_command_zap_cache = 4

abbrev pub mmu_command_hard_reset : ℕ
mmu_command_hard_reset = 6

-- LIMA_MMU_INT_PAGE_FAULT | LIMA_MMU_INT_READ_BUS_ERROR
abbrev pub mmu_int_used : ℕ
mmu_int_used = 3

-- What a poll sees: the k-th read of the register, and whether the deadline is past after it.
pub record Reads : Type 0 where
  pub value : ℕ → ℕ
  pub late : ℕ → Bool

-- readl_poll_timeout from the k-th read on; `none` is still polling.
unfoldable pub poll : ℕ → (ℕ → Bool) → Reads → ℕ → Option (Result (Unit {0}))
poll zero cond r k = none
poll (suc fuel) cond r k =
    let rest = poll fuel cond r (k + 1) in
    if cond (r.value k)
    then some (ok tt)
    else if r.late k
    then (if cond (r.value (k + 1)) then some (ok tt) else some (err etimedout))
    else rest

abbrev pub Writes : Type 0
Writes = List (ℕ × ℕ)

-- lima_mmu_send_command.
unfoldable pub send_command :
    ℕ → ℕ → (ℕ → Bool) → Reads → Writes → Option (Result (Unit {0}) × Writes)
unfolding poll
send_command fuel cmd cond r w =
    poll fuel cond r 0 >>= λ ret. some (ret, w ++ (mmu_command, cmd) ∷ [])

-- The directory of a space, if there is one.
abbrev pub point_at : Option ℕ → Writes → Writes
point_at none w = w
point_at (some pd) w = w ++ (mmu_dte_addr, pd) ∷ []

-- lima_mmu_switch_vm, `vm` being the directory of the space if there is one.
unfoldable pub switch_vm : ℕ → Reads → Reads → Option ℕ → Writes → Option Writes
unfolding send_command
switch_vm fuel r1 r2 vm w =
    send_command fuel mmu_command_enable_stall (λ v. has_bits v mmu_status_stall_active) r1 w
    >>= λ s.
        send_command fuel mmu_command_disable_stall (λ v. not (has_bits v mmu_status_stall_active))
          r2 (point_at vm s.1 ++ (mmu_command, mmu_command_zap_cache) ∷ [])
        >>= λ t. some t.1

-- What lima_mmu_init meets: the read back of the directory register, the two polls and the answer of
-- `devm_request_irq`.
pub record Start : Type 0 where
  pub read_back : ℕ
  pub reset : Reads
  pub irq : Result (Unit {0})
  pub paging : Reads

-- The interrupts and the empty space, and the command that enables paging.
unfoldable pub enable_paging : ℕ → Reads → ℕ → Writes → Option (Result (Unit {0}) × Writes)
unfolding send_command
enable_paging fuel r empty_pd w =
    send_command fuel mmu_command_enable_paging (λ v. has_bits v mmu_status_paging_enabled) r
      (w ++ (mmu_int_mask, mmu_int_used) ∷ (mmu_dte_addr, empty_pd) ∷ [])

-- After the request of the interrupt, and after the reset of lima_mmu_init.
abbrev pub after_irq :
    ℕ → Reads → ℕ → Result (Unit {0}) → Writes → Option (Result (Unit {0}) × Writes)
after_irq fuel r empty_pd (err e) w = some (err e, w)
after_irq fuel r empty_pd (ok u) w = enable_paging fuel r empty_pd w

abbrev pub after_reset :
    ℕ → Start → ℕ → Result (Unit {0}) × Writes → Option (Result (Unit {0}) × Writes)
after_reset fuel s empty_pd (err e, w) = some (err e, w)
after_reset fuel s empty_pd (ok u, w) = after_irq fuel s.paging empty_pd s.irq w

-- lima_mmu_init; the MMU of the broadcast unit needs nothing.
unfoldable pub mmu_init : ℕ → Bool → Start → ℕ → Option (Result (Unit {0}) × Writes)
unfolding send_command enable_paging
mmu_init fuel is_bcast s empty_pd =
    if is_bcast
    then some (ok tt, [])
    else if s.read_back == 0xcafe_b000
    then (send_command fuel mmu_command_hard_reset (λ v. v == 0) s.reset
          ((mmu_dte_addr, 0xcafe_babe) ∷ (mmu_command, mmu_command_hard_reset) ∷ [])
        >>= after_reset fuel s empty_pd)
    else some (err eio, (mmu_dte_addr, 0xcafe_babe) ∷ [])

-- lima_mmu_page_fault_resume.
unfoldable pub page_fault_resume : ℕ → ℕ → Reads → Reads → ℕ → Writes → Option Writes
unfolding send_command enable_paging
page_fault_resume fuel status reset paging empty_pd w =
    if has_bits status mmu_status_page_fault_active
    then (send_command fuel mmu_command_hard_reset (λ v. v == 0) reset
          (w ++ (mmu_int_mask, 0) ∷ (mmu_dte_addr, 0xcafe_babe) ∷ [])
        >>= λ s. enable_paging fuel paging empty_pd s.1 >>= λ t. some t.1)
    else some w

-- lima_mmu_irq_handler: whether the interrupt was the block's, and so an error of its pipe.
unfoldable pub irq_handler : ℕ → Writes → Bool × Writes
irq_handler status w =
    if status == 0
    then (false, w)
    else (true, w ++ (mmu_int_mask, 0) ∷ (mmu_int_clear, status) ∷ [])
