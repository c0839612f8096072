-- ===== src/Core/Bringup.antt =====
-- The initialisation of the core blocks: lima_gp_init of lima_gp.c, lima_pp_init and lima_pp_bcast_init of
-- lima_pp.c, lima_dlbu_init of lima_dlbu.c and lima_bcast_init of lima_bcast.c.
-- `polled` is the outcome of the wait for the reset, `irq` that of `devm_request_irq`, and `version` what
-- the version register reads.
use Prim.Native.Nat.{bit_or}
use lima_backport_sprd7730se.Prelude.{
  ℕ, zero, suc, ◌+◌, ◌*◌, ◌^◌, ◌%◌, Bool, false, if◌then◌else◌, update, bit,
}
use lima_backport_sprd7730se.Errno.{Result, ok, err}
use lima_backport_sprd7730se.Vm.Create.{va_reserve_dlbu}
use lima_backport_sprd7730se.Device.Ip.{id_pp0}
use lima_backport_sprd7730se.Core.Gp.{Gp}
use lima_backport_sprd7730se.Core.Gp
use lima_backport_sprd7730se.Core.Pp.{Pp, dlbu, bcast, write}
use lima_backport_sprd7730se.Core.PpTask

-- After the request of the interrupt: the version that is noted.
abbrev pub after_irq : ℕ → Result (Unit {0}) → Result ℕ
after_irq version (err e) = err e
after_irq version (ok u) = ok version

-- After the wait for the reset.
abbrev pub after_reset : Result (Unit {0}) → ℕ → Result (Unit {0}) → Result ℕ
after_reset irq version (err e) = err e
after_reset irq version (ok u) = after_irq version irq

-- lima_gp_init.
unfoldable pub gp_init : Result (Unit {0}) → Result (Unit {0}) → ℕ → Gp → Result ℕ × Gp
unfolding Gp.soft_reset_async Gp.soft_reset_async_wait
gp_init polled irq version g =
    let x =
      Gp.soft_reset_async_wait polled (Gp.soft_reset_async (record g { async_reset = false })) in
    (after_reset irq version x.0, x.1)

-- lima_pp_init of the i-th processor.
unfoldable pub pp_init : ℕ → Bool → Result (Unit {0}) → ℕ → Pp → Result ℕ × Pp
unfolding PpTask.soft_reset_async PpTask.soft_reset_async_wait
pp_init i polled irq version p =
    let x =
      PpTask.soft_reset_async_wait i polled
        (PpTask.soft_reset_async i (record p { async_reset = update p.async_reset i false })) in
    (after_reset irq version x.0, x.1)

-- lima_pp_bcast_init.
unfoldable pub pp_bcast_init : Result (Unit {0}) → Result (Unit {0})
pp_bcast_init irq = irq

-- lima_dlbu_init: LIMA_DLBU_MASTER_TLLIST_PHYS_ADDR and LIMA_DLBU_MASTER_TLLIST_VADDR.
unfoldable pub dlbu_init : ℕ → Pp → Pp
dlbu_init dlbu_dma p = write dlbu 4 va_reserve_dlbu (write dlbu 0 (bit_or dlbu_dma 1) p)

-- The processors that are present, `k` of them from the `i`-th on.
unfoldable pub present_mask : (ℕ → Bool) → ℕ → ℕ → ℕ → ℕ
present_mask present zero i mask = mask
present_mask present (suc k) i mask =
    present_mask present k (i + 1) (if present (id_pp0 + i) then bit_or mask (bit i) else mask)

-- lima_bcast_init: LIMA_BCAST_BROADCAST_MASK and LIMA_BCAST_INTERRUPT_MASK.
unfoldable pub bcast_init : (ℕ → Bool) → Pp → Pp
unfolding present_mask
bcast_init present p =
    let mask = present_mask present 8 0 0 in
    write bcast 4 mask (write bcast 0 (mask * 2 ^ 16 % 2 ^ 32) p)
