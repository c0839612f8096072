-- ===== src/Ioctl/Module.antt =====
-- The life of the module and of the platform device: lima_init, lima_exit, lima_pdev_probe, lima_pdev_remove,
-- lima_drm_load and lima_drm_unload of lima_drv.c, lima_fence_slab_init of lima_compat.c.
-- drm_platform_init, which calls the load, and drm_platform_exit, which calls the unload, are parameters.
use lima_backport_sprd7730se.Prelude.{ℕ, ◌+◌, ◌-◌, Bool, Option, none, some, ◌==◌, if◌then◌else◌}
use lima_backport_sprd7730se.Errno.{enomem, Result, ok, err}
use lima_backport_sprd7730se.Fence.{◌>>=◌}
use lima_backport_sprd7730se.Device.Ip.{Gpu, mali400, Device, Board}
use lima_backport_sprd7730se.Device.Parts.{Outcome}
use lima_backport_sprd7730se.Device.Init.{device_init, device_fini}

-- lima_drm_load and lima_drm_unload.
unfoldable pub drm_load : Board → Device → Option Outcome
unfolding device_init
drm_load b d = device_init b d

unfoldable pub drm_unload : Device → Option Device
unfolding device_fini
drm_unload d = device_fini d

-- The GPU that the device tree names, unless the platform data name another.
abbrev pub probed_id : Option Gpu → Option Gpu → Gpu
probed_id tree (some pdata) = pdata
probed_id (some g) none = g
probed_id none none = mali400

-- After drm_platform_init: the struct of the device is freed after an error.
abbrev pub after_platform_init : ℕ → Outcome → Option (Result (Unit {0}) × (Device × ℕ))
after_platform_init devices (ok u, d) = some (ok tt, (d, devices))
after_platform_init devices (err e, d) =
    if devices == 0 then none else some (err e, (d, devices - 1))

-- lima_pdev_probe on a zeroed device; `devices` is how many of the structs are allocated.
unfoldable pub pdev_probe :
    ((Device → Option Outcome) → Device → Option Outcome)
    → Bool
    → Option Gpu
    → Option Gpu
    → Board
    → Device
    → ℕ
    → Option (Result (Unit {0}) × (Device × ℕ))
unfolding drm_load
pdev_probe platform_init allocated tree pdata b d devices =
    if allocated
    then (platform_init (drm_load (record b { id = probed_id tree pdata })) d
        >>= after_platform_init (devices + 1))
    else some (err enomem, (d, devices))

-- lima_pdev_remove.
unfoldable pub pdev_remove :
    ((Device → Option Device) → Device → Option Device) → Device → ℕ → Option (Device × ℕ)
unfolding drm_unload
pdev_remove platform_exit d devices =
    platform_exit drm_unload d >>= λ e. if devices == 0 then none else some (e, devices - 1)

-- lima_sched_slab_init and lima_sched_slab_fini, which are those of the fences, for the number of slabs.
unfoldable pub slab_init : Bool → ℕ → Result (Unit {0}) × ℕ
slab_init allocated slabs = if allocated then (ok tt, slabs + 1) else (err enomem, slabs)

unfoldable pub slab_fini : ℕ → Option ℕ
slab_fini slabs = if slabs == 0 then none else some (slabs - 1)

-- After the registration of the driver, which answers `r`, and after the slab.
abbrev pub after_register : Result (Unit {0}) → ℕ → Option (Result (Unit {0}) × ℕ)
after_register (ok u) slabs = some (ok tt, slabs)
after_register (err e) slabs = slab_fini slabs >>= λ n. some (err e, n)

abbrev pub after_slab : Result (Unit {0}) → Result (Unit {0}) × ℕ → Option (Result (Unit {0}) × ℕ)
after_slab r (ok u, slabs) = after_register r slabs
after_slab r (err e, slabs) = some (err e, slabs)

-- lima_init and lima_exit.
unfoldable pub module_init : Bool → Result (Unit {0}) → ℕ → Option (Result (Unit {0}) × ℕ)
unfolding slab_init slab_fini
module_init allocated registered slabs = after_slab registered (slab_init allocated slabs)

unfoldable pub module_exit : ℕ → Option ℕ
unfolding slab_fini
module_exit slabs = slab_fini slabs
