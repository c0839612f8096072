-- ===== src/Device/Init.antt =====
-- lima_device_init and lima_device_fini of lima_device.c with what they call there, and the slabs of
-- lima_gp.c and lima_pp.c.
use lima_backport_sprd7730se.Prelude.{ℕ, true, Option, none, some, if◌then◌else◌}
use lima_backport_sprd7730se.Errno.{Errno, enodev, enomem, Result, ok, err}
use lima_backport_sprd7730se.Fence.{◌>>=◌}
use lima_backport_sprd7730se.Device.Power.{power_on}
use lima_backport_sprd7730se.Device.Ip.{
  Gpu, mali400, mali450, power, empty_vm, dlbu_page, Device, Board, init_ips, ip_num,
}
use lima_backport_sprd7730se.Device.Parts.{
  Outcome, clk_fini, clk_init, fini_gp_pipe, fini_ips, fini_pp_pipe, init_gp_pipe, init_pp_pipe,
  regulator_fini, regulator_init, release, release_if, take,
}

-- What stands after the labels `err_out0` to `err_out6` of lima_device_init.
unfoldable pub err_out0 : Device → Option Device
unfolding release
err_out0 d = release power d

unfoldable pub err_out1 : Device → Option Device
unfolding clk_fini err_out0
err_out1 d = clk_fini d >>= err_out0

unfoldable pub err_out2 : Device → Option Device
unfolding regulator_fini err_out1
err_out2 d = regulator_fini d >>= err_out1

unfoldable pub err_out3 : Device → Option Device
unfolding release err_out2
err_out3 d = release empty_vm d >>= err_out2

unfoldable pub err_out4 : Device → Option Device
unfolding release err_out3
err_out4 d = release_if d.dlbu_cpu dlbu_page d >>= err_out3

unfoldable pub err_out5 : ℕ → Device → Option Device
unfolding fini_ips err_out4
err_out5 i d = fini_ips i d >>= err_out4

unfoldable pub err_out6 : ℕ → Device → Option Device
unfolding fini_gp_pipe err_out5
err_out6 i d = fini_gp_pipe d >>= err_out5 i

-- `goto`: run what stands after a label and return the error.
abbrev pub goto : (Device → Option Device) → Errno → Device → Option Outcome
goto label e d = label d >>= λ d'. some (err e, d')

-- Go on after a success, with the label to go to after an error.
abbrev pub on_error :
    (Device → Option Device) → (Device → Option Outcome) → Outcome → Option Outcome
on_error label next (ok u, d) = next d
on_error label next (err e, d) = goto label e d

-- The parts of lima_device_init, the last first.
unfoldable pub init_pp : Board → Device → Option Outcome
unfolding init_pp_pipe err_out6
init_pp b d = init_pp_pipe b d >>= on_error (err_out6 ip_num) (λ e. some (ok tt, e))

unfoldable pub init_gp : Board → Device → Option Outcome
unfolding init_gp_pipe err_out5 init_pp
init_gp b d = init_gp_pipe b d >>= on_error (err_out5 ip_num) (init_pp b)

unfoldable pub init_blocks : Board → Device → Option Outcome
unfolding init_ips err_out5 init_gp
init_blocks b d =
    let x = init_ips b ip_num 0 d in on_error (err_out5 x.1.0) (init_gp b) (x.0, x.1.1)

unfoldable pub map_registers : Board → Device → Option Outcome
unfolding err_out4 init_blocks
map_registers b d =
    if b.registers_found
    then on_error err_out4 (init_blocks b) (b.registers_mapped, d)
    else goto err_out4 enodev d

-- LIMA_VA_RESERVE_START and LIMA_VA_RESERVE_END.
abbrev pub va_reserve_start : ℕ
va_reserve_start = 4293918720

abbrev pub va_reserve_end : ℕ
va_reserve_end = 4294967296

unfoldable pub init_dlbu : Gpu → Board → Device → Option Outcome
unfolding err_out3 map_registers
init_dlbu mali400 b d = map_registers b (record d { va_end = va_reserve_end })
init_dlbu mali450 b d =
    if b.dlbu_allocated
    then map_registers b (take dlbu_page (record d { va_end = va_reserve_start; dlbu_cpu = true }))
    else goto err_out3 enomem (record d { va_end = va_reserve_start })

unfoldable pub init_vm : Board → Device → Option Outcome
unfolding err_out2 init_dlbu
init_vm b d = if b.vm_allocated then init_dlbu b.id b (take empty_vm d) else goto err_out2 enomem d

unfoldable pub init_regulator : Board → Device → Option Outcome
unfolding regulator_init err_out1 init_vm
init_regulator b d = on_error err_out1 (init_vm b) (regulator_init b.supply_found d)

unfoldable pub init_clk : Board → Device → Option Outcome
unfolding clk_init err_out0 init_regulator
init_clk b d = clk_init b.bus b.core d >>= on_error err_out0 (init_regulator b)

-- The switch that the built-in power on turned is left on when its wait fails; what the platform's
-- own function does is its own affair.
abbrev pub left_on : Option (Result (Unit {0})) → Device → Device
left_on none d = take power d
left_on (some answer) d = d

-- lima_device_init.
unfoldable pub device_init : Board → Device → Option Outcome
unfolding power_on init_clk
device_init b d = elim (power_on b.callback b.domain) [
  | err e ↦ some (err e, left_on b.callback d)
  | ok u ↦ init_clk b (take power d)
]

-- lima_device_fini.
unfoldable pub device_fini : Device → Option Device
unfolding release clk_fini regulator_fini fini_ips fini_gp_pipe fini_pp_pipe
device_fini d = fini_pp_pipe d >>= λ d1. fini_gp_pipe d1 >>= λ d2. fini_ips ip_num d2 >>= λ d3.
    release_if d3.dlbu_cpu dlbu_page d3 >>= λ d4.
    release empty_vm d4 >>= λ d5. regulator_fini d5 >>= λ d6. clk_fini d6 >>= λ d7. release power d7
