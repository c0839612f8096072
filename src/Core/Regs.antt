-- ===== src/Core/Regs.antt =====
-- The constants of lima_regs.h that the cores use, as numbers.
use lima_backport_sprd7730se.Prelude.{ℕ, ◌+◌, ◌*◌}

abbrev pub gp_vscl_start_addr : ℕ
gp_vscl_start_addr = 0

abbrev pub gp_vscl_end_addr : ℕ
gp_vscl_end_addr = 4

abbrev pub gp_plbucl_start_addr : ℕ
gp_plbucl_start_addr = 8

abbrev pub gp_plbucl_end_addr : ℕ
gp_plbucl_end_addr = 12

abbrev pub gp_plbu_alloc_start_addr : ℕ
gp_plbu_alloc_start_addr = 16

abbrev pub gp_plbu_alloc_end_addr : ℕ
gp_plbu_alloc_end_addr = 20

abbrev pub gp_cmd : ℕ
gp_cmd = 32

abbrev pub gp_cmd_start_vs : ℕ
gp_cmd_start_vs = 1

abbrev pub gp_cmd_start_plbu : ℕ
gp_cmd_start_plbu = 2

abbrev pub gp_cmd_update_plbu_alloc : ℕ
gp_cmd_update_plbu_alloc = 16

abbrev pub gp_cmd_reset : ℕ
gp_cmd_reset = 32

abbrev pub gp_cmd_soft_reset : ℕ
gp_cmd_soft_reset = 1024

abbrev pub gp_int_rawstat : ℕ
gp_int_rawstat = 36

abbrev pub gp_int_clear : ℕ
gp_int_clear = 40

abbrev pub gp_int_mask : ℕ
gp_int_mask = 44

abbrev pub gp_irq_vs_end_cmd_lst : ℕ
gp_irq_vs_end_cmd_lst = 1

abbrev pub gp_irq_plbu_end_cmd_lst : ℕ
gp_irq_plbu_end_cmd_lst = 2

abbrev pub gp_irq_reset_completed : ℕ
gp_irq_reset_completed = 524288

abbrev pub gp_irq_mask_all : ℕ
gp_irq_mask_all = 7897087

abbrev pub gp_irq_mask_error : ℕ
gp_irq_mask_error = 7368260

abbrev pub gp_irq_mask_used : ℕ
gp_irq_mask_used = 7368263

abbrev pub gp_perf_cnt_0_limit : ℕ
gp_perf_cnt_0_limit = 84

abbrev pub gp_status_vs_active : ℕ
gp_status_vs_active = 2

abbrev pub gp_status_plbu_active : ℕ
gp_status_plbu_active = 8

abbrev pub pp_frame : ℕ
pp_frame = 0

abbrev pub pp_stack : ℕ
pp_stack = 48

abbrev pub pp_status_rendering_active : ℕ
pp_status_rendering_active = 1

abbrev pub pp_ctrl : ℕ
pp_ctrl = 4108

abbrev pub pp_ctrl_force_reset : ℕ
pp_ctrl_force_reset = 32

abbrev pub pp_ctrl_start_rendering : ℕ
pp_ctrl_start_rendering = 64

abbrev pub pp_ctrl_soft_reset : ℕ
pp_ctrl_soft_reset = 128

abbrev pub pp_int_rawstat : ℕ
pp_int_rawstat = 4128

abbrev pub pp_int_clear : ℕ
pp_int_clear = 4132

abbrev pub pp_int_mask : ℕ
pp_int_mask = 4136

abbrev pub pp_irq_reset_completed : ℕ
pp_irq_reset_completed = 4096

abbrev pub pp_irq_mask_all : ℕ
pp_irq_mask_all = 8191

abbrev pub pp_irq_mask_error : ℕ
pp_irq_mask_error = 3864

abbrev pub pp_irq_mask_used : ℕ
pp_irq_mask_used = 3865

abbrev pub pp_perf_cnt_0_limit : ℕ
pp_perf_cnt_0_limit = 4232

-- LIMA_PP_WB(i)
abbrev pub pp_wb : ℕ → ℕ
pp_wb i = 256 * (i + 1)
