-- ===== src/Encode/Groups.antt =====
-- src/encode/mod.rs: the codes of the three groups that the dispatch tests first.
use f_arm.Base.{Bool, true, false}
use f_arm.Mnemonic.{Code}

unfoldable pub is_dp_imm : Code → Bool
is_dp_imm Code.adr = true
is_dp_imm Code.adrp = true
is_dp_imm Code.add_imm32 = true
is_dp_imm Code.add_imm64 = true
is_dp_imm Code.adds_imm32 = true
is_dp_imm Code.adds_imm64 = true
is_dp_imm Code.sub_imm32 = true
is_dp_imm Code.sub_imm64 = true
is_dp_imm Code.subs_imm32 = true
is_dp_imm Code.subs_imm64 = true
is_dp_imm Code.addg_imm = true
is_dp_imm Code.subg_imm = true
is_dp_imm Code.and_imm32 = true
is_dp_imm Code.and_imm64 = true
is_dp_imm Code.orr_imm32 = true
is_dp_imm Code.orr_imm64 = true
is_dp_imm Code.eor_imm32 = true
is_dp_imm Code.eor_imm64 = true
is_dp_imm Code.ands_imm32 = true
is_dp_imm Code.ands_imm64 = true
is_dp_imm Code.movn32 = true
is_dp_imm Code.movn64 = true
is_dp_imm Code.movz32 = true
is_dp_imm Code.movz64 = true
is_dp_imm Code.movk32 = true
is_dp_imm Code.movk64 = true
is_dp_imm Code.sbfm32 = true
is_dp_imm Code.sbfm64 = true
is_dp_imm Code.bfm32 = true
is_dp_imm Code.bfm64 = true
is_dp_imm Code.ubfm32 = true
is_dp_imm Code.ubfm64 = true
is_dp_imm Code.extr32 = true
is_dp_imm Code.extr64 = true
is_dp_imm Code.smax_imm32 = true
is_dp_imm Code.smax_imm64 = true
is_dp_imm Code.smin_imm32 = true
is_dp_imm Code.smin_imm64 = true
is_dp_imm Code.umax_imm32 = true
is_dp_imm Code.umax_imm64 = true
is_dp_imm Code.umin_imm32 = true
is_dp_imm Code.umin_imm64 = true
is_dp_imm _ = false

unfoldable pub is_dp_reg : Code → Bool
is_dp_reg Code.and_shifted32 = true
is_dp_reg Code.and_shifted64 = true
is_dp_reg Code.bic_shifted32 = true
is_dp_reg Code.bic_shifted64 = true
is_dp_reg Code.orr_shifted32 = true
is_dp_reg Code.orr_shifted64 = true
is_dp_reg Code.orn_shifted32 = true
is_dp_reg Code.orn_shifted64 = true
is_dp_reg Code.eor_shifted32 = true
is_dp_reg Code.eor_shifted64 = true
is_dp_reg Code.eon_shifted32 = true
is_dp_reg Code.eon_shifted64 = true
is_dp_reg Code.ands_shifted32 = true
is_dp_reg Code.ands_shifted64 = true
is_dp_reg Code.bics_shifted32 = true
is_dp_reg Code.bics_shifted64 = true
is_dp_reg Code.add_shifted32 = true
is_dp_reg Code.add_shifted64 = true
is_dp_reg Code.adds_shifted32 = true
is_dp_reg Code.adds_shifted64 = true
is_dp_reg Code.sub_shifted32 = true
is_dp_reg Code.sub_shifted64 = true
is_dp_reg Code.subs_shifted32 = true
is_dp_reg Code.subs_shifted64 = true
is_dp_reg Code.add_extended32 = true
is_dp_reg Code.add_extended64 = true
is_dp_reg Code.adds_extended32 = true
is_dp_reg Code.adds_extended64 = true
is_dp_reg Code.sub_extended32 = true
is_dp_reg Code.sub_extended64 = true
is_dp_reg Code.subs_extended32 = true
is_dp_reg Code.subs_extended64 = true
is_dp_reg Code.adc32 = true
is_dp_reg Code.adc64 = true
is_dp_reg Code.adcs32 = true
is_dp_reg Code.adcs64 = true
is_dp_reg Code.sbc32 = true
is_dp_reg Code.sbc64 = true
is_dp_reg Code.sbcs32 = true
is_dp_reg Code.sbcs64 = true
is_dp_reg Code.rmif = true
is_dp_reg Code.setf8 = true
is_dp_reg Code.setf16 = true
is_dp_reg Code.ccmn_reg32 = true
is_dp_reg Code.ccmn_reg64 = true
is_dp_reg Code.ccmn_imm32 = true
is_dp_reg Code.ccmn_imm64 = true
is_dp_reg Code.ccmp_reg32 = true
is_dp_reg Code.ccmp_reg64 = true
is_dp_reg Code.ccmp_imm32 = true
is_dp_reg Code.ccmp_imm64 = true
is_dp_reg Code.csel32 = true
is_dp_reg Code.csel64 = true
is_dp_reg Code.csinc32 = true
is_dp_reg Code.csinc64 = true
is_dp_reg Code.csinv32 = true
is_dp_reg Code.csinv64 = true
is_dp_reg Code.csneg32 = true
is_dp_reg Code.csneg64 = true
is_dp_reg Code.madd32 = true
is_dp_reg Code.madd64 = true
is_dp_reg Code.msub32 = true
is_dp_reg Code.msub64 = true
is_dp_reg Code.smaddl = true
is_dp_reg Code.smsubl = true
is_dp_reg Code.smulh = true
is_dp_reg Code.umaddl = true
is_dp_reg Code.umsubl = true
is_dp_reg Code.umulh = true
is_dp_reg Code.maddpt = true
is_dp_reg Code.msubpt = true
is_dp_reg Code.addpt = true
is_dp_reg Code.subpt = true
is_dp_reg Code.udiv32 = true
is_dp_reg Code.udiv64 = true
is_dp_reg Code.sdiv32 = true
is_dp_reg Code.sdiv64 = true
is_dp_reg Code.lslv32 = true
is_dp_reg Code.lslv64 = true
is_dp_reg Code.lsrv32 = true
is_dp_reg Code.lsrv64 = true
is_dp_reg Code.asrv32 = true
is_dp_reg Code.asrv64 = true
is_dp_reg Code.rorv32 = true
is_dp_reg Code.rorv64 = true
is_dp_reg Code.crc32b = true
is_dp_reg Code.crc32h = true
is_dp_reg Code.crc32w = true
is_dp_reg Code.crc32x = true
is_dp_reg Code.crc32cb = true
is_dp_reg Code.crc32ch = true
is_dp_reg Code.crc32cw = true
is_dp_reg Code.crc32cx = true
is_dp_reg Code.subp_dp = true
is_dp_reg Code.subps_dp = true
is_dp_reg Code.irg_dp = true
is_dp_reg Code.gmi_dp = true
is_dp_reg Code.pacga = true
is_dp_reg Code.smax_reg32 = true
is_dp_reg Code.smax_reg64 = true
is_dp_reg Code.smin_reg32 = true
is_dp_reg Code.smin_reg64 = true
is_dp_reg Code.umax_reg32 = true
is_dp_reg Code.umax_reg64 = true
is_dp_reg Code.umin_reg32 = true
is_dp_reg Code.umin_reg64 = true
is_dp_reg Code.rbit32 = true
is_dp_reg Code.rbit64 = true
is_dp_reg Code.rev1632 = true
is_dp_reg Code.rev1664 = true
is_dp_reg Code.rev3232 = true
is_dp_reg Code.rev3264 = true
is_dp_reg Code.rev32_bit = true
is_dp_reg Code.rev64_bit = true
is_dp_reg Code.clz32 = true
is_dp_reg Code.clz64 = true
is_dp_reg Code.cls32 = true
is_dp_reg Code.cls64 = true
is_dp_reg Code.abs32 = true
is_dp_reg Code.abs64 = true
is_dp_reg Code.cnt32 = true
is_dp_reg Code.cnt64 = true
is_dp_reg Code.ctz32 = true
is_dp_reg Code.ctz64 = true
is_dp_reg Code.pacia_dp = true
is_dp_reg Code.pacib_dp = true
is_dp_reg Code.pacda_dp = true
is_dp_reg Code.pacdb_dp = true
is_dp_reg Code.autia_dp = true
is_dp_reg Code.autib_dp = true
is_dp_reg Code.autda_dp = true
is_dp_reg Code.autdb_dp = true
is_dp_reg Code.paciza_dp = true
is_dp_reg Code.pacizb_dp = true
is_dp_reg Code.pacdza_dp = true
is_dp_reg Code.pacdzb_dp = true
is_dp_reg Code.autiza_dp = true
is_dp_reg Code.autizb_dp = true
is_dp_reg Code.autdza_dp = true
is_dp_reg Code.autdzb_dp = true
is_dp_reg Code.xpaci_dp = true
is_dp_reg Code.xpacd_dp = true
is_dp_reg Code.paciasppc = true
is_dp_reg Code.pacibsppc = true
is_dp_reg Code.pacnbiasppc = true
is_dp_reg Code.pacnbibsppc = true
is_dp_reg Code.autiasppcr = true
is_dp_reg Code.autibsppcr = true
is_dp_reg _ = false

unfoldable pub is_branch_sys : Code → Bool
is_branch_sys Code.bcond = true
is_branch_sys Code.bc_cond = true
is_branch_sys Code.buncond = true
is_branch_sys Code.bl_imm = true
is_branch_sys Code.retaasppc = true
is_branch_sys Code.retabsppc = true
is_branch_sys Code.autiasppc = true
is_branch_sys Code.autibsppc = true
is_branch_sys Code.cbz32 = true
is_branch_sys Code.cbz64 = true
is_branch_sys Code.cbnz32 = true
is_branch_sys Code.cbnz64 = true
is_branch_sys Code.tbz = true
is_branch_sys Code.tbnz = true
is_branch_sys Code.cbgt = true
is_branch_sys Code.cbge = true
is_branch_sys Code.cbhi = true
is_branch_sys Code.cbhs = true
is_branch_sys Code.cbeq = true
is_branch_sys Code.cbne = true
is_branch_sys Code.cblt = true
is_branch_sys Code.cblo = true
is_branch_sys Code.cbbgt = true
is_branch_sys Code.cbbge = true
is_branch_sys Code.cbbhi = true
is_branch_sys Code.cbbhs = true
is_branch_sys Code.cbbeq = true
is_branch_sys Code.cbbne = true
is_branch_sys Code.cbhgt = true
is_branch_sys Code.cbhge = true
is_branch_sys Code.cbhhi = true
is_branch_sys Code.cbhhs = true
is_branch_sys Code.cbheq = true
is_branch_sys Code.cbhne = true
is_branch_sys Code.br = true
is_branch_sys Code.blr = true
is_branch_sys Code.ret = true
is_branch_sys Code.eret = true
is_branch_sys Code.drps = true
is_branch_sys Code.braaz = true
is_branch_sys Code.brabz = true
is_branch_sys Code.blraaz = true
is_branch_sys Code.blrabz = true
is_branch_sys Code.braa = true
is_branch_sys Code.brab = true
is_branch_sys Code.blraa = true
is_branch_sys Code.blrab = true
is_branch_sys Code.retaa = true
is_branch_sys Code.retab = true
is_branch_sys Code.eretaa = true
is_branch_sys Code.eretab = true
is_branch_sys Code.retaasppcr = true
is_branch_sys Code.retabsppcr = true
is_branch_sys Code.svc = true
is_branch_sys Code.hvc = true
is_branch_sys Code.smc = true
is_branch_sys Code.brk = true
is_branch_sys Code.hlt = true
is_branch_sys Code.tcancel = true
is_branch_sys Code.tenter = true
is_branch_sys Code.dcps1 = true
is_branch_sys Code.dcps2 = true
is_branch_sys Code.dcps3 = true
is_branch_sys Code.udf = true
is_branch_sys _ = false
