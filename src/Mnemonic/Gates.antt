-- ===== src/Mnemonic/Gates.antt =====
-- src/mnemonic.rs: the feature column of the `codes!` table.
use f_arm.Features.{Feature}
use f_arm.Mnemonic.{Code}

unfoldable pub feature : Code → Feature
feature Code.invalid = Feature.base
feature Code.adr = Feature.base
feature Code.adrp = Feature.base
feature Code.add_imm32 = Feature.base
feature Code.add_imm64 = Feature.base
feature Code.adds_imm32 = Feature.base
feature Code.adds_imm64 = Feature.base
feature Code.sub_imm32 = Feature.base
feature Code.sub_imm64 = Feature.base
feature Code.subs_imm32 = Feature.base
feature Code.subs_imm64 = Feature.base
feature Code.addg_imm = Feature.mte
feature Code.subg_imm = Feature.mte
feature Code.and_imm32 = Feature.base
feature Code.and_imm64 = Feature.base
feature Code.orr_imm32 = Feature.base
feature Code.orr_imm64 = Feature.base
feature Code.eor_imm32 = Feature.base
feature Code.eor_imm64 = Feature.base
feature Code.ands_imm32 = Feature.base
feature Code.ands_imm64 = Feature.base
feature Code.movn32 = Feature.base
feature Code.movn64 = Feature.base
feature Code.movz32 = Feature.base
feature Code.movz64 = Feature.base
feature Code.movk32 = Feature.base
feature Code.movk64 = Feature.base
feature Code.sbfm32 = Feature.base
feature Code.sbfm64 = Feature.base
feature Code.bfm32 = Feature.base
feature Code.bfm64 = Feature.base
feature Code.ubfm32 = Feature.base
feature Code.ubfm64 = Feature.base
feature Code.extr32 = Feature.base
feature Code.extr64 = Feature.base
feature Code.smax_imm32 = Feature.cssc
feature Code.smax_imm64 = Feature.cssc
feature Code.smin_imm32 = Feature.cssc
feature Code.smin_imm64 = Feature.cssc
feature Code.umax_imm32 = Feature.cssc
feature Code.umax_imm64 = Feature.cssc
feature Code.umin_imm32 = Feature.cssc
feature Code.umin_imm64 = Feature.cssc
feature Code.autiasppc = Feature.pauth_lr
feature Code.autibsppc = Feature.pauth_lr
feature Code.udf = Feature.base
feature Code.and_shifted32 = Feature.base
feature Code.and_shifted64 = Feature.base
feature Code.bic_shifted32 = Feature.base
feature Code.bic_shifted64 = Feature.base
feature Code.orr_shifted32 = Feature.base
feature Code.orr_shifted64 = Feature.base
feature Code.orn_shifted32 = Feature.base
feature Code.orn_shifted64 = Feature.base
feature Code.eor_shifted32 = Feature.base
feature Code.eor_shifted64 = Feature.base
feature Code.eon_shifted32 = Feature.base
feature Code.eon_shifted64 = Feature.base
feature Code.ands_shifted32 = Feature.base
feature Code.ands_shifted64 = Feature.base
feature Code.bics_shifted32 = Feature.base
feature Code.bics_shifted64 = Feature.base
feature Code.add_shifted32 = Feature.base
feature Code.add_shifted64 = Feature.base
feature Code.adds_shifted32 = Feature.base
feature Code.adds_shifted64 = Feature.base
feature Code.sub_shifted32 = Feature.base
feature Code.sub_shifted64 = Feature.base
feature Code.subs_shifted32 = Feature.base
feature Code.subs_shifted64 = Feature.base
feature Code.add_extended32 = Feature.base
feature Code.add_extended64 = Feature.base
feature Code.adds_extended32 = Feature.base
feature Code.adds_extended64 = Feature.base
feature Code.sub_extended32 = Feature.base
feature Code.sub_extended64 = Feature.base
feature Code.subs_extended32 = Feature.base
feature Code.subs_extended64 = Feature.base
feature Code.adc32 = Feature.base
feature Code.adc64 = Feature.base
feature Code.adcs32 = Feature.base
feature Code.adcs64 = Feature.base
feature Code.sbc32 = Feature.base
feature Code.sbc64 = Feature.base
feature Code.sbcs32 = Feature.base
feature Code.sbcs64 = Feature.base
feature Code.rmif = Feature.base
feature Code.setf8 = Feature.base
feature Code.setf16 = Feature.base
feature Code.ccmn_reg32 = Feature.base
feature Code.ccmn_reg64 = Feature.base
feature Code.ccmn_imm32 = Feature.base
feature Code.ccmn_imm64 = Feature.base
feature Code.ccmp_reg32 = Feature.base
feature Code.ccmp_reg64 = Feature.base
feature Code.ccmp_imm32 = Feature.base
feature Code.ccmp_imm64 = Feature.base
feature Code.csel32 = Feature.base
feature Code.csel64 = Feature.base
feature Code.csinc32 = Feature.base
feature Code.csinc64 = Feature.base
feature Code.csinv32 = Feature.base
feature Code.csinv64 = Feature.base
feature Code.csneg32 = Feature.base
feature Code.csneg64 = Feature.base
feature Code.madd32 = Feature.base
feature Code.madd64 = Feature.base
feature Code.msub32 = Feature.base
feature Code.msub64 = Feature.base
feature Code.smaddl = Feature.base
feature Code.smsubl = Feature.base
feature Code.smulh = Feature.base
feature Code.umaddl = Feature.base
feature Code.umsubl = Feature.base
feature Code.umulh = Feature.base
feature Code.maddpt = Feature.cpa
feature Code.msubpt = Feature.cpa
feature Code.addpt = Feature.cpa
feature Code.subpt = Feature.cpa
feature Code.udiv32 = Feature.base
feature Code.udiv64 = Feature.base
feature Code.sdiv32 = Feature.base
feature Code.sdiv64 = Feature.base
feature Code.lslv32 = Feature.base
feature Code.lslv64 = Feature.base
feature Code.lsrv32 = Feature.base
feature Code.lsrv64 = Feature.base
feature Code.asrv32 = Feature.base
feature Code.asrv64 = Feature.base
feature Code.rorv32 = Feature.base
feature Code.rorv64 = Feature.base
feature Code.crc32b = Feature.base
feature Code.crc32h = Feature.base
feature Code.crc32w = Feature.base
feature Code.crc32x = Feature.base
feature Code.crc32cb = Feature.base
feature Code.crc32ch = Feature.base
feature Code.crc32cw = Feature.base
feature Code.crc32cx = Feature.base
feature Code.subp_dp = Feature.mte
feature Code.subps_dp = Feature.mte
feature Code.irg_dp = Feature.mte
feature Code.gmi_dp = Feature.mte
feature Code.pacga = Feature.p_auth
feature Code.smax_reg32 = Feature.cssc
feature Code.smax_reg64 = Feature.cssc
feature Code.smin_reg32 = Feature.cssc
feature Code.smin_reg64 = Feature.cssc
feature Code.umax_reg32 = Feature.cssc
feature Code.umax_reg64 = Feature.cssc
feature Code.umin_reg32 = Feature.cssc
feature Code.umin_reg64 = Feature.cssc
feature Code.rbit32 = Feature.base
feature Code.rbit64 = Feature.base
feature Code.rev1632 = Feature.base
feature Code.rev1664 = Feature.base
feature Code.rev3232 = Feature.base
feature Code.rev3264 = Feature.base
feature Code.rev32_bit = Feature.base
feature Code.rev64_bit = Feature.base
feature Code.clz32 = Feature.base
feature Code.clz64 = Feature.base
feature Code.cls32 = Feature.base
feature Code.cls64 = Feature.base
feature Code.abs32 = Feature.cssc
feature Code.abs64 = Feature.cssc
feature Code.cnt32 = Feature.cssc
feature Code.cnt64 = Feature.cssc
feature Code.ctz32 = Feature.cssc
feature Code.ctz64 = Feature.cssc
feature Code.pacia_dp = Feature.p_auth
feature Code.pacib_dp = Feature.p_auth
feature Code.pacda_dp = Feature.p_auth
feature Code.pacdb_dp = Feature.p_auth
feature Code.autia_dp = Feature.p_auth
feature Code.autib_dp = Feature.p_auth
feature Code.autda_dp = Feature.p_auth
feature Code.autdb_dp = Feature.p_auth
feature Code.paciza_dp = Feature.p_auth
feature Code.pacizb_dp = Feature.p_auth
feature Code.pacdza_dp = Feature.p_auth
feature Code.pacdzb_dp = Feature.p_auth
feature Code.autiza_dp = Feature.p_auth
feature Code.autizb_dp = Feature.p_auth
feature Code.autdza_dp = Feature.p_auth
feature Code.autdzb_dp = Feature.p_auth
feature Code.xpaci_dp = Feature.p_auth
feature Code.xpacd_dp = Feature.p_auth
feature Code.paciasppc = Feature.pauth_lr
feature Code.pacibsppc = Feature.pauth_lr
feature Code.pacnbiasppc = Feature.pauth_lr
feature Code.pacnbibsppc = Feature.pauth_lr
feature Code.autiasppcr = Feature.pauth_lr
feature Code.autibsppcr = Feature.pauth_lr
feature Code.bcond = Feature.base
feature Code.bc_cond = Feature.hbc
feature Code.buncond = Feature.base
feature Code.bl_imm = Feature.base
feature Code.retaasppc = Feature.pauth_lr
feature Code.retabsppc = Feature.pauth_lr
feature Code.cbz32 = Feature.base
feature Code.cbz64 = Feature.base
feature Code.cbnz32 = Feature.base
feature Code.cbnz64 = Feature.base
feature Code.tbz = Feature.base
feature Code.tbnz = Feature.base
feature Code.cbgt = Feature.cmpbr
feature Code.cbge = Feature.cmpbr
feature Code.cbhi = Feature.cmpbr
feature Code.cbhs = Feature.cmpbr
feature Code.cbeq = Feature.cmpbr
feature Code.cbne = Feature.cmpbr
feature Code.cblt = Feature.cmpbr
feature Code.cblo = Feature.cmpbr
feature Code.cbbgt = Feature.cmpbr
feature Code.cbbge = Feature.cmpbr
feature Code.cbbhi = Feature.cmpbr
feature Code.cbbhs = Feature.cmpbr
feature Code.cbbeq = Feature.cmpbr
feature Code.cbbne = Feature.cmpbr
feature Code.cbhgt = Feature.cmpbr
feature Code.cbhge = Feature.cmpbr
feature Code.cbhhi = Feature.cmpbr
feature Code.cbhhs = Feature.cmpbr
feature Code.cbheq = Feature.cmpbr
feature Code.cbhne = Feature.cmpbr
feature Code.br = Feature.base
feature Code.blr = Feature.base
feature Code.ret = Feature.base
feature Code.eret = Feature.base
feature Code.drps = Feature.base
feature Code.braaz = Feature.p_auth
feature Code.brabz = Feature.p_auth
feature Code.blraaz = Feature.p_auth
feature Code.blrabz = Feature.p_auth
feature Code.braa = Feature.p_auth
feature Code.brab = Feature.p_auth
feature Code.blraa = Feature.p_auth
feature Code.blrab = Feature.p_auth
feature Code.retaa = Feature.p_auth
feature Code.retab = Feature.p_auth
feature Code.eretaa = Feature.p_auth
feature Code.eretab = Feature.p_auth
feature Code.retaasppcr = Feature.pauth_lr
feature Code.retabsppcr = Feature.pauth_lr
feature Code.svc = Feature.base
feature Code.hvc = Feature.base
feature Code.smc = Feature.base
feature Code.brk = Feature.base
feature Code.hlt = Feature.base
feature Code.tcancel = Feature.tme
feature Code.tenter = Feature.tev
feature Code.dcps1 = Feature.base
feature Code.dcps2 = Feature.base
feature Code.dcps3 = Feature.base
