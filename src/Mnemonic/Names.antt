-- ===== src/Mnemonic/Names.antt =====
-- src/mnemonic.rs: the mnemonic column of the `codes!` table.
use f_arm.Mnemonic.{Code, Mnemonic}

unfoldable pub mnemonic : Code → Mnemonic
mnemonic Code.invalid = Mnemonic.invalid
mnemonic Code.adr = Mnemonic.adr
mnemonic Code.adrp = Mnemonic.adrp
mnemonic Code.add_imm32 = Mnemonic.add
mnemonic Code.add_imm64 = Mnemonic.add
mnemonic Code.adds_imm32 = Mnemonic.adds
mnemonic Code.adds_imm64 = Mnemonic.adds
mnemonic Code.sub_imm32 = Mnemonic.sub
mnemonic Code.sub_imm64 = Mnemonic.sub
mnemonic Code.subs_imm32 = Mnemonic.subs
mnemonic Code.subs_imm64 = Mnemonic.subs
mnemonic Code.addg_imm = Mnemonic.addg
mnemonic Code.subg_imm = Mnemonic.subg
mnemonic Code.and_imm32 = Mnemonic.and
mnemonic Code.and_imm64 = Mnemonic.and
mnemonic Code.orr_imm32 = Mnemonic.orr
mnemonic Code.orr_imm64 = Mnemonic.orr
mnemonic Code.eor_imm32 = Mnemonic.eor
mnemonic Code.eor_imm64 = Mnemonic.eor
mnemonic Code.ands_imm32 = Mnemonic.ands
mnemonic Code.ands_imm64 = Mnemonic.ands
mnemonic Code.movn32 = Mnemonic.movn
mnemonic Code.movn64 = Mnemonic.movn
mnemonic Code.movz32 = Mnemonic.movz
mnemonic Code.movz64 = Mnemonic.movz
mnemonic Code.movk32 = Mnemonic.movk
mnemonic Code.movk64 = Mnemonic.movk
mnemonic Code.sbfm32 = Mnemonic.sbfm
mnemonic Code.sbfm64 = Mnemonic.sbfm
mnemonic Code.bfm32 = Mnemonic.bfm
mnemonic Code.bfm64 = Mnemonic.bfm
mnemonic Code.ubfm32 = Mnemonic.ubfm
mnemonic Code.ubfm64 = Mnemonic.ubfm
mnemonic Code.extr32 = Mnemonic.extr
mnemonic Code.extr64 = Mnemonic.extr
mnemonic Code.smax_imm32 = Mnemonic.smax
mnemonic Code.smax_imm64 = Mnemonic.smax
mnemonic Code.smin_imm32 = Mnemonic.smin
mnemonic Code.smin_imm64 = Mnemonic.smin
mnemonic Code.umax_imm32 = Mnemonic.umax
mnemonic Code.umax_imm64 = Mnemonic.umax
mnemonic Code.umin_imm32 = Mnemonic.umin
mnemonic Code.umin_imm64 = Mnemonic.umin
mnemonic Code.autiasppc = Mnemonic.autiasppc
mnemonic Code.autibsppc = Mnemonic.autibsppc
mnemonic Code.udf = Mnemonic.udf
mnemonic Code.and_shifted32 = Mnemonic.and
mnemonic Code.and_shifted64 = Mnemonic.and
mnemonic Code.bic_shifted32 = Mnemonic.bic
mnemonic Code.bic_shifted64 = Mnemonic.bic
mnemonic Code.orr_shifted32 = Mnemonic.orr
mnemonic Code.orr_shifted64 = Mnemonic.orr
mnemonic Code.orn_shifted32 = Mnemonic.orn
mnemonic Code.orn_shifted64 = Mnemonic.orn
mnemonic Code.eor_shifted32 = Mnemonic.eor
mnemonic Code.eor_shifted64 = Mnemonic.eor
mnemonic Code.eon_shifted32 = Mnemonic.eon
mnemonic Code.eon_shifted64 = Mnemonic.eon
mnemonic Code.ands_shifted32 = Mnemonic.ands
mnemonic Code.ands_shifted64 = Mnemonic.ands
mnemonic Code.bics_shifted32 = Mnemonic.bics
mnemonic Code.bics_shifted64 = Mnemonic.bics
mnemonic Code.add_shifted32 = Mnemonic.add
mnemonic Code.add_shifted64 = Mnemonic.add
mnemonic Code.adds_shifted32 = Mnemonic.adds
mnemonic Code.adds_shifted64 = Mnemonic.adds
mnemonic Code.sub_shifted32 = Mnemonic.sub
mnemonic Code.sub_shifted64 = Mnemonic.sub
mnemonic Code.subs_shifted32 = Mnemonic.subs
mnemonic Code.subs_shifted64 = Mnemonic.subs
mnemonic Code.add_extended32 = Mnemonic.add
mnemonic Code.add_extended64 = Mnemonic.add
mnemonic Code.adds_extended32 = Mnemonic.adds
mnemonic Code.adds_extended64 = Mnemonic.adds
mnemonic Code.sub_extended32 = Mnemonic.sub
mnemonic Code.sub_extended64 = Mnemonic.sub
mnemonic Code.subs_extended32 = Mnemonic.subs
mnemonic Code.subs_extended64 = Mnemonic.subs
mnemonic Code.adc32 = Mnemonic.adc
mnemonic Code.adc64 = Mnemonic.adc
mnemonic Code.adcs32 = Mnemonic.adcs
mnemonic Code.adcs64 = Mnemonic.adcs
mnemonic Code.sbc32 = Mnemonic.sbc
mnemonic Code.sbc64 = Mnemonic.sbc
mnemonic Code.sbcs32 = Mnemonic.sbcs
mnemonic Code.sbcs64 = Mnemonic.sbcs
mnemonic Code.rmif = Mnemonic.rmif
mnemonic Code.setf8 = Mnemonic.setf8
mnemonic Code.setf16 = Mnemonic.setf16
mnemonic Code.ccmn_reg32 = Mnemonic.ccmn
mnemonic Code.ccmn_reg64 = Mnemonic.ccmn
mnemonic Code.ccmn_imm32 = Mnemonic.ccmn
mnemonic Code.ccmn_imm64 = Mnemonic.ccmn
mnemonic Code.ccmp_reg32 = Mnemonic.ccmp
mnemonic Code.ccmp_reg64 = Mnemonic.ccmp
mnemonic Code.ccmp_imm32 = Mnemonic.ccmp
mnemonic Code.ccmp_imm64 = Mnemonic.ccmp
mnemonic Code.csel32 = Mnemonic.csel
mnemonic Code.csel64 = Mnemonic.csel
mnemonic Code.csinc32 = Mnemonic.csinc
mnemonic Code.csinc64 = Mnemonic.csinc
mnemonic Code.csinv32 = Mnemonic.csinv
mnemonic Code.csinv64 = Mnemonic.csinv
mnemonic Code.csneg32 = Mnemonic.csneg
mnemonic Code.csneg64 = Mnemonic.csneg
mnemonic Code.madd32 = Mnemonic.madd
mnemonic Code.madd64 = Mnemonic.madd
mnemonic Code.msub32 = Mnemonic.msub
mnemonic Code.msub64 = Mnemonic.msub
mnemonic Code.smaddl = Mnemonic.smaddl
mnemonic Code.smsubl = Mnemonic.smsubl
mnemonic Code.smulh = Mnemonic.smulh
mnemonic Code.umaddl = Mnemonic.umaddl
mnemonic Code.umsubl = Mnemonic.umsubl
mnemonic Code.umulh = Mnemonic.umulh
mnemonic Code.maddpt = Mnemonic.maddpt
mnemonic Code.msubpt = Mnemonic.msubpt
mnemonic Code.addpt = Mnemonic.addpt
mnemonic Code.subpt = Mnemonic.subpt
mnemonic Code.udiv32 = Mnemonic.udiv
mnemonic Code.udiv64 = Mnemonic.udiv
mnemonic Code.sdiv32 = Mnemonic.sdiv
mnemonic Code.sdiv64 = Mnemonic.sdiv
mnemonic Code.lslv32 = Mnemonic.lslv
mnemonic Code.lslv64 = Mnemonic.lslv
mnemonic Code.lsrv32 = Mnemonic.lsrv
mnemonic Code.lsrv64 = Mnemonic.lsrv
mnemonic Code.asrv32 = Mnemonic.asrv
mnemonic Code.asrv64 = Mnemonic.asrv
mnemonic Code.rorv32 = Mnemonic.rorv
mnemonic Code.rorv64 = Mnemonic.rorv
mnemonic Code.crc32b = Mnemonic.crc32b
mnemonic Code.crc32h = Mnemonic.crc32h
mnemonic Code.crc32w = Mnemonic.crc32w
mnemonic Code.crc32x = Mnemonic.crc32x
mnemonic Code.crc32cb = Mnemonic.crc32cb
mnemonic Code.crc32ch = Mnemonic.crc32ch
mnemonic Code.crc32cw = Mnemonic.crc32cw
mnemonic Code.crc32cx = Mnemonic.crc32cx
mnemonic Code.subp_dp = Mnemonic.subp
mnemonic Code.subps_dp = Mnemonic.subps
mnemonic Code.irg_dp = Mnemonic.irg
mnemonic Code.gmi_dp = Mnemonic.gmi
mnemonic Code.pacga = Mnemonic.pacga
mnemonic Code.smax_reg32 = Mnemonic.smax
mnemonic Code.smax_reg64 = Mnemonic.smax
mnemonic Code.smin_reg32 = Mnemonic.smin
mnemonic Code.smin_reg64 = Mnemonic.smin
mnemonic Code.umax_reg32 = Mnemonic.umax
mnemonic Code.umax_reg64 = Mnemonic.umax
mnemonic Code.umin_reg32 = Mnemonic.umin
mnemonic Code.umin_reg64 = Mnemonic.umin
mnemonic Code.rbit32 = Mnemonic.rbit
mnemonic Code.rbit64 = Mnemonic.rbit
mnemonic Code.rev1632 = Mnemonic.rev16
mnemonic Code.rev1664 = Mnemonic.rev16
mnemonic Code.rev3232 = Mnemonic.rev32
mnemonic Code.rev3264 = Mnemonic.rev32
mnemonic Code.rev32_bit = Mnemonic.rev
mnemonic Code.rev64_bit = Mnemonic.rev
mnemonic Code.clz32 = Mnemonic.clz
mnemonic Code.clz64 = Mnemonic.clz
mnemonic Code.cls32 = Mnemonic.cls
mnemonic Code.cls64 = Mnemonic.cls
mnemonic Code.abs32 = Mnemonic.abs
mnemonic Code.abs64 = Mnemonic.abs
mnemonic Code.cnt32 = Mnemonic.cnt
mnemonic Code.cnt64 = Mnemonic.cnt
mnemonic Code.ctz32 = Mnemonic.ctz
mnemonic Code.ctz64 = Mnemonic.ctz
mnemonic Code.pacia_dp = Mnemonic.pacia
mnemonic Code.pacib_dp = Mnemonic.pacib
mnemonic Code.pacda_dp = Mnemonic.pacda
mnemonic Code.pacdb_dp = Mnemonic.pacdb
mnemonic Code.autia_dp = Mnemonic.autia
mnemonic Code.autib_dp = Mnemonic.autib
mnemonic Code.autda_dp = Mnemonic.autda
mnemonic Code.autdb_dp = Mnemonic.autdb
mnemonic Code.paciza_dp = Mnemonic.paciza
mnemonic Code.pacizb_dp = Mnemonic.pacizb
mnemonic Code.pacdza_dp = Mnemonic.pacdza
mnemonic Code.pacdzb_dp = Mnemonic.pacdzb
mnemonic Code.autiza_dp = Mnemonic.autiza
mnemonic Code.autizb_dp = Mnemonic.autizb
mnemonic Code.autdza_dp = Mnemonic.autdza
mnemonic Code.autdzb_dp = Mnemonic.autdzb
mnemonic Code.xpaci_dp = Mnemonic.xpaci
mnemonic Code.xpacd_dp = Mnemonic.xpacd
mnemonic Code.paciasppc = Mnemonic.paciasppc
mnemonic Code.pacibsppc = Mnemonic.pacibsppc
mnemonic Code.pacnbiasppc = Mnemonic.pacnbiasppc
mnemonic Code.pacnbibsppc = Mnemonic.pacnbibsppc
mnemonic Code.autiasppcr = Mnemonic.autiasppcr
mnemonic Code.autibsppcr = Mnemonic.autibsppcr
mnemonic Code.bcond = Mnemonic.b
mnemonic Code.bc_cond = Mnemonic.bc
mnemonic Code.buncond = Mnemonic.b
mnemonic Code.bl_imm = Mnemonic.bl
mnemonic Code.retaasppc = Mnemonic.retaasppc
mnemonic Code.retabsppc = Mnemonic.retabsppc
mnemonic Code.cbz32 = Mnemonic.cbz
mnemonic Code.cbz64 = Mnemonic.cbz
mnemonic Code.cbnz32 = Mnemonic.cbnz
mnemonic Code.cbnz64 = Mnemonic.cbnz
mnemonic Code.tbz = Mnemonic.tbz
mnemonic Code.tbnz = Mnemonic.tbnz
mnemonic Code.cbgt = Mnemonic.cbgt
mnemonic Code.cbge = Mnemonic.cbge
mnemonic Code.cbhi = Mnemonic.cbhi
mnemonic Code.cbhs = Mnemonic.cbhs
mnemonic Code.cbeq = Mnemonic.cbeq
mnemonic Code.cbne = Mnemonic.cbne
mnemonic Code.cblt = Mnemonic.cblt
mnemonic Code.cblo = Mnemonic.cblo
mnemonic Code.cbbgt = Mnemonic.cbbgt
mnemonic Code.cbbge = Mnemonic.cbbge
mnemonic Code.cbbhi = Mnemonic.cbbhi
mnemonic Code.cbbhs = Mnemonic.cbbhs
mnemonic Code.cbbeq = Mnemonic.cbbeq
mnemonic Code.cbbne = Mnemonic.cbbne
mnemonic Code.cbhgt = Mnemonic.cbhgt
mnemonic Code.cbhge = Mnemonic.cbhge
mnemonic Code.cbhhi = Mnemonic.cbhhi
mnemonic Code.cbhhs = Mnemonic.cbhhs
mnemonic Code.cbheq = Mnemonic.cbheq
mnemonic Code.cbhne = Mnemonic.cbhne
mnemonic Code.br = Mnemonic.br
mnemonic Code.blr = Mnemonic.blr
mnemonic Code.ret = Mnemonic.ret
mnemonic Code.eret = Mnemonic.eret
mnemonic Code.drps = Mnemonic.drps
mnemonic Code.braaz = Mnemonic.braaz
mnemonic Code.brabz = Mnemonic.brabz
mnemonic Code.blraaz = Mnemonic.blraaz
mnemonic Code.blrabz = Mnemonic.blrabz
mnemonic Code.braa = Mnemonic.braa
mnemonic Code.brab = Mnemonic.brab
mnemonic Code.blraa = Mnemonic.blraa
mnemonic Code.blrab = Mnemonic.blrab
mnemonic Code.retaa = Mnemonic.retaa
mnemonic Code.retab = Mnemonic.retab
mnemonic Code.eretaa = Mnemonic.eretaa
mnemonic Code.eretab = Mnemonic.eretab
mnemonic Code.retaasppcr = Mnemonic.retaasppcr
mnemonic Code.retabsppcr = Mnemonic.retabsppcr
mnemonic Code.svc = Mnemonic.svc
mnemonic Code.hvc = Mnemonic.hvc
mnemonic Code.smc = Mnemonic.smc
mnemonic Code.brk = Mnemonic.brk
mnemonic Code.hlt = Mnemonic.hlt
mnemonic Code.tcancel = Mnemonic.tcancel
mnemonic Code.tenter = Mnemonic.tenter
mnemonic Code.dcps1 = Mnemonic.dcps1
mnemonic Code.dcps2 = Mnemonic.dcps2
mnemonic Code.dcps3 = Mnemonic.dcps3
