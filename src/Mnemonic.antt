-- ===== src/Mnemonic.antt =====
-- src/mnemonic.rs: the encoding identities and mnemonics of the instruction groups that are
-- modelled; the rows of the `codes!` table for them are in the children.
pub mod Names
pub mod Gates

pub data Mnemonic : Type 0 where
  invalid adr adrp add adds sub subs addg subg and orr eor ands movn movz movk : Mnemonic
  sbfm bfm ubfm extr smax smin umax umin autiasppc autibsppc udf mov cmp cmn tst : Mnemonic
  sxtb sxth sxtw uxtb uxth asr lsl lsr sbfiz sbfx ubfiz ubfx bfc bfi bfxil ror : Mnemonic
  bic orn eon bics adc adcs sbc sbcs rmif setf8 setf16 ccmn ccmp csel csinc : Mnemonic
  csinv csneg madd msub smaddl smsubl smulh umaddl umsubl umulh maddpt msubpt : Mnemonic
  addpt subpt udiv sdiv lslv lsrv asrv rorv crc32b crc32h crc32w crc32x crc32cb : Mnemonic
  crc32ch crc32cw crc32cx subp subps irg gmi pacga rbit rev16 rev32 rev clz cls : Mnemonic
  abs cnt ctz pacia pacib pacda pacdb autia autib autda autdb paciza pacizb : Mnemonic
  pacdza pacdzb autiza autizb autdza autdzb xpaci xpacd paciasppc pacibsppc : Mnemonic
  pacnbiasppc pacnbibsppc autiasppcr autibsppcr b bc bl retaasppc retabsppc cbz : Mnemonic
  cbnz tbz tbnz cbgt cbge cbhi cbhs cbeq cbne cblt cblo cbbgt cbbge cbbhi cbbhs : Mnemonic
  cbbeq cbbne cbhgt cbhge cbhhi cbhhs cbheq cbhne br blr ret eret drps braaz : Mnemonic
  brabz blraaz blrabz braa brab blraa blrab retaa retab eretaa eretab retaasppcr : Mnemonic
  retabsppcr svc hvc smc brk hlt tcancel tenter dcps1 dcps2 dcps3 mvn negs neg : Mnemonic
  ngcs ngc cset csetm cinc cinv cneg mneg mul smull smnegl umull umnegl : Mnemonic

pub data Code : Type 0 where
  invalid adr adrp add_imm32 add_imm64 adds_imm32 adds_imm64 sub_imm32 sub_imm64 : Code
  subs_imm32 subs_imm64 addg_imm subg_imm and_imm32 and_imm64 orr_imm32 orr_imm64 : Code
  eor_imm32 eor_imm64 ands_imm32 ands_imm64 movn32 movn64 movz32 movz64 movk32 : Code
  movk64 sbfm32 sbfm64 bfm32 bfm64 ubfm32 ubfm64 extr32 extr64 smax_imm32 smax_imm64 : Code
  smin_imm32 smin_imm64 umax_imm32 umax_imm64 umin_imm32 umin_imm64 autiasppc : Code
  autibsppc udf and_shifted32 and_shifted64 bic_shifted32 bic_shifted64 : Code
  orr_shifted32 orr_shifted64 orn_shifted32 orn_shifted64 eor_shifted32 : Code
  eor_shifted64 eon_shifted32 eon_shifted64 ands_shifted32 ands_shifted64 : Code
  bics_shifted32 bics_shifted64 add_shifted32 add_shifted64 adds_shifted32 : Code
  adds_shifted64 sub_shifted32 sub_shifted64 subs_shifted32 subs_shifted64 : Code
  add_extended32 add_extended64 adds_extended32 adds_extended64 sub_extended32 : Code
  sub_extended64 subs_extended32 subs_extended64 adc32 adc64 adcs32 adcs64 sbc32 : Code
  sbc64 sbcs32 sbcs64 rmif setf8 setf16 ccmn_reg32 ccmn_reg64 ccmn_imm32 ccmn_imm64 : Code
  ccmp_reg32 ccmp_reg64 ccmp_imm32 ccmp_imm64 csel32 csel64 csinc32 csinc64 csinv32 : Code
  csinv64 csneg32 csneg64 madd32 madd64 msub32 msub64 smaddl smsubl smulh umaddl : Code
  umsubl umulh maddpt msubpt addpt subpt udiv32 udiv64 sdiv32 sdiv64 lslv32 lslv64 : Code
  lsrv32 lsrv64 asrv32 asrv64 rorv32 rorv64 crc32b crc32h crc32w crc32x crc32cb : Code
  crc32ch crc32cw crc32cx subp_dp subps_dp irg_dp gmi_dp pacga smax_reg32 smax_reg64 : Code
  smin_reg32 smin_reg64 umax_reg32 umax_reg64 umin_reg32 umin_reg64 rbit32 rbit64 : Code
  rev1632 rev1664 rev3232 rev3264 rev32_bit rev64_bit clz32 clz64 cls32 cls64 abs32 : Code
  abs64 cnt32 cnt64 ctz32 ctz64 pacia_dp pacib_dp pacda_dp pacdb_dp autia_dp : Code
  autib_dp autda_dp autdb_dp paciza_dp pacizb_dp pacdza_dp pacdzb_dp autiza_dp : Code
  autizb_dp autdza_dp autdzb_dp xpaci_dp xpacd_dp paciasppc pacibsppc pacnbiasppc : Code
  pacnbibsppc autiasppcr autibsppcr bcond bc_cond buncond bl_imm retaasppc retabsppc : Code
  cbz32 cbz64 cbnz32 cbnz64 tbz tbnz cbgt cbge cbhi cbhs cbeq cbne cblt cblo cbbgt : Code
  cbbge cbbhi cbbhs cbbeq cbbne cbhgt cbhge cbhhi cbhhs cbheq cbhne br blr ret eret : Code
  drps braaz brabz blraaz blrabz braa brab blraa blrab retaa retab eretaa eretab : Code
  retaasppcr retabsppcr svc hvc smc brk hlt tcancel tenter dcps1 dcps2 dcps3 : Code
