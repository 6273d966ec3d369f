-- ===== src/Encode/DpReg.antt =====
-- src/encode/dp_reg.rs: the encoder of the register data-processing group.
pub mod Fields
pub mod Shifted
pub mod Flags
pub mod Sources
pub mod Source1
use f_arm.Base.{ℕ}
use f_arm.Encode.DpReg.Flags.{enc_addsub_carry, enc_addsub_pt, enc_rmif, enc_setf}
use f_arm.Encode.DpReg.Flags.{enc_cond_compare, enc_cond_select}
use f_arm.Encode.DpReg.Shifted.{enc_logical_shifted, enc_addsub_shifted, enc_addsub_extended}
use f_arm.Encode.DpReg.Source1.{enc_dp_1source_basic, enc_dp_1source_pauth}
use f_arm.Encode.DpReg.Sources.{enc_dp_3source, enc_dp_2source}
use f_arm.Encode.Error.{EncodeError, Result, err}
use f_arm.Instruction.{Instruction}
use f_arm.Mnemonic.{Code}

unfoldable pub encode : Instruction → Result ℕ
encode insn = elim insn.code [
  | Code.and_shifted32 ↦ enc_logical_shifted insn
  | Code.and_shifted64 ↦ enc_logical_shifted insn
  | Code.bic_shifted32 ↦ enc_logical_shifted insn
  | Code.bic_shifted64 ↦ enc_logical_shifted insn
  | Code.orr_shifted32 ↦ enc_logical_shifted insn
  | Code.orr_shifted64 ↦ enc_logical_shifted insn
  | Code.orn_shifted32 ↦ enc_logical_shifted insn
  | Code.orn_shifted64 ↦ enc_logical_shifted insn
  | Code.eor_shifted32 ↦ enc_logical_shifted insn
  | Code.eor_shifted64 ↦ enc_logical_shifted insn
  | Code.eon_shifted32 ↦ enc_logical_shifted insn
  | Code.eon_shifted64 ↦ enc_logical_shifted insn
  | Code.ands_shifted32 ↦ enc_logical_shifted insn
  | Code.ands_shifted64 ↦ enc_logical_shifted insn
  | Code.bics_shifted32 ↦ enc_logical_shifted insn
  | Code.bics_shifted64 ↦ enc_logical_shifted insn
  | Code.add_shifted32 ↦ enc_addsub_shifted insn
  | Code.add_shifted64 ↦ enc_addsub_shifted insn
  | Code.adds_shifted32 ↦ enc_addsub_shifted insn
  | Code.adds_shifted64 ↦ enc_addsub_shifted insn
  | Code.sub_shifted32 ↦ enc_addsub_shifted insn
  | Code.sub_shifted64 ↦ enc_addsub_shifted insn
  | Code.subs_shifted32 ↦ enc_addsub_shifted insn
  | Code.subs_shifted64 ↦ enc_addsub_shifted insn
  | Code.add_extended32 ↦ enc_addsub_extended insn
  | Code.add_extended64 ↦ enc_addsub_extended insn
  | Code.adds_extended32 ↦ enc_addsub_extended insn
  | Code.adds_extended64 ↦ enc_addsub_extended insn
  | Code.sub_extended32 ↦ enc_addsub_extended insn
  | Code.sub_extended64 ↦ enc_addsub_extended insn
  | Code.subs_extended32 ↦ enc_addsub_extended insn
  | Code.subs_extended64 ↦ enc_addsub_extended insn
  | Code.adc32 ↦ enc_addsub_carry insn
  | Code.adc64 ↦ enc_addsub_carry insn
  | Code.adcs32 ↦ enc_addsub_carry insn
  | Code.adcs64 ↦ enc_addsub_carry insn
  | Code.sbc32 ↦ enc_addsub_carry insn
  | Code.sbc64 ↦ enc_addsub_carry insn
  | Code.sbcs32 ↦ enc_addsub_carry insn
  | Code.sbcs64 ↦ enc_addsub_carry insn
  | Code.rmif ↦ enc_rmif insn
  | Code.setf8 ↦ enc_setf insn
  | Code.setf16 ↦ enc_setf insn
  | Code.ccmn_reg32 ↦ enc_cond_compare insn
  | Code.ccmn_reg64 ↦ enc_cond_compare insn
  | Code.ccmn_imm32 ↦ enc_cond_compare insn
  | Code.ccmn_imm64 ↦ enc_cond_compare insn
  | Code.ccmp_reg32 ↦ enc_cond_compare insn
  | Code.ccmp_reg64 ↦ enc_cond_compare insn
  | Code.ccmp_imm32 ↦ enc_cond_compare insn
  | Code.ccmp_imm64 ↦ enc_cond_compare insn
  | Code.csel32 ↦ enc_cond_select insn
  | Code.csel64 ↦ enc_cond_select insn
  | Code.csinc32 ↦ enc_cond_select insn
  | Code.csinc64 ↦ enc_cond_select insn
  | Code.csinv32 ↦ enc_cond_select insn
  | Code.csinv64 ↦ enc_cond_select insn
  | Code.csneg32 ↦ enc_cond_select insn
  | Code.csneg64 ↦ enc_cond_select insn
  | Code.madd32 ↦ enc_dp_3source insn
  | Code.madd64 ↦ enc_dp_3source insn
  | Code.msub32 ↦ enc_dp_3source insn
  | Code.msub64 ↦ enc_dp_3source insn
  | Code.smaddl ↦ enc_dp_3source insn
  | Code.smsubl ↦ enc_dp_3source insn
  | Code.smulh ↦ enc_dp_3source insn
  | Code.umaddl ↦ enc_dp_3source insn
  | Code.umsubl ↦ enc_dp_3source insn
  | Code.umulh ↦ enc_dp_3source insn
  | Code.maddpt ↦ enc_dp_3source insn
  | Code.msubpt ↦ enc_dp_3source insn
  | Code.addpt ↦ enc_addsub_pt insn
  | Code.subpt ↦ enc_addsub_pt insn
  | Code.udiv32 ↦ enc_dp_2source insn
  | Code.udiv64 ↦ enc_dp_2source insn
  | Code.sdiv32 ↦ enc_dp_2source insn
  | Code.sdiv64 ↦ enc_dp_2source insn
  | Code.lslv32 ↦ enc_dp_2source insn
  | Code.lslv64 ↦ enc_dp_2source insn
  | Code.lsrv32 ↦ enc_dp_2source insn
  | Code.lsrv64 ↦ enc_dp_2source insn
  | Code.asrv32 ↦ enc_dp_2source insn
  | Code.asrv64 ↦ enc_dp_2source insn
  | Code.rorv32 ↦ enc_dp_2source insn
  | Code.rorv64 ↦ enc_dp_2source insn
  | Code.crc32b ↦ enc_dp_2source insn
  | Code.crc32h ↦ enc_dp_2source insn
  | Code.crc32w ↦ enc_dp_2source insn
  | Code.crc32x ↦ enc_dp_2source insn
  | Code.crc32cb ↦ enc_dp_2source insn
  | Code.crc32ch ↦ enc_dp_2source insn
  | Code.crc32cw ↦ enc_dp_2source insn
  | Code.crc32cx ↦ enc_dp_2source insn
  | Code.subp_dp ↦ enc_dp_2source insn
  | Code.subps_dp ↦ enc_dp_2source insn
  | Code.irg_dp ↦ enc_dp_2source insn
  | Code.gmi_dp ↦ enc_dp_2source insn
  | Code.pacga ↦ enc_dp_2source insn
  | Code.smax_reg32 ↦ enc_dp_2source insn
  | Code.smax_reg64 ↦ enc_dp_2source insn
  | Code.smin_reg32 ↦ enc_dp_2source insn
  | Code.smin_reg64 ↦ enc_dp_2source insn
  | Code.umax_reg32 ↦ enc_dp_2source insn
  | Code.umax_reg64 ↦ enc_dp_2source insn
  | Code.umin_reg32 ↦ enc_dp_2source insn
  | Code.umin_reg64 ↦ enc_dp_2source insn
  | Code.rbit32 ↦ enc_dp_1source_basic insn
  | Code.rbit64 ↦ enc_dp_1source_basic insn
  | Code.rev1632 ↦ enc_dp_1source_basic insn
  | Code.rev1664 ↦ enc_dp_1source_basic insn
  | Code.rev3232 ↦ enc_dp_1source_basic insn
  | Code.rev3264 ↦ enc_dp_1source_basic insn
  | Code.rev32_bit ↦ enc_dp_1source_basic insn
  | Code.rev64_bit ↦ enc_dp_1source_basic insn
  | Code.clz32 ↦ enc_dp_1source_basic insn
  | Code.clz64 ↦ enc_dp_1source_basic insn
  | Code.cls32 ↦ enc_dp_1source_basic insn
  | Code.cls64 ↦ enc_dp_1source_basic insn
  | Code.abs32 ↦ enc_dp_1source_basic insn
  | Code.abs64 ↦ enc_dp_1source_basic insn
  | Code.cnt32 ↦ enc_dp_1source_basic insn
  | Code.cnt64 ↦ enc_dp_1source_basic insn
  | Code.ctz32 ↦ enc_dp_1source_basic insn
  | Code.ctz64 ↦ enc_dp_1source_basic insn
  | Code.pacia_dp ↦ enc_dp_1source_pauth insn
  | Code.pacib_dp ↦ enc_dp_1source_pauth insn
  | Code.pacda_dp ↦ enc_dp_1source_pauth insn
  | Code.pacdb_dp ↦ enc_dp_1source_pauth insn
  | Code.autia_dp ↦ enc_dp_1source_pauth insn
  | Code.autib_dp ↦ enc_dp_1source_pauth insn
  | Code.autda_dp ↦ enc_dp_1source_pauth insn
  | Code.autdb_dp ↦ enc_dp_1source_pauth insn
  | Code.paciza_dp ↦ enc_dp_1source_pauth insn
  | Code.pacizb_dp ↦ enc_dp_1source_pauth insn
  | Code.pacdza_dp ↦ enc_dp_1source_pauth insn
  | Code.pacdzb_dp ↦ enc_dp_1source_pauth insn
  | Code.autiza_dp ↦ enc_dp_1source_pauth insn
  | Code.autizb_dp ↦ enc_dp_1source_pauth insn
  | Code.autdza_dp ↦ enc_dp_1source_pauth insn
  | Code.autdzb_dp ↦ enc_dp_1source_pauth insn
  | Code.xpaci_dp ↦ enc_dp_1source_pauth insn
  | Code.xpacd_dp ↦ enc_dp_1source_pauth insn
  | Code.paciasppc ↦ enc_dp_1source_pauth insn
  | Code.pacibsppc ↦ enc_dp_1source_pauth insn
  | Code.pacnbiasppc ↦ enc_dp_1source_pauth insn
  | Code.pacnbibsppc ↦ enc_dp_1source_pauth insn
  | Code.autiasppcr ↦ enc_dp_1source_pauth insn
  | Code.autibsppcr ↦ enc_dp_1source_pauth insn
  | _ ↦ err EncodeError.unsupported
]
