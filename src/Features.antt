-- ===== src/Features.antt =====
-- src/features.rs: the architecture extensions, and the set that a decoder accepts.
use f_arm.Base.{
  ℕ, ◌==◌, ◌!=◌, leb, if◌then◌else◌, Bool, true, false, bit_and, bit_or, shl64, u64_max,
}

pub data Feature : Type 0 where
  base fp16 bf16 lse p_auth mte sve sme crypto tme trf wfxt frintts ls64 xs mops cssc : Feature
  rcpc3 d128 the lse128 sme2 lsui sve2p1 cpa cmpbr i8mm fp8 lut lsfe faminmax f16f32mm : Feature
  f16mm f8f16mm f8f32mm hbc pauth_lr sme_b16b16 sme_f8f32 sme_f8f16 sme_f16f16 sme_mop4 : Feature
  sve_b16b16 rprfm f16f32dot sve2p2 sve2p3 sve_aes2 fprcvt tchange gcs chk pcdphint dgh : Feature
  clrbhb tev apple_amx gxf : Feature

-- `f as u32`: the declaration order, from 0.
unfoldable pub discriminant : Feature → ℕ
discriminant Feature.base = 0
discriminant Feature.fp16 = 1
discriminant Feature.bf16 = 2
discriminant Feature.lse = 3
discriminant Feature.p_auth = 4
discriminant Feature.mte = 5
discriminant Feature.sve = 6
discriminant Feature.sme = 7
discriminant Feature.crypto = 8
discriminant Feature.tme = 9
discriminant Feature.trf = 10
discriminant Feature.wfxt = 11
discriminant Feature.frintts = 12
discriminant Feature.ls64 = 13
discriminant Feature.xs = 14
discriminant Feature.mops = 15
discriminant Feature.cssc = 16
discriminant Feature.rcpc3 = 17
discriminant Feature.d128 = 18
discriminant Feature.the = 19
discriminant Feature.lse128 = 20
discriminant Feature.sme2 = 21
discriminant Feature.lsui = 22
discriminant Feature.sve2p1 = 23
discriminant Feature.cpa = 24
discriminant Feature.cmpbr = 25
discriminant Feature.i8mm = 26
discriminant Feature.fp8 = 27
discriminant Feature.lut = 28
discriminant Feature.lsfe = 29
discriminant Feature.faminmax = 30
discriminant Feature.f16f32mm = 31
discriminant Feature.f16mm = 32
discriminant Feature.f8f16mm = 33
discriminant Feature.f8f32mm = 34
discriminant Feature.hbc = 35
discriminant Feature.pauth_lr = 36
discriminant Feature.sme_b16b16 = 37
discriminant Feature.sme_f8f32 = 38
discriminant Feature.sme_f8f16 = 39
discriminant Feature.sme_f16f16 = 40
discriminant Feature.sme_mop4 = 41
discriminant Feature.sve_b16b16 = 42
discriminant Feature.rprfm = 43
discriminant Feature.f16f32dot = 44
discriminant Feature.sve2p2 = 45
discriminant Feature.sve2p3 = 46
discriminant Feature.sve_aes2 = 47
discriminant Feature.fprcvt = 48
discriminant Feature.tchange = 49
discriminant Feature.gcs = 50
discriminant Feature.chk = 51
discriminant Feature.pcdphint = 52
discriminant Feature.dgh = 53
discriminant Feature.clrbhb = 54
discriminant Feature.tev = 55
discriminant Feature.apple_amx = 56
discriminant Feature.gxf = 57

pub record FeatureSet : Type 0 where
  pub features0 : ℕ
  pub features1 : ℕ

abbrev pub no_features : FeatureSet
no_features = record { features0 = 0; features1 = 0 }

abbrev pub all_features : FeatureSet
all_features = record { features0 = u64_max; features1 = u64_max }

unfoldable pub has : FeatureSet → Feature → Bool
unfolding discriminant
has self f =
    let bit = discriminant f in
    if bit == 0
    then true
    else if leb 64 bit
    then false
    else bit_and self.features0 (shl64 1 bit) != 0

-- `FeatureSet::with`; `with` is no name here.
unfoldable pub with_feature : FeatureSet → Feature → FeatureSet
unfolding discriminant
with_feature self f =
    let bit = discriminant f in
    if bit == 0
    then self
    else if leb 64 bit
    then self
    else let mask = shl64 1 bit in
      record { features0 = bit_or self.features0 mask; features1 = bit_or self.features1 mask }
