-- ===== src/DoubleConvert/Table/Third.antt =====
-- The rows of libs/rc2base/support/c/idris2rc2_rc2base_pow5_table.h for the exponents -80 to 50.
use idris2_rc.Prelude.{List, [], ◌∷◌}
use idris2_rc.Prelude.Int.{pos}
use idris2_rc.DoubleConvert.Entry.{Pow5Entry, row}

abbrev pub from_m80 : List Pow5Entry
from_m80 =
    row 0x97c560ba6b0919a5 0xdccd879fc967d41a (pos 313)
    ∷ row 0xbdb6b8e905cb600f 0x5400e987bbc1c921 (pos 311)
    ∷ row 0xed246723473e3813 0x290123e9aab23b69 (pos 309)
    ∷ row 0x9436c0760c86e30b 0xf9a0b6720aaf6521 (pos 306)
    ∷ row 0xb94470938fa89bce 0xf808e40e8d5b3e6a (pos 304)
    ∷ row 0xe7958cb87392c2c2 0xb60b1d1230b20e04 (pos 302)
    ∷ row 0x90bd77f3483bb9b9 0xb1c6f22b5e6f48c3 (pos 299)
    ∷ row 0xb4ecd5f01a4aa828 0x1e38aeb6360b1af3 (pos 297)
    ∷ row 0xe2280b6c20dd5232 0x25c6da63c38de1b0 (pos 295)
    ∷ row 0x8d590723948a535f 0x579c487e5a38ad0e (pos 292)
    ∷ row 0xb0af48ec79ace837 0x2d835a9df0c6d852 (pos 290)
    ∷ row 0xdcdb1b2798182244 0xf8e431456cf88e66 (pos 288)
    ∷ row 0x8a08f0f8bf0f156b 0x1b8e9ecb641b5900 (pos 285)
    ∷ row 0xac8b2d36eed2dac5 0xe272467e3d222f40 (pos 283)
    ∷ row 0xd7adf884aa879177 0x5b0ed81dcc6abb10 (pos 281)
    ∷ row 0x86ccbb52ea94baea 0x98e947129fc2b4ea (pos 278)
    ∷ row 0xa87fea27a539e9a5 0x3f2398d747b36224 (pos 276)
    ∷ row 0xd29fe4b18e88640e 0x8eec7f0d19a03aad (pos 274)
    ∷ row 0x83a3eeeef9153e89 0x1953cf68300424ac (pos 271)
    ∷ row 0xa48ceaaab75a8e2b 0x5fa8c3423c052dd7 (pos 269)
    ∷ row 0xcdb02555653131b6 0x3792f412cb06794d (pos 267)
    ∷ row 0x808e17555f3ebf11 0xe2bbd88bbee40bd0 (pos 264)
    ∷ row 0xa0b19d2ab70e6ed6 0x5b6aceaeae9d0ec4 (pos 262)
    ∷ row 0xc8de047564d20a8b 0xf245825a5a445275 (pos 260)
    ∷ row 0xfb158592be068d2e 0xeed6e2f0f0d56713 (pos 258)
    ∷ row 0x9ced737bb6c4183d 0x55464dd69685606c (pos 255)
    ∷ row 0xc428d05aa4751e4c 0xaa97e14c3c26b887 (pos 253)
    ∷ row 0xf53304714d9265df 0xd53dd99f4b3066a8 (pos 251)
    ∷ row 0x993fe2c6d07b7fab 0xe546a8038efe4029 (pos 248)
    ∷ row 0xbf8fdb78849a5f96 0xde98520472bdd033 (pos 246)
    ∷ row 0xef73d256a5c0f77c 0x963e66858f6d4440 (pos 244)
    ∷ row 0x95a8637627989aad 0xdde7001379a44aa8 (pos 241)
    ∷ row 0xbb127c53b17ec159 0x5560c018580d5d52 (pos 239)
    ∷ row 0xe9d71b689dde71af 0xaab8f01e6e10b4a7 (pos 237)
    ∷ row 0x9226712162ab070d 0xcab3961304ca70e8 (pos 234)
    ∷ row 0xb6b00d69bb55c8d1 0x3d607b97c5fd0d22 (pos 232)
    ∷ row 0xe45c10c42a2b3b05 0x8cb89a7db77c506b (pos 230)
    ∷ row 0x8eb98a7a9a5b04e3 0x77f3608e92adb243 (pos 227)
    ∷ row 0xb267ed1940f1c61c 0x55f038b237591ed3 (pos 225)
    ∷ row 0xdf01e85f912e37a3 0x6b6c46dec52f6688 (pos 223)
    ∷ row 0x8b61313bbabce2c6 0x2323ac4b3b3da015 (pos 220)
    ∷ row 0xae397d8aa96c1b77 0xabec975e0a0d081b (pos 218)
    ∷ row 0xd9c7dced53c72255 0x96e7bd358c904a21 (pos 216)
    ∷ row 0x881cea14545c7575 0x7e50d64177da2e55 (pos 213)
    ∷ row 0xaa242499697392d2 0xdde50bd1d5d0b9ea (pos 211)
    ∷ row 0xd4ad2dbfc3d07787 0x955e4ec64b44e864 (pos 209)
    ∷ row 0x84ec3c97da624ab4 0xbd5af13bef0b113f (pos 206)
    ∷ row 0xa6274bbdd0fadd61 0xecb1ad8aeacdd58e (pos 204)
    ∷ row 0xcfb11ead453994ba 0x67de18eda5814af2 (pos 202)
    ∷ row 0x81ceb32c4b43fcf4 0x80eacf948770ced7 (pos 199)
    ∷ row 0xa2425ff75e14fc31 0xa1258379a94d028d (pos 197)
    ∷ row 0xcad2f7f5359a3b3e 0x096ee45813a04330 (pos 195)
    ∷ row 0xfd87b5f28300ca0d 0x8bca9d6e188853fc (pos 193)
    ∷ row 0x9e74d1b791e07e48 0x775ea264cf55347e (pos 190)
    ∷ row 0xc612062576589dda 0x95364afe032a819d (pos 188)
    ∷ row 0xf79687aed3eec551 0x3a83ddbd83f52205 (pos 186)
    ∷ row 0x9abe14cd44753b52 0xc4926a9672793543 (pos 183)
    ∷ row 0xc16d9a0095928a27 0x75b7053c0f178294 (pos 181)
    ∷ row 0xf1c90080baf72cb1 0x5324c68b12dd6338 (pos 179)
    ∷ row 0x971da05074da7bee 0xd3f6fc16ebca5e03 (pos 176)
    ∷ row 0xbce5086492111aea 0x88f4bb1ca6bcf584 (pos 174)
    ∷ row 0xec1e4a7db69561a5 0x2b31e9e3d06c32e5 (pos 172)
    ∷ row 0x9392ee8e921d5d07 0x3aff322e62439fcf (pos 169)
    ∷ row 0xb877aa3236a4b449 0x09befeb9fad487c3 (pos 167)
    ∷ row 0xe69594bec44de15b 0x4c2ebe687989a9b4 (pos 165)
    ∷ row 0x901d7cf73ab0acd9 0x0f9d37014bf60a10 (pos 162)
    ∷ row 0xb424dc35095cd80f 0x538484c19ef38c94 (pos 160)
    ∷ row 0xe12e13424bb40e13 0x2865a5f206b06fba (pos 158)
    ∷ row 0x8cbccc096f5088cb 0xf93f87b7442e45d4 (pos 155)
    ∷ row 0xafebff0bcb24aafe 0xf78f69a51539d749 (pos 153)
    ∷ row 0xdbe6fecebdedd5be 0xb573440e5a884d1b (pos 151)
    ∷ row 0x89705f4136b4a597 0x31680a88f8953031 (pos 148)
    ∷ row 0xabcc77118461cefc 0xfdc20d2b36ba7c3d (pos 146)
    ∷ row 0xd6bf94d5e57a42bc 0x3d32907604691b4d (pos 144)
    ∷ row 0x8637bd05af6c69b5 0xa63f9a49c2c1b110 (pos 141)
    ∷ row 0xa7c5ac471b478423 0x0fcf80dc33721d54 (pos 139)
    ∷ row 0xd1b71758e219652b 0xd3c36113404ea4a9 (pos 137)
    ∷ row 0x83126e978d4fdf3b 0x645a1cac083126e9 (pos 134)
    ∷ row 0xa3d70a3d70a3d70a 0x3d70a3d70a3d70a4 (pos 132)
    ∷ row 0xcccccccccccccccc 0xcccccccccccccccd (pos 130)
    ∷ row 0x8000000000000000 0x0000000000000000 (pos 127)
    ∷ row 0xa000000000000000 0x0000000000000000 (pos 125)
    ∷ row 0xc800000000000000 0x0000000000000000 (pos 123)
    ∷ row 0xfa00000000000000 0x0000000000000000 (pos 121)
    ∷ row 0x9c40000000000000 0x0000000000000000 (pos 118)
    ∷ row 0xc350000000000000 0x0000000000000000 (pos 116)
    ∷ row 0xf424000000000000 0x0000000000000000 (pos 114)
    ∷ row 0x9896800000000000 0x0000000000000000 (pos 111)
    ∷ row 0xbebc200000000000 0x0000000000000000 (pos 109)
    ∷ row 0xee6b280000000000 0x0000000000000000 (pos 107)
    ∷ row 0x9502f90000000000 0x0000000000000000 (pos 104)
    ∷ row 0xba43b74000000000 0x0000000000000000 (pos 102)
    ∷ row 0xe8d4a51000000000 0x0000000000000000 (pos 100)
    ∷ row 0x9184e72a00000000 0x0000000000000000 (pos 97)
    ∷ row 0xb5e620f480000000 0x0000000000000000 (pos 95)
    ∷ row 0xe35fa931a0000000 0x0000000000000000 (pos 93)
    ∷ row 0x8e1bc9bf04000000 0x0000000000000000 (pos 90)
    ∷ row 0xb1a2bc2ec5000000 0x0000000000000000 (pos 88)
    ∷ row 0xde0b6b3a76400000 0x0000000000000000 (pos 86)
    ∷ row 0x8ac7230489e80000 0x0000000000000000 (pos 83)
    ∷ row 0xad78ebc5ac620000 0x0000000000000000 (pos 81)
    ∷ row 0xd8d726b7177a8000 0x0000000000000000 (pos 79)
    ∷ row 0x878678326eac9000 0x0000000000000000 (pos 76)
    ∷ row 0xa968163f0a57b400 0x0000000000000000 (pos 74)
    ∷ row 0xd3c21bcecceda100 0x0000000000000000 (pos 72)
    ∷ row 0x84595161401484a0 0x0000000000000000 (pos 69)
    ∷ row 0xa56fa5b99019a5c8 0x0000000000000000 (pos 67)
    ∷ row 0xcecb8f27f4200f3a 0x0000000000000000 (pos 65)
    ∷ row 0x813f3978f8940984 0x4000000000000000 (pos 62)
    ∷ row 0xa18f07d736b90be5 0x5000000000000000 (pos 60)
    ∷ row 0xc9f2c9cd04674ede 0xa400000000000000 (pos 58)
    ∷ row 0xfc6f7c4045812296 0x4d00000000000000 (pos 56)
    ∷ row 0x9dc5ada82b70b59d 0xf020000000000000 (pos 53)
    ∷ row 0xc5371912364ce305 0x6c28000000000000 (pos 51)
    ∷ row 0xf684df56c3e01bc6 0xc732000000000000 (pos 49)
    ∷ row 0x9a130b963a6c115c 0x3c7f400000000000 (pos 46)
    ∷ row 0xc097ce7bc90715b3 0x4b9f100000000000 (pos 44)
    ∷ row 0xf0bdc21abb48db20 0x1e86d40000000000 (pos 42)
    ∷ row 0x96769950b50d88f4 0x1314448000000000 (pos 39)
    ∷ row 0xbc143fa4e250eb31 0x17d955a000000000 (pos 37)
    ∷ row 0xeb194f8e1ae525fd 0x5dcfab0800000000 (pos 35)
    ∷ row 0x92efd1b8d0cf37be 0x5aa1cae500000000 (pos 32)
    ∷ row 0xb7abc627050305ad 0xf14a3d9e40000000 (pos 30)
    ∷ row 0xe596b7b0c643c719 0x6d9ccd05d0000000 (pos 28)
    ∷ row 0x8f7e32ce7bea5c6f 0xe4820023a2000000 (pos 25)
    ∷ row 0xb35dbf821ae4f38b 0xdda2802c8a800000 (pos 23)
    ∷ row 0xe0352f62a19e306e 0xd50b2037ad200000 (pos 21)
    ∷ row 0x8c213d9da502de45 0x4526f422cc340000 (pos 18)
    ∷ row 0xaf298d050e4395d6 0x9670b12b7f410000 (pos 16)
    ∷ row 0xdaf3f04651d47b4c 0x3c0cdd765f114000 (pos 14)
    ∷ row 0x88d8762bf324cd0f 0xa5880a69fb6ac800 (pos 11)
    ∷ []
