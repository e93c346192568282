-- ===== src/DoubleConvert/Table/Fourth.antt =====
-- The rows of libs/rc2base/support/c/idris2rc2_rc2base_pow5_table.h for the exponents 51 to 181.
use idris2_rc.Prelude.{List, [], ◌∷◌}
use idris2_rc.Prelude.Int.{pos, negsuc}
use idris2_rc.DoubleConvert.Entry.{Pow5Entry, row}

abbrev pub from_51 : List Pow5Entry
from_51 =
    row 0xab0e93b6efee0053 0x8eea0d047a457a00 (pos 9)
    ∷ row 0xd5d238a4abe98068 0x72a4904598d6d880 (pos 7)
    ∷ row 0x85a36366eb71f041 0x47a6da2b7f864750 (pos 4)
    ∷ row 0xa70c3c40a64e6c51 0x999090b65f67d924 (pos 2)
    ∷ row 0xd0cf4b50cfe20765 0xfff4b4e3f741cf6d (pos 0)
    ∷ row 0x82818f1281ed449f 0xbff8f10e7a8921a4 (negsuc 2)
    ∷ row 0xa321f2d7226895c7 0xaff72d52192b6a0d (negsuc 4)
    ∷ row 0xcbea6f8ceb02bb39 0x9bf4f8a69f764490 (negsuc 6)
    ∷ row 0xfee50b7025c36a08 0x02f236d04753d5b5 (negsuc 8)
    ∷ row 0x9f4f2726179a2245 0x01d762422c946591 (negsuc 11)
    ∷ row 0xc722f0ef9d80aad6 0x424d3ad2b7b97ef5 (negsuc 13)
    ∷ row 0xf8ebad2b84e0d58b 0xd2e0898765a7deb2 (negsuc 15)
    ∷ row 0x9b934c3b330c8577 0x63cc55f49f88eb2f (negsuc 18)
    ∷ row 0xc2781f49ffcfa6d5 0x3cbf6b71c76b25fb (negsuc 20)
    ∷ row 0xf316271c7fc3908a 0x8bef464e3945ef7a (negsuc 22)
    ∷ row 0x97edd871cfda3a56 0x97758bf0e3cbb5ac (negsuc 25)
    ∷ row 0xbde94e8e43d0c8ec 0x3d52eeed1cbea317 (negsuc 27)
    ∷ row 0xed63a231d4c4fb27 0x4ca7aaa863ee4bdd (negsuc 29)
    ∷ row 0x945e455f24fb1cf8 0x8fe8caa93e74ef6a (negsuc 32)
    ∷ row 0xb975d6b6ee39e436 0xb3e2fd538e122b45 (negsuc 34)
    ∷ row 0xe7d34c64a9c85d44 0x60dbbca87196b616 (negsuc 36)
    ∷ row 0x90e40fbeea1d3a4a 0xbc8955e946fe31ce (negsuc 39)
    ∷ row 0xb51d13aea4a488dd 0x6babab6398bdbe41 (negsuc 41)
    ∷ row 0xe264589a4dcdab14 0xc696963c7eed2dd2 (negsuc 43)
    ∷ row 0x8d7eb76070a08aec 0xfc1e1de5cf543ca3 (negsuc 46)
    ∷ row 0xb0de65388cc8ada8 0x3b25a55f43294bcc (negsuc 48)
    ∷ row 0xdd15fe86affad912 0x49ef0eb713f39ebf (negsuc 50)
    ∷ row 0x8a2dbf142dfcc7ab 0x6e3569326c784337 (negsuc 53)
    ∷ row 0xacb92ed9397bf996 0x49c2c37f07965405 (negsuc 55)
    ∷ row 0xd7e77a8f87daf7fb 0xdc33745ec97be906 (negsuc 57)
    ∷ row 0x86f0ac99b4e8dafd 0x69a028bb3ded71a4 (negsuc 60)
    ∷ row 0xa8acd7c0222311bc 0xc40832ea0d68ce0d (negsuc 62)
    ∷ row 0xd2d80db02aabd62b 0xf50a3fa490c30190 (negsuc 64)
    ∷ row 0x83c7088e1aab65db 0x792667c6da79e0fa (negsuc 67)
    ∷ row 0xa4b8cab1a1563f52 0x577001b891185939 (negsuc 69)
    ∷ row 0xcde6fd5e09abcf26 0xed4c0226b55e6f87 (negsuc 71)
    ∷ row 0x80b05e5ac60b6178 0x544f8158315b05b4 (negsuc 74)
    ∷ row 0xa0dc75f1778e39d6 0x696361ae3db1c721 (negsuc 76)
    ∷ row 0xc913936dd571c84c 0x03bc3a19cd1e38ea (negsuc 78)
    ∷ row 0xfb5878494ace3a5f 0x04ab48a04065c724 (negsuc 80)
    ∷ row 0x9d174b2dcec0e47b 0x62eb0d64283f9c76 (negsuc 83)
    ∷ row 0xc45d1df942711d9a 0x3ba5d0bd324f8394 (negsuc 85)
    ∷ row 0xf5746577930d6500 0xca8f44ec7ee36479 (negsuc 87)
    ∷ row 0x9968bf6abbe85f20 0x7e998b13cf4e1ecc (negsuc 90)
    ∷ row 0xbfc2ef456ae276e8 0x9e3fedd8c321a67f (negsuc 92)
    ∷ row 0xefb3ab16c59b14a2 0xc5cfe94ef3ea101e (negsuc 94)
    ∷ row 0x95d04aee3b80ece5 0xbba1f1d158724a13 (negsuc 97)
    ∷ row 0xbb445da9ca61281f 0x2a8a6e45ae8edc98 (negsuc 99)
    ∷ row 0xea1575143cf97226 0xf52d09d71a3293be (negsuc 101)
    ∷ row 0x924d692ca61be758 0x593c2626705f9c56 (negsuc 104)
    ∷ row 0xb6e0c377cfa2e12e 0x6f8b2fb00c77836c (negsuc 106)
    ∷ row 0xe498f455c38b997a 0x0b6dfb9c0f956447 (negsuc 108)
    ∷ row 0x8edf98b59a373fec 0x4724bd4189bd5eac (negsuc 111)
    ∷ row 0xb2977ee300c50fe7 0x58edec91ec2cb658 (negsuc 113)
    ∷ row 0xdf3d5e9bc0f653e1 0x2f2967b66737e3ed (negsuc 115)
    ∷ row 0x8b865b215899f46c 0xbd79e0d20082ee74 (negsuc 118)
    ∷ row 0xae67f1e9aec07187 0xecd8590680a3aa11 (negsuc 120)
    ∷ row 0xda01ee641a708de9 0xe80e6f4820cc9496 (negsuc 122)
    ∷ row 0x884134fe908658b2 0x3109058d147fdcde (negsuc 125)
    ∷ row 0xaa51823e34a7eede 0xbd4b46f0599fd415 (negsuc 127)
    ∷ row 0xd4e5e2cdc1d1ea96 0x6c9e18ac7007c91a (negsuc 129)
    ∷ row 0x850fadc09923329e 0x03e2cf6bc604ddb0 (negsuc 132)
    ∷ row 0xa6539930bf6bff45 0x84db8346b786151d (negsuc 134)
    ∷ row 0xcfe87f7cef46ff16 0xe612641865679a64 (negsuc 136)
    ∷ row 0x81f14fae158c5f6e 0x4fcb7e8f3f60c07e (negsuc 139)
    ∷ row 0xa26da3999aef7749 0xe3be5e330f38f09e (negsuc 141)
    ∷ row 0xcb090c8001ab551c 0x5cadf5bfd3072cc5 (negsuc 143)
    ∷ row 0xfdcb4fa002162a63 0x73d9732fc7c8f7f7 (negsuc 145)
    ∷ row 0x9e9f11c4014dda7e 0x2867e7fddcdd9afa (negsuc 148)
    ∷ row 0xc646d63501a1511d 0xb281e1fd541501b9 (negsuc 150)
    ∷ row 0xf7d88bc24209a565 0x1f225a7ca91a4227 (negsuc 152)
    ∷ row 0x9ae757596946075f 0x3375788de9b06958 (negsuc 155)
    ∷ row 0xc1a12d2fc3978937 0x0052d6b1641c83ae (negsuc 157)
    ∷ row 0xf209787bb47d6b84 0xc0678c5dbd23a49a (negsuc 159)
    ∷ row 0x9745eb4d50ce6332 0xf840b7ba963646e0 (negsuc 162)
    ∷ row 0xbd176620a501fbff 0xb650e5a93bc3d898 (negsuc 164)
    ∷ row 0xec5d3fa8ce427aff 0xa3e51f138ab4cebe (negsuc 166)
    ∷ row 0x93ba47c980e98cdf 0xc66f336c36b10137 (negsuc 169)
    ∷ row 0xb8a8d9bbe123f017 0xb80b0047445d4185 (negsuc 171)
    ∷ row 0xe6d3102ad96cec1d 0xa60dc059157491e6 (negsuc 173)
    ∷ row 0x9043ea1ac7e41392 0x87c89837ad68db30 (negsuc 176)
    ∷ row 0xb454e4a179dd1877 0x29babe4598c311fc (negsuc 178)
    ∷ row 0xe16a1dc9d8545e94 0xf4296dd6fef3d67b (negsuc 180)
    ∷ row 0x8ce2529e2734bb1d 0x1899e4a65f58660d (negsuc 183)
    ∷ row 0xb01ae745b101e9e4 0x5ec05dcff72e7f90 (negsuc 185)
    ∷ row 0xdc21a1171d42645d 0x76707543f4fa1f74 (negsuc 187)
    ∷ row 0x899504ae72497eba 0x6a06494a791c53a8 (negsuc 190)
    ∷ row 0xabfa45da0edbde69 0x0487db9d17636892 (negsuc 192)
    ∷ row 0xd6f8d7509292d603 0x45a9d2845d3c42b7 (negsuc 194)
    ∷ row 0x865b86925b9bc5c2 0x0b8a2392ba45a9b2 (negsuc 197)
    ∷ row 0xa7f26836f282b732 0x8e6cac7768d7141f (negsuc 199)
    ∷ row 0xd1ef0244af2364ff 0x3207d795430cd927 (negsuc 201)
    ∷ row 0x8335616aed761f1f 0x7f44e6bd49e807b8 (negsuc 204)
    ∷ row 0xa402b9c5a8d3a6e7 0x5f16206c9c6209a6 (negsuc 206)
    ∷ row 0xcd036837130890a1 0x36dba887c37a8c10 (negsuc 208)
    ∷ row 0x802221226be55a64 0xc2494954da2c978a (negsuc 211)
    ∷ row 0xa02aa96b06deb0fd 0xf2db9baa10b7bd6c (negsuc 213)
    ∷ row 0xc83553c5c8965d3d 0x6f92829494e5acc7 (negsuc 215)
    ∷ row 0xfa42a8b73abbf48c 0xcb772339ba1f17f9 (negsuc 217)
    ∷ row 0x9c69a97284b578d7 0xff2a760414536efc (negsuc 220)
    ∷ row 0xc38413cf25e2d70d 0xfef5138519684abb (negsuc 222)
    ∷ row 0xf46518c2ef5b8cd1 0x7eb258665fc25d69 (negsuc 224)
    ∷ row 0x98bf2f79d5993802 0xef2f773ffbd97a62 (negsuc 227)
    ∷ row 0xbeeefb584aff8603 0xaafb550ffacfd8fa (negsuc 229)
    ∷ row 0xeeaaba2e5dbf6784 0x95ba2a53f983cf39 (negsuc 231)
    ∷ row 0x952ab45cfa97a0b2 0xdd945a747bf26184 (negsuc 234)
    ∷ row 0xba756174393d88df 0x94f971119aeef9e4 (negsuc 236)
    ∷ row 0xe912b9d1478ceb17 0x7a37cd5601aab85e (negsuc 238)
    ∷ row 0x91abb422ccb812ee 0xac62e055c10ab33b (negsuc 241)
    ∷ row 0xb616a12b7fe617aa 0x577b986b314d6009 (negsuc 243)
    ∷ row 0xe39c49765fdf9d94 0xed5a7e85fda0b80b (negsuc 245)
    ∷ row 0x8e41ade9fbebc27d 0x14588f13be847307 (negsuc 248)
    ∷ row 0xb1d219647ae6b31c 0x596eb2d8ae258fc9 (negsuc 250)
    ∷ row 0xde469fbd99a05fe3 0x6fca5f8ed9aef3bb (negsuc 252)
    ∷ row 0x8aec23d680043bee 0x25de7bb9480d5855 (negsuc 255)
    ∷ row 0xada72ccc20054ae9 0xaf561aa79a10ae6a (negsuc 257)
    ∷ row 0xd910f7ff28069da4 0x1b2ba1518094da05 (negsuc 259)
    ∷ row 0x87aa9aff79042286 0x90fb44d2f05d0843 (negsuc 262)
    ∷ row 0xa99541bf57452b28 0x353a1607ac744a54 (negsuc 264)
    ∷ row 0xd3fa922f2d1675f2 0x42889b8997915ce9 (negsuc 266)
    ∷ row 0x847c9b5d7c2e09b7 0x69956135febada11 (negsuc 269)
    ∷ row 0xa59bc234db398c25 0x43fab9837e699096 (negsuc 271)
    ∷ row 0xcf02b2c21207ef2e 0x94f967e45e03f4bb (negsuc 273)
    ∷ row 0x8161afb94b44f57d 0x1d1be0eebac278f5 (negsuc 276)
    ∷ row 0xa1ba1ba79e1632dc 0x6462d92a69731732 (negsuc 278)
    ∷ row 0xca28a291859bbf93 0x7d7b8f7503cfdcff (negsuc 280)
    ∷ row 0xfcb2cb35e702af78 0x5cda735244c3d43f (negsuc 282)
    ∷ row 0x9defbf01b061adab 0x3a0888136afa64a7 (negsuc 285)
    ∷ row 0xc56baec21c7a1916 0x088aaa1845b8fdd1 (negsuc 287)
    ∷ row 0xf6c69a72a3989f5b 0x8aad549e57273d45 (negsuc 289)
    ∷ row 0x9a3c2087a63f6399 0x36ac54e2f678864b (negsuc 292)
    ∷ []
