-- ===== src/DoubleConvert/Table/Fifth.antt =====
-- The rows of libs/rc2base/support/c/idris2rc2_rc2base_pow5_table.h for the exponents 182 to 308.
use idris2_rc.Prelude.{List, [], ◌∷◌}
use idris2_rc.Prelude.Int.{negsuc}
use idris2_rc.DoubleConvert.Entry.{Pow5Entry, row}

abbrev pub from_182 : List Pow5Entry
from_182 =
    row 0xc0cb28a98fcf3c7f 0x84576a1bb416a7de (negsuc 294)
    ∷ row 0xf0fdf2d3f3c30b9f 0x656d44a2a11c51d5 (negsuc 296)
    ∷ row 0x969eb7c47859e743 0x9f644ae5a4b1b325 (negsuc 299)
    ∷ row 0xbc4665b596706114 0x873d5d9f0dde1fef (negsuc 301)
    ∷ row 0xeb57ff22fc0c7959 0xa90cb506d155a7ea (negsuc 303)
    ∷ row 0x9316ff75dd87cbd8 0x09a7f12442d588f3 (negsuc 306)
    ∷ row 0xb7dcbf5354e9bece 0x0c11ed6d538aeb2f (negsuc 308)
    ∷ row 0xe5d3ef282a242e81 0x8f1668c8a86da5fb (negsuc 310)
    ∷ row 0x8fa475791a569d10 0xf96e017d694487bd (negsuc 313)
    ∷ row 0xb38d92d760ec4455 0x37c981dcc395a9ac (negsuc 315)
    ∷ row 0xe070f78d3927556a 0x85bbe253f47b1417 (negsuc 317)
    ∷ row 0x8c469ab843b89562 0x93956d7478ccec8e (negsuc 320)
    ∷ row 0xaf58416654a6babb 0x387ac8d1970027b2 (negsuc 322)
    ∷ row 0xdb2e51bfe9d0696a 0x06997b05fcc0319f (negsuc 324)
    ∷ row 0x88fcf317f22241e2 0x441fece3bdf81f03 (negsuc 327)
    ∷ row 0xab3c2fddeeaad25a 0xd527e81cad7626c4 (negsuc 329)
    ∷ row 0xd60b3bd56a5586f1 0x8a71e223d8d3b075 (negsuc 331)
    ∷ row 0x85c7056562757456 0xf6872d5667844e49 (negsuc 334)
    ∷ row 0xa738c6bebb12d16c 0xb428f8ac016561db (negsuc 336)
    ∷ row 0xd106f86e69d785c7 0xe13336d701beba52 (negsuc 338)
    ∷ row 0x82a45b450226b39c 0xecc0024661173473 (negsuc 341)
    ∷ row 0xa34d721642b06084 0x27f002d7f95d0190 (negsuc 343)
    ∷ row 0xcc20ce9bd35c78a5 0x31ec038df7b441f4 (negsuc 345)
    ∷ row 0xff290242c83396ce 0x7e67047175a15271 (negsuc 347)
    ∷ row 0x9f79a169bd203e41 0x0f0062c6e984d387 (negsuc 350)
    ∷ row 0xc75809c42c684dd1 0x52c07b78a3e60868 (negsuc 352)
    ∷ row 0xf92e0c3537826145 0xa7709a56ccdf8a83 (negsuc 354)
    ∷ row 0x9bbcc7a142b17ccb 0x88a66076400bb692 (negsuc 357)
    ∷ row 0xc2abf989935ddbfe 0x6acff893d00ea436 (negsuc 359)
    ∷ row 0xf356f7ebf83552fe 0x0583f6b8c4124d43 (negsuc 361)
    ∷ row 0x98165af37b2153de 0xc3727a337a8b704a (negsuc 364)
    ∷ row 0xbe1bf1b059e9a8d6 0x744f18c0592e4c5d (negsuc 366)
    ∷ row 0xeda2ee1c7064130c 0x1162def06f79df74 (negsuc 368)
    ∷ row 0x9485d4d1c63e8be7 0x8addcb5645ac2ba8 (negsuc 371)
    ∷ row 0xb9a74a0637ce2ee1 0x6d953e2bd7173693 (negsuc 373)
    ∷ row 0xe8111c87c5c1ba99 0xc8fa8db6ccdd0437 (negsuc 375)
    ∷ row 0x910ab1d4db9914a0 0x1d9c9892400a22a2 (negsuc 378)
    ∷ row 0xb54d5e4a127f59c8 0x2503beb6d00cab4b (negsuc 380)
    ∷ row 0xe2a0b5dc971f303a 0x2e44ae64840fd61e (negsuc 382)
    ∷ row 0x8da471a9de737e24 0x5ceaecfed289e5d3 (negsuc 385)
    ∷ row 0xb10d8e1456105dad 0x7425a83e872c5f47 (negsuc 387)
    ∷ row 0xdd50f1996b947518 0xd12f124e28f77719 (negsuc 389)
    ∷ row 0x8a5296ffe33cc92f 0x82bd6b70d99aaa70 (negsuc 392)
    ∷ row 0xace73cbfdc0bfb7b 0x636cc64d1001550c (negsuc 394)
    ∷ row 0xd8210befd30efa5a 0x3c47f7e05401aa4f (negsuc 396)
    ∷ row 0x8714a775e3e95c78 0x65acfaec34810a71 (negsuc 399)
    ∷ row 0xa8d9d1535ce3b396 0x7f1839a741a14d0d (negsuc 401)
    ∷ row 0xd31045a8341ca07c 0x1ede48111209a051 (negsuc 403)
    ∷ row 0x83ea2b892091e44d 0x934aed0aab460432 (negsuc 406)
    ∷ row 0xa4e4b66b68b65d60 0xf81da84d5617853f (negsuc 408)
    ∷ row 0xce1de40642e3f4b9 0x36251260ab9d668f (negsuc 410)
    ∷ row 0x80d2ae83e9ce78f3 0xc1d72b7c6b426019 (negsuc 413)
    ∷ row 0xa1075a24e4421730 0xb24cf65b8612f820 (negsuc 415)
    ∷ row 0xc94930ae1d529cfc 0xdee033f26797b628 (negsuc 417)
    ∷ row 0xfb9b7cd9a4a7443c 0x169840ef017da3b1 (negsuc 419)
    ∷ row 0x9d412e0806e88aa5 0x8e1f289560ee864f (negsuc 422)
    ∷ row 0xc491798a08a2ad4e 0xf1a6f2bab92a27e3 (negsuc 424)
    ∷ row 0xf5b5d7ec8acb58a2 0xae10af696774b1db (negsuc 426)
    ∷ row 0x9991a6f3d6bf1765 0xacca6da1e0a8ef29 (negsuc 429)
    ∷ row 0xbff610b0cc6edd3f 0x17fd090a58d32af3 (negsuc 431)
    ∷ row 0xeff394dcff8a948e 0xddfc4b4cef07f5b0 (negsuc 433)
    ∷ row 0x95f83d0a1fb69cd9 0x4abdaf101564f98e (negsuc 436)
    ∷ row 0xbb764c4ca7a4440f 0x9d6d1ad41abe37f2 (negsuc 438)
    ∷ row 0xea53df5fd18d5513 0x84c86189216dc5ee (negsuc 440)
    ∷ row 0x92746b9be2f8552c 0x32fd3cf5b4e49bb5 (negsuc 443)
    ∷ row 0xb7118682dbb66a77 0x3fbc8c33221dc2a2 (negsuc 445)
    ∷ row 0xe4d5e82392a40515 0x0fabaf3feaa5334a (negsuc 447)
    ∷ row 0x8f05b1163ba6832d 0x29cb4d87f2a7400e (negsuc 450)
    ∷ row 0xb2c71d5bca9023f8 0x743e20e9ef511012 (negsuc 452)
    ∷ row 0xdf78e4b2bd342cf6 0x914da9246b255417 (negsuc 454)
    ∷ row 0x8bab8eefb6409c1a 0x1ad089b6c2f7548e (negsuc 457)
    ∷ row 0xae9672aba3d0c320 0xa184ac2473b529b2 (negsuc 459)
    ∷ row 0xda3c0f568cc4f3e8 0xc9e5d72d90a2741e (negsuc 461)
    ∷ row 0x8865899617fb1871 0x7e2fa67c7a658893 (negsuc 464)
    ∷ row 0xaa7eebfb9df9de8d 0xddbb901b98feeab8 (negsuc 466)
    ∷ row 0xd51ea6fa85785631 0x552a74227f3ea565 (negsuc 468)
    ∷ row 0x8533285c936b35de 0xd53a88958f87275f (negsuc 471)
    ∷ row 0xa67ff273b8460356 0x8a892abaf368f137 (negsuc 473)
    ∷ row 0xd01fef10a657842c 0x2d2b7569b0432d85 (negsuc 475)
    ∷ row 0x8213f56a67f6b29b 0x9c3b29620e29fc73 (negsuc 478)
    ∷ row 0xa298f2c501f45f42 0x8349f3ba91b47b90 (negsuc 480)
    ∷ row 0xcb3f2f7642717713 0x241c70a936219a74 (negsuc 482)
    ∷ row 0xfe0efb53d30dd4d7 0xed238cd383aa0111 (negsuc 484)
    ∷ row 0x9ec95d1463e8a506 0xf4363804324a40ab (negsuc 487)
    ∷ row 0xc67bb4597ce2ce48 0xb143c6053edcd0d5 (negsuc 489)
    ∷ row 0xf81aa16fdc1b81da 0xdd94b7868e94050a (negsuc 491)
    ∷ row 0x9b10a4e5e9913128 0xca7cf2b4191c8327 (negsuc 494)
    ∷ row 0xc1d4ce1f63f57d72 0xfd1c2f611f63a3f0 (negsuc 496)
    ∷ row 0xf24a01a73cf2dccf 0xbc633b39673c8cec (negsuc 498)
    ∷ row 0x976e41088617ca01 0xd5be0503e085d814 (negsuc 501)
    ∷ row 0xbd49d14aa79dbc82 0x4b2d8644d8a74e19 (negsuc 503)
    ∷ row 0xec9c459d51852ba2 0xddf8e7d60ed1219f (negsuc 505)
    ∷ row 0x93e1ab8252f33b45 0xcabb90e5c942b503 (negsuc 508)
    ∷ row 0xb8da1662e7b00a17 0x3d6a751f3b936244 (negsuc 510)
    ∷ row 0xe7109bfba19c0c9d 0x0cc512670a783ad5 (negsuc 512)
    ∷ row 0x906a617d450187e2 0x27fb2b80668b24c5 (negsuc 515)
    ∷ row 0xb484f9dc9641e9da 0xb1f9f660802dedf6 (negsuc 517)
    ∷ row 0xe1a63853bbd26451 0x5e7873f8a0396974 (negsuc 519)
    ∷ row 0x8d07e33455637eb2 0xdb0b487b6423e1e8 (negsuc 522)
    ∷ row 0xb049dc016abc5e5f 0x91ce1a9a3d2cda63 (negsuc 524)
    ∷ row 0xdc5c5301c56b75f7 0x7641a140cc7810fb (negsuc 526)
    ∷ row 0x89b9b3e11b6329ba 0xa9e904c87fcb0a9d (negsuc 529)
    ∷ row 0xac2820d9623bf429 0x546345fa9fbdcd44 (negsuc 531)
    ∷ row 0xd732290fbacaf133 0xa97c177947ad4095 (negsuc 533)
    ∷ row 0x867f59a9d4bed6c0 0x49ed8eabcccc485d (negsuc 536)
    ∷ row 0xa81f301449ee8c70 0x5c68f256bfff5a75 (negsuc 538)
    ∷ row 0xd226fc195c6a2f8c 0x73832eec6fff3112 (negsuc 540)
    ∷ row 0x83585d8fd9c25db7 0xc831fd53c5ff7eab (negsuc 543)
    ∷ row 0xa42e74f3d032f525 0xba3e7ca8b77f5e56 (negsuc 545)
    ∷ row 0xcd3a1230c43fb26f 0x28ce1bd2e55f35eb (negsuc 547)
    ∷ row 0x80444b5e7aa7cf85 0x7980d163cf5b81b3 (negsuc 550)
    ∷ row 0xa0555e361951c366 0xd7e105bcc3326220 (negsuc 552)
    ∷ row 0xc86ab5c39fa63440 0x8dd9472bf3fefaa8 (negsuc 554)
    ∷ row 0xfa856334878fc150 0xb14f98f6f0feb952 (negsuc 556)
    ∷ row 0x9c935e00d4b9d8d2 0x6ed1bf9a569f33d3 (negsuc 559)
    ∷ row 0xc3b8358109e84f07 0x0a862f80ec4700c8 (negsuc 561)
    ∷ row 0xf4a642e14c6262c8 0xcd27bb612758c0fa (negsuc 563)
    ∷ row 0x98e7e9cccfbd7dbd 0x8038d51cb897789c (negsuc 566)
    ∷ row 0xbf21e44003acdd2c 0xe0470a63e6bd56c3 (negsuc 568)
    ∷ row 0xeeea5d5004981478 0x1858ccfce06cac74 (negsuc 570)
    ∷ row 0x95527a5202df0ccb 0x0f37801e0c43ebc9 (negsuc 573)
    ∷ row 0xbaa718e68396cffd 0xd30560258f54e6bb (negsuc 575)
    ∷ row 0xe950df20247c83fd 0x47c6b82ef32a2069 (negsuc 577)
    ∷ row 0x91d28b7416cdd27e 0x4cdc331d57fa5442 (negsuc 580)
    ∷ row 0xb6472e511c81471d 0xe0133fe4adf8e952 (negsuc 582)
    ∷ row 0xe3d8f9e563a198e5 0x58180fddd97723a7 (negsuc 584)
    ∷ row 0x8e679c2f5e44ff8f 0x570f09eaa7ea7648 (negsuc 587)
    ∷ []
