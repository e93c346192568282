-- ===== src/DoubleConvert/Table/Second.antt =====
-- The rows of libs/rc2base/support/c/idris2rc2_rc2base_pow5_table.h for the exponents -211 to -81.
use idris2_rc.Prelude.{List, [], ◌∷◌}
use idris2_rc.Prelude.Int.{pos}
use idris2_rc.DoubleConvert.Entry.{Pow5Entry, row}

abbrev pub from_m211 : List Pow5Entry
from_m211 =
    row 0x86a8d39ef77164bc 0xae5dff9c02033197 (pos 617)
    ∷ row 0xa8530886b54dbdeb 0xd9f57f830283fdfd (pos 615)
    ∷ row 0xd267caa862a12d66 0xd072df63c324fd7c (pos 613)
    ∷ row 0x8380dea93da4bc60 0x4247cb9e59f71e6d (pos 610)
    ∷ row 0xa46116538d0deb78 0x52d9be85f074e609 (pos 608)
    ∷ row 0xcd795be870516656 0x67902e276c921f8b (pos 606)
    ∷ row 0x806bd9714632dff6 0x00ba1cd8a3db53b7 (pos 603)
    ∷ row 0xa086cfcd97bf97f3 0x80e8a40eccd228a5 (pos 601)
    ∷ row 0xc8a883c0fdaf7df0 0x6122cd128006b2ce (pos 599)
    ∷ row 0xfad2a4b13d1b5d6c 0x796b805720085f81 (pos 597)
    ∷ row 0x9cc3a6eec6311a63 0xcbe3303674053bb1 (pos 594)
    ∷ row 0xc3f490aa77bd60fc 0xbedbfc4411068a9d (pos 592)
    ∷ row 0xf4f1b4d515acb93b 0xee92fb5515482d44 (pos 590)
    ∷ row 0x991711052d8bf3c5 0x751bdd152d4d1c4b (pos 587)
    ∷ row 0xbf5cd54678eef0b6 0xd262d45a78a0635d (pos 585)
    ∷ row 0xef340a98172aace4 0x86fb897116c87c35 (pos 583)
    ∷ row 0x9580869f0e7aac0e 0xd45d35e6ae3d4da1 (pos 580)
    ∷ row 0xbae0a846d2195712 0x8974836059cca109 (pos 578)
    ∷ row 0xe998d258869facd7 0x2bd1a438703fc94b (pos 576)
    ∷ row 0x91ff83775423cc06 0x7b6306a34627ddcf (pos 573)
    ∷ row 0xb67f6455292cbf08 0x1a3bc84c17b1d543 (pos 571)
    ∷ row 0xe41f3d6a7377eeca 0x20caba5f1d9e4a94 (pos 569)
    ∷ row 0x8e938662882af53e 0x547eb47b7282ee9c (pos 566)
    ∷ row 0xb23867fb2a35b28d 0xe99e619a4f23aa43 (pos 564)
    ∷ row 0xdec681f9f4c31f31 0x6405fa00e2ec94d4 (pos 562)
    ∷ row 0x8b3c113c38f9f37e 0xde83bc408dd3dd05 (pos 559)
    ∷ row 0xae0b158b4738705e 0x9624ab50b148d446 (pos 557)
    ∷ row 0xd98ddaee19068c76 0x3badd624dd9b0957 (pos 555)
    ∷ row 0x87f8a8d4cfa417c9 0xe54ca5d70a80e5d6 (pos 552)
    ∷ row 0xa9f6d30a038d1dbc 0x5e9fcf4ccd211f4c (pos 550)
    ∷ row 0xd47487cc8470652b 0x7647c3200069671f (pos 548)
    ∷ row 0x84c8d4dfd2c63f3b 0x29ecd9f40041e073 (pos 545)
    ∷ row 0xa5fb0a17c777cf09 0xf468107100525890 (pos 543)
    ∷ row 0xcf79cc9db955c2cc 0x7182148d4066eeb4 (pos 541)
    ∷ row 0x81ac1fe293d599bf 0xc6f14cd848405531 (pos 538)
    ∷ row 0xa21727db38cb002f 0xb8ada00e5a506a7d (pos 536)
    ∷ row 0xca9cf1d206fdc03b 0xa6d90811f0e4851c (pos 534)
    ∷ row 0xfd442e4688bd304a 0x908f4a166d1da663 (pos 532)
    ∷ row 0x9e4a9cec15763e2e 0x9a598e4e043287fe (pos 529)
    ∷ row 0xc5dd44271ad3cdba 0x40eff1e1853f29fe (pos 527)
    ∷ row 0xf7549530e188c128 0xd12bee59e68ef47d (pos 525)
    ∷ row 0x9a94dd3e8cf578b9 0x82bb74f8301958ce (pos 522)
    ∷ row 0xc13a148e3032d6e7 0xe36a52363c1faf02 (pos 520)
    ∷ row 0xf18899b1bc3f8ca1 0xdc44e6c3cb279ac2 (pos 518)
    ∷ row 0x96f5600f15a7b7e5 0x29ab103a5ef8c0b9 (pos 515)
    ∷ row 0xbcb2b812db11a5de 0x7415d448f6b6f0e8 (pos 513)
    ∷ row 0xebdf661791d60f56 0x111b495b3464ad21 (pos 511)
    ∷ row 0x936b9fcebb25c995 0xcab10dd900beec35 (pos 508)
    ∷ row 0xb84687c269ef3bfb 0x3d5d514f40eea742 (pos 506)
    ∷ row 0xe65829b3046b0afa 0x0cb4a5a3112a5113 (pos 504)
    ∷ row 0x8ff71a0fe2c2e6dc 0x47f0e785eaba72ac (pos 501)
    ∷ row 0xb3f4e093db73a093 0x59ed216765690f57 (pos 499)
    ∷ row 0xe0f218b8d25088b8 0x306869c13ec3532c (pos 497)
    ∷ row 0x8c974f7383725573 0x1e414218c73a13fc (pos 494)
    ∷ row 0xafbd2350644eeacf 0xe5d1929ef90898fb (pos 492)
    ∷ row 0xdbac6c247d62a583 0xdf45f746b74abf39 (pos 490)
    ∷ row 0x894bc396ce5da772 0x6b8bba8c328eb784 (pos 487)
    ∷ row 0xab9eb47c81f5114f 0x066ea92f3f326565 (pos 485)
    ∷ row 0xd686619ba27255a2 0xc80a537b0efefebe (pos 483)
    ∷ row 0x8613fd0145877585 0xbd06742ce95f5f37 (pos 480)
    ∷ row 0xa798fc4196e952e7 0x2c48113823b73704 (pos 478)
    ∷ row 0xd17f3b51fca3a7a0 0xf75a15862ca504c5 (pos 476)
    ∷ row 0x82ef85133de648c4 0x9a984d73dbe722fb (pos 473)
    ∷ row 0xa3ab66580d5fdaf5 0xc13e60d0d2e0ebba (pos 471)
    ∷ row 0xcc963fee10b7d1b3 0x318df905079926a9 (pos 469)
    ∷ row 0xffbbcfe994e5c61f 0xfdf17746497f7053 (pos 467)
    ∷ row 0x9fd561f1fd0f9bd3 0xfeb6ea8bedefa634 (pos 464)
    ∷ row 0xc7caba6e7c5382c8 0xfe64a52ee96b8fc1 (pos 462)
    ∷ row 0xf9bd690a1b68637b 0x3dfdce7aa3c673b1 (pos 460)
    ∷ row 0x9c1661a651213e2d 0x06bea10ca65c084f (pos 457)
    ∷ row 0xc31bfa0fe5698db8 0x486e494fcff30a62 (pos 455)
    ∷ row 0xf3e2f893dec3f126 0x5a89dba3c3efccfb (pos 453)
    ∷ row 0x986ddb5c6b3a76b7 0xf89629465a75e01d (pos 450)
    ∷ row 0xbe89523386091465 0xf6bbb397f1135824 (pos 448)
    ∷ row 0xee2ba6c0678b597f 0x746aa07ded582e2d (pos 446)
    ∷ row 0x94db483840b717ef 0xa8c2a44eb4571cdc (pos 443)
    ∷ row 0xba121a4650e4ddeb 0x92f34d62616ce413 (pos 441)
    ∷ row 0xe896a0d7e51e1566 0x77b020baf9c81d18 (pos 439)
    ∷ row 0x915e2486ef32cd60 0x0ace1474dc1d122f (pos 436)
    ∷ row 0xb5b5ada8aaff80b8 0x0d819992132456bb (pos 434)
    ∷ row 0xe3231912d5bf60e6 0x10e1fff697ed6c69 (pos 432)
    ∷ row 0x8df5efabc5979c8f 0xca8d3ffa1ef463c2 (pos 429)
    ∷ row 0xb1736b96b6fd83b3 0xbd308ff8a6b17cb2 (pos 427)
    ∷ row 0xddd0467c64bce4a0 0xac7cb3f6d05ddbdf (pos 425)
    ∷ row 0x8aa22c0dbef60ee4 0x6bcdf07a423aa96b (pos 422)
    ∷ row 0xad4ab7112eb3929d 0x86c16c98d2c953c6 (pos 420)
    ∷ row 0xd89d64d57a607744 0xe871c7bf077ba8b8 (pos 418)
    ∷ row 0x87625f056c7c4a8b 0x11471cd764ad4973 (pos 415)
    ∷ row 0xa93af6c6c79b5d2d 0xd598e40d3dd89bcf (pos 413)
    ∷ row 0xd389b47879823479 0x4aff1d108d4ec2c3 (pos 411)
    ∷ row 0x843610cb4bf160cb 0xcedf722a585139ba (pos 408)
    ∷ row 0xa54394fe1eedb8fe 0xc2974eb4ee658829 (pos 406)
    ∷ row 0xce947a3da6a9273e 0x733d226229feea33 (pos 404)
    ∷ row 0x811ccc668829b887 0x0806357d5a3f5260 (pos 401)
    ∷ row 0xa163ff802a3426a8 0xca07c2dcb0cf26f8 (pos 399)
    ∷ row 0xc9bcff6034c13052 0xfc89b393dd02f0b6 (pos 397)
    ∷ row 0xfc2c3f3841f17c67 0xbbac2078d443ace3 (pos 395)
    ∷ row 0x9d9ba7832936edc0 0xd54b944b84aa4c0e (pos 392)
    ∷ row 0xc5029163f384a931 0x0a9e795e65d4df11 (pos 390)
    ∷ row 0xf64335bcf065d37d 0x4d4617b5ff4a16d6 (pos 388)
    ∷ row 0x99ea0196163fa42e 0x504bced1bf8e4e46 (pos 385)
    ∷ row 0xc06481fb9bcf8d39 0xe45ec2862f71e1d7 (pos 383)
    ∷ row 0xf07da27a82c37088 0x5d767327bb4e5a4d (pos 381)
    ∷ row 0x964e858c91ba2655 0x3a6a07f8d510f870 (pos 378)
    ∷ row 0xbbe226efb628afea 0x890489f70a55368c (pos 376)
    ∷ row 0xeadab0aba3b2dbe5 0x2b45ac74ccea842f (pos 374)
    ∷ row 0x92c8ae6b464fc96f 0x3b0b8bc90012929d (pos 371)
    ∷ row 0xb77ada0617e3bbcb 0x09ce6ebb40173745 (pos 369)
    ∷ row 0xe55990879ddcaabd 0xcc420a6a101d0516 (pos 367)
    ∷ row 0x8f57fa54c2a9eab6 0x9fa946824a12232e (pos 364)
    ∷ row 0xb32df8e9f3546564 0x47939822dc96abf9 (pos 362)
    ∷ row 0xdff9772470297ebd 0x59787e2b93bc56f7 (pos 360)
    ∷ row 0x8bfbea76c619ef36 0x57eb4edb3c55b65b (pos 357)
    ∷ row 0xaefae51477a06b03 0xede622920b6b23f1 (pos 355)
    ∷ row 0xdab99e59958885c4 0xe95fab368e45eced (pos 353)
    ∷ row 0x88b402f7fd75539b 0x11dbcb0218ebb414 (pos 350)
    ∷ row 0xaae103b5fcd2a881 0xd652bdc29f26a11a (pos 348)
    ∷ row 0xd59944a37c0752a2 0x4be76d3346f04960 (pos 346)
    ∷ row 0x857fcae62d8493a5 0x6f70a4400c562ddc (pos 343)
    ∷ row 0xa6dfbd9fb8e5b88e 0xcb4ccd500f6bb953 (pos 341)
    ∷ row 0xd097ad07a71f26b2 0x7e2000a41346a7a8 (pos 339)
    ∷ row 0x825ecc24c873782f 0x8ed400668c0c28c9 (pos 336)
    ∷ row 0xa2f67f2dfa90563b 0x728900802f0f32fb (pos 334)
    ∷ row 0xcbb41ef979346bca 0x4f2b40a03ad2ffba (pos 332)
    ∷ row 0xfea126b7d78186bc 0xe2f610c84987bfa8 (pos 330)
    ∷ row 0x9f24b832e6b0f436 0x0dd9ca7d2df4d7c9 (pos 327)
    ∷ row 0xc6ede63fa05d3143 0x91503d1c79720dbb (pos 325)
    ∷ row 0xf8a95fcf88747d94 0x75a44c6397ce912a (pos 323)
    ∷ row 0x9b69dbe1b548ce7c 0xc986afbe3ee11aba (pos 320)
    ∷ row 0xc24452da229b021b 0xfbe85badce996169 (pos 318)
    ∷ row 0xf2d56790ab41c2a2 0xfae27299423fb9c3 (pos 316)
    ∷ []
