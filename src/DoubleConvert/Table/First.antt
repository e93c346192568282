-- ===== src/DoubleConvert/Table/First.antt =====
-- The rows of libs/rc2base/support/c/idris2rc2_rc2base_pow5_table.h for the exponents -342 to -212.
use idris2_rc.Prelude.{List, [], ◌∷◌}
use idris2_rc.Prelude.Int.{pos}
use idris2_rc.DoubleConvert.Entry.{Pow5Entry, row}

abbrev pub from_m342 : List Pow5Entry
from_m342 =
    row 0xeef453d6923bd65a 0x113faa2906a13b40 (pos 922)
    ∷ row 0x9558b4661b6565f8 0x4ac7ca59a424c508 (pos 919)
    ∷ row 0xbaaee17fa23ebf76 0x5d79bcf00d2df64a (pos 917)
    ∷ row 0xe95a99df8ace6f53 0xf4d82c2c107973dc (pos 915)
    ∷ row 0x91d8a02bb6c10594 0x79071b9b8a4be86a (pos 912)
    ∷ row 0xb64ec836a47146f9 0x9748e2826cdee284 (pos 910)
    ∷ row 0xe3e27a444d8d98b7 0xfd1b1b2308169b25 (pos 908)
    ∷ row 0x8e6d8c6ab0787f72 0xfe30f0f5e50e20f7 (pos 905)
    ∷ row 0xb208ef855c969f4f 0xbdbd2d335e51a935 (pos 903)
    ∷ row 0xde8b2b66b3bc4723 0xad2c788035e61382 (pos 901)
    ∷ row 0x8b16fb203055ac76 0x4c3bcb5021afcc31 (pos 898)
    ∷ row 0xaddcb9e83c6b1793 0xdf4abe242a1bbf3e (pos 896)
    ∷ row 0xd953e8624b85dd78 0xd71d6dad34a2af0d (pos 894)
    ∷ row 0x87d4713d6f33aa6b 0x8672648c40e5ad68 (pos 891)
    ∷ row 0xa9c98d8ccb009506 0x680efdaf511f18c2 (pos 889)
    ∷ row 0xd43bf0effdc0ba48 0x0212bd1b2566def3 (pos 887)
    ∷ row 0x84a57695fe98746d 0x014bb630f7604b58 (pos 884)
    ∷ row 0xa5ced43b7e3e9188 0x419ea3bd35385e2e (pos 882)
    ∷ row 0xcf42894a5dce35ea 0x52064cac828675b9 (pos 880)
    ∷ row 0x818995ce7aa0e1b2 0x7343efebd1940994 (pos 877)
    ∷ row 0xa1ebfb4219491a1f 0x1014ebe6c5f90bf9 (pos 875)
    ∷ row 0xca66fa129f9b60a6 0xd41a26e077774ef7 (pos 873)
    ∷ row 0xfd00b897478238d0 0x8920b098955522b5 (pos 871)
    ∷ row 0x9e20735e8cb16382 0x55b46e5f5d5535b1 (pos 868)
    ∷ row 0xc5a890362fddbc62 0xeb2189f734aa831d (pos 866)
    ∷ row 0xf712b443bbd52b7b 0xa5e9ec7501d523e4 (pos 864)
    ∷ row 0x9a6bb0aa55653b2d 0x47b233c92125366f (pos 861)
    ∷ row 0xc1069cd4eabe89f8 0x999ec0bb696e840a (pos 859)
    ∷ row 0xf148440a256e2c76 0xc00670ea43ca250d (pos 857)
    ∷ row 0x96cd2a865764dbca 0x380406926a5e5728 (pos 854)
    ∷ row 0xbc807527ed3e12bc 0xc605083704f5ecf2 (pos 852)
    ∷ row 0xeba09271e88d976b 0xf7864a44c633682f (pos 850)
    ∷ row 0x93445b8731587ea3 0x7ab3ee6afbe0211d (pos 847)
    ∷ row 0xb8157268fdae9e4c 0x5960ea05bad82965 (pos 845)
    ∷ row 0xe61acf033d1a45df 0x6fb92487298e33be (pos 843)
    ∷ row 0x8fd0c16206306bab 0xa5d3b6d479f8e057 (pos 840)
    ∷ row 0xb3c4f1ba87bc8696 0x8f48a4899877186c (pos 838)
    ∷ row 0xe0b62e2929aba83c 0x331acdabfe94de87 (pos 836)
    ∷ row 0x8c71dcd9ba0b4925 0x9ff0c08b7f1d0b15 (pos 833)
    ∷ row 0xaf8e5410288e1b6f 0x07ecf0ae5ee44dda (pos 831)
    ∷ row 0xdb71e91432b1a24a 0xc9e82cd9f69d6150 (pos 829)
    ∷ row 0x892731ac9faf056e 0xbe311c083a225cd2 (pos 826)
    ∷ row 0xab70fe17c79ac6ca 0x6dbd630a48aaf407 (pos 824)
    ∷ row 0xd64d3d9db981787d 0x092cbbccdad5b108 (pos 822)
    ∷ row 0x85f0468293f0eb4e 0x25bbf56008c58ea5 (pos 819)
    ∷ row 0xa76c582338ed2621 0xaf2af2b80af6f24e (pos 817)
    ∷ row 0xd1476e2c07286faa 0x1af5af660db4aee2 (pos 815)
    ∷ row 0x82cca4db847945ca 0x50d98d9fc890ed4d (pos 812)
    ∷ row 0xa37fce126597973c 0xe50ff107bab528a1 (pos 810)
    ∷ row 0xcc5fc196fefd7d0c 0x1e53ed49a96272c9 (pos 808)
    ∷ row 0xff77b1fcbebcdc4f 0x25e8e89c13bb0f7b (pos 806)
    ∷ row 0x9faacf3df73609b1 0x77b191618c54e9ad (pos 803)
    ∷ row 0xc795830d75038c1d 0xd59df5b9ef6a2418 (pos 801)
    ∷ row 0xf97ae3d0d2446f25 0x4b0573286b44ad1e (pos 799)
    ∷ row 0x9becce62836ac577 0x4ee367f9430aec33 (pos 796)
    ∷ row 0xc2e801fb244576d5 0x229c41f793cda73f (pos 794)
    ∷ row 0xf3a20279ed56d48a 0x6b43527578c1110f (pos 792)
    ∷ row 0x9845418c345644d6 0x830a13896b78aaaa (pos 789)
    ∷ row 0xbe5691ef416bd60c 0x23cc986bc656d554 (pos 787)
    ∷ row 0xedec366b11c6cb8f 0x2cbfbe86b7ec8aa9 (pos 785)
    ∷ row 0x94b3a202eb1c3f39 0x7bf7d71432f3d6aa (pos 782)
    ∷ row 0xb9e08a83a5e34f07 0xdaf5ccd93fb0cc54 (pos 780)
    ∷ row 0xe858ad248f5c22c9 0xd1b3400f8f9cff69 (pos 778)
    ∷ row 0x91376c36d99995be 0x23100809b9c21fa2 (pos 775)
    ∷ row 0xb58547448ffffb2d 0xabd40a0c2832a78a (pos 773)
    ∷ row 0xe2e69915b3fff9f9 0x16c90c8f323f516d (pos 771)
    ∷ row 0x8dd01fad907ffc3b 0xae3da7d97f6792e4 (pos 768)
    ∷ row 0xb1442798f49ffb4a 0x99cd11cfdf41779d (pos 766)
    ∷ row 0xdd95317f31c7fa1d 0x40405643d711d584 (pos 764)
    ∷ row 0x8a7d3eef7f1cfc52 0x482835ea666b2572 (pos 761)
    ∷ row 0xad1c8eab5ee43b66 0xda3243650005eecf (pos 759)
    ∷ row 0xd863b256369d4a40 0x90bed43e40076a83 (pos 757)
    ∷ row 0x873e4f75e2224e68 0x5a7744a6e804a292 (pos 754)
    ∷ row 0xa90de3535aaae202 0x711515d0a205cb36 (pos 752)
    ∷ row 0xd3515c2831559a83 0x0d5a5b44ca873e04 (pos 750)
    ∷ row 0x8412d9991ed58091 0xe858790afe9486c2 (pos 747)
    ∷ row 0xa5178fff668ae0b6 0x626e974dbe39a873 (pos 745)
    ∷ row 0xce5d73ff402d98e3 0xfb0a3d212dc81290 (pos 743)
    ∷ row 0x80fa687f881c7f8e 0x7ce66634bc9d0b9a (pos 740)
    ∷ row 0xa139029f6a239f72 0x1c1fffc1ebc44e80 (pos 738)
    ∷ row 0xc987434744ac874e 0xa327ffb266b56220 (pos 736)
    ∷ row 0xfbe9141915d7a922 0x4bf1ff9f0062baa8 (pos 734)
    ∷ row 0x9d71ac8fada6c9b5 0x6f773fc3603db4a9 (pos 731)
    ∷ row 0xc4ce17b399107c22 0xcb550fb4384d21d4 (pos 729)
    ∷ row 0xf6019da07f549b2b 0x7e2a53a146606a48 (pos 727)
    ∷ row 0x99c102844f94e0fb 0x2eda7444cbfc426d (pos 724)
    ∷ row 0xc0314325637a1939 0xfa911155fefb5309 (pos 722)
    ∷ row 0xf03d93eebc589f88 0x793555ab7eba27cb (pos 720)
    ∷ row 0x96267c7535b763b5 0x4bc1558b2f3458df (pos 717)
    ∷ row 0xbbb01b9283253ca2 0x9eb1aaedfb016f16 (pos 715)
    ∷ row 0xea9c227723ee8bcb 0x465e15a979c1cadc (pos 713)
    ∷ row 0x92a1958a7675175f 0x0bfacd89ec191eca (pos 710)
    ∷ row 0xb749faed14125d36 0xcef980ec671f667c (pos 708)
    ∷ row 0xe51c79a85916f484 0x82b7e12780e7401b (pos 706)
    ∷ row 0x8f31cc0937ae58d2 0xd1b2ecb8b0908811 (pos 703)
    ∷ row 0xb2fe3f0b8599ef07 0x861fa7e6dcb4aa15 (pos 701)
    ∷ row 0xdfbdcece67006ac9 0x67a791e093e1d49a (pos 699)
    ∷ row 0x8bd6a141006042bd 0xe0c8bb2c5c6d24e0 (pos 696)
    ∷ row 0xaecc49914078536d 0x58fae9f773886e19 (pos 694)
    ∷ row 0xda7f5bf590966848 0xaf39a475506a899f (pos 692)
    ∷ row 0x888f99797a5e012d 0x6d8406c952429603 (pos 689)
    ∷ row 0xaab37fd7d8f58178 0xc8e5087ba6d33b84 (pos 687)
    ∷ row 0xd5605fcdcf32e1d6 0xfb1e4a9a90880a65 (pos 685)
    ∷ row 0x855c3be0a17fcd26 0x5cf2eea09a55067f (pos 682)
    ∷ row 0xa6b34ad8c9dfc06f 0xf42faa48c0ea481f (pos 680)
    ∷ row 0xd0601d8efc57b08b 0xf13b94daf124da27 (pos 678)
    ∷ row 0x823c12795db6ce57 0x76c53d08d6b70858 (pos 675)
    ∷ row 0xa2cb1717b52481ed 0x54768c4b0c64ca6e (pos 673)
    ∷ row 0xcb7ddcdda26da268 0xa9942f5dcf7dfd0a (pos 671)
    ∷ row 0xfe5d54150b090b02 0xd3f93b35435d7c4c (pos 669)
    ∷ row 0x9efa548d26e5a6e1 0xc47bc5014a1a6db0 (pos 666)
    ∷ row 0xc6b8e9b0709f109a 0x359ab6419ca1091b (pos 664)
    ∷ row 0xf867241c8cc6d4c0 0xc30163d203c94b62 (pos 662)
    ∷ row 0x9b407691d7fc44f8 0x79e0de63425dcf1d (pos 659)
    ∷ row 0xc21094364dfb5636 0x985915fc12f542e5 (pos 657)
    ∷ row 0xf294b943e17a2bc4 0x3e6f5b7b17b2939e (pos 655)
    ∷ row 0x979cf3ca6cec5b5a 0xa705992ceecf9c43 (pos 652)
    ∷ row 0xbd8430bd08277231 0x50c6ff782a838353 (pos 650)
    ∷ row 0xece53cec4a314ebd 0xa4f8bf5635246428 (pos 648)
    ∷ row 0x940f4613ae5ed136 0x871b7795e136be99 (pos 645)
    ∷ row 0xb913179899f68584 0x28e2557b59846e3f (pos 643)
    ∷ row 0xe757dd7ec07426e5 0x331aeada2fe589cf (pos 641)
    ∷ row 0x9096ea6f3848984f 0x3ff0d2c85def7622 (pos 638)
    ∷ row 0xb4bca50b065abe63 0x0fed077a756b53aa (pos 636)
    ∷ row 0xe1ebce4dc7f16dfb 0xd3e8495912c62894 (pos 634)
    ∷ row 0x8d3360f09cf6e4bd 0x64712dd7abbbd95d (pos 631)
    ∷ row 0xb080392cc4349dec 0xbd8d794d96aacfb4 (pos 629)
    ∷ row 0xdca04777f541c567 0xecf0d7a0fc5583a1 (pos 627)
    ∷ row 0x89e42caaf9491b60 0xf41686c49db57245 (pos 624)
    ∷ row 0xac5d37d5b79b6239 0x311c2875c522ced6 (pos 622)
    ∷ row 0xd77485cb25823ac7 0x7d633293366b828b (pos 620)
    ∷ []
