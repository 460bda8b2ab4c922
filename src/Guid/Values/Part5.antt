-- ===== src/Guid/Values/Part5.antt =====
-- efi_guid.c, lines 577 to 718: the values of the GUIDs, in the order of the file.
use efiperun_mod.Prelude.{List, [], ◌∷◌}
use efiperun_mod.Guid.Defs.{Guid, guid}

unfoldable pub guids_9 : List Guid
guids_9 =
    guid 0x3ad9df29 0x4501 0x478d 0xb1 0xf8 0x7f 0x7f 0xe7 0x0e 0x50 0xf3
    ∷ guid 0x2fe800be 0x8f01 0x4aa6 0x94 0x6b 0xd7 0x13 0x88 0xe1 0x83 0x3f
    ∷ guid 0x78247c57 0x63db 0x4708 0x99 0xc2 0xa8 0xb4 0xa9 0xa6 0x1f 0x6b
    ∷ guid 0x7671d9d0 0x53db 0x4173 0xaa 0x69 0x23 0x27 0xf2 0x1f 0x0b 0xc7
    ∷ guid 0x42881c98 0xa4f3 0x44b0 0xa3 0x9d 0xdf 0xa1 0x86 0x67 0xd8 0xcd
    ∷ guid 0xc5184932 0xdba5 0x46db 0xa5 0xba 0xcc 0x0b 0xda 0x9c 0x14 0x35
    ∷ guid 0xf541796d 0xa62e 0x4954 0xa7 0x75 0x95 0x84 0xf6 0x1b 0x9c 0xdd
    ∷ guid 0x607f766c 0x7455 0x42be 0x93 0x0b 0xe4 0xd7 0x6d 0xb2 0x72 0x0f
    ∷ guid 0xb9d4c360 0xbcfb 0x4f9b 0x92 0x98 0x53 0xc1 0x36 0x98 0x22 0x58
    ∷ guid 0x0fd96974 0x23aa 0x4cdc 0xb9 0xcb 0x98 0xd1 0x77 0x50 0x32 0x2a
    ∷ guid 0x31a6406a 0x6bdf 0x4e46 0xb2 0xa2 0xeb 0xaa 0x89 0xc4 0x09 0x20
    ∷ guid 0x587e72d7 0xcc50 0x4f79 0x82 0x09 0xca 0x29 0x1f 0xc1 0xa1 0x0f
    ∷ guid 0xef9fc172 0xa1b2 0x4693 0xb3 0x27 0x6d 0x32 0xfc 0x41 0x60 0x42
    ∷ guid 0xe9ca4775 0x8657 0x47fc 0x97 0xe7 0x7e 0xd6 0x5a 0x08 0x43 0x24
    ∷ guid 0x330d4706 0xf2a0 0x4e4f 0xa3 0x69 0xb6 0x6f 0xa8 0xd5 0x43 0x85
    ∷ guid 0x6a1ee763 0xd47a 0x43b4 0xaa 0xbe 0xef 0x1d 0xe2 0xab 0x56 0xfc
    ∷ guid 0xec835dd3 0xfe0f 0x617b 0xa6 0x21 0xb3 0x50 0xc3 0xe1 0x33 0x88
    ∷ guid 0x2c8759d5 0x5c2d 0x66ef 0x92 0x5f 0xb6 0x6c 0x10 0x19 0x57 0xe2
    ∷ guid 0x937fe521 0x95ae 0x4d1a 0x89 0x29 0x48 0xbc 0xd9 0x0a 0xd3 0x1a
    ∷ guid 0xd9760ff3 0x3cca 0x4267 0x80 0xf9 0x75 0x27 0xfa 0xfa 0x42 0x23
    ∷ guid 0xbf0a78ba 0xec29 0x49cf 0xa1 0xc9 0x7a 0xe5 0x4e 0xab 0x6a 0x51
    ∷ guid 0x9fb9a8a1 0x2f4a 0x43a6 0x88 0x9c 0xd0 0xf7 0xb6 0xc4 0x7a 0xd5
    ∷ guid 0x87c8bad7 0x0595 0x4053 0x82 0x97 0xde 0xde 0x39 0x5f 0x5d 0x5b
    ∷ guid 0x66ed4721 0x3c98 0x4d3e 0x81 0xe3 0xd0 0x3d 0xd3 0x9a 0x72 0x54
    ∷ guid 0x4f948815 0xb4b9 0x43cb 0x8a 0x33 0x90 0xe0 0x60 0xb3 0x49 0x55
    ∷ guid 0xec20eb79 0x6c1a 0x4664 0x9a 0x0d 0xd2 0xe4 0xcc 0x16 0xd6 0x64
    ∷ guid 0x46e44855 0xbd60 0x4ab7 0xab 0x0d 0xa6 0x79 0xb9 0x44 0x7d 0x77
    ∷ guid 0x9e23d768 0xd2f3 0x4366 0x9f 0xc3 0x3a 0x7a 0xba 0x86 0x43 0x74
    ∷ guid 0x5d9f96db 0xe731 0x4caa 0xa0 0x0d 0x72 0xe1 0x87 0xcd 0x77 0x62
    ∷ guid 0xbb62e663 0x625d 0x40b2 0xa0 0x88 0xbb 0xe8 0x36 0x23 0xa2 0x45
    ∷ guid 0x0faaecb1 0x226e 0x4782 0xaa 0xce 0x7d 0xb9 0xbc 0xbf 0x4d 0xaf
    ∷ guid 0xeb338826 0x681b 0x4295 0xb3 0x56 0x2b 0x36 0x4c 0x75 0x7b 0x09
    ∷ guid 0xce5e5929 0xc7a3 0x4602 0xad 0x9e 0xc9 0xda 0xf9 0x4e 0xbf 0xcf
    ∷ guid 0x2a534210 0x9280 0x41d8 0xae 0x79 0xca 0xda 0x01 0xa2 0xb1 0x27
    ∷ guid 0x15853d7c 0x3ddf 0x43e0 0xa1 0xcb 0xeb 0xf8 0x5b 0x8f 0x87 0x2c
    ∷ guid 0x71ee5e94 0x65b9 0x45d5 0x82 0x1a 0x3a 0x4d 0x86 0xcf 0xe6 0xbe
    ∷ guid 0x6fd5b00c 0xd426 0x4283 0x98 0x87 0x6c 0xf5 0xcf 0x1c 0xb1 0xfe
    ∷ guid 0x1d3de7f0 0x0807 0x424f 0xaa 0x69 0x11 0xa5 0x4e 0x19 0xa4 0x6f
    ∷ guid 0x86c77a67 0x0b97 0x4633 0xa1 0x87 0x49 0x10 0x4d 0x06 0x85 0xc7
    ∷ guid 0xdfb386f7 0xe100 0x43ad 0x9c 0x9a 0xed 0x90 0xd0 0x8a 0x5e 0x12
    ∷ guid 0xa3979e64 0xace8 0x4ddc 0xbc 0x07 0x4d 0x66 0xb8 0xfd 0x09 0x77
    ∷ guid 0xec3a978d 0x7c4e 0x48fa 0x9a 0xbe 0x6a 0xd9 0x1c 0xc8 0xf8 0x11
    ∷ guid 0xa77b2472 0xe282 0x4e9f 0xa2 0x45 0xc2 0xc0 0xe2 0x7b 0xbc 0xc1
    ∷ guid 0xc88b0b6d 0x0dfc 0x49a7 0x9c 0xb4 0x49 0x07 0x4b 0x4c 0x3a 0x78
    ∷ guid 0xe98adb03 0xb8b9 0x4af8 0xba 0x20 0x26 0xe9 0x11 0x4c 0xbc 0xe5
    ∷ guid 0x151c8eae 0x7f2c 0x472c 0x9e 0x54 0x98 0x28 0x19 0x4f 0x6a 0x88
    ∷ guid 0xafbfde41 0x2e6e 0x4262 0xba 0x65 0x62 0xb9 0x23 0x6e 0x54 0x95
    ∷ guid 0x3152bca5 0xeade 0x433d 0x86 0x2e 0xc0 0x1c 0xdc 0x29 0x1f 0x44
    ∷ guid 0xe5dd1403 0xd622 0xc24e 0x84 0x88 0xc7 0x1b 0x17 0xf5 0xe8 0x02
    ∷ guid 0x40e064b2 0x0ae0 0x48b1 0xa0 0x7d 0xf8 0xcf 0x1e 0x1a 0x23 0x10
    ∷ guid 0x02eea107 0x98db 0x400e 0x98 0x30 0x46 0x0a 0x15 0x42 0xd7 0x99
    ∷ guid 0x4b47d616 0xa8d6 0x4552 0x9d 0x44 0xcc 0xad 0x2e 0x0f 0x4c 0xf9
    ∷ guid 0xcc664eb8 0x3c24 0x4086 0xb6 0xf6 0x34 0xe8 0x56 0xbc 0xe3 0x6e
    ∷ guid 0xba73672c 0xa5d3 0x11d4 0xbd 0x00 0x00 0x80 0xc7 0x3c 0x88 0x81
    ∷ guid 0xab248e99 0xabe1 0x11d4 0xbd 0x0d 0x00 0x80 0xc7 0x3c 0x88 0x81
    ∷ guid 0x4e11e955 0xccca 0x11d4 0xbd 0x0d 0x00 0x80 0xc7 0x3c 0x88 0x81
    ∷ guid 0x0c95a93d 0xa006 0x11d4 0xbc 0xfa 0x00 0x80 0xc7 0x3c 0x88 0x81
    ∷ guid 0x0c95a935 0xa006 0x11d4 0xbc 0xfa 0x00 0x80 0xc7 0x3c 0x88 0x81
    ∷ guid 0x0c95a92f 0xa006 0x11d4 0xbc 0xfa 0x00 0x80 0xc7 0x3c 0x88 0x81
    ∷ guid 0x0c95a928 0xa006 0x11d4 0xbc 0xfa 0x00 0x80 0xc7 0x3c 0x88 0x81
    ∷ guid 0x0d79a645 0x1d91 0x40a6 0xa8 0x1f 0x61 0xe6 0x98 0x2b 0x32 0xb4
    ∷ guid 0xb347f047 0xaf8c 0x490e 0xac 0x07 0x0a 0xa9 0xb7 0xe5 0x38 0x58
    ∷ guid 0x98c281e5 0xf906 0x43dd 0xa9 0x2b 0xb0 0x03 0xbf 0x27 0x65 0xda
    ∷ guid 0x0dce384d 0x007c 0x4ba5 0x94 0xbd 0x0f 0x6e 0xb6 0x4d 0x2a 0xa9
    ∷ guid 0xfd0c65eb 0x0405 0x4cd2 0x8a 0xee 0xf4 0x00 0xef 0x13 0xba 0xc2
    ∷ guid 0x4e76928f 0x50ad 0x4334 0xb0 0x6b 0xa8 0x42 0x13 0x10 0x8a 0x57
    ∷ guid 0x0419f582 0x0625 0x4531 0x8a 0x33 0x85 0xa9 0x96 0x5c 0x95 0xbc
    ∷ guid 0x58c518b1 0x76f3 0x11d4 0xbc 0xea 0x00 0x80 0xc7 0x3c 0x88 0x81
    ∷ guid 0x96eb4ad6 0xa32a 0x11d4 0xbc 0xfd 0x00 0x80 0xc7 0x3c 0x88 0x81
    ∷ guid 0x24b09abe 0x4e47 0x481c 0xa9 0xad 0xce 0xf1 0x2c 0x39 0x23 0x27
    ∷ guid 0x1e43298f 0x3478 0x41a7 0xb5 0x77 0x86 0x06 0x46 0x35 0xc7 0x28
    ∷ []

unfoldable pub guids_10 : List Guid
guids_10 =
    guid 0x93bb96af 0xb9f2 0x4eb8 0x94 0x62 0xe0 0xba 0x74 0x56 0x42 0x36
    ∷ guid 0xd3b46f3b 0xd441 0x1244 0x9a 0x12 0x00 0x12 0x27 0x3f 0xc1 0x4d
    ∷ guid 0x7235c51c 0x0c80 0x4cab 0x87 0xac 0x3b 0x08 0x4a 0x63 0x04 0xb1
    ∷ guid 0x837dca9e 0xe874 0x4d82 0xb2 0x9a 0x23 0xfe 0x0e 0x23 0xd1 0xe2
    ∷ guid 0xfa920010 0x6785 0x4941 0xb6 0xec 0x49 0x8c 0x57 0x9f 0x16 0x0a
    ∷ guid 0x6b558ce3 0x69e5 0x4c67 0xa6 0x34 0xf7 0xfe 0x72 0xad 0xbe 0x84
    ∷ guid 0x3d3ca290 0xb9a5 0x11e3 0xb7 0x5d 0xb8 0xac 0x6f 0x7d 0x65 0xe6
    ∷ guid 0x326ae723 0xae32 0x4589 0x98 0xb8 0xca 0xc2 0x3c 0xdc 0xc1 0xb1
    ∷ guid 0x669346ef 0xfdad 0x4aeb 0x08 0xa6 0x21 0x46 0x2d 0x3f 0xef 0x7d
    ∷ guid 0xdba6a7e3 0xbb57 0x4be7 0x8a 0xf8 0xd5 0x78 0xdb 0x7e 0x56 0x87
    ∷ guid 0xeb9d2d30 0x2d88 0x11d3 0x9a 0x16 0x00 0x90 0x27 0x3f 0xc1 0x4d
    ∷ guid 0xeb9d2d30 0x2d88 0x11d3 0x9a 0x16 0x00 0x90 0x27 0x3f 0xc1 0x4d
    ∷ guid 0x5cac0099 0x0dc9 0x48e5 0x80 0x68 0xbb 0x95 0xf5 0x40 0x0a 0x9f
    ∷ guid 0x2e3d2e75 0x9b2e 0x412d 0xb4 0xb1 0x70 0x41 0x6b 0x87 0x00 0xff
    ∷ guid 0xb38573b6 0x6200 0x4ac5 0xb5 0x1d 0x82 0xe6 0x59 0x38 0xd7 0x83
    ∷ guid 0x0ffbce19 0x324c 0x4690 0xa0 0x09 0x98 0xc6 0xae 0x2e 0xb1 0x86
    ∷ guid 0x31a4878f 0x230d 0x4fc2 0x90 0xbb 0xda 0x5f 0x41 0xa4 0x4b 0x1b
    ∷ guid 0xca3b3a50 0x5698 0x4551 0x8b 0x18 0xce 0xae 0xef 0x91 0x7d 0x50
    ∷ guid 0x301af449 0xe0d7 0x43a3 0x8b 0x1b 0xbc 0x16 0x72 0x5d 0x37 0x4b
    ∷ guid 0xcc93a70b 0xec27 0x49c5 0x8b 0x34 0x13 0x93 0x1e 0xfe 0xd6 0xe2
    ∷ guid 0xeba4e8d2 0x3858 0x41ec 0xa2 0x81 0x26 0x47 0xba 0x96 0x60 0xd0
    ∷ guid 0xf33261e7 0x23cb 0x11d5 0xbd 0x5c 0x00 0x80 0xc7 0x3c 0x88 0x81
    ∷ guid 0xd8117cff 0x94a6 0x11d4 0x9a 0x3a 0x00 0x90 0x27 0x3f 0xc1 0x4d
    ∷ guid 0x387477c1 0x69c7 0x11d2 0x8e 0x39 0x00 0xa0 0xc9 0x69 0x72 0x3b
    ∷ guid 0x387477c2 0x69c7 0x11d2 0x8e 0x39 0x00 0xa0 0xc9 0x69 0x72 0x3b
    ∷ guid 0x7a28436a 0xe113 0x406a 0xaf 0xf9 0x0d 0xbf 0x7f 0x64 0x3e 0x02
    ∷ guid 0xeb9d2d2f 0x2d88 0x11d3 0x9a 0x16 0x00 0x90 0x27 0x3f 0xc1 0x4d
    ∷ guid 0x5f65dfdb 0xac20 0x4f43 0x9b 0x21 0x26 0x9e 0x81 0xa0 0xea 0x7e
    ∷ guid 0x60b27e1a 0xd65e 0x4db0 0xb2 0xbb 0xc1 0x6f 0xa7 0x1e 0x44 0xab
    ∷ guid 0xc153205a 0xe898 0x4c24 0x86 0x89 0xa4 0xb4 0xbc 0xc5 0xc8 0xa2
    ∷ guid 0xc9737920 0xc2ad 0x41c3 0xb1 0x33 0x0f 0x9c 0x25 0x1b 0x67 0x43
    ∷ guid 0x88c9d306 0x0900 0x4eb5 0x82 0x60 0x3e 0x2d 0xbe 0xda 0x1f 0x89
    ∷ guid 0x63b6e435 0x32bc 0x49c6 0x81 0xbd 0xb7 0xa1 0xa0 0xfe 0x1a 0x6c
    ∷ guid 0x87dd3539 0x0667 0x4bb7 0x9f 0xb2 0x47 0xd3 0xc5 0x0b 0x02 0x1b
    ∷ guid 0x6ffec78d 0x7dbf 0x4f8b 0x96 0x8d 0x2f 0x43 0xa0 0x80 0xc1 0x3f
    ∷ guid 0x3f5a74b2 0xbf80 0x4850 0x85 0x91 0x4f 0x2d 0xf5 0xf9 0xcb 0x2b
    ∷ guid 0x177e63c1 0xaed6 0x4d88 0x91 0x7e 0x9b 0x4f 0xb9 0xfe 0x40 0x92
    ∷ guid 0xff052503 0x1af9 0x4aeb 0x83 0xc4 0xc2 0xd4 0xce 0xb1 0x0c 0xa3
    ∷ guid 0x6fde3af8 0x37ad 0x43fc 0xb7 0x28 0xf4 0xd3 0x41 0xf3 0x92 0x40
    ∷ guid 0xeb9d2d32 0x2d88 0x11d3 0x9a 0x16 0x00 0x90 0x27 0x3f 0xc1 0x4d
    ∷ guid 0x8d48bd70 0xc8a3 0x4c06 0x90 0x1b 0x74 0x79 0x46 0xaa 0xc3 0x58
    ∷ guid 0x5fac7360 0xd4f2 0x4c9e 0xa7 0xed 0xf2 0x59 0x5e 0x67 0x08 0x89
    ∷ guid 0xeb9d2d31 0x2d88 0x11d3 0x9a 0x16 0x00 0x90 0x27 0x3f 0xc1 0x4d
    ∷ guid 0x30ac275e 0xbb30 0x4b84 0xa1 0xcd 0x0a 0xf1 0x32 0x2c 0x89 0xc0
    ∷ guid 0xab294a92 0xeaf5 0x4cf3 0xab 0x2b 0x2d 0x4b 0xed 0x4d 0xb6 0x3d
    ∷ guid 0x950e191b 0x8524 0x4f51 0x80 0xa1 0x5c 0x4f 0x1b 0x03 0xf3 0x5c
    ∷ guid 0xce845704 0x1683 0x4d38 0xa4 0xf9 0x7d 0x0b 0x50 0x77 0x57 0x93
    ∷ guid 0x1e2acc41 0xe26a 0x483d 0xaf 0xc7 0xa0 0x56 0xc3 0x4e 0x08 0x7b
    ∷ guid 0x80dbd530 0xb74c 0x4f11 0x8c 0x03 0x41 0x86 0x65 0x53 0x28 0x31
    ∷ guid 0x69d13bf0 0xaf91 0x4d96 0xaa 0x9f 0x21 0x84 0xc5 0xce 0x3b 0xc0
    ∷ guid 0x5fad2389 0x2bc7 0x4bd2 0x83 0xd3 0x42 0x9f 0xb6 0xae 0xa3 0x3f
    ∷ guid 0xe38c11e3 0x968f 0x47b8 0xac 0xef 0xac 0xc0 0x69 0x3d 0xb9 0xff
    ∷ guid 0x89a1b278 0xa1a1 0x4df7 0xb1 0x37 0xde 0x5a 0xd7 0xc4 0x79 0x13
    ∷ guid 0x560bf58a 0x1e0d 0x4d7e 0x95 0x3f 0x29 0x80 0xa2 0x61 0xe0 0x31
    ∷ guid 0x1bf06aea 0x5bec 0x4a8d 0x95 0x76 0x74 0x9b 0x09 0x56 0x2d 0x30
    ∷ guid 0x0468a601 0xc535 0x46fd 0xa9 0x5d 0xbb 0xab 0x99 0x1b 0x17 0x8c
    ∷ guid 0xbb9c7ab7 0xb8d9 0x4bf3 0x9c 0x29 0x9b 0xf3 0x41 0xe2 0x17 0xbc
    ∷ guid 0xc3e36d09 0x8294 0x4b97 0xa8 0x57 0xd5 0x28 0x8f 0xe3 0x3e 0x28
    ∷ guid 0x94b9e8ae 0x8877 0x479a 0x98 0x42 0xf5 0x97 0x4b 0x82 0xce 0xd3
    ∷ guid 0x3812723d 0x7e48 0x4e29 0xbc 0x27 0xf5 0xa3 0x9a 0xc9 0x4e 0xf1
    ∷ guid 0x70e56c5e 0x280c 0x44b0 0xa4 0x97 0x09 0x68 0x1a 0xbc 0x37 0x5e
    ∷ guid 0x788e1d9f 0x1eab 0x47d2 0xa2 0xf3 0x78 0xca 0xe8 0x7d 0x60 0x12
    ∷ guid 0xec87d643 0xeba4 0x4bb5 0xa1 0xe5 0x3f 0x3e 0x36 0xb2 0x0d 0xa9
    ∷ guid 0xef14fd78 0x0793 0x4e2b 0xac 0x6d 0x06 0x28 0x47 0xe0 0x17 0x91
    ∷ guid 0x7e374e25 0x8e01 0x4fee 0x87 0xf2 0x39 0x0c 0x23 0xc6 0x06 0xcd
    ∷ guid 0x72234213 0x0fd7 0x48a1 0xa5 0x9f 0xb4 0x1b 0xc1 0x07 0xfb 0xcd
    ∷ guid 0x72234213 0x0fd7 0x48a1 0xa5 0x9f 0xb4 0x1b 0xc1 0x07 0xfb 0xcd
    ∷ guid 0xca1bcad9 0xe021 0x4547 0xa1 0xb0 0x5b 0x22 0xc7 0xf6 0x87 0xf4
    ∷ guid 0x0d9a1427 0xe02a 0x437d 0x92 0x6b 0xaa 0x52 0x1f 0xd7 0x22 0xba
    ∷ guid 0xec87d643 0xeba4 0x4bb5 0xa1 0xe5 0x3f 0x3e 0x36 0xb2 0x0d 0xa9
    ∷ guid 0x5e559c23 0x1faa 0x4ae1 0x8d 0x4a 0xc6 0xcf 0x02 0x6c 0x76 0x6f
    ∷ []
