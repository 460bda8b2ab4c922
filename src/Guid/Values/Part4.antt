-- ===== src/Guid/Values/Part4.antt =====
-- efi_guid.c, lines 435 to 576: the values of the GUIDs, in the order of the file.
use efiperun_mod.Prelude.{List, [], ◌∷◌}
use efiperun_mod.Guid.Defs.{Guid, guid}

unfoldable pub guids_7 : List Guid
guids_7 =
    guid 0x1e5668e2 0x8481 0x11d4 0xbc 0xf1 0x00 0x80 0xc7 0x3c 0x88 0x81
    ∷ guid 0x665e3ff5 0x46cc 0x11d4 0x9a 0x38 0x00 0x90 0x27 0x3f 0xc1 0x4d
    ∷ guid 0xd2b2b828 0x0826 0x48a7 0xb3 0xdf 0x98 0x3c 0x00 0x60 0x24 0xf0
    ∷ guid 0xe49d33ed 0x513d 0x4634 0xb6 0x98 0x6f 0x55 0xaa 0x75 0x1c 0x1b
    ∷ guid 0x220e73b6 0x6bdb 0x4413 0x84 0x05 0xb9 0x74 0xb1 0x08 0x61 0x9a
    ∷ guid 0x8f644fa9 0xe850 0x4db1 0x9c 0xe2 0x0b 0x44 0x69 0x8e 0x8d 0xa4
    ∷ guid 0x5053697e 0x2cbc 0x4819 0x90 0xd9 0x05 0x80 0xde 0xee 0x57 0x54
    ∷ guid 0x3fdda605 0xa76e 0x4f46 0xad 0x29 0x12 0xf4 0x53 0x1b 0x3d 0x08
    ∷ guid 0xcf8034be 0x6768 0x4d8b 0xb7 0x39 0x7c 0xce 0x68 0x3a 0x9f 0xbe
    ∷ guid 0x07d75280 0x27d4 0x4d69 0x90 0xd0 0x56 0x43 0xe2 0x38 0xb3 0x41
    ∷ guid 0xb5b35764 0x460c 0x4a06 0x99 0xfc 0x77 0xa1 0x7c 0x1b 0x5c 0xeb
    ∷ guid 0x30cfe3e7 0x3de1 0x4586 0xbe 0x20 0xde 0xab 0xa1 0xb3 0xb7 0x93
    ∷ guid 0xeb23f55a 0x7863 0x4ac2 0x8d 0x3d 0x95 0x65 0x35 0xde 0x03 0x75
    ∷ guid 0xaa0e8bc1 0xdabc 0x46b0 0xa8 0x44 0x37 0xb8 0x16 0x9b 0x2b 0xea
    ∷ guid 0x19cb87ab 0x2cb9 0x4665 0x83 0x60 0xdd 0xcf 0x60 0x54 0xf7 0x9d
    ∷ guid 0xa1e37052 0x80d9 0x4e65 0xa3 0x17 0x3e 0x9a 0x55 0xc4 0x3e 0xc9
    ∷ guid 0xd432a67f 0x14dc 0x484b 0xb3 0xbb 0x3f 0x02 0x91 0x84 0x93 0x27
    ∷ guid 0x03583ff6 0xcb36 0x4940 0x94 0x7e 0xb9 0xb3 0x9f 0x4a 0xfa 0xf7
    ∷ guid 0xe857caf6 0xc046 0x45dc 0xbe 0x3f 0xee 0x07 0x65 0xfb 0xa8 0x87
    ∷ guid 0x320afe62 0xe593 0x49cb 0xa9 0xf1 0xd4 0xc2 0xf4 0xaf 0x01 0x4c
    ∷ guid 0x86212936 0x0e76 0x41c8 0xa0 0x3a 0x2a 0xf2 0xfc 0x1c 0x39 0xe2
    ∷ guid 0x2ff29fa7 0x5e80 0x4ed9 0xb3 0x80 0x01 0x7d 0x3c 0x55 0x4f 0xf4
    ∷ guid 0xeb97088e 0xcfdf 0x49c6 0xbe 0x4b 0xd9 0x06 0xa5 0xb2 0x0e 0x86
    ∷ guid 0x215fdd18 0xbd50 0x4feb 0x89 0x0b 0x58 0xca 0x0b 0x47 0x39 0xe9
    ∷ guid 0x3242a9d8 0xce70 0x4aa0 0x95 0x5d 0x5e 0x7b 0x14 0x0d 0xe4 0xd2
    ∷ guid 0xf4ccbfb7 0xf6e0 0x47fd 0x9d 0xd4 0x10 0xa8 0xf1 0x50 0xc1 0x91
    ∷ guid 0xc2702b74 0x800c 0x4131 0x87 0x46 0x8f 0xb5 0xb8 0x9c 0xe4 0xac
    ∷ guid 0x843dc720 0xab1e 0x42cb 0x93 0x57 0x8a 0x00 0x78 0xf3 0x56 0x1b
    ∷ guid 0x26eeb3de 0xb689 0x492e 0x80 0xf0 0xbe 0x8b 0xd7 0xda 0x4b 0xa7
    ∷ guid 0x47b7fa8c 0xf4bd 0x4af6 0x82 0x00 0x33 0x30 0x86 0xf0 0xd2 0xc8
    ∷ guid 0x60ff8964 0xe906 0x41d0 0xaf 0xed 0xf2 0x41 0xe9 0x74 0xe0 0x8e
    ∷ guid 0xc68ed8e2 0x9dc6 0x4cbd 0x9d 0x94 0xdb 0x65 0xac 0xc5 0xc3 0x32
    ∷ guid 0x6afd2b77 0x98c1 0x4acd 0xa6 0xf9 0x8a 0x94 0x39 0xde 0x0f 0xb1
    ∷ guid 0xeb346b97 0x975f 0x4a9f 0x8b 0x22 0xf8 0xe9 0x2b 0xb3 0xd5 0x69
    ∷ guid 0x8bc1714d 0xffcb 0x41c3 0x89 0xdc 0x6c 0x74 0xd0 0x6d 0x98 0xea
    ∷ guid 0x18a3c6dc 0x5eea 0x48c8 0xa1 0xc1 0xb5 0x33 0x89 0xf9 0x89 0x99
    ∷ guid 0x456d2859 0xa84b 0x4e47 0xa2 0xee 0x32 0x76 0xd8 0x86 0x99 0x7d
    ∷ guid 0x4cec368e 0x8e8e 0x4d71 0x8b 0xe1 0x95 0x8c 0x45 0xfc 0x8a 0x53
    ∷ guid 0xee9b8d90 0xc5a6 0x40a2 0xbd 0xe2 0x52 0x55 0x8d 0x33 0xcc 0xa1
    ∷ guid 0x25566b03 0xb577 0x4cbf 0x95 0x8c 0xed 0x66 0x3e 0xa2 0x43 0x80
    ∷ guid 0x7300c4a1 0x43f2 0x4017 0xa5 0x1b 0xc8 0x1a 0x7f 0x40 0x58 0x5b
    ∷ guid 0x1b1183fa 0x1823 0x46a7 0x88 0x72 0x9c 0x57 0x87 0x55 0x40 0x9d
    ∷ guid 0x58dc368d 0x7bfa 0x4e77 0xab 0xbc 0x0e 0x29 0x41 0x8d 0xf9 0x30
    ∷ guid 0x13a3f0f6 0x264a 0x3ef0 0xf2 0xe0 0xde 0xc5 0x12 0x34 0x2f 0x34
    ∷ guid 0x8f644fa9 0xe850 0x4db1 0x9c 0xe2 0x0b 0x44 0x69 0x8e 0x8d 0xa4
    ∷ guid 0xad61f191 0xae5f 0x4c0e 0xb9 0xfa 0xe8 0x69 0xd2 0x88 0xc6 0x4f
    ∷ guid 0x70101eaf 0x0085 0x440c 0xb3 0x56 0x8e 0xe3 0x6f 0xef 0x24 0xf0
    ∷ guid 0xb60dc6e8 0x3b6f 0x11d5 0xaf 0x09 0x00 0xa0 0xc9 0x44 0xa0 0x5b
    ∷ guid 0xde0ee9a4 0x3c7a 0x44f2 0xb7 0x8b 0xe3 0xcc 0xd6 0x9c 0x3a 0xf7
    ∷ guid 0x5aea42b5 0x31e1 0x4515 0xbc 0x31 0xb8 0xd5 0x25 0x75 0x65 0xa6
    ∷ guid 0x53a58d06 0xac27 0x4d8c 0xb5 0xe9 0xf0 0x8a 0x80 0x65 0x41 0x70
    ∷ guid 0x7e97a470 0xefdb 0x4d02 0x8f 0xce 0x61 0x90 0xd2 0x7b 0xa2 0x96
    ∷ guid 0x4ecb6c53 0xc641 0x4370 0x8c 0xb2 0x3b 0x0e 0x49 0x6e 0x83 0x78
    ∷ guid 0x899afd18 0x75e8 0x408b 0xa4 0x1a 0x6e 0x2e 0x7e 0xcd 0xf4 0x54
    ∷ guid 0x7d019990 0x8ce1 0x46f5 0xa7 0x76 0x3c 0x51 0x98 0x67 0x6a 0xa0
    ∷ guid 0x00dbd91d 0x55e9 0x420f 0x96 0x39 0x5e 0x9f 0x84 0x37 0xb4 0x4f
    ∷ guid 0xa2271df1 0xbcbb 0x4f1d 0x98 0xa9 0x06 0xbc 0x17 0x2f 0x07 0x1a
    ∷ guid 0x697d81a2 0xcf18 0x4dc0 0x9e 0x0d 0x06 0x11 0x3b 0x61 0x8a 0x3f
    ∷ guid 0xe1cd9d21 0x0fc2 0x438d 0x97 0x03 0x04 0xe6 0x6d 0x96 0x1e 0x57
    ∷ guid 0xd9e9fa06 0x0fe0 0x41c3 0x96 0xfb 0x83 0x42 0x5a 0x33 0x94 0xf8
    ∷ guid 0x2a591128 0x6cc7 0x42b1 0x8a 0xf0 0x58 0x93 0x3b 0x68 0x2d 0xbb
    ∷ guid 0xa46b1a31 0xad66 0x4905 0x92 0xf6 0x2b 0x46 0x59 0xdc 0x30 0x63
    ∷ guid 0x0edc9494 0x2743 0x4ba5 0x88 0x18 0x0a 0xef 0x52 0x13 0xf1 0x88
    ∷ guid 0xcb3fd86e 0x38a3 0x4c03 0x9a 0x5c 0x90 0xcf 0xa3 0xa2 0xab 0x7a
    ∷ guid 0x94ab2f58 0x1438 0x4ef1 0x91 0x52 0x18 0x94 0x1a 0x3a 0x0e 0x68
    ∷ guid 0x24e70042 0xd5c5 0x4260 0x8c 0x39 0x0a 0xd3 0xaa 0x32 0xe9 0x3d
    ∷ guid 0xfd0f4478 0x0efd 0x461d 0xba 0x2d 0xe5 0x8c 0x45 0xfd 0x5f 0x5e
    ∷ guid 0xcd72881f 0x45b5 0x4feb 0x98 0xc8 0x31 0x3d 0xa8 0x11 0x74 0x62
    ∷ guid 0xb60a3e6b 0x18c4 0x46e5 0xa2 0x9a 0xc9 0xa1 0x06 0x65 0xa2 0x8e
    ∷ guid 0xda8cd7c4 0x1c00 0x49e2 0x80 0x3e 0x52 0x14 0xe7 0x01 0x89 0x4c
    ∷ guid 0xa5aab9e3 0xc727 0x48cd 0x8b 0xbf 0x42 0x72 0x33 0x85 0x49 0x48
    ∷ []

unfoldable pub guids_8 : List Guid
guids_8 =
    guid 0x55b71fb5 0x17c6 0x410e 0xb5 0xbd 0x5f 0xa2 0xe3 0xd4 0x46 0x6b
    ∷ guid 0xeba4e8d2 0x3858 0x41ec 0xa2 0x81 0x26 0x47 0xba 0x96 0x60 0xd0
    ∷ guid 0x2755590c 0x6f3c 0x42fa 0x9e 0xa4 0xa3 0xba 0x54 0x3c 0xda 0x25
    ∷ guid 0xd8117cfe 0x94a6 0x11d4 0x9a 0x3a 0x00 0x90 0x27 0x3f 0xc1 0x4d
    ∷ guid 0xaf6ac311 0x84c3 0x11d2 0x8e 0x3c 0x00 0xa0 0xc9 0x69 0x72 0x3b
    ∷ guid 0x09576e91 0x6d3f 0x11d2 0x8e 0x39 0x00 0xa0 0xc9 0x69 0x72 0x3b
    ∷ guid 0x05c99a21 0xc70f 0x4ad2 0x8a 0x5f 0x35 0xdf 0x33 0x43 0xf5 0x1e
    ∷ guid 0x8b843e20 0x8132 0x4852 0x90 0xcc 0x55 0x1a 0x4e 0x4a 0x7f 0x1c
    ∷ guid 0x0379be4e 0xd706 0x437d 0xb0 0x37 0xed 0xb8 0x2f 0xb7 0x72 0xa4
    ∷ guid 0x18a031ab 0xb443 0x4d1a 0xa5 0xc0 0x0c 0x09 0x26 0x1e 0x9f 0x71
    ∷ guid 0x6b30c738 0xa391 0x11d4 0x9a 0x3b 0x00 0x90 0x27 0x3f 0xc1 0x4d
    ∷ guid 0xb1ee129e 0xda36 0x4181 0x91 0xf8 0x04 0xa4 0x92 0x37 0x66 0xa7
    ∷ guid 0x3bc1b285 0x8a15 0x4a82 0xaa 0xbf 0x4d 0x7d 0x13 0xfb 0x32 0x65
    ∷ guid 0x4d330321 0x025f 0x4aac 0x90 0xd8 0x5e 0xd9 0x00 0x17 0x3b 0x63
    ∷ guid 0x0784924f 0xe296 0x11d4 0x9a 0x49 0x00 0x90 0x27 0x3f 0xc1 0x4d
    ∷ guid 0x6a7a5cff 0xe8d9 0x4f70 0xba 0xda 0x75 0xab 0x30 0x25 0xce 0x14
    ∷ guid 0x107a772c 0xd5e1 0x11d4 0x9a 0x46 0x00 0x90 0x27 0x3f 0xc1 0x4d
    ∷ guid 0xbfd7dc1d 0x24f1 0x40d9 0x82 0xe7 0x2e 0x09 0xbb 0x6b 0x4e 0xbe
    ∷ guid 0x107a772b 0xd5e1 0x11d4 0x9a 0x46 0x00 0x90 0x27 0x3f 0xc1 0x4d
    ∷ guid 0x642cd590 0x8059 0x4c0a 0xa9 0x58 0xc5 0xec 0x07 0xd2 0x3c 0x4b
    ∷ guid 0x5c198761 0x16a8 0x4e69 0x97 0x2c 0x89 0xd6 0x79 0x54 0xf8 0x1d
    ∷ guid 0x387477c1 0x69c7 0x11d2 0x8e 0x39 0x00 0xa0 0xc9 0x69 0x72 0x3b
    ∷ guid 0xdd9e7534 0x7762 0x4698 0x8c 0x14 0xf5 0x85 0x17 0xa6 0x25 0xaa
    ∷ guid 0x387477c2 0x69c7 0x11d2 0x8e 0x39 0x00 0xa0 0xc9 0x69 0x72 0x3b
    ∷ guid 0x31878c87 0x0b75 0x11d5 0x9a 0x4f 0x00 0x90 0x27 0x3f 0xc1 0x4d
    ∷ guid 0x8d59d32b 0xc655 0x4ae9 0x9b 0x15 0xf2 0x59 0x04 0x99 0x2a 0x43
    ∷ guid 0xbb25cf6f 0xf1d4 0x11d2 0x9a 0x0c 0x00 0x90 0x27 0x3f 0xc1 0xfd
    ∷ guid 0x9042a9de 0x23dc 0x4a38 0x96 0xfb 0x7a 0xde 0xd0 0x80 0x51 0x6a
    ∷ guid 0x1c0c34f6 0xd380 0x41fa 0xa0 0x49 0x8a 0xd0 0x6c 0x1a 0x66 0xaa
    ∷ guid 0xbd8c1056 0x9f36 0x44ec 0x92 0xa8 0xa6 0x33 0x7f 0x81 0x79 0x86
    ∷ guid 0x48ecb431 0xfb72 0x45c0 0xa9 0x22 0xf4 0x58 0xfe 0x04 0x0b 0xd5
    ∷ guid 0x61a4d49e 0x6f68 0x4f1b 0xb9 0x22 0xa8 0x6e 0xed 0x0b 0x07 0xa2
    ∷ guid 0x982c298b 0xf4fa 0x41cb 0xb8 0x38 0x77 0xaa 0x68 0x8f 0xb8 0x39
    ∷ guid 0x5b1b31a1 0x9562 0x11d2 0x8e 0x3f 0x00 0xa0 0xc9 0x69 0x72 0x3b
    ∷ guid 0xbc62157e 0x3e33 0x4fec 0x99 0x20 0x2d 0x3b 0x36 0xd7 0x50 0xdf
    ∷ guid 0x56ec3091 0x954c 0x11d2 0x8e 0x3f 0x00 0xa0 0xc9 0x69 0x72 0x3b
    ∷ guid 0x4006c0c1 0xfcb3 0x403e 0x99 0x6d 0x4a 0x6c 0x87 0x24 0xe0 0x6d
    ∷ guid 0x964e5b22 0x6459 0x11d2 0x8e 0x39 0x00 0xa0 0xc9 0x69 0x72 0x3b
    ∷ guid 0x1e93e633 0xd65a 0x459e 0xab 0x84 0x93 0xd9 0xec 0x26 0x6d 0x18
    ∷ guid 0xce345171 0xba0b 0x11d2 0x8e 0x4f 0x00 0xa0 0xc9 0x69 0x72 0x3b
    ∷ guid 0x964e5b21 0x6459 0x11d2 0x8e 0x39 0x00 0xa0 0xc9 0x69 0x72 0x3b
    ∷ guid 0x1d85cd7f 0xf43d 0x11d2 0x9a 0x0c 0x00 0x90 0x27 0x3f 0xc1 0x4d
    ∷ guid 0xa4c751fc 0x23ae 0x4c3e 0x92 0xe9 0x49 0x64 0xcf 0x63 0xf3 0x49
    ∷ guid 0x2f707ebb 0x4a1a 0x11d4 0x9a 0x38 0x00 0x90 0x27 0x3f 0xc1 0x4d
    ∷ guid 0x4cf5b200 0x68b8 0x4ca5 0x9e 0xec 0xb2 0x3e 0x3f 0x50 0x02 0x9a
    ∷ guid 0x932f47e6 0x2362 0x4002 0x80 0x3e 0x3c 0xd5 0x4b 0x13 0x8f 0x85
    ∷ guid 0x143b7632 0xb81b 0x4cb7 0xab 0xd3 0xb6 0x25 0xa5 0xb9 0xbf 0xfe
    ∷ guid 0xa59e8fcf 0xbda0 0x43bb 0x90 0xb1 0xd3 0x73 0x2e 0xca 0xa8 0x77
    ∷ guid 0x59324945 0xec44 0x4c0d 0xb1 0xcd 0x9d 0xb1 0x39 0xdf 0x07 0x0c
    ∷ guid 0x3e745226 0x9818 0x45b6 0xa2 0xac 0xd7 0xcd 0x0e 0x8b 0xa2 0xbc
    ∷ guid 0xf5089266 0x1aa0 0x4953 0x97 0xd8 0x56 0x2f 0x8a 0x73 0xb5 0x19
    ∷ guid 0x2b2f68d6 0x0cd2 0x44cf 0x8e 0x8b 0xbb 0xa2 0x0b 0x1b 0x5b 0x75
    ∷ guid 0xffe06bdd 0x6107 0x46a6 0x7b 0xb2 0x5a 0x9c 0x7e 0xc5 0x27 0x5c
    ∷ guid 0x13ac6dd1 0x73d0 0x11d4 0xb0 0x6b 0x00 0xaa 0x00 0xbd 0x6d 0xe7
    ∷ guid 0xa19832b9 0xac25 0x11d3 0x9a 0x2d 0x00 0x90 0x27 0x3f 0xc1 0x4d
    ∷ guid 0xe18541cd 0xf755 0x4f73 0x92 0x8d 0x64 0x3c 0x8a 0x79 0xb2 0x29
    ∷ guid 0x245dca21 0xfb7b 0x11d3 0x8f 0x01 0x00 0xa0 0xc9 0x69 0x72 0x3b
    ∷ guid 0x03c4e603 0xac28 0x11d3 0x9a 0x2d 0x00 0x90 0x27 0x3f 0xc1 0x4d
    ∷ guid 0x0b64aab0 0x5429 0x11d4 0x98 0x16 0x00 0xa0 0xc9 0x1f 0xad 0xcf
    ∷ guid 0xf36ff770 0xa7e1 0x42cf 0x9e 0xd2 0x56 0xf0 0xf2 0x71 0xf4 0x4c
    ∷ guid 0x7ab33a91 0xace5 0x4326 0xb5 0x72 0xe7 0xee 0x33 0xd3 0x9f 0x16
    ∷ guid 0xf44c00ee 0x1f2c 0x4a00 0xaa 0x09 0x1c 0x9f 0x3e 0x08 0x00 0xa3
    ∷ guid 0xf4b427bb 0xba21 0x4f16 0xbc 0x4e 0x43 0xe4 0x16 0xab 0x61 0x9c
    ∷ guid 0x9d9a39d8 0xbd42 0x4a73 0xa4 0xd5 0x8e 0xe9 0x4b 0xe1 0x13 0x80
    ∷ guid 0x8a219718 0x4ef5 0x4761 0x91 0xc8 0xc0 0xf0 0x4b 0xda 0x9e 0x56
    ∷ guid 0x00720665 0x67eb 0x4a99 0xba 0xf7 0xd3 0xc3 0x3a 0x1c 0x7c 0xc9
    ∷ guid 0x65530bc7 0xa359 0x410f 0xb0 0x10 0x5a 0xad 0xc7 0xec 0x2b 0x62
    ∷ guid 0xc51711e7 0xb4bf 0x404a 0xbf 0xb8 0x0a 0x04 0x8e 0xf1 0xff 0xe4
    ∷ guid 0x41d94cd2 0x35b6 0x455a 0x82 0x58 0xd4 0xe5 0x13 0x34 0xaa 0xdd
    ∷ guid 0x3b95aa31 0x3793 0x434b 0x86 0x67 0xc8 0x07 0x08 0x92 0xe0 0x5e
    ∷ guid 0x83f01464 0x99bd 0x45e5 0xb3 0x83 0xaf 0x63 0x05 0xd8 0xe9 0xe6
    ∷ []
