-- ===== src/Guid/Values/Part2.antt =====
-- efi_guid.c, lines 151 to 292: the values of the GUIDs, in the order of the file.
use efiperun_mod.Prelude.{List, [], ◌∷◌}
use efiperun_mod.Guid.Defs.{Guid, guid}

unfoldable pub guids_3 : List Guid
guids_3 =
    guid 0xf5ef05e4 0xd538 0x4774 0x8f 0x1b 0xe9 0x77 0x30 0x11 0xe0 0x38
    ∷ guid 0x2f3962b2 0x57c5 0x44ec 0x9e 0xfc 0xa6 0x9f 0xd3 0x02 0x03 0x2b
    ∷ guid 0xa1aff049 0xfdeb 0x442a 0xb3 0x20 0x13 0xab 0x4c 0xb7 0x2b 0xbc
    ∷ guid 0xea296d92 0x0b69 0x423c 0x8c 0x28 0x33 0xb4 0xe0 0xa9 0x12 0x68
    ∷ guid 0x3c7d193c 0x682c 0x4c14 0xa6 0x8f 0x55 0x2d 0xea 0x4f 0x43 0x7e
    ∷ guid 0x0f0b1735 0x87a0 0x4193 0xb2 0x66 0x53 0x8c 0x38 0xaf 0x48 0xce
    ∷ guid 0x31ca5d1a 0xd511 0x4931 0xb7 0x82 0xae 0x6b 0x2b 0x17 0x8c 0xd7
    ∷ guid 0xfff12b8d 0x7696 0x4c8b 0xa9 0x85 0x27 0x47 0x07 0x5b 0x4f 0x50
    ∷ guid 0x9e58292b 0x7c68 0x497d 0xa0 0xce 0x65 0x00 0xfd 0x9f 0x1b 0x95
    ∷ guid 0x1d3e9cb8 0x43af 0x490b 0x83 0x0a 0x35 0x16 0xaa 0x53 0x20 0x47
    ∷ guid 0xd3b36f2c 0xd551 0x11d4 0x9a 0x46 0x00 0x90 0x27 0x3f 0xc1 0x4d
    ∷ guid 0xd3b36f2b 0xd551 0x11d4 0x9a 0x46 0x00 0x90 0x27 0x3f 0xc1 0x4d
    ∷ guid 0x4c19049f 0x4137 0x4dd3 0x9c 0x10 0x8b 0x97 0xa8 0x3f 0xfd 0xfa
    ∷ guid 0x711c703f 0xc285 0x4b10 0xa3 0xb0 0x36 0xec 0xbd 0x3c 0x8b 0xe2
    ∷ guid 0xd3b36f2d 0xd551 0x11d4 0x9a 0x46 0x00 0x90 0x27 0x3f 0xc1 0x4d
    ∷ guid 0xddcf3616 0x3275 0x4164 0x98 0xb6 0xfe 0x85 0x70 0x7f 0xfe 0x7d
    ∷ guid 0x8cfdb8c8 0xd6b2 0x40f3 0x8e 0x97 0x02 0x30 0x7c 0xc9 0x8b 0x7c
    ∷ guid 0x93ba1826 0xdffb 0x45dd 0x82 0xa7 0xe7 0xdc 0xaa 0x3b 0xbd 0xf3
    ∷ guid 0x76b6bdfa 0x2acd 0x4462 0x9e 0x3f 0xcb 0x58 0xc9 0x69 0xd9 0x37
    ∷ guid 0xf866226a 0xeaa5 0x4f5a 0xa9 0x0a 0x6c 0xfb 0xa5 0x7c 0x58 0x8e
    ∷ guid 0x1ea81bec 0xf01a 0x4d98 0xa2 0x01 0x4a 0x61 0xce 0x2f 0xc0 0x22
    ∷ guid 0x931fc048 0xc71d 0x4455 0x89 0x30 0x47 0x06 0x30 0xe3 0x0e 0xe5
    ∷ guid 0xfc1bcdb0 0x7d31 0x49aa 0x93 0x6a 0xa4 0x60 0x0d 0x9d 0xd0 0x83
    ∷ guid 0xd8944553 0xc4dd 0x41f4 0x9b 0x30 0xe1 0x39 0x7c 0xfb 0x26 0x7b
    ∷ guid 0xe701458c 0x4900 0x4ca5 0xb7 0x72 0x3d 0x37 0x94 0x9f 0x79 0x27
    ∷ guid 0x060cc026 0x4c0d 0x4dda 0x8f 0x41 0x59 0x5f 0xef 0x00 0xa5 0x02
    ∷ guid 0x9a4e9246 0xd553 0x11d5 0x87 0xe2 0x00 0x06 0x29 0x45 0xc3 0xb9
    ∷ guid 0x2ca88b53 0xd296 0x4080 0xa4 0xa5 0xca 0xd9 0xba 0xe2 0x4b 0x09
    ∷ guid 0x59d1c24f 0x50f1 0x401a 0xb1 0x01 0xf3 0x3e 0x0d 0xae 0xd4 0x43
    ∷ guid 0x3c8d294c 0x5fc3 0x4451 0xbb 0x31 0xc4 0xc0 0x32 0x29 0x5e 0x6c
    ∷ guid 0x0ffbce19 0x324c 0x4690 0xa0 0x09 0x98 0xc6 0xae 0x2e 0xb1 0x86
    ∷ guid 0xb38573b6 0x6200 0x4ac5 0xb5 0x1d 0x82 0xe6 0x59 0x38 0xd7 0x83
    ∷ guid 0x2e3d2e75 0x9b2e 0x412d 0xb4 0xb1 0x70 0x41 0x6b 0x87 0x00 0xff
    ∷ guid 0x5cac0099 0x0dc9 0x48e5 0x80 0x68 0xbb 0x95 0xf5 0x40 0x0a 0x9f
    ∷ guid 0x2a3cfebd 0x27e8 0x4d0a 0x8b 0x79 0xd6 0x88 0xc2 0xa3 0xe1 0xc0
    ∷ guid 0xaf9ffd67 0xec10 0x488a 0x9d 0xfc 0x6c 0xbf 0x5e 0xe2 0x2c 0x2e
    ∷ guid 0x0ef98d3a 0x3e33 0x497a 0xa4 0x01 0x77 0xbe 0x3e 0xb7 0x4f 0x38
    ∷ guid 0x3079818c 0x46d4 0x4a73 0xae 0xf3 0xe3 0xe4 0x6c 0xf1 0xee 0xdb
    ∷ guid 0x79cb58c4 0xac51 0x442f 0xaf 0xd7 0x98 0xe4 0x7d 0x2e 0x99 0x08
    ∷ guid 0x0c0f3b43 0x44de 0x4907 0xb4 0x78 0x22 0x5f 0x6f 0x62 0x89 0xdc
    ∷ guid 0x3a4d7a7c 0x018a 0x4b42 0x81 0xb3 0xdc 0x10 0xe3 0xb5 0x91 0xbd
    ∷ guid 0x4f4ef7f0 0xaa29 0x4ce9 0xba 0x41 0x64 0x3e 0x01 0x23 0xa9 0x9f
    ∷ guid 0xa04a27f4 0xdf00 0x4d42 0xb5 0x52 0x39 0x51 0x13 0x02 0x11 0x3d
    ∷ guid 0xb3f56470 0x6141 0x4621 0x8f 0x19 0x70 0x4e 0x57 0x7a 0xa9 0xe8
    ∷ guid 0xf5e655d9 0x02a6 0x46f2 0x9e 0x76 0xb8 0xbe 0x8e 0x60 0xab 0x22
    ∷ guid 0x8614567d 0x35be 0x4415 0x8d 0x88 0xbd 0x7d 0x0c 0x9c 0x70 0xc0
    ∷ guid 0x09d5b53f 0xf4b0 0x4f59 0xa0 0xb1 0x7b 0x57 0xd3 0x5c 0x0e 0x05
    ∷ guid 0xd79df6b0 0xef44 0x43bd 0x97 0x97 0x43 0xe9 0x3b 0xcf 0x5f 0xa8
    ∷ guid 0x6456ed61 0x3579 0x41c9 0x8a 0x26 0x0a 0x0b 0xd6 0x2b 0x78 0xfc
    ∷ guid 0x786ec0ac 0x65ae 0x4d1b 0xb1 0x37 0x0d 0x11 0x0a 0x48 0x37 0x97
    ∷ guid 0x00000000 0x0000 0x0000 0x00 0x00 0x00 0x00 0x00 0x00 0x00 0x00
    ∷ guid 0xeb704011 0x1402 0x11d3 0x8e 0x77 0x00 0xa0 0xc9 0x69 0x72 0x3b
    ∷ guid 0xc095791a 0x3001 0x47b2 0x80 0xc9 0xea 0xc7 0x31 0x9f 0x2f 0xa4
    ∷ guid 0x0dc65adc 0xa973 0x4130 0x8d 0xf0 0x2a 0xdb 0xeb 0x9e 0x4a 0x31
    ∷ guid 0x4f6c5507 0x232f 0x4787 0xb9 0x5e 0x72 0xf8 0x62 0x49 0x0c 0xb1
    ∷ guid 0xdb4e8151 0x57ed 0x4bed 0x88 0x33 0x67 0x51 0xb5 0xd1 0xa8 0xd7
    ∷ guid 0xf6ee6dbb 0xd67f 0x4ea0 0x8b 0x96 0x6a 0x71 0xb1 0x9d 0x84 0xad
    ∷ guid 0x821c9a09 0x541a 0x40f6 0x9f 0x43 0x0a 0xd1 0x93 0xa1 0x2c 0xfe
    ∷ guid 0x04b37fe8 0xf6ae 0x480b 0xbd 0xd5 0x37 0xd9 0x8c 0x5e 0x89 0xaa
    ∷ guid 0xa45e60d1 0xc719 0x44aa 0xb0 0x7a 0xaa 0x77 0x7f 0x85 0x90 0x6d
    ∷ guid 0x652b38a9 0x77f4 0x453f 0x89 0xd5 0xe7 0xbd 0xc3 0x52 0xfc 0x53
    ∷ guid 0xfedd6305 0xe2d7 0x4ed5 0x9f 0xaa 0xda 0x08 0x0e 0x33 0x6c 0x22
    ∷ guid 0x3bc1f6de 0x693e 0x4547 0xa3 0x00 0x21 0x82 0x3c 0xa4 0x20 0xb2
    ∷ guid 0x7c29785c 0x66b9 0x49fc 0xb7 0x97 0x1c 0xa5 0x55 0x0e 0xf2 0x83
    ∷ guid 0x3acf33ee 0xd892 0x40f4 0xa2 0xfc 0x38 0x54 0xd2 0xe1 0x32 0x3d
    ∷ guid 0x0ecc666b 0x4662 0x47f9 0x9d 0xd5 0xd0 0x96 0xff 0x7d 0xa4 0x9e
    ∷ guid 0xae933e1c 0xcc47 0x4e38 0x8f 0x0e 0xe2 0xf6 0x1d 0x26 0x05 0xdf
    ∷ guid 0x268f33a9 0xcccd 0x48be 0x88 0x17 0x86 0x05 0x3a 0xc3 0x2e 0xd6
    ∷ guid 0x61c68702 0x4d7e 0x4f43 0x8d 0xef 0xa7 0x43 0x05 0xce 0x74 0xc5
    ∷ guid 0x88c9d306 0x0900 0x4eb5 0x82 0x60 0x3e 0x2d 0xbe 0xda 0x1f 0x89
    ∷ guid 0x490e9d85 0x8aef 0x4193 0x8e 0x56 0xf7 0x34 0xa9 0xff 0xac 0x8b
    ∷ []

unfoldable pub guids_4 : List Guid
guids_4 =
    guid 0x5cb5c776 0x60d5 0x45ee 0x88 0x3c 0x45 0x27 0x08 0xcd 0x74 0x3f
    ∷ guid 0xf05976ef 0x83f1 0x4f3d 0x86 0x19 0xf7 0x59 0x5d 0x41 0xe5 0x38
    ∷ guid 0x309de7f1 0x7f5e 0x4ace 0xb4 0x9c 0x53 0x1b 0xe5 0xaa 0x95 0xef
    ∷ guid 0x480f8ae9 0x0c46 0x4aa9 0xbc 0x89 0xdb 0x9f 0xba 0x61 0x98 0x06
    ∷ guid 0x3ebd9e82 0x2c78 0x4de6 0x97 0x86 0x8d 0x4b 0xfc 0xb7 0xc8 0x81
    ∷ guid 0x3868fc3b 0x7e45 0x43a7 0x90 0x6c 0x4b 0xa4 0x7d 0xe1 0x75 0x4d
    ∷ guid 0x1259f60d 0xb754 0x468e 0xa7 0x89 0x4d 0xb8 0x5d 0x55 0xe8 0x7e
    ∷ guid 0x67c4f112 0x3385 0x4e55 0x9c 0x5b 0xc0 0x5b 0x71 0x7c 0x42 0x28
    ∷ guid 0xed32d533 0x99e6 0x4209 0x9c 0xc0 0x2d 0x72 0xcd 0xd9 0x98 0xa7
    ∷ guid 0xcd3d0a05 0x9e24 0x437c 0xa8 0x91 0x1e 0xe0 0x53 0xdb 0x76 0x38
    ∷ guid 0xaf23b340 0x97b4 0x4685 0x8d 0x4f 0xa3 0xf2 0x81 0x69 0xb2 0x1d
    ∷ guid 0xb0d8f3c1 0xb7de 0x4c11 0xbc 0x89 0x2f 0xb5 0x62 0xc8 0xc4 0x11
    ∷ guid 0xd326d041 0xbd31 0x4c01 0xb5 0xa8 0x62 0x8b 0xe8 0x7f 0x06 0x53
    ∷ guid 0x4c8a2451 0xc207 0x405b 0x96 0x94 0x99 0xea 0x13 0x25 0x13 0x41
    ∷ guid 0xbd445d79 0xb7ad 0x4f04 0x9a 0xd8 0x29 0xbd 0x20 0x40 0xeb 0x3c
    ∷ guid 0x1f73b18d 0x4630 0x43c1 0xa1 0xde 0x6f 0x80 0x85 0x5d 0x7d 0xa4
    ∷ guid 0xaaeaccfd 0xf27b 0x4c17 0xb6 0x10 0x75 0xca 0x1f 0x2d 0xfb 0x52
    ∷ guid 0x2a72d11e 0x7376 0x40f6 0x9c 0x68 0x23 0xfa 0x2f 0xe3 0x63 0xf1
    ∷ guid 0xcdea2bd3 0xfc25 0x4c1c 0xb9 0x7c 0xb3 0x11 0x86 0x06 0x49 0x90
    ∷ guid 0x9bbe29e9 0xfda1 0x41ec 0xad 0x52 0x45 0x22 0x13 0x74 0x2d 0x2e
    ∷ guid 0xa770c357 0xb693 0x4e6d 0xa6 0xcf 0xd2 0x1c 0x72 0x8e 0x55 0x0b
    ∷ guid 0x8be4df61 0x93ca 0x11d2 0xaa 0x0d 0x00 0xe0 0x98 0x03 0x2b 0x8c
    ∷ guid 0x7baec70b 0x57e0 0x4c76 0x8e 0x87 0x2f 0x9e 0x28 0x08 0x83 0x43
    ∷ guid 0xdfa66065 0xb419 0x11d3 0x9a 0x2d 0x00 0x90 0x27 0x3f 0xc1 0x4d
    ∷ guid 0xe0c14753 0xf9be 0x11d2 0x9a 0x0c 0x00 0x90 0x27 0x3f 0xc1 0x4d
    ∷ guid 0xad15a0d6 0x8bec 0x4acf 0xa0 0x73 0xd0 0x1d 0xe7 0x7e 0x2d 0x88
    ∷ guid 0x37499a9d 0x542f 0x4c89 0xa0 0x26 0x35 0xda 0x14 0x20 0x94 0xe4
    ∷ guid 0xd487ddb4 0x008b 0x11d9 0xaf 0xdc 0x00 0x10 0x83 0xff 0xca 0x4d
    ∷ guid 0x024dee41 0x33e7 0x11d3 0x9d 0x69 0x00 0x08 0xc7 0x81 0xf3 0x9f
    ∷ guid 0xc12a7328 0xf81f 0x11d2 0xba 0x4b 0x00 0xa0 0xc9 0x3e 0xc9 0x3b
    ∷ guid 0x00000000 0x0000 0x0000 0x00 0x00 0x00 0x00 0x00 0x00 0x00 0x00
    ∷ guid 0x49152e77 0x1ada 0x4764 0xb7 0xa2 0x7a 0xfe 0xfe 0xd9 0x5e 0x8b
    ∷ guid 0x8868e871 0xe4f1 0x11d3 0xbc 0x22 0x00 0x80 0xc7 0x3c 0x88 0x81
    ∷ guid 0x8868e871 0xe4f1 0x11d3 0xbc 0x22 0x00 0x80 0xc7 0x3c 0x88 0x81
    ∷ guid 0xeb9d2d30 0x2d88 0x11d3 0x9a 0x16 0x00 0x90 0x27 0x3f 0xc1 0x4d
    ∷ guid 0xeb9d2d31 0x2d88 0x11d3 0x9a 0x16 0x00 0x90 0x27 0x3f 0xc1 0x4d
    ∷ guid 0xeb9d2d2f 0x2d88 0x11d3 0x9a 0x16 0x00 0x90 0x27 0x3f 0xc1 0x4d
    ∷ guid 0xeb9d2d32 0x2d88 0x11d3 0x9a 0x16 0x00 0x90 0x27 0x3f 0xc1 0x4d
    ∷ guid 0xc280c73e 0x15ca 0x11da 0xb0 0xca 0x00 0x10 0x83 0xff 0xca 0x4d
    ∷ guid 0xd6062b50 0x15ca 0x11da 0x92 0x19 0x00 0x10 0x83 0xff 0xca 0x4d
    ∷ guid 0xdb47d7d3 0xfe81 0x11d3 0x9a 0x35 0x00 0x90 0x27 0x3f 0xc1 0x4d
    ∷ guid 0x09576e93 0x6d3f 0x11d2 0x8e 0x39 0x00 0xa0 0xc9 0x69 0x72 0x3b
    ∷ guid 0x09576e92 0x6d3f 0x11d2 0x8e 0x39 0x00 0xa0 0xc9 0x69 0x72 0x3b
    ∷ guid 0xedd35e31 0x07b9 0x11d2 0x83 0xa3 0x00 0xa0 0xc9 0x1f 0xad 0xcf
    ∷ guid 0x345ecc0e 0x0cb6 0x4b75 0xbb 0x57 0x1b 0x12 0x9c 0x47 0x33 0x3e
    ∷ guid 0x14982a4f 0xb0ed 0x45b8 0xa8 0x11 0x5a 0x7a 0x9b 0xc2 0x32 0xdf
    ∷ guid 0x0af7c79c 0x65b5 0x4319 0xb0 0xae 0x44 0xec 0x48 0x4e 0x4a 0xd7
    ∷ guid 0xcaa4381e 0x750c 0x4770 0xb8 0x70 0x7a 0x23 0xb4 0xe4 0x21 0x30
    ∷ guid 0xefa96432 0xde33 0x4dd2 0xae 0xe6 0x32 0x8c 0x33 0xdf 0x77 0x7a
    ∷ guid 0x51aa59de 0xfdf2 0x4ea3 0xbc 0x63 0x87 0x5f 0xb7 0x84 0x2e 0xe9
    ∷ guid 0x8df01a06 0x9bd5 0x4bf7 0xb0 0x21 0xdb 0x4f 0xd9 0xcc 0xf4 0x5b
    ∷ guid 0x2ae9d80f 0x3fb2 0x4095 0xb7 0xb1 0xe9 0x31 0x57 0xb9 0x46 0xb6
    ∷ guid 0x7ce88fb3 0x4bd7 0x4679 0x87 0xa8 0xa8 0xd8 0xde 0xe5 0x0d 0x2b
    ∷ guid 0x78bee926 0x692f 0x48fd 0x9e 0xdb 0x01 0x42 0x2e 0xf0 0xd7 0xab
    ∷ guid 0x13fa7698 0xc831 0x49c7 0x87 0xea 0x8f 0x43 0xfc 0xc2 0x51 0x96
    ∷ guid 0x27abf055 0xb1b8 0x4c26 0x80 0x48 0x74 0x8f 0x37 0xba 0xa2 0xdf
    ∷ guid 0xeba4e8d2 0x3858 0x41ec 0xa2 0x81 0x26 0x47 0xba 0x96 0x60 0xd0
    ∷ guid 0xeba4e8d2 0x3858 0x41ec 0xa2 0x81 0x26 0x47 0xba 0x96 0x60 0xd0
    ∷ guid 0x93039971 0x8545 0x4b04 0xb4 0x5e 0x32 0xeb 0x83 0x26 0x04 0x0e
    ∷ guid 0xf22fc20c 0x8cf4 0x45eb 0x8e 0x06 0xad 0x4e 0x50 0xb9 0x5d 0xd3
    ∷ guid 0x337f4407 0x5aee 0x4b83 0xb2 0xa7 0x4e 0xad 0xca 0x30 0x88 0xcd
    ∷ guid 0x3bd2f4ec 0xe524 0x46e4 0xa9 0xd8 0x51 0x01 0x17 0x42 0x55 0x62
    ∷ guid 0xe20939be 0x32d4 0x41be 0xa1 0x50 0x89 0x7f 0x85 0xd4 0x98 0x29
    ∷ guid 0xa7717414 0xc616 0x4977 0x94 0x20 0x84 0x47 0x12 0xa7 0x35 0xbf
    ∷ guid 0x2dce8bb1 0xbdd7 0x450e 0xb9 0xad 0x9c 0xf4 0xeb 0xd4 0xf8 0x90
    ∷ guid 0x4e292f96 0xd843 0x4a55 0xa8 0xc2 0xd4 0x81 0xf2 0x7e 0xbe 0xee
    ∷ guid 0xe8f56ffe 0x919c 0x4cc5 0xba 0x88 0x65 0xab 0xe1 0x49 0x13 0xbb
    ∷ guid 0xcf93c01f 0x1a16 0x4dfc 0xb8 0xbc 0x9c 0x4d 0xaf 0x67 0xc1 0x04
    ∷ guid 0xcc5263e8 0x9308 0x454a 0x89 0xd0 0x34 0x0b 0xd3 0x9b 0xc9 0x8e
    ∷ guid 0x5bad89ff 0xb7e6 0x42c9 0x81 0x4a 0xcf 0x24 0x85 0xd6 0xe9 0x8a
    ∷ guid 0x3d61a466 0xab40 0x409a 0xa6 0x98 0xf3 0x62 0xd4 0x64 0xb3 0x8f
    ∷ []
