-- ===== src/Guid/Values/Part1.antt =====
-- efi_guid.c, lines 9 to 150: the values of the GUIDs, in the order of the file.
use efiperun_mod.Prelude.{List, [], ◌∷◌}
use efiperun_mod.Guid.Defs.{Guid, guid}

unfoldable pub guids_1 : List Guid
guids_1 =
    guid 0xe7e1efa6 0x7607 0x4a78 0xa7 0xdd 0x43 0xe4 0xbd 0x72 0xc0 0x99
    ∷ guid 0xa1147a20 0x3144 0x4f8d 0x82 0x95 0xb4 0x83 0x11 0xc8 0xe4 0xa4
    ∷ guid 0xbb11ecfe 0x820f 0x4968 0xbb 0xa6 0xf7 0x6a 0xfe 0x30 0x25 0x96
    ∷ guid 0xa4ee0728 0xe5d7 0x4ac5 0xb2 0x1e 0x65 0x8e 0xd8 0x57 0xe8 0x34
    ∷ guid 0x6847cc74 0xe9ec 0x4f8f 0xa2 0x9d 0xab 0x44 0xe7 0x54 0xa8 0xfc
    ∷ guid 0xad651c7d 0x3c22 0x4dbf 0x92 0xe8 0x38 0xa7 0xcd 0xae 0x87 0xb2
    ∷ guid 0x9c0aaed4 0x74c5 0x4043 0xb4 0x17 0xa3 0x22 0x38 0x14 0xce 0x76
    ∷ guid 0xcbd2e4d5 0x7068 0x4ff5 0xb4 0x62 0x98 0x22 0xb4 0xad 0x8d 0x60
    ∷ guid 0xc3253c90 0xa24f 0x4599 0xa6 0x64 0x1f 0x88 0x13 0x77 0x8f 0xc9
    ∷ guid 0x41e26b9c 0xada6 0x45b3 0x80 0x8e 0x23 0x57 0xa3 0x5b 0x60 0xd6
    ∷ guid 0xaffe115b 0x8589 0x456d 0xba 0xb5 0x8f 0x2e 0xda 0x53 0xae 0xb7
    ∷ guid 0xab1c1816 0xd542 0x4e6f 0x9b 0x1e 0x8e 0xcd 0x92 0x53 0xe2 0xe7
    ∷ guid 0x44577a0d 0x361a 0x45b2 0xb3 0x3d 0xbb 0x9e 0xe6 0x0d 0x5a 0x4f
    ∷ guid 0x9c0aaed4 0x74c5 0x4043 0xb4 0x17 0xa3 0x22 0x38 0x14 0xce 0x76
    ∷ guid 0x0b6f5ca7 0x4f53 0x445a 0xb7 0x6e 0x2e 0x36 0x5b 0x80 0x63 0x66
    ∷ guid 0xb199dea9 0xfd5c 0x4a84 0x80 0x82 0x2f 0x41 0x70 0x78 0x03 0x05
    ∷ guid 0x6834fe45 0x4aee 0x4fc6 0xbc 0xb5 0xff 0x45 0xb7 0xa8 0x71 0xe2
    ∷ guid 0xe1475e0c 0x1746 0x4802 0x86 0x2e 0x01 0x1c 0x2c 0x2d 0x9d 0x86
    ∷ guid 0x3677d529 0x326f 0x4603 0xa9 0x26 0xea 0xac 0xe0 0x1d 0xcb 0xb0
    ∷ guid 0x3c699197 0x093c 0x4c69 0xb0 0x6b 0x12 0x8a 0xe3 0x48 0x1d 0xc9
    ∷ guid 0xb091e7d2 0x05a0 0x4198 0x94 0xf0 0x74 0xb7 0xb8 0xc5 0x54 0x59
    ∷ guid 0x7462660f 0x1cbd 0x48da 0xad 0x11 0x91 0x71 0x79 0x13 0x83 0x1c
    ∷ guid 0xed150714 0xdf30 0x407d 0xb2 0x4a 0x4b 0x74 0x2f 0xd5 0xce 0xa2
    ∷ guid 0xd6a2cb7f 0x6a18 0x4e2f 0xb4 0x3b 0x99 0x20 0xa7 0x33 0x70 0x0a
    ∷ guid 0x7701d7e5 0x7d1d 0x4432 0xa4 0x68 0x67 0x3d 0xab 0x8a 0xde 0x60
    ∷ guid 0x6568a3d6 0x015f 0x4b4a 0x9c 0x89 0x1d 0x14 0x63 0x14 0x13 0x0a
    ∷ guid 0x60b5e939 0x0fcf 0x4227 0xba 0x83 0x6b 0xbe 0xd4 0x5b 0xc0 0xe3
    ∷ guid 0x2354d320 0x3eb3 0x4c81 0x99 0xf4 0xcc 0x4a 0xe1 0x43 0x46 0x3e
    ∷ guid 0x9e0c30bc 0x3f06 0x4ba6 0x82 0x88 0x09 0x17 0x9b 0x85 0x5d 0xbe
    ∷ guid 0xb0ee53d4 0xa049 0x4a79 0xb2 0xff 0x19 0xd9 0xfa 0xef 0xaa 0x94
    ∷ guid 0xdf2d868e 0x32fc 0x4cf0 0x8e 0x6b 0xff 0xd9 0x5d 0x13 0x43 0xd0
    ∷ guid 0x910dca07 0x1f94 0x4ee7 0xaf 0x2f 0xff 0x72 0xf3 0x15 0x43 0x53
    ∷ guid 0xe0d8ca17 0x4276 0x4386 0xbb 0x79 0x48 0xcb 0x81 0x3d 0x3c 0x4f
    ∷ guid 0xb1b621d5 0xf19c 0x41a5 0x83 0x0b 0xd9 0x15 0x2c 0x69 0xaa 0xe0
    ∷ guid 0x2890b3ea 0x053d 0x1643 0xad 0x0c 0xd6 0x48 0x08 0xda 0x3f 0xf1
    ∷ guid 0x9546e07c 0x2cbb 0x4c88 0x98 0x6c 0xcd 0x34 0x10 0x86 0xf0 0x44
    ∷ guid 0xaeda2428 0x9a22 0x4637 0x9b 0x21 0x54 0x5e 0x28 0xfb 0xb8 0x29
    ∷ guid 0xbf4b9d10 0x13ec 0x43dd 0x88 0x80 0xe9 0x0b 0x71 0x8f 0x27 0xde
    ∷ guid 0x735f8c64 0xd696 0x44d0 0xbd 0xf2 0x44 0x7f 0xd0 0x5a 0x54 0x06
    ∷ guid 0x17a0a3d7 0xc0a5 0x4635 0xbb 0xd5 0x07 0x21 0x87 0xdf 0xe2 0xee
    ∷ guid 0xb323179b 0x97fb 0x477e 0xb0 0xfe 0xd8 0x85 0x91 0xfa 0x11 0xab
    ∷ guid 0x3e591c00 0x9e4a 0x11df 0x92 0x44 0x00 0x02 0xa5 0xd5 0xc5 0x1b
    ∷ guid 0x74bd9fe0 0x8902 0x11e3 0xb9 0xd3 0xf7 0x22 0x38 0xfc 0x9a 0x31
    ∷ guid 0x524685a0 0x89a0 0x11e3 0x9d 0x4d 0xbf 0xa9 0xf6 0xa4 0x03 0x08
    ∷ guid 0x021bd2ca 0x51d2 0x11e3 0x8e 0x56 0xb7 0x54 0x17 0xc7 0x0b 0x44
    ∷ guid 0x5cf32e0b 0x8edf 0x2e44 0x9c 0xda 0x93 0x20 0x5e 0x99 0xec 0x1c
    ∷ guid 0x453368f6 0x7c85 0x434a 0xa9 0x8a 0x72 0xd1 0xb7 0xff 0xa9 0x26
    ∷ guid 0x30fd316a 0x6728 0x2e41 0xa6 0x90 0x0d 0x13 0x33 0xd8 0xca 0xc1
    ∷ guid 0x3b1e4b7c 0x09d8 0x944f 0xa4 0x08 0x13 0x09 0xeb 0x8b 0x44 0x27
    ∷ guid 0x6888a4ae 0xafce 0xe84b 0x91 0x02 0xf7 0xb9 0xda 0xe6 0xa0 0x30
    ∷ guid 0xfd5fbe54 0x8c35 0xb345 0x8a 0x0f 0x7a 0xc8 0xa5 0xfd 0x05 0x21
    ∷ guid 0xe113f896 0x75cf 0xf640 0x81 0x7f 0xc8 0x5a 0x79 0xe8 0xae 0x67
    ∷ guid 0x4f792e68 0xe8c8 0x794e 0xb1 0xd8 0x37 0x03 0xf3 0xf2 0xd5 0xa5
    ∷ guid 0xf8626165 0x6ceb 0x924a 0xba 0xfc 0xf1 0x3a 0xb9 0xd6 0x57 0x28
    ∷ guid 0xf2ba331a 0x8985 0x11db 0xa4 0x06 0x00 0x40 0xd0 0x2b 0x18 0x35
    ∷ guid 0xf2bdcc96 0x8985 0x11db 0x87 0x19 0x00 0x40 0xd0 0x2b 0x18 0x35
    ∷ guid 0xd3705011 0xbc19 0x4af7 0xbe 0x16 0xf6 0x80 0x30 0x37 0x8c 0x15
    ∷ guid 0xd083e94c 0x6560 0x42e4 0xb6 0xd4 0x2d 0xf7 0x5a 0xdf 0x6a 0x2a
    ∷ guid 0xa31280ad 0x481e 0x41b6 0x95 0xe8 0x12 0x7f 0x4c 0x98 0x47 0x79
    ∷ guid 0xee4e5898 0x3914 0x4259 0x9d 0x6e 0xdc 0x7b 0xd7 0x94 0x03 0xcf
    ∷ guid 0xd42ae6bd 0x1352 0x4bfb 0x90 0x9a 0xca 0x72 0xa6 0xea 0xe8 0x89
    ∷ guid 0xc020489e 0x6db2 0x4ef2 0x9a 0xa5 0xca 0x06 0xfc 0x11 0xd3 0x6a
    ∷ guid 0x2e3044ac 0x879f 0x490f 0x97 0x60 0xbb 0xdf 0xaf 0x69 0x5f 0x50
    ∷ guid 0xa56074db 0x65fe 0x45f7 0xbd 0x21 0x2d 0x2b 0xdd 0x8e 0x96 0x52
    ∷ guid 0x283fa2ee 0x532c 0x484d 0x93 0x83 0x9f 0x93 0xb3 0x6f 0x0b 0x7e
    ∷ guid 0xcf31fac5 0xc24e 0x11d2 0x85 0xf3 0x00 0xa0 0xc9 0x3e 0xc9 0x3b
    ∷ guid 0x9e0c30bc 0x3f06 0x4ba6 0x82 0x88 0x09 0x17 0x9b 0x85 0x5d 0xbe
    ∷ guid 0x847bc3fe 0xb974 0x446d 0x94 0x49 0x5a 0xd5 0x41 0x2e 0x99 0x3b
    ∷ guid 0x3ebfa8e6 0x511d 0x4b5b 0xa9 0x5f 0xfb 0x38 0x26 0x0f 0x1c 0x27
    ∷ guid 0xf76e0a70 0xb5ed 0x4c38 0xac 0x9a 0xe5 0xf5 0x4b 0xf1 0x6e 0x34
    ∷ guid 0x642237c7 0x35d4 0x472d 0x83 0x65 0x12 0xe0 0xcc 0xf2 0x7a 0x22
    ∷ []

unfoldable pub guids_2 : List Guid
guids_2 =
    guid 0x1f2d63e1 0xfebd 0x4dc7 0x9c 0xc5 0xba 0x2b 0x1c 0xef 0x9c 0x5b
    ∷ guid 0x3b4d9b23 0x95ac 0x44f6 0x9f 0xcd 0x0e 0x95 0x94 0x58 0x6c 0x72
    ∷ guid 0x0e8c545b 0xa2ee 0x470d 0x8e 0x26 0xbd 0xa1 0xa1 0x3c 0x0a 0xa3
    ∷ guid 0xfab7e9e1 0x39dd 0x4f2b 0x84 0x08 0xe2 0x0e 0x90 0x6c 0xb6 0xde
    ∷ guid 0xc7735a2f 0x88f5 0x4882 0xae 0x63 0xfa 0xac 0x8c 0x8b 0x86 0xb3
    ∷ guid 0x7ee2bd44 0x3da0 0x11d4 0x9a 0x38 0x00 0x90 0x27 0x3f 0xc1 0x4d
    ∷ guid 0x64a892dc 0x5561 0x4536 0x92 0xc7 0x79 0x9b 0xfc 0x18 0x33 0x55
    ∷ guid 0x4df19259 0xdc71 0x4d46 0xbe 0xf1 0x35 0x7b 0xb5 0x78 0xc4 0x18
    ∷ guid 0x170e13c0 0xbf1b 0x4218 0x87 0x1d 0x2a 0xbd 0xc6 0xf8 0x87 0xbc
    ∷ guid 0xd088a413 0x0a70 0x4217 0xba 0x55 0x9a 0x3c 0xb6 0x5c 0x41 0xb3
    ∷ guid 0x7f0013a7 0xdc79 0x4b22 0x80 0x99 0x11 0xf7 0x5f 0xdc 0x82 0x9d
    ∷ guid 0x4e8f4ebb 0x64b9 0x4e05 0x9b 0x18 0x4c 0xfe 0x49 0x23 0x50 0x97
    ∷ guid 0x772484b2 0x7482 0x4b91 0x9f 0x9a 0xad 0x43 0xf8 0x1c 0x58 0x81
    ∷ guid 0x26fdeb7e 0xb8af 0x4ccf 0xaa 0x97 0x02 0x63 0x3c 0xe4 0x8c 0xa7
    ∷ guid 0x3b6686bd 0x0d76 0x4030 0xb7 0x0e 0xb5 0x51 0x9e 0x2f 0xc5 0xa0
    ∷ guid 0x98b8d59b 0xe8ba 0x48ee 0x98 0xdd 0xc2 0x95 0x39 0x2f 0x1e 0xdb
    ∷ guid 0x6dadf1d1 0xd4cc 0x4910 0xbb 0x6e 0x82 0xb1 0xfd 0x80 0xff 0x3d
    ∷ guid 0xf328e36c 0x23b6 0x4a95 0x85 0x4b 0x32 0xe1 0x95 0x34 0xcd 0x75
    ∷ guid 0x7a9354d9 0x0468 0x444a 0x81 0xce 0x0b 0xf6 0x17 0xd8 0x90 0xdf
    ∷ guid 0x964e5b22 0x6459 0x11d2 0x8e 0x39 0x00 0xa0 0xc9 0x69 0x72 0x3b
    ∷ guid 0xda6855bd 0x07b7 0x4c05 0x9e 0xd8 0xe2 0x59 0xfd 0x36 0x0e 0x22
    ∷ guid 0xabd42895 0x78cf 0x4872 0x84 0x44 0x1b 0x5c 0x18 0x0b 0xfb 0xff
    ∷ guid 0x1388066e 0x3a57 0x4efa 0x98 0xf3 0xc1 0x2f 0x3a 0x95 0x8a 0x29
    ∷ guid 0xabd42895 0x78cf 0x4872 0x84 0x44 0x1b 0x5c 0x18 0x0b 0xfb 0xda
    ∷ guid 0xe1f2eba0 0xf7b9 0x4a26 0x86 0x20 0x13 0x12 0x21 0x64 0x2a 0x90
    ∷ guid 0x3cdc90c6 0x13fb 0x4a75 0x9e 0x79 0x59 0xe9 0xdd 0x78 0xb9 0xfa
    ∷ guid 0x4f89e208 0xe144 0x4804 0x9e 0xc8 0x0f 0x89 0x4f 0x7e 0x36 0xd7
    ∷ guid 0x7e1f0d85 0x04ff 0x4bb2 0x86 0x6a 0x31 0xa2 0x99 0x6a 0x48 0xa8
    ∷ guid 0x36164812 0xa023 0x44e5 0xbd 0x85 0x05 0xbf 0x3c 0x77 0x00 0xaa
    ∷ guid 0x4426ccb2 0xe684 0x4a8a 0xae 0x40 0x20 0xd4 0xb0 0x25 0xb7 0x10
    ∷ guid 0x125f2de1 0xfb85 0x440c 0xa5 0x4c 0x4d 0x99 0x35 0x8a 0x8d 0x38
    ∷ guid 0xdbff9d55 0x89b7 0x46da 0xbd 0xdf 0x67 0x7d 0x3d 0xc0 0x24 0x1d
    ∷ guid 0x470e1529 0xb79e 0x4e32 0xa0 0xfe 0x6a 0x15 0x6d 0x29 0xf9 0xb2
    ∷ guid 0xdb9a1e3d 0x45cb 0x4abb 0x85 0x3b 0xe5 0x38 0x7f 0xdb 0x2e 0x2d
    ∷ guid 0x783658a3 0x4172 0x4421 0xa2 0x99 0xe0 0x09 0x07 0x9c 0x0c 0xb4
    ∷ guid 0x31ce593d 0x108a 0x485d 0xad 0xb2 0x78 0xf2 0x1f 0x29 0x66 0xbe
    ∷ guid 0x0fc9013a 0x0568 0x4ba9 0x9b 0x7e 0xc9 0xc3 0x90 0xa6 0x60 0x9b
    ∷ guid 0x38321dba 0x4fe0 0x4e17 0x8a 0xec 0x41 0x30 0x55 0xea 0xed 0xc1
    ∷ guid 0xb0732526 0x38c8 0x4b40 0x88 0x77 0x61 0xc7 0xb0 0x6a 0xac 0x45
    ∷ guid 0xae80d021 0x618e 0x11d4 0xbc 0xd7 0x00 0x80 0xc7 0x3c 0x88 0x81
    ∷ guid 0x389f751f 0x1838 0x4388 0x83 0x90 0xcd 0x81 0x54 0xbd 0x27 0xf8
    ∷ guid 0x448f5da4 0x6dd7 0x4fe1 0x93 0x07 0x69 0x22 0x41 0x92 0x21 0x5d
    ∷ guid 0xd7ad636e 0xb997 0x459b 0xbf 0x3f 0x88 0x46 0x89 0x79 0x80 0xe1
    ∷ guid 0x5542cce1 0xdf5c 0x4d1b 0xab 0xca 0x36 0x4f 0x77 0xd3 0x99 0xfb
    ∷ guid 0xf33261e7 0x23cb 0x11d5 0xbd 0x5c 0x00 0x80 0xc7 0x3c 0x88 0x81
    ∷ guid 0x1390954d 0xda95 0x4227 0x93 0x28 0x72 0x82 0xc2 0x17 0xda 0xa8
    ∷ guid 0x3792095a 0xe309 0x4c1e 0xaa 0x01 0x85 0xf5 0x65 0x5a 0x17 0xf1
    ∷ guid 0x8d12e231 0xc667 0x4fd1 0x98 0xf2 0x24 0x49 0xa7 0xe7 0xb2 0xe5
    ∷ guid 0xe541b773 0xdd11 0x420c 0xb0 0x26 0xdf 0x99 0x36 0x53 0xf8 0xbf
    ∷ guid 0x14fc52be 0x01dc 0x426c 0x91 0xae 0xa2 0x3c 0x3e 0x22 0x0a 0xe8
    ∷ guid 0x9cca03fc 0x4c9e 0x4a19 0x9b 0x06 0xed 0x7b 0x47 0x9b 0xde 0x55
    ∷ guid 0xa05b6ffd 0x87af 0x4e42 0x95 0xc9 0x62 0x28 0xb6 0x3c 0xf3 0xf3
    ∷ guid 0xe0744b81 0x9513 0x49cd 0x8c 0xea 0xe9 0x24 0x5e 0x70 0x39 0xda
    ∷ guid 0x78965b98 0xb0bf 0x449e 0x8b 0x22 0xd2 0x91 0x4e 0x49 0x8a 0x98
    ∷ guid 0xb709efa0 0x47a6 0x4b41 0xb9 0x31 0x12 0xec 0xe7 0xa8 0xee 0x56
    ∷ guid 0xc50b323e 0x9075 0x4f2a 0xac 0x8e 0xd2 0x59 0x6a 0x10 0x85 0xcc
    ∷ guid 0x5f439a0b 0x45d8 0x4682 0xa4 0xf4 0xf0 0x57 0x6b 0x51 0x34 0x41
    ∷ guid 0xf3e4543d 0xcf35 0x6cef 0x35 0xc4 0x4f 0xe6 0x34 0x4d 0xfc 0x54
    ∷ guid 0xe5a1333e 0xe1b4 0x4d55 0xce 0xeb 0x35 0xc3 0xef 0x13 0x34 0x43
    ∷ guid 0x0fb7c852 0xadca 0x4853 0x8d 0x0f 0xfb 0xa7 0x1b 0x1c 0xe1 0x1a
    ∷ guid 0xde28bc59 0x6228 0x41bd 0xbd 0xf6 0xa3 0xb9 0xad 0xb5 0x8d 0xa1
    ∷ guid 0x21f302ad 0x6e94 0x471b 0x84 0xbc 0xb1 0x48 0x00 0x40 0x3a 0x1d
    ∷ guid 0x834c0c5f 0xadb3 0x4372 0xae 0xeb 0x03 0xe4 0xe9 0xe6 0xc5 0x91
    ∷ guid 0x912740be 0x2284 0x4734 0xb9 0x71 0x84 0xb0 0x27 0x35 0x3f 0x0c
    ∷ guid 0xbbcff46c 0xc8d3 0x4113 0x89 0x85 0xb9 0xd4 0xf3 0xb3 0xf6 0x4e
    ∷ guid 0x69a79759 0x1373 0x4367 0xa6 0xc4 0xc7 0xf5 0x9e 0xfd 0x98 0x6e
    ∷ guid 0x721acf02 0x4d77 0x4c2a 0xb3 0xdc 0x27 0x0b 0x7b 0xa9 0xe4 0xb0
    ∷ guid 0xd038747c 0xd00c 0x4980 0xb3 0x19 0x49 0x01 0x99 0xa4 0x7d 0x55
    ∷ guid 0x9c7c3aa7 0x5332 0x4917 0x82 0xb9 0x56 0xa5 0xf3 0xe6 0x2a 0x07
    ∷ guid 0x00d6b14b 0x7dd0 0x4062 0x88 0x21 0xe5 0xf9 0x6a 0x2a 0x1b 0x00
    ∷ guid 0x2bc1c74a 0x122f 0x40b2 0xb2 0x23 0x08 0x2b 0x74 0x65 0x22 0x5d
    ∷ []
