-- ===== src/Guid/Values/Part3.antt =====
-- efi_guid.c, lines 293 to 434: the values of the GUIDs, in the order of the file.
use efiperun_mod.Prelude.{List, [], ◌∷◌}
use efiperun_mod.Guid.Defs.{Guid, guid}

unfoldable pub guids_5 : List Guid
guids_5 =
    guid 0x667dd791 0xc6b3 0x4c27 0x8a 0x6b 0x0f 0x8e 0x72 0x2d 0xeb 0x41
    ∷ guid 0x9876ccad 0x47b4 0x4bdb 0xb6 0x5e 0x16 0xf1 0x93 0xc4 0xf3 0xdb
    ∷ guid 0xdc3ea0b0 0xa144 0x4797 0xb9 0x5b 0x53 0xfa 0x24 0x2b 0x6e 0x1d
    ∷ guid 0xa5bc1114 0x6f64 0x4ede 0xb8 0x63 0x3e 0x83 0xed 0x7c 0x83 0xb1
    ∷ guid 0xd995e954 0xbbc1 0x430f 0xad 0x91 0xb4 0x4d 0xcb 0x3c 0x6f 0x35
    ∷ guid 0x81212a96 0x09ed 0x4996 0x94 0x71 0x8d 0x72 0x9c 0x8e 0x69 0xed
    ∷ guid 0xc5753963 0x3b84 0x4095 0xbf 0x78 0xed 0xda 0xd3 0xf9 0xc9 0xdd
    ∷ guid 0xeb5e4685 0xca66 0x4769 0xb6 0xa2 0x26 0x06 0x8b 0x00 0x13 0x26
    ∷ guid 0x5b51fef7 0xc79d 0x4434 0x8f 0x1b 0xaa 0x62 0xde 0x3e 0x2c 0x64
    ∷ guid 0x71761d37 0x32b2 0x45cd 0xa7 0xd0 0xb0 0xfe 0xdd 0x93 0xe8 0xcf
    ∷ guid 0x036f84e1 0x7f37 0x428c 0xa7 0x9e 0x57 0x5f 0xdf 0xaa 0x84 0xec
    ∷ guid 0xbaf1e6de 0x209e 0x4adb 0x8d 0x96 0xfd 0x8b 0x71 0xf3 0xf6 0x83
    ∷ guid 0x5cf32e68 0x7660 0x449b 0x80 0xe6 0x7e 0xa3 0x6e 0x03 0xf6 0xa8
    ∷ guid 0xf8e5058c 0xccb6 0x4714 0xb2 0x20 0x3f 0x7e 0x3a 0x64 0x0b 0xd1
    ∷ guid 0x5f03ba33 0x8c6b 0x4c24 0xaa 0x2e 0x14 0xa2 0x65 0x7b 0xd4 0x54
    ∷ guid 0x32cba21f 0xf308 0x4cbc 0x9a 0xb5 0xf5 0xa3 0x69 0x9f 0x04 0x4a
    ∷ guid 0x5917ef16 0xf723 0x4bb9 0xa6 0x4b 0xd8 0xc5 0x32 0xf4 0xd8 0xb5
    ∷ guid 0x8a6b4a83 0x42fe 0x45d2 0xa2 0xef 0x46 0xf0 0x6c 0x7d 0x98 0x52
    ∷ guid 0x85b75607 0xf7ce 0x471e 0xb7 0xe4 0x2a 0xea 0x5f 0x72 0x32 0xee
    ∷ guid 0x1db29ae0 0x9dcb 0x43bc 0x8d 0x87 0x5d 0xa1 0x49 0x64 0xdd 0xe2
    ∷ guid 0xbdb38125 0x4d63 0x49f4 0x82 0x12 0x61 0xcf 0x5a 0x19 0x0a 0xf8
    ∷ guid 0xd719b2cb 0x3d3a 0x4596 0xa3 0xbc 0xda 0xd0 0x0e 0x67 0x65 0x6f
    ∷ guid 0xc1c41626 0x504c 0x4092 0xac 0xa9 0x41 0xf9 0x36 0x93 0x43 0x28
    ∷ guid 0x3c5766e8 0x269c 0x4e34 0xaa 0x14 0xed 0x77 0x6e 0x85 0xb3 0xb6
    ∷ guid 0xe2b36190 0x879b 0x4a3d 0xad 0x8d 0xf2 0xe7 0xbb 0xa3 0x27 0x84
    ∷ guid 0x826ca512 0xcf10 0x4ac9 0xb1 0x87 0xbe 0x01 0x49 0x66 0x31 0xbd
    ∷ guid 0x67f8444f 0x8743 0x48f1 0xa3 0x28 0x1e 0xaa 0xb8 0x73 0x60 0x80
    ∷ guid 0xa5c059a1 0x94e4 0x4aa7 0x87 0xb5 0xab 0x15 0x5c 0x2b 0xf0 0x72
    ∷ guid 0xec8a3d69 0x6ddf 0x4108 0x94 0x76 0x73 0x37 0xfc 0x52 0x21 0x36
    ∷ guid 0xa3b3e6f8 0xefca 0x4bc1 0x88 0xfb 0xcb 0x87 0x33 0x9b 0x25 0x79
    ∷ guid 0x70f64793 0xc323 0x4261 0xac 0x2c 0xd8 0x76 0xf2 0x7c 0x53 0x45
    ∷ guid 0x978fe043 0xd7af 0x422e 0x8a 0x92 0x2b 0x48 0xe4 0x63 0xbd 0xe6
    ∷ guid 0x43be0b44 0x874b 0x4ead 0xb0 0x9c 0x24 0x1a 0x4f 0xbd 0x7e 0xb3
    ∷ guid 0x40093f23 0x630c 0x4626 0x9c 0x48 0x40 0x37 0x3b 0x19 0xcb 0xbe
    ∷ guid 0xb9237513 0x6c44 0x4411 0xa9 0x90 0x21 0xe5 0x56 0xe0 0x5a 0xde
    ∷ guid 0x78be11c4 0xee44 0x4a22 0x9f 0x05 0x03 0x85 0x2e 0xc5 0xc9 0x78
    ∷ guid 0xf7ad60f8 0xefa8 0x44a3 0x91 0x13 0x23 0x1f 0x39 0x9e 0xb4 0xc7
    ∷ guid 0xd1c17aa1 0xcac5 0x400f 0xbe 0x17 0xe2 0xa2 0xae 0x06 0x67 0x7c
    ∷ guid 0x3fa4f847 0xd8eb 0x4df4 0xbd 0x49 0x10 0x3a 0x0a 0x84 0x7b 0xbc
    ∷ guid 0xdcbc3662 0x9cda 0x4b52 0xa0 0x4c 0x82 0xeb 0x1d 0x23 0x48 0xc7
    ∷ guid 0x1c178237 0x6897 0x459e 0x9d 0x36 0x67 0xce 0x8e 0xf9 0x4f 0x76
    ∷ guid 0x453c5e5a 0x482d 0x43f0 0x87 0xc9 0x59 0x41 0xf3 0xa3 0x8a 0xc2
    ∷ guid 0x6bb4f5cd 0x8022 0x448d 0xbc 0x6d 0x77 0x1b 0xae 0x93 0x5f 0xc6
    ∷ guid 0x2f240e12 0xe14d 0x475c 0x83 0xb0 0xef 0xff 0x22 0xd7 0x7b 0xe7
    ∷ guid 0x4776e33f 0xdb47 0x479a 0xa2 0x5f 0xa1 0xcd 0x0a 0xfa 0xb3 0x8b
    ∷ guid 0xdc7e8613 0xc4bb 0x4db0 0x84 0x62 0x13 0x51 0x13 0x57 0xab 0xe2
    ∷ guid 0xa0e8ee6a 0x0e92 0x44d4 0x86 0x1b 0x0e 0xaa 0x4a 0xca 0x44 0xa2
    ∷ guid 0xd7e69789 0x1f68 0x45e8 0x96 0xef 0x3b 0x64 0x07 0xa5 0xb2 0xdc
    ∷ guid 0x56417bed 0x6bbe 0x4882 0x86 0xa0 0x3a 0xe8 0xbb 0x17 0xf8 0xf9
    ∷ guid 0xf66447d4 0x75a6 0x463e 0xa8 0x19 0x07 0x7f 0x2d 0xda 0x05 0xe9
    ∷ guid 0xa477af13 0x877d 0x4060 0xba 0xa1 0x25 0xd1 0xbe 0xa0 0x8a 0xd3
    ∷ guid 0x4e1356c2 0x0eed 0x463f 0x81 0x47 0x99 0x33 0xab 0xdb 0xc7 0xd5
    ∷ guid 0x0b6e5233 0xa65c 0x44c9 0x94 0x07 0xd9 0xab 0x83 0xbf 0xc8 0xbd
    ∷ guid 0xff3e5307 0x9fd0 0x48c9 0x85 0xf1 0x8a 0xd5 0x6c 0x70 0x1e 0x01
    ∷ guid 0x093e0fae 0xa6c4 0x4f50 0x9f 0x1b 0xd4 0x1e 0x2b 0x89 0xc1 0x9a
    ∷ guid 0x4aafd29d 0x68df 0x49ee 0x8a 0xa9 0x34 0x7d 0x37 0x56 0x65 0xa7
    ∷ guid 0x24c5dc2f 0x53e2 0x40ca 0x9e 0xd6 0xa5 0xd9 0xa4 0x9f 0x46 0x3b
    ∷ guid 0x8628752a 0x6cb7 0x4814 0x96 0xfc 0x24 0xa8 0x15 0xac 0x22 0x26
    ∷ guid 0x6dcbd5ed 0xe82d 0x4c44 0xbd 0xa1 0x71 0x94 0x19 0x9a 0xd9 0x2a
    ∷ guid 0x3bd2a492 0x96c0 0x4079 0xb4 0x20 0xfc 0xf9 0x8e 0xf1 0x03 0xed
    ∷ guid 0x7076876e 0x80c2 0x4ee6 0xaa 0xd2 0x28 0xb3 0x49 0xa6 0x86 0x5b
    ∷ guid 0x446dbf63 0x2502 0x4cda 0xbc 0xfa 0x24 0x65 0xd2 0xb0 0xfe 0x9d
    ∷ guid 0xa7af67cb 0x603b 0x4d42 0xba 0x21 0x70 0xbf 0xb6 0x29 0x3f 0x96
    ∷ guid 0xc5149b43 0xae85 0x4f53 0x99 0x82 0xb9 0x43 0x35 0xd3 0xa9 0xe7
    ∷ guid 0x44f0de6e 0x4d8c 0x4045 0xa8 0xc7 0x4d 0xd1 0x68 0x85 0x6b 0x9e
    ∷ guid 0x63c4785a 0xca34 0x4012 0xa3 0xc8 0x0b 0x6a 0x32 0x4f 0x55 0x46
    ∷ guid 0xacd03321 0x777e 0x4d3d 0xb1 0xc8 0x20 0xcf 0xd8 0x88 0x20 0xc9
    ∷ guid 0xd7c74207 0xa831 0x4a26 0xb1 0xf5 0xd1 0x93 0x06 0x5c 0xe8 0xb6
    ∷ guid 0x1fbd2960 0x4130 0x41e5 0x94 0xac 0xd2 0xcf 0x03 0x7f 0xb3 0x7c
    ∷ guid 0x114da5ef 0x2cf1 0x4e12 0x9b 0xbb 0xc4 0x70 0xb5 0x52 0x05 0xd9
    ∷ guid 0xfc510ee7 0xffdc 0x11d4 0xbd 0x41 0x00 0x80 0xc7 0x3c 0x88 0x81
    ∷ []

unfoldable pub guids_6 : List Guid
guids_6 =
    guid 0x8c8ce578 0x8a3d 0x4f1c 0x99 0x35 0x89 0x61 0x85 0xc3 0x2d 0xd3
    ∷ guid 0x1ba0062e 0xc779 0x4582 0x85 0x66 0x33 0x6a 0xe8 0xf7 0x8f 0x09
    ∷ guid 0xf8e21975 0x0899 0x4f58 0xa4 0xbe 0x55 0x25 0xa9 0xc6 0xd7 0x7a
    ∷ guid 0x4ed4bf27 0x4092 0x42e9 0x80 0x7d 0x52 0x7b 0x1d 0x00 0xc9 0xbd
    ∷ guid 0x564b33cd 0xc92a 0x4593 0x90 0xbf 0x24 0x73 0xe4 0x3c 0x63 0x22
    ∷ guid 0x2a571201 0x4966 0x47f6 0x8b 0x86 0xf3 0x1e 0x41 0xf3 0x2f 0x10
    ∷ guid 0x7739f24c 0x93d7 0x11d4 0x9a 0x3a 0x00 0x90 0x27 0x3f 0xc1 0x4d
    ∷ guid 0x05ad34ba 0x6f02 0x4214 0x95 0x2e 0x4d 0xa0 0x39 0x8e 0x2b 0xb9
    ∷ guid 0x914aebe7 0x4635 0x459b 0xaa 0x1c 0x11 0xe2 0x19 0xb0 0x3a 0x10
    ∷ guid 0x414e6bdd 0xe47b 0x47cc 0xb2 0x44 0xbb 0x61 0x02 0x0c 0xf5 0x16
    ∷ guid 0x7081e22f 0xcac6 0x4053 0x94 0x68 0x67 0x57 0x82 0xcf 0x88 0xe5
    ∷ guid 0x5e948fe3 0x26d3 0x42b5 0xaf 0x17 0x61 0x02 0x87 0x18 0x8d 0xec
    ∷ guid 0x08f74baa 0xea36 0x41d9 0x95 0x21 0x21 0xa7 0x0f 0x87 0x80 0xbc
    ∷ guid 0xcb871572 0xc11a 0x47b5 0xb4 0x92 0x67 0x5e 0xaf 0xa7 0x77 0x27
    ∷ guid 0x9e498932 0x4abc 0x45af 0xa3 0x4d 0x02 0x47 0x78 0x7b 0xe7 0xc6
    ∷ guid 0x92d11080 0x496f 0x4d95 0xbe 0x7e 0x03 0x74 0x88 0x38 0x2b 0x0a
    ∷ guid 0x335984bd 0xe805 0x409a 0xb8 0xf8 0xd2 0x7e 0xce 0x5f 0xf7 0xa6
    ∷ guid 0x5473c07a 0x3dcb 0x4dca 0xbd 0x6f 0x1e 0x96 0x89 0xe7 0x34 0x9a
    ∷ guid 0x02ce967a 0xdd7e 0x4ffc 0x9e 0xe7 0x81 0x0c 0xf0 0x47 0x08 0x80
    ∷ guid 0x0f9d89e8 0x9259 0x4f76 0xa5 0xaf 0x0c 0x89 0xe3 0x40 0x23 0xdf
    ∷ guid 0x996ec11c 0x5397 0x4e73 0xb5 0x8f 0x82 0x7e 0x52 0x90 0x6d 0xef
    ∷ guid 0x6be272c7 0x1320 0x4ccd 0x90 0x17 0xd4 0x61 0x2c 0x01 0x2b 0x25
    ∷ guid 0xa55701f5 0xe3ef 0x43de 0xac 0x72 0x24 0x9b 0x57 0x3f 0xad 0x2c
    ∷ guid 0xfc06b535 0x5e1f 0x4562 0x9f 0x25 0x0a 0x3b 0x9a 0xdb 0x63 0xc3
    ∷ guid 0x1cf3f8b3 0xc5b1 0x49a2 0xaa 0x59 0x5e 0xef 0x92 0xff 0xa6 0x3c
    ∷ guid 0x48ab7f57 0xdc34 0x4f6c 0xa7 0xd3 0xb0 0xb5 0xb0 0xa7 0x43 0x14
    ∷ guid 0x7408d748 0xfc8c 0x4ee6 0x92 0x88 0xc4 0xbe 0xc0 0x92 0xa4 0x10
    ∷ guid 0x0ae8ce5d 0xe448 0x4437 0xa8 0xd7 0xeb 0xf5 0xf1 0x94 0xf7 0x31
    ∷ guid 0xf894643d 0xc449 0x42d1 0x8e 0xa8 0x85 0xbd 0xd8 0xc6 0x5b 0xde
    ∷ guid 0x17ee496a 0xd8e4 0x4b9a 0x94 0xd1 0xce 0x82 0x72 0x30 0x08 0x50
    ∷ guid 0x605ea650 0xc65c 0x42e1 0xba 0x80 0x91 0xa5 0x2a 0xb6 0x18 0xc6
    ∷ guid 0xef398d58 0x9dfd 0x4103 0xbf 0x94 0x78 0xc6 0xf4 0xfe 0x71 0x2f
    ∷ guid 0x229832d3 0x7a30 0x4b36 0xb8 0x27 0xf4 0x0c 0xb7 0xd4 0x54 0x36
    ∷ guid 0xdcd0be23 0x9586 0x40f4 0xb6 0x43 0x06 0x52 0x2c 0xed 0x4e 0xde
    ∷ guid 0xdbe23aa9 0xa345 0x4b97 0x85 0xb6 0xb2 0x26 0xf1 0x61 0x73 0x89
    ∷ guid 0xe6af1f7b 0xfc3f 0x46da 0xa8 0x28 0xa3 0xb4 0x57 0xa4 0x42 0x82
    ∷ guid 0x057a449a 0x1fdc 0x4c06 0xbf 0xc9 0xf5 0x3f 0x6a 0x99 0xbb 0x92
    ∷ guid 0x1f4c6f90 0xb06b 0x48d8 0xa2 0x01 0xba 0xe5 0xf1 0xcd 0x7d 0x56
    ∷ guid 0x2ab86ef5 0xecb5 0x4134 0xb5 0x56 0x38 0x54 0xca 0x1f 0xe1 0xb4
    ∷ guid 0x6f8c2b35 0xfef4 0x448d 0x82 0x56 0xe1 0x1b 0x19 0xd6 0x10 0x77
    ∷ guid 0xc1fcd448 0x6300 0x4458 0xb8 0x64 0x28 0xdf 0x01 0x53 0x64 0xbc
    ∷ guid 0x9ca93627 0xb65b 0x4324 0xa2 0x02 0xc0 0xb4 0x61 0x76 0x45 0x43
    ∷ guid 0x49edb1c1 0xbf21 0x4761 0xbb 0x12 0xeb 0x00 0x31 0xaa 0xbb 0x39
    ∷ guid 0xb9e0abfe 0x5979 0x4914 0x97 0x7f 0x6d 0xee 0x78 0xc2 0x78 0xa6
    ∷ guid 0x1a36e4e7 0xfab6 0x476a 0x8e 0x75 0x69 0x5a 0x05 0x76 0xfd 0xd7
    ∷ guid 0x06e81c58 0x4ad7 0x44bc 0x83 0x90 0xf1 0x02 0x65 0xf7 0x24 0x80
    ∷ guid 0x4d8b155b 0xc059 0x4c8f 0x89 0x26 0x06 0xfd 0x43 0x31 0xdb 0x8a
    ∷ guid 0xfb6d9542 0x612d 0x4f45 0x87 0x2f 0x5c 0xff 0x52 0xe9 0x3d 0xcf
    ∷ guid 0x0de2ce25 0x446a 0x45a7 0xbf 0xc9 0x37 0xda 0x26 0x34 0x4b 0x37
    ∷ guid 0x695d8aa1 0x42ee 0x4c46 0x80 0x5c 0x6e 0xa6 0xbc 0xe7 0x99 0xe3
    ∷ guid 0x6d582dbc 0xdb85 0x4514 0x8f 0xcc 0x5a 0xdf 0x62 0x27 0xb1 0x47
    ∷ guid 0x0065d394 0x9951 0x4144 0x82 0xa3 0x0a 0xfc 0x85 0x79 0xc2 0x51
    ∷ guid 0x01f34d25 0x4de2 0x23ad 0x3f 0xf3 0x36 0x35 0x3f 0xf3 0x23 0xf1
    ∷ guid 0xa60c6b59 0xe459 0x425d 0x9c 0x69 0x0b 0xcc 0x9c 0xb2 0x7d 0x81
    ∷ guid 0xceab683c 0xec56 0x4a2d 0xa9 0x06 0x40 0x53 0xfa 0x4e 0x9c 0x16
    ∷ guid 0x3cd652b4 0x6d33 0x4dce 0x89 0xdb 0x83 0xdf 0x97 0x66 0xfc 0xca
    ∷ guid 0xb3bfab9b 0x9f9c 0x4e8b 0xad 0x37 0x7f 0x8c 0x51 0xfc 0x62 0x80
    ∷ guid 0xea7ca24b 0xded5 0x4dad 0xa3 0x89 0xbf 0x82 0x7e 0x8f 0x9b 0x38
    ∷ guid 0x11b34006 0xd85b 0x4d0a 0xa2 0x90 0xd5 0xa5 0x71 0x31 0x0e 0xf7
    ∷ guid 0x5be40f57 0xfa68 0x4610 0xbb 0xbf 0xe9 0xc5 0xfc 0xda 0xd3 0x65
    ∷ guid 0x665e3ff6 0x46cc 0x11d4 0x9a 0x38 0x00 0x90 0x27 0x3f 0xc1 0x4d
    ∷ guid 0x26baccb1 0x6f42 0x11d4 0xbc 0xe7 0x00 0x80 0xc7 0x3c 0x88 0x81
    ∷ guid 0x26baccb2 0x6f42 0x11d4 0xbc 0xe7 0x00 0x80 0xc7 0x3c 0x88 0x81
    ∷ guid 0x1da97072 0xbddc 0x4b30 0x99 0xf1 0x72 0xa0 0xb5 0x6f 0xff 0x2a
    ∷ guid 0x27cfac87 0x46cc 0x11d4 0x9a 0x38 0x00 0x90 0x27 0x3f 0xc1 0x4d
    ∷ guid 0x27cfac88 0x46cc 0x11d4 0x9a 0x38 0x00 0x90 0x27 0x3f 0xc1 0x4d
    ∷ guid 0xb7dfb4e1 0x052f 0x449f 0x87 0xbe 0x98 0x18 0xfc 0x91 0xb7 0x33
    ∷ guid 0xa46423e3 0x4617 0x49f1 0xb9 0xff 0xd1 0xbf 0xa9 0x11 0x58 0x39
    ∷ guid 0x78e4d245 0xcd4d 0x4a05 0xa2 0xba 0x47 0x43 0xe8 0x6c 0xfc 0xab
    ∷ guid 0x26baccb3 0x6f42 0x11d4 0xbc 0xe7 0x00 0x80 0xc7 0x3c 0x88 0x81
    ∷ guid 0x6441f818 0x6362 0x4e44 0xb5 0x70 0x7d 0xba 0x31 0xdd 0x24 0x53
    ∷ []
