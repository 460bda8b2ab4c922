-- ===== src/Guid/Values/Part6.antt =====
-- efi_guid.c, lines 719 to 860: the values of the GUIDs, in the order of the file.
use efiperun_mod.Prelude.{List, [], ◌∷◌}
use efiperun_mod.Guid.Defs.{Guid, guid}

unfoldable pub guids_11 : List Guid
guids_11 =
    guid 0x878ac2cc 0x5343 0x46f2 0xb5 0x63 0x51 0xf8 0x9d 0xaf 0x56 0xba
    ∷ guid 0x86843f56 0x675d 0x40a5 0x95 0x30 0xbc 0x85 0x83 0x72 0xf1 0x03
    ∷ guid 0xebbe2d1b 0x1647 0x4bda 0xab 0x9a 0x78 0x63 0xe3 0x96 0xd4 0x1a
    ∷ guid 0xbd26cdc9 0xa092 0x462a 0x87 0x7a 0x5a 0xb6 0xad 0xce 0x48 0x12
    ∷ guid 0x4b0165a9 0x61d6 0x4e23 0xa0 0xb5 0x3e 0xc7 0x9c 0x2e 0x30 0xd5
    ∷ guid 0xde161cfe 0x1e60 0x42a1 0x8c 0xc3 0xee 0x7e 0xf0 0x73 0x52 0x12
    ∷ guid 0xab2bee2f 0xc1a6 0x4399 0x85 0x3d 0xc0 0x7c 0x77 0x4f 0xfd 0x0d
    ∷ guid 0xf617b358 0x12cf 0x414a 0xa0 0x69 0x60 0x67 0x7b 0xda 0x13 0xb4
    ∷ guid 0x400b4476 0x3081 0x11d6 0x87 0xed 0x00 0x06 0x29 0x45 0xc3 0xb9
    ∷ guid 0x5bab88ba 0xe0e2 0x4674 0xb6 0xad 0xb8 0x12 0xf6 0x88 0x1c 0xd6
    ∷ guid 0xef7bf7d6 0xf8ff 0x4a76 0x82 0x47 0xc0 0xd0 0xd1 0xcc 0x49 0xc0
    ∷ guid 0xe227c522 0xd5fe 0x4a53 0x87 0xb1 0x0f 0xbe 0x57 0x0f 0x98 0xe9
    ∷ guid 0x3c485ea4 0x449a 0x46ce 0xbb 0x08 0x2a 0x33 0x6e 0xa9 0x6b 0x4e
    ∷ guid 0xd3ecc567 0x9fd5 0x44c1 0x86 0xcf 0x5d 0xa7 0xa2 0x4f 0x4b 0x5d
    ∷ guid 0xa6a79162 0xe325 0x4c30 0xbc 0xc3 0x59 0x37 0x30 0x64 0xef 0xb3
    ∷ guid 0xd5b06d16 0x2ea1 0x4def 0x98 0xd0 0xa0 0x5d 0x40 0x72 0x84 0x17
    ∷ guid 0x377c66a3 0x8fe7 0x4ee8 0x85 0xb8 0xf1 0xa2 0x82 0x56 0x9e 0x3b
    ∷ guid 0x91a1ddcf 0x5374 0x4939 0x89 0x51 0xd7 0x29 0x3f 0x1a 0x78 0x6f
    ∷ guid 0xec2e931b 0x3281 0x48a5 0x81 0x07 0xdf 0x8a 0x8b 0xed 0x3c 0x5d
    ∷ guid 0x6ff23f1d 0x877c 0x4b1b 0x93 0xfc 0xf1 0x42 0xb2 0xee 0xa6 0xa7
    ∷ guid 0xad9c4381 0x1ede 0x430c 0x8d 0x42 0x23 0x76 0x7c 0x46 0x5d 0x52
    ∷ guid 0x24486226 0xf8c2 0x41f5 0xb9 0xdd 0x78 0x3e 0x9e 0x56 0xde 0xa0
    ∷ guid 0x75032015 0xd156 0x423e 0xbf 0xa3 0x7a 0x65 0xab 0xa4 0x71 0x05
    ∷ guid 0xf30c2915 0x5782 0x4e6a 0xa8 0x46 0x05 0xba 0xbc 0xe7 0xb6 0xa0
    ∷ guid 0x578c315a 0x68cf 0x4e81 0xb5 0xc6 0x22 0xdb 0x40 0xd0 0x10 0xbc
    ∷ guid 0x70b221af 0xfdff 0x4fde 0x99 0x68 0x1a 0xf6 0x23 0xa9 0x56 0xd9
    ∷ guid 0x9fa1b225 0x3346 0x461b 0xa0 0x69 0xed 0x01 0xb6 0x73 0xd2 0x40
    ∷ guid 0xf2c1910e 0xf5c9 0x4b72 0xb2 0x43 0x6d 0x59 0x09 0x6a 0x79 0xf0
    ∷ guid 0x9f49a879 0x3d71 0x42b3 0xa0 0xad 0xdd 0xb1 0xf3 0x30 0x10 0xa3
    ∷ guid 0x951b65e5 0x8872 0x41ed 0xad 0x1d 0xd5 0x68 0x1f 0x4a 0xf0 0x33
    ∷ guid 0x137b3044 0xf6d7 0x473e 0xa6 0x25 0x9f 0xb9 0x25 0x05 0xc1 0x80
    ∷ guid 0xaf4cc162 0xd41c 0x455a 0xab 0x45 0x6d 0xbc 0xc1 0xcd 0x32 0xf3
    ∷ guid 0x1156efc6 0xea32 0x4396 0xb5 0xd5 0x26 0x93 0x2e 0x83 0xc3 0x13
    ∷ guid 0x38ddfe8f 0x8991 0x44aa 0x98 0x89 0x83 0xf4 0x91 0x84 0x65 0xb0
    ∷ guid 0x4549ab47 0x6e60 0x4293 0xb9 0x1d 0x31 0xb6 0x10 0xad 0x80 0x56
    ∷ guid 0x3b8c8162 0x188c 0x46a4 0xae 0xc9 0xbe 0x43 0xf1 0xd6 0x56 0x97
    ∷ guid 0xb122a262 0x3551 0x4f48 0x88 0x92 0x55 0xf6 0xc0 0x61 0x42 0x90
    ∷ guid 0x0dc73aed 0xcbf6 0x4a25 0xa6 0x8d 0x59 0xc8 0x0f 0x44 0xc7 0xc3
    ∷ guid 0xb122a263 0x3661 0x4f68 0x99 0x29 0x78 0xf8 0xb0 0xd6 0x21 0x80
    ∷ guid 0xf3ff1468 0x04ba 0x4966 0x9f 0xb2 0xe4 0xa7 0x90 0x05 0x46 0x50
    ∷ guid 0x0e1d2972 0x65af 0x4ac1 0xbf 0xa3 0xce 0xf4 0xab 0x0c 0x38 0xfe
    ∷ guid 0x0d3fb176 0x9569 0x4d51 0xa3 0xef 0x7d 0x61 0xc6 0x4f 0xea 0xba
    ∷ guid 0xaaf32c78 0x947b 0x439a 0xa1 0x80 0x2e 0x14 0x4e 0xc3 0x77 0x92
    ∷ guid 0xf0a30bc7 0xaf08 0x4556 0x99 0xc4 0x00 0x10 0x09 0xc9 0x3a 0x44
    ∷ guid 0xc076ec0c 0x7028 0x4399 0xa0 0x72 0x71 0xee 0x5c 0x44 0x8b 0x9f
    ∷ guid 0x9073e4e0 0x60ec 0x4b6e 0x99 0x03 0x4c 0x22 0x3c 0x26 0x0f 0x3c
    ∷ guid 0xd9bee56e 0x75dc 0x49d9 0xb4 0xd7 0xb5 0x34 0x21 0x0f 0x63 0x7a
    ∷ guid 0x2b9ffb52 0x1b13 0x416f 0xa8 0x7b 0xbc 0x93 0x0d 0xef 0x92 0xa8
    ∷ guid 0xef598499 0xb25e 0x473a 0xbf 0xaf 0xe7 0xe5 0x7d 0xce 0x82 0xc4
    ∷ guid 0xb2360b42 0x7173 0x420a 0x86 0x96 0x46 0xca 0x6b 0xab 0x10 0x60
    ∷ guid 0x0f6499b1 0xe9ad 0x493d 0xb9 0xc2 0x2f 0x90 0x81 0x5c 0x6c 0xbc
    ∷ guid 0x78b9ec8b 0xc000 0x46c5 0xac 0x93 0x24 0xa0 0xc1 0xbb 0x00 0xce
    ∷ guid 0xd0849ed1 0xa88c 0x4ba6 0xb1 0xd6 0xab 0x50 0xe2 0x80 0xb7 0xa9
    ∷ guid 0x3ccd3dd8 0x8d45 0x4fed 0x96 0x2d 0x2b 0x38 0xcd 0x82 0xb3 0xc4
    ∷ guid 0xc35f272c 0x97c2 0x465a 0xa2 0x16 0x69 0x6b 0x66 0x8a 0x8c 0xfe
    ∷ guid 0xb0f901e4 0xc424 0x45de 0x90 0x81 0x95 0xe2 0x0b 0xde 0x6f 0xb5
    ∷ guid 0x5daf50a5 0xea81 0x4de2 0x8f 0x9b 0xca 0xbd 0xa9 0xcf 0x5c 0x14
    ∷ guid 0xf24643c2 0xc622 0x494e 0x8a 0x0d 0x46 0x32 0x57 0x9c 0x2d 0x5b
    ∷ guid 0x00000000 0x0000 0x0000 0x00 0x00 0x00 0x00 0x00 0x00 0x00 0x00
    ∷ guid 0x8b01e5b6 0x4f19 0x46e8 0xab 0x93 0x1c 0x53 0x67 0x1b 0x90 0xcc
    ∷ guid 0x286bf25a 0xc2c3 0x408c 0xb3 0xb4 0x25 0xe6 0x75 0x8b 0x73 0x17
    ∷ guid 0x7f4158d3 0x074d 0x456d 0x8c 0xb2 0x01 0xf9 0xc8 0xf7 0x9d 0xaa
    ∷ guid 0xc54b425f 0xaa79 0x48b4 0x98 0x1f 0x99 0x8b 0x3c 0x4b 0x64 0x1c
    ∷ guid 0xef9aefe5 0x2bd3 0x4031 0xaf 0x7d 0x5e 0xfe 0x5a 0xbb 0x9a 0x0d
    ∷ guid 0xe9db0d58 0xd48d 0x47f6 0x9c 0x6e 0x6f 0x40 0xe8 0x6c 0x7b 0x41
    ∷ guid 0xa030d115 0x54dd 0x447b 0x90 0x64 0xf2 0x06 0x88 0x3d 0x7c 0xcc
    ∷ guid 0x6e056ff9 0xc695 0x4364 0x9e 0x2c 0x61 0x26 0xf5 0xce 0xea 0xae
    ∷ guid 0xd2c18636 0x40e5 0x4eb5 0xa3 0x1b 0x36 0x69 0x5f 0xd4 0x2c 0x87
    ∷ guid 0x171e9188 0x31d3 0x40f5 0xb1 0x0c 0x53 0x9b 0x2d 0xb9 0x40 0xcd
    ∷ guid 0x158def5a 0xf656 0x419c 0xb0 0x27 0x7a 0x31 0x92 0xc0 0x79 0xd2
    ∷ guid 0x51271e13 0x7de3 0x43af 0x8b 0xc2 0x71 0xad 0x3b 0x82 0x43 0x25
    ∷ []

unfoldable pub guids_12 : List Guid
guids_12 =
    guid 0x0053d9d6 0x2659 0x4599 0xa2 0x6b 0xef 0x45 0x36 0xe6 0x31 0xa9
    ∷ guid 0xb8969637 0x81de 0x43af 0xbc 0x9a 0x24 0xd9 0x89 0x13 0xf2 0xf6
    ∷ guid 0x25f200aa 0xd3cb 0x470a 0xbf 0x51 0xe7 0xd1 0x62 0xd2 0x2e 0x6f
    ∷ guid 0x0af0b742 0x63ec 0x45bd 0x8d 0xb6 0x71 0xad 0x7f 0x2f 0xe8 0xe8
    ∷ guid 0x7d574d54 0xd364 0x4d4a 0x95 0xe3 0x49 0x45 0xdb 0x7a 0xd3 0xee
    ∷ guid 0xdec5daa4 0x6781 0x4820 0x9c 0x63 0xa7 0xb0 0xe4 0xf1 0xdb 0x31
    ∷ guid 0xf95a7ccc 0x4c55 0x4426 0xa7 0xb4 0xdc 0x89 0x61 0x95 0x0b 0xae
    ∷ guid 0x4344558d 0x4ef9 0x4725 0xb1 0xe4 0x33 0x76 0xe8 0xd6 0x97 0x4f
    ∷ guid 0xf3d301bb 0xf4a5 0x45a8 0xb0 0xb7 0xfa 0x99 0x9c 0x62 0x37 0xae
    ∷ guid 0x5f5f605d 0x1583 0x4a2d 0xa6 0xb2 0xeb 0x12 0xda 0xb4 0xa2 0xb6
    ∷ guid 0x6302d008 0x7f9b 0x4f30 0x87 0xac 0x60 0xc9 0xfe 0xf5 0xda 0x4e
    ∷ guid 0x752f3136 0x4e16 0x4fdc 0xa2 0x2a 0xe5 0xf4 0x68 0x12 0xf4 0xca
    ∷ guid 0x47c7b221 0xc42a 0x11d2 0x8e 0x57 0x00 0xa0 0xc9 0x69 0x72 0x3b
    ∷ guid 0x47c7b223 0xc42a 0x11d2 0x8e 0x57 0x00 0xa0 0xc9 0x69 0x72 0x3b
    ∷ guid 0x3c7200e9 0x005f 0x4ea4 0x87 0xde 0xa3 0xdf 0xac 0x8a 0x27 0xc3
    ∷ guid 0x865a5a9b 0xb85d 0x474c 0x84 0x55 0x65 0xd1 0xbe 0x84 0x4b 0xe2
    ∷ guid 0x865a5aab 0xb85d 0x474c 0x84 0x55 0x65 0xd1 0xbe 0x84 0x4b 0xe2
    ∷ guid 0x447559f0 0xd02e 0x4cf1 0x99 0xbc 0xca 0x11 0x65 0x40 0x54 0xc2
    ∷ guid 0x58e6ed63 0x1694 0x440b 0x93 0x88 0xe9 0x8f 0xed 0x6b 0x65 0xaf
    ∷ guid 0x8aaedb2a 0xa6bb 0x47c6 0x94 0xce 0x1b 0x80 0x96 0x42 0x3f 0x2a
    ∷ guid 0xac05bf33 0x995a 0x4ed4 0xaa 0xb8 0xef 0x7a 0xe8 0x0f 0x5c 0xb0
    ∷ guid 0x7d84b2c2 0x22a1 0x4372 0xb1 0x2c 0xeb 0xb2 0x32 0xd3 0xa6 0xa3
    ∷ guid 0xe767bf7f 0x4db6 0x5b34 0x10 0x11 0x4f 0xbe 0x4c 0xa7 0xaf 0xd2
    ∷ guid 0x10e26df1 0x8775 0x4ee1 0xb5 0x0a 0x3a 0xe8 0x28 0x93 0x70 0x3a
    ∷ guid 0xc02b0573 0x2b4e 0x4a31 0xa3 0x1a 0x94 0x56 0x7b 0x50 0x44 0x2c
    ∷ guid 0x09ea894a 0xbe0d 0x4230 0xa0 0x03 0xed 0xc6 0x93 0xb4 0x8e 0x95
    ∷ guid 0x15344673 0xd365 0x4be2 0x85 0x13 0x14 0x97 0xcc 0x07 0x61 0x1d
    ∷ guid 0xa38c6898 0x2b5c 0x4ff6 0x93 0x26 0x2e 0x63 0x21 0x2e 0x56 0xc2
    ∷ guid 0x09ea8911 0xbe0d 0x4230 0xa0 0x03 0xed 0xc6 0x93 0xb4 0x8e 0x11
    ∷ guid 0xcbd86677 0x362f 0x4c04 0x94 0x59 0xa7 0x41 0x32 0x6e 0x05 0xcf
    ∷ guid 0x7ae3ceb7 0x2ee2 0x48fa 0xaa 0x49 0x35 0x10 0xbc 0x83 0xca 0xbf
    ∷ guid 0xee0ea811 0xfbd9 0x4777 0xb9 0x5a 0xba 0x4f 0x71 0x10 0x1f 0x74
    ∷ guid 0xf4ef9d7a 0x98c5 0x4c1a 0xb4 0xd9 0xd8 0xd8 0x72 0x65 0xbe 0x0c
    ∷ guid 0xbc5fa650 0xedbb 0x4d0d 0xb3 0xa3 0xd9 0x89 0x07 0xf8 0x47 0xdf
    ∷ guid 0x4fd1ba49 0x8f90 0x471a 0xa2 0xc9 0x17 0x3c 0x7a 0x73 0x2f 0xd0
    ∷ guid 0xacb93b08 0x5cdc 0x4a8f 0x93 0xd4 0x06 0xe3 0x42 0xdf 0x18 0x2e
    ∷ guid 0x074e1e48 0x8132 0x47a1 0x8c 0x2c 0x3f 0x14 0xad 0x9a 0x66 0xdc
    ∷ guid 0xddabfeac 0xef63 0x452c 0x8f 0x39 0xed 0x7f 0xae 0xd8 0x26 0x5e
    ∷ guid 0x6f20f7c8 0xe5ef 0x4f21 0x8d 0x19 0xed 0xc5 0xf0 0xc4 0x96 0xae
    ∷ guid 0xb63f8ec7 0xa9c9 0x4472 0xa4 0xc0 0x4d 0x8b 0xf3 0x65 0xcc 0x51
    ∷ guid 0xd9072c35 0xeb8f 0x43ad 0xa2 0x20 0x34 0xd4 0x0e 0x2a 0x82 0x85
    ∷ guid 0x3920405b 0xc897 0x44da 0x88 0xf3 0x4c 0x49 0x8a 0x6f 0xf7 0x36
    ∷ guid 0xe287d20b 0xd897 0x4e1e 0xa5 0xd9 0x97 0x77 0x63 0x93 0x6a 0x04
    ∷ guid 0xdb63592c 0xb8cc 0x44c8 0x91 0x8c 0x51 0xf5 0x34 0x59 0x8a 0x5a
    ∷ guid 0x3a3300ab 0xc929 0x487d 0xab 0x34 0x15 0x9b 0xc1 0x35 0x62 0xc0
    ∷ guid 0xd31f0400 0x7d16 0x4316 0xbf 0x88 0x60 0x65 0x88 0x3b 0x40 0x2b
    ∷ guid 0xf0bbfca0 0x684e 0x48b3 0xba 0xe2 0x6c 0x84 0xb8 0x9e 0x53 0x39
    ∷ guid 0xf617b358 0x12cf 0x414a 0xa0 0x69 0x60 0x67 0x7b 0xda 0x13 0xb3
    ∷ guid 0xd31f0400 0x7d16 0x4316 0xbf 0x88 0x60 0x65 0x88 0x3b 0x40 0x2b
    ∷ guid 0x58dc368d 0x7bfa 0x4e77 0xab 0xbc 0x0e 0x29 0x41 0x8d 0xf9 0x30
    ∷ guid 0x72e40094 0x2ee1 0x497a 0x8f 0x33 0x4c 0x93 0x4a 0x9e 0x9c 0x0c
    ∷ guid 0xcdc5dddf 0xe79d 0x41ec 0xa9 0xb0 0x65 0x65 0x49 0x0d 0xb9 0xd3
    ∷ guid 0xcfb33810 0x6e87 0x4284 0xb2 0x03 0xa6 0x6a 0xbe 0x07 0xf6 0xe8
    ∷ guid 0xbc52476e 0xf67e 0x4301 0xb2 0x62 0x36 0x9c 0x48 0x78 0xaa 0xc2
    ∷ guid 0x11fbfdfb 0x10d2 0x43e6 0xb5 0xb1 0xb4 0x38 0x6e 0xdc 0xcb 0x9a
    ∷ guid 0x0bf70067 0xd53b 0x42df 0xb7 0x70 0xe9 0x2c 0x91 0xc6 0x14 0x11
    ∷ guid 0xf8bff014 0x18fb 0x4ef9 0xb1 0x0c 0xae 0x22 0x73 0x8d 0xbe 0xed
    ∷ guid 0x1ebe5ab9 0x2129 0x49e7 0x84 0xd7 0xee 0xb9 0xfc 0xe5 0xde 0xdd
    ∷ guid 0xfd301ba4 0x5e62 0x4679 0xa0 0x6f 0xe0 0x9a 0xab 0xdd 0x2a 0x91
    ∷ guid 0x14a7c46f 0xbc02 0x4047 0x9f 0x18 0xa5 0xd7 0x25 0xd8 0xbd 0x19
    ∷ guid 0x918211ce 0xa1d2 0x43a0 0xa0 0x4e 0x75 0xb5 0xbf 0x44 0x50 0x0e
    ∷ guid 0x707be83e 0x0bf6 0x40a5 0xbe 0x64 0x34 0xc0 0x3a 0xa0 0xb8 0xe2
    ∷ guid 0xca452c68 0xdf0c 0x45c9 0x82 0xfb 0xea 0xe4 0x2b 0x31 0x29 0x46
    ∷ guid 0xbb929da9 0x68f7 0x4035 0xb2 0x2c 0xa3 0xbb 0x3f 0x23 0xda 0x55
    ∷ guid 0x1a819e49 0xd8ee 0x48cb 0x9a 0x9c 0x0a 0xa0 0xd2 0x81 0x0a 0x38
    ∷ guid 0x161be597 0xe9c5 0x49db 0xae 0x50 0xc4 0x62 0xab 0x54 0xee 0xda
    ∷ guid 0xe6c2f70a 0xb604 0x4877 0x85 0xba 0xde 0xec 0x89 0xe1 0x17 0xeb
    ∷ guid 0x85768e4a 0x6cdc 0x444e 0x93 0xdf 0x93 0x66 0x85 0xb5 0xdf 0xcc
    ∷ guid 0x03fdf171 0x1d67 0x4ace 0xa9 0x04 0x3e 0x36 0xd3 0x38 0xfa 0x74
    ∷ guid 0x40b09b5a 0xf0ef 0x4627 0x93 0xd5 0x27 0xf0 0x4b 0x75 0x4d 0x05
    ∷ guid 0x10ba6bbe 0xa97e 0x41c3 0x9a 0x07 0x60 0x7a 0xd9 0xbd 0x60 0xe5
    ∷ []
