-- ===== src/Loader/Header/Valid.antt =====
-- peloader.c: what holds of a file that passes the header tests of `load_pe`.
use efiperun_mod.Prelude.{
  ℕ, ◌+◌, ◌/◌, ◌%◌, ◌≡◌, refl, true, not, ◌||◌, ltb, ◌==◌, arith, Bool-cases, ◌⊎◌, inl, inr,
}
use efiperun_mod.Loader.Bytes.{le}
use efiperun_mod.Loader.Relocation.{Image}
use efiperun_mod.Loader.Relocation.Extent.{Settles, Settles->>=}
use efiperun_mod.Loader.Header.{Header, has_magic, check_headers}
use efiperun_mod.Loader.Steps.{after_read, after_require}

-- the optional header of a PE32 or a PE32+ image: its size and its magic number agree
abbrev pub HasOptional : ℕ → ℕ → Image → Type 0
HasOptional size nt f =
    ((size ≡ 224) × (le 2 (nt + 24) f.byte ≡ 0x10b))
    ⊎ ((size ≡ 240) × (le 2 (nt + 24) f.byte ≡ 0x20b))

pub record IsExecutable (f : Image) (h : Header) : Type 0 where
  pub mz : le 2 0 f.byte ≡ 0x5a4d
  pub nt : h.nt ≡ le 4 60 f.byte
  pub pe : le 4 h.nt f.byte ≡ 0x4550
  pub executable : le 2 (h.nt + 22) f.byte / 2 % 2 ≡ 1
  pub machine : (le 2 (h.nt + 4) f.byte ≡ 0x14c) ⊎ (le 2 (h.nt + 4) f.byte ≡ 0x8664)
  pub optional_size : h.optional_size ≡ le 2 (h.nt + 20) f.byte
  pub has_optional : HasOptional h.optional_size h.nt f
  pub is_64 : h.is_64 ≡ (h.optional_size == 240)
  pub number_of_sections : h.number_of_sections ≡ le 2 (h.nt + 6) f.byte

has_magic-HasOptional :
    (size nt : ℕ) (f : Image)
    → Settles (λ valid. valid ≡ true → HasOptional size nt f) (has_magic size nt f)
unfolding has_magic
has_magic-HasOptional size nt f = elim (Bool-cases (size == 224)) [
  | inl t ↦ rw t (after_read _ 2 (nt + 24) f _ (λ x e v. inl (ground arith, ground arith)))
  | inr t ↦ elim (Bool-cases (size == 240)) [
    | inl w ↦ rw (t, w) (after_read _ 2 (nt + 24) f _ (λ x e v. inr (ground arith, ground arith)))
    | inr w ↦ rw (t, w) (λ v. absurd (cc))
  ]
]

-- A file that passes the header tests has the MZ and PE signatures, is marked executable, is for
-- i386 or x86_64, and has an optional header whose size and magic number agree on PE32 or PE32+;
-- the header returned says what the file says.
pub check_headers-IsExecutable : (f : Image) → Settles (IsExecutable f) (check_headers f)
unfolding check_headers
check_headers-IsExecutable f =
    let Q : Header → Type 0 = IsExecutable f in
    after_read Q 2 0 f _ (λ e_magic mz. after_require Q (e_magic == 0x5a4d) _ (λ t1.
      after_read Q 4 60 f _ (λ nt at_nt. after_read Q 4 nt f _ (λ signature pe.
        after_require Q (signature == 0x4550) _ (λ t2.
          after_read Q 2 (nt + 22) f _ (λ characteristics ch.
            after_require Q (characteristics / 2 % 2 == 1) _ (λ t3.
              after_read Q 2 (nt + 4) f _ (λ machine ma.
                after_require Q (machine == 0x14c || machine == 0x8664) _ (λ t4.
                  after_read Q 2 (nt + 20) f _ (λ size si.
                    after_require Q (not (ltb size 2)) _ (λ t5.
                      Settles->>= (λ valid. valid ≡ true → HasOptional size nt f) Q
                        (has_magic size nt f) _ (has_magic-HasOptional size nt f)
                        (λ valid op. after_require Q valid _ (λ t6.
                          after_read Q 2 (nt + 6) f _ (λ count co. record {
                            mz = ground arith;
                            nt = at_nt;
                            pe = ground arith;
                            executable = ground arith;
                            machine = ground arith;
                            optional_size = si;
                            has_optional = op t6;
                            is_64 = refl;
                            number_of_sections = co;
                          }))))))))))))))
