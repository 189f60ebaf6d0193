-- ===== src/Fs/Fat/Bytes.antt =====
-- Little-endian numbers in the bytes of a sector, as `rd16` and `rd32` of fat32.c read them and
-- `fat_set_entry` and `update_dir_entry` write them.
use vinix_os.Base.{
  ℕ, ◌+◌, ◌*◌, ◌/◌, ◌%◌, ◌^◌, ◌<◌, ◌≡◌, ◌≢◌, ◌∙◌, List, length, get_or, set, arith, get_or-set_self,
  get_or-set_ne, length-set,
}

-- `p[i]`, 0 beyond the sector.
abbrev pub byte_at : List ℕ → ℕ → ℕ
byte_at d i = get_or d i 0

unfoldable pub rd16 : List ℕ → ℕ → ℕ
rd16 d i = byte_at d i + byte_at d (i + 1) * 2 ^ 8

unfoldable pub rd32 : List ℕ → ℕ → ℕ
rd32 d i =
    byte_at d i
    + byte_at d (i + 1) * 2 ^ 8
    + byte_at d (i + 2) * 2 ^ 16
    + byte_at d (i + 3) * 2 ^ 24

-- `d[i + 0] = (uint8_t)(x)`, `d[i + 1] = (uint8_t)(x >> 8)`
unfoldable pub wr16 : List ℕ → ℕ → ℕ → List ℕ
wr16 d i x = set (set d i (x % 2 ^ 8)) (i + 1) (x / 2 ^ 8 % 2 ^ 8)

unfoldable pub wr32 : List ℕ → ℕ → ℕ → List ℕ
wr32 d i x = set (set (wr16 d i x) (i + 2) (x / 2 ^ 16 % 2 ^ 8)) (i + 3) (x / 2 ^ 24 % 2 ^ 8)

pub length-wr32 : (d : List ℕ) (i x : ℕ) → length (wr32 d i x) ≡ length d
unfolding wr32 wr16
length-wr32 d i x =
    length-set _ (i + 3) _ ∙ length-set _ (i + 2) _ ∙ length-set _ (i + 1) _ ∙ length-set d i _

pub rd32-wr32 : (d : List ℕ) (i x : ℕ) → i + 3 < length d → x < 2 ^ 32 → rd32 (wr32 d i x) i ≡ x
unfolding rd32 wr32 wr16
rd32-wr32 d i x inside small = omega (arith, b0, b1, b2, b3)
  where
    d0 : List ℕ
    d0 = set d i (x % 2 ^ 8)

    d1 : List ℕ
    d1 = set d0 (i + 1) (x / 2 ^ 8 % 2 ^ 8)

    d2 : List ℕ
    d2 = set d1 (i + 2) (x / 2 ^ 16 % 2 ^ 8)

    d3 : List ℕ
    d3 = set d2 (i + 3) (x / 2 ^ 24 % 2 ^ 8)

    apart : (j k : ℕ) → j < k → i + k ≢ i + j
    apart j k lt e = omega arith

    b3 : byte_at d3 (i + 3) ≡ x / 2 ^ 24 % 2 ^ 8
    b3 = get_or-set_self d2 (i + 3) _ 0 (
        omega (
          arith,
          length-set d1 (i + 2) (x / 2 ^ 16 % 2 ^ 8),
          length-set d0 (i + 1) (x / 2 ^ 8 % 2 ^ 8),
          length-set d i (x % 2 ^ 8),
        ))

    b2 : byte_at d3 (i + 2) ≡ x / 2 ^ 16 % 2 ^ 8
    b2 =
        get_or-set_ne d2 (i + 3) (i + 2) _ 0 (apart 2 3 (omega arith))
        ∙ get_or-set_self d1 (i + 2) _ 0
            (omega (arith, length-set d0 (i + 1) (x / 2 ^ 8 % 2 ^ 8), length-set d i (x % 2 ^ 8)))

    b1 : byte_at d3 (i + 1) ≡ x / 2 ^ 8 % 2 ^ 8
    b1 =
        get_or-set_ne d2 (i + 3) (i + 1) _ 0 (apart 1 3 (omega arith))
        ∙ get_or-set_ne d1 (i + 2) (i + 1) _ 0 (apart 1 2 (omega arith))
        ∙ get_or-set_self d0 (i + 1) _ 0 (omega (arith, length-set d i (x % 2 ^ 8)))

    b0 : byte_at d3 i ≡ x % 2 ^ 8
    b0 =
        get_or-set_ne d2 (i + 3) i _ 0 (λ e. omega arith)
        ∙ get_or-set_ne d1 (i + 2) i _ 0 (λ e. omega arith)
        ∙ get_or-set_ne d0 (i + 1) i _ 0 (λ e. omega arith)
        ∙ get_or-set_self d i _ 0 (omega arith)
