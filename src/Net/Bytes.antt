-- ===== src/Net/Bytes.antt =====
-- Bytes and 16-bit and 32-bit fields of frames, as a little-endian CPU reads and writes them.
use vinix_os.Base.{ℕ, ◌+◌, ◌*◌, ◌/◌, ◌%◌, ◌^◌, List, [], ◌∷◌, ◌++◌, get_or}

-- A byte of a buffer; 0 beyond its end.
abbrev pub byte : List ℕ → ℕ → ℕ
byte buf i = get_or buf i 0

-- A `uint16_t` and a `uint32_t` field of a packed structure.
unfoldable pub field16 : List ℕ → ℕ → ℕ
field16 buf i = byte buf i + byte buf (i + 1) * 2 ^ 8

unfoldable pub field32 : List ℕ → ℕ → ℕ
field32 buf i = field16 buf i + field16 buf (i + 2) * 2 ^ 16

abbrev pub put16 : ℕ → List ℕ
put16 v = v % 2 ^ 8 ∷ v / 2 ^ 8 % 2 ^ 8 ∷ []

abbrev pub put32 : ℕ → List ℕ
put32 v = put16 v ++ put16 (v / 2 ^ 16)

unfoldable pub bswap16 : ℕ → ℕ
bswap16 v = v / 2 ^ 8 % 2 ^ 8 + v % 2 ^ 8 * 2 ^ 8
