-- ===== src/Mm/PageAlloc.antt =====
-- The bitmap page allocator, VinixOS/kernel/src/kernel/mm/page_alloc.c: the pool's state, the bit
-- operations, `alloc_pages` and `free_pages`. The constants are those of the file and of
-- VinixOS/kernel/include/page_alloc.h.
pub mod Bits
pub mod Count
pub mod Alloc
pub mod Free
mod Tests
use vinix_os.Base.{
  ℕ, zero, suc, ◌+◌, ◌-◌, ◌*◌, ◌/◌, ◌%◌, ◌^◌, Bool, true, false, Option, none, some, List, ◌==◌,
  ltb, leb, if◌then◌else◌, length, get_or, set, replicate,
}
use vinix_os.Mm.Word.{test_bit, or_bit, and_not_bit}

abbrev pub page_size : ℕ
page_size = 4096

abbrev pub page_max_order : ℕ
page_max_order = 8

abbrev pub pool_pa_base : ℕ
pool_pa_base = 0x81000000

-- PLATFORM_DDR_PA_BASE + 128 MB
abbrev pub pool_pa_end : ℕ
pool_pa_end = 0x88000000

abbrev pub pool_pages : ℕ
pool_pages = 28672

abbrev pub bitmap_words : ℕ
bitmap_words = 896

-- `bitmap` and `free_count`, the file's static variables.
pub record Pool : Type 0 where
  pub bitmap : List ℕ
  pub free_count : ℕ

-- How a call ends: it returns, an ASSERT fails, or it reads outside the bitmap.
pub data Outcome {ℓ} (A : Type ℓ) : Type ℓ where
  ok : A → Outcome A
  assert_failed : Outcome A
  out_of_bounds : Outcome A

unfoldable pub bit_get : List ℕ → ℕ → Bool
bit_get b idx = test_bit (get_or b (idx / 32) 0) (idx % 32)

unfoldable pub bit_set : List ℕ → ℕ → List ℕ
bit_set b idx = set b (idx / 32) (or_bit (get_or b (idx / 32) 0) (idx % 32))

unfoldable pub bit_clear : List ℕ → ℕ → List ℕ
bit_clear b idx = set b (idx / 32) (and_not_bit (get_or b (idx / 32) 0) (idx % 32))

unfoldable pub page_alloc_init : Pool
page_alloc_init = record { bitmap = replicate bitmap_words 0; free_count = pool_pages }

-- `uint32_t` addition and subtraction
abbrev pub add32 : ℕ → ℕ → ℕ
add32 a b = (a + b) % 2 ^ 32

abbrev pub sub32 : ℕ → ℕ → ℕ
sub32 a b = (a + 2 ^ 32 - b) % 2 ^ 32

-- The inner test of `alloc_pages`: the `n` bits from `i` on, up to the first one set.
unfoldable pub all_zero : List ℕ → ℕ → ℕ → Bool
all_zero b i zero = true
all_zero b i (suc n) = if bit_get b i then false else all_zero b (i + 1) n

-- The inner loop that claims a run.
unfoldable pub set_run : List ℕ → ℕ → ℕ → List ℕ
set_run b i zero = b
set_run b i (suc n) = set_run (bit_set b i) (i + 1) n

-- The outer loop: `i` steps by `count` while `i + count <= POOL_PAGES`. The result is the run that
-- is claimed. Each round adds `count`, so `pool_pages + 1` rounds are enough.
unfoldable pub find_run : ℕ → List ℕ → ℕ → ℕ → Option ℕ
find_run zero b count i = none
find_run (suc rounds) b count i =
    let rest = find_run rounds b count (i + count) in
    if leb (i + count) pool_pages then (if all_zero b i count then some i else rest) else none

-- `1u << order`; `order` is at most 8 where it is used.
abbrev pub page_count : ℕ → ℕ
page_count order = 2 ^ order

-- What the claiming branch of `alloc_pages` does with the run that it found.
unfoldable pub claim : Pool → ℕ → Option ℕ → ℕ × Pool
claim p count none = (0, p)
claim p count (some i) = (
  pool_pa_base + i * page_size,
  record { bitmap = set_run p.bitmap i count; free_count = sub32 p.free_count count },
)

-- The physical address (0 on failure) and the new pool.
unfoldable pub alloc_pages : ℕ → Pool → ℕ × Pool
unfolding claim
alloc_pages order p =
    if ltb page_max_order order
    then (0, p)
    else claim p (page_count order) (find_run (suc pool_pages) p.bitmap (page_count order) 0)

-- The loop of `free_pages`, with the ASSERT that catches a double free.
unfoldable pub clear_run : List ℕ → ℕ → ℕ → Outcome (List ℕ)
clear_run b i zero = ok b
clear_run b i (suc n) =
    if ltb (i / 32) (length b)
    then (if bit_get b i then clear_run (bit_clear b i) (i + 1) n else assert_failed)
    else out_of_bounds

-- The end of `free_pages`, once its loop is over.
credit : Pool → ℕ → Outcome (List ℕ) → Outcome Pool
credit p count (ok b) = ok (record { bitmap = b; free_count = add32 p.free_count count })
credit p count assert_failed = assert_failed
credit p count out_of_bounds = out_of_bounds

unfoldable pub free_pages : ℕ → ℕ → Pool → Outcome Pool
unfolding credit
free_pages pa order p =
    if ltb pa pool_pa_base
    then assert_failed
    else if leb pool_pa_end pa
    then assert_failed
    else if (pa % page_size) == 0
    then (if ltb page_max_order order
        then assert_failed
        else credit p (page_count order)
            (clear_run p.bitmap ((pa - pool_pa_base) / page_size) (page_count order)))
    else assert_failed

unfoldable pub page_alloc_total_pages : ℕ
page_alloc_total_pages = pool_pages

unfoldable pub page_alloc_free_pages : Pool → ℕ
page_alloc_free_pages p = p.free_count
