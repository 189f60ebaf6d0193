-- ===== src/Mm/PageAlloc/Count.antt =====
-- Counting the clear bits of the bitmap, and the invariant of the pool of page_alloc.c.
use vinix_os.Base.{
  ℕ, zero, suc, ◌+◌, ◌*◌, ◌<◌, ◌≤◌, ◌≡◌, refl, sym, ap, ◌%◌, true, false, List, arith, ◌==◌, inl,
  inr, if◌then◌else◌, length, Bool-cases, eq_of_==, get_or-replicate, length-replicate, replicate,
}
use vinix_os.Mm.Word.{zero-test_bit}
use vinix_os.Mm.PageAlloc.{
  Pool, pool_pages, bitmap_words, bit_get, bit_set, bit_clear, set_run, page_alloc_init,
}
use vinix_os.Mm.PageAlloc.Bits.{in_run, bit_get-bit_set, bit_get-bit_clear, length-bit_set}

-- How many of the pages `0 … n - 1` are free.
unfoldable pub clear_count : List ℕ → ℕ → ℕ
clear_count b zero = 0
clear_count b (suc n) = (if bit_get b n then 0 else 1) + clear_count b n

-- The bitmap has its full size, and `free_count` counts the clear bits.
pub record IsValid (p : Pool) : Type 0 where
  pub words : length p.bitmap ≡ bitmap_words
  pub counted : p.free_count ≡ clear_count p.bitmap pool_pages

pub clear_count-le : (b : List ℕ) (n : ℕ) → clear_count b n ≤ n
unfolding clear_count
clear_count-le b zero = omega arith
clear_count-le b (suc n) = ground (arith, clear_count-le b n)

clear_count-bit_set_above :
    (b : List ℕ) (i n : ℕ)
    → i < 32 * length b
    → n ≤ i
    → clear_count (bit_set b i) n ≡ clear_count b n
unfolding clear_count
clear_count-bit_set_above b i zero h le = refl
clear_count-bit_set_above b i (suc n) h le =
    ground
      (arith, clear_count-bit_set_above b i n h (omega arith), bit_get-bit_set b i n (omega arith))

clear_count-bit_set :
    (b : List ℕ) (i n : ℕ)
    → i < 32 * length b
    → i < n
    → bit_get b i ≡ false
    → clear_count (bit_set b i) n + 1 ≡ clear_count b n
unfolding clear_count
clear_count-bit_set b i zero h lt clear = absurd (omega arith)
clear_count-bit_set b i (suc n) h lt clear = elim (Bool-cases (i == n)) [
  | inl e ↦ ground (
    arith,
    ap (bit_get b) (eq_of_== i n e),
    clear_count-bit_set_above b i n h (omega (arith, eq_of_== i n e)),
    bit_get-bit_set b i n (omega arith),
  )
  | inr e ↦
      ground (
        arith,
        clear_count-bit_set b i n h (ground arith) clear,
        bit_get-bit_set b i n (omega arith),
      )
]

clear_count-bit_clear_above :
    (b : List ℕ) (i n : ℕ)
    → i < 32 * length b
    → n ≤ i
    → clear_count (bit_clear b i) n ≡ clear_count b n
unfolding clear_count
clear_count-bit_clear_above b i zero h le = refl
clear_count-bit_clear_above b i (suc n) h le = ground (
  arith,
  clear_count-bit_clear_above b i n h (omega arith),
  bit_get-bit_clear b i n (omega arith),
)

pub clear_count-bit_clear :
    (b : List ℕ) (i n : ℕ)
    → i < 32 * length b
    → i < n
    → bit_get b i ≡ true
    → clear_count (bit_clear b i) n ≡ clear_count b n + 1
unfolding clear_count
clear_count-bit_clear b i zero h lt used = absurd (omega arith)
clear_count-bit_clear b i (suc n) h lt used = elim (Bool-cases (i == n)) [
  | inl e ↦ ground (
    arith,
    ap (bit_get b) (eq_of_== i n e),
    clear_count-bit_clear_above b i n h (omega (arith, eq_of_== i n e)),
    bit_get-bit_clear b i n (omega arith),
  )
  | inr e ↦ ground (
    arith,
    clear_count-bit_clear b i n h (ground arith) used,
    bit_get-bit_clear b i n (omega arith),
  )
]

-- Claiming a clear run lowers the count by its length.
pub clear_count-set_run :
    (b : List ℕ) (i n m : ℕ)
    → i + n ≤ 32 * length b
    → i + n ≤ m
    → ((j : ℕ) → in_run i n j ≡ true → bit_get b j ≡ false)
    → clear_count (set_run b i n) m + n ≡ clear_count b m
unfolding set_run
clear_count-set_run b i zero m h le clear = omega arith
clear_count-set_run b i (suc n) m h le clear = omega (
  arith,
  clear_count-set_run (bit_set b i) (i + 1) n m (omega (arith, length-bit_set b i)) (omega arith)
      (λ j r. ground (arith, clear j, bit_get-bit_set b i j (omega arith))),
  clear_count-bit_set b i m (omega arith) (omega arith) (clear i (ground arith)),
)

clear_count-zeros : (b : List ℕ) (n : ℕ) → ((j : ℕ) → bit_get b j ≡ false) → clear_count b n ≡ n
unfolding clear_count
clear_count-zeros b zero h = refl
clear_count-zeros b (suc n) h = ground (arith, h n, clear_count-zeros b n h)

-- `page_alloc_init` leaves a valid pool, in which every page is free.
pub page_alloc_init-IsValid :
    IsValid page_alloc_init
    × (page_alloc_init.free_count ≡ pool_pages)
    × ((j : ℕ) → bit_get page_alloc_init.bitmap j ≡ false)
unfolding page_alloc_init bit_get
page_alloc_init-IsValid = (
  record {
    words = length-replicate {A = ℕ} bitmap_words 0;
    counted = sym (clear_count-zeros (replicate bitmap_words 0) pool_pages zeros);
  },
  refl,
  zeros,
)
  where
    zeros : (j : ℕ) → bit_get (replicate bitmap_words 0) j ≡ false
    zeros j = rw get_or-replicate (zero-test_bit (j % 32))
