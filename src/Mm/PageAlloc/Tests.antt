-- ===== src/Mm/PageAlloc/Tests.antt =====
-- The page allocator of page_alloc.c at concrete pools: runs of the code, and the theorems applied.
use vinix_os.Base.{ℕ, ◌+◌, ◌*◌, ◌≤◌, ◌<◌, ◌≡◌, ◌≢◌, refl, true, ◌⊎◌, some, arith}
use vinix_os.Mm.Word.{test_bit, or_bit}
use vinix_os.Mm.PageAlloc.{
  Pool, page_size, pool_pa_base, ok, out_of_bounds, bit_get, bit_set, all_zero, page_alloc_init,
  claim, alloc_pages, free_pages, page_alloc_free_pages, find_run, set_run,
}
use vinix_os.Mm.PageAlloc.Bits.{in_run, bit_get-set_run}
use vinix_os.Mm.PageAlloc.Count.{IsValid, page_alloc_init-IsValid}
use vinix_os.Mm.PageAlloc.Alloc.{Granted, NoRun, claim-Granted, alloc_pages-Granted}
use vinix_os.Mm.PageAlloc.Free.{
  Released, free_pages-Released, free_pages-alloc_pages, free_pages-overrun,
}

-- Three allocations in a row; the second one is aligned to its own size.
three_allocations :
    let (a, p) = alloc_pages 0 page_alloc_init in
    let (b, q) = alloc_pages 3 p in
    let (c, r) = alloc_pages 0 q in
    ◌≡◌ {A = ℕ × ℕ × ℕ × ℕ}
      (a, b, c, page_alloc_free_pages r)
      (0x81000000, 0x81008000, 0x81001000, 28662)
unfolding alloc_pages page_alloc_init find_run all_zero set_run bit_get bit_set test_bit or_bit
    page_alloc_free_pages
three_allocations = refl

start : IsValid page_alloc_init
start = page_alloc_init-IsValid.0

-- The pool with one page in use, at the start or at the end.
abbrev first_used : Pool
first_used = (claim page_alloc_init 1 (some 0)).1

abbrev last_used : Pool
last_used = (claim page_alloc_init 1 (some 28671)).1

first_grant : Granted 0 page_alloc_init 0x81000000 first_used
unfolding claim all_zero bit_get test_bit page_alloc_init
first_grant =
    claim-Granted 0 (omega arith) start
      (record { zero_run = refl; inside = omega arith; steps = 0; aligned = refl })

last_grant : Granted 0 page_alloc_init 0x87fff000 last_used
unfolding claim all_zero bit_get test_bit page_alloc_init
last_grant =
    claim-Granted 0 (omega arith) start
      (record { zero_run = refl; inside = omega arith; steps = 28671; aligned = refl })

first_in_use : (j : ℕ) → in_run 0 1 j ≡ true → bit_get first_used.bitmap j ≡ true
unfolding claim
first_in_use j h =
    ground (arith, bit_get-set_run page_alloc_init.bitmap 0 1 j (omega (arith, start.words)))

last_in_use : (j : ℕ) → 28671 ≤ j → j < 28672 → bit_get last_used.bitmap j ≡ true
unfolding claim
last_in_use j lo hi =
    ground (arith, bit_get-set_run page_alloc_init.bitmap 28671 1 j (omega (arith, start.words)))

alloc_pages-Granted_example :
    Granted 3 page_alloc_init (alloc_pages 3 page_alloc_init).0 (alloc_pages 3 page_alloc_init).1
    ⊎ (alloc_pages 3 page_alloc_init ≡ (0, page_alloc_init)) × NoRun 3 page_alloc_init
alloc_pages-Granted_example = alloc_pages-Granted 3 (omega arith) start

free_pages-Released_example :
    (p' : Pool) × (free_pages (pool_pa_base + 0 * page_size) 0 first_used ≡ ok p')
    × Released 0 0 first_used p'
free_pages-Released_example =
    free_pages-Released 0 0 (omega arith) (omega arith) first_grant.valid first_in_use

first_release :
    (p' : Pool) × (free_pages (pool_pa_base + 0 * page_size) 0 first_used ≡ ok p')
    × Released 0 0 first_used p'
first_release = free_pages-Released 0 0 (omega arith) (omega arith) first_grant.valid first_in_use

-- The pool after the page has been given back.
abbrev given_back : Pool
given_back = first_release.0

alloc_succeeds : (alloc_pages 8 page_alloc_init).0 ≢ 0
unfolding alloc_pages page_alloc_init find_run all_zero set_run bit_get bit_set test_bit or_bit
alloc_succeeds = omega arith

free_pages-alloc_pages_example :
    let (pa, p) = alloc_pages 8 page_alloc_init in
    (p' : Pool) × (free_pages pa 8 p ≡ ok p')
    × ((j : ℕ) → bit_get p'.bitmap j ≡ bit_get page_alloc_init.bitmap j)
    × (p'.free_count ≡ page_alloc_init.free_count)
free_pages-alloc_pages_example = free_pages-alloc_pages 8 (omega arith) start alloc_succeeds

free_pages-overrun_example :
    free_pages (pool_pa_base + 28671 * page_size) 1 last_used ≡ out_of_bounds
free_pages-overrun_example =
    free_pages-overrun 1 28671 (omega arith) (omega arith) (omega arith) last_grant.valid
      last_in_use
