-- ===== src/Mm/PageAlloc/Alloc.antt =====
-- `alloc_pages` of page_alloc.c: what a successful call returns and changes, and when it fails.
use vinix_os.Base.{
  ℕ, zero, suc, ◌+◌, ◌*◌, ◌%◌, ◌<◌, ◌≤◌, ◌≡◌, refl, ◌∙◌, true, false, ◌||◌, none, some, List, arith,
  leb, Bool-cases, Option-cases, ◌⊎◌, inl, inr,
}
use vinix_os.Mm.PageAlloc.{
  Pool, page_size, page_max_order, pool_pa_base, pool_pages, bit_get, all_zero, find_run, claim,
  alloc_pages, page_count,
}
use vinix_os.Mm.PageAlloc.Bits.{in_run, length-set_run, bit_get-set_run, all_zero-clear}
use vinix_os.Mm.PageAlloc.Count.{IsValid, clear_count-set_run, clear_count-le}

-- The orders are 0 … 8, so `1u << order` is a small power of two.
pub page_count_bounds :
    (order : ℕ) → order ≤ page_max_order → (0 < page_count order) × (page_count order ≤ 256)
page_count_bounds zero h = omega arith
page_count_bounds (suc zero) h = omega arith
page_count_bounds (suc (suc zero)) h = omega arith
page_count_bounds (suc (suc (suc zero))) h = omega arith
page_count_bounds (suc (suc (suc (suc zero)))) h = omega arith
page_count_bounds (suc (suc (suc (suc (suc zero))))) h = omega arith
page_count_bounds (suc (suc (suc (suc (suc (suc zero)))))) h = omega arith
page_count_bounds (suc (suc (suc (suc (suc (suc (suc zero))))))) h = omega arith
page_count_bounds (suc (suc (suc (suc (suc (suc (suc (suc zero)))))))) h = omega arith
page_count_bounds (suc (suc (suc (suc (suc (suc (suc (suc (suc n))))))))) h = absurd (omega arith)

-- A run that starts at a multiple of its length has a naturally aligned address.
address_aligned :
    (order steps : ℕ)
    → order ≤ page_max_order
    → (pool_pa_base + steps * page_count order * page_size) % (page_count order * page_size) ≡ 0
address_aligned zero steps h = omega arith
address_aligned (suc zero) steps h = omega arith
address_aligned (suc (suc zero)) steps h = omega arith
address_aligned (suc (suc (suc zero))) steps h = omega arith
address_aligned (suc (suc (suc (suc zero)))) steps h = omega arith
address_aligned (suc (suc (suc (suc (suc zero))))) steps h = omega arith
address_aligned (suc (suc (suc (suc (suc (suc zero)))))) steps h = omega arith
address_aligned (suc (suc (suc (suc (suc (suc (suc zero))))))) steps h = omega arith
address_aligned (suc (suc (suc (suc (suc (suc (suc (suc zero)))))))) steps h = omega arith
address_aligned (suc (suc (suc (suc (suc (suc (suc (suc (suc n))))))))) steps h =
    absurd (omega arith)

-- What the outer loop finds: a clear run inside the pool, a multiple of `count` past the start.
pub record Found (b : List ℕ) (count i r : ℕ) : Type 0 where
  pub zero_run : all_zero b r count ≡ true
  pub inside : r + count ≤ pool_pages
  pub steps : ℕ
  pub aligned : r ≡ i + steps * count

find_run-Found :
    (rounds : ℕ) (b : List ℕ) (count i : ℕ) {r : ℕ}
    → find_run rounds b count i ≡ some r
    → Found b count i r
unfolding find_run
find_run-Found zero b count i e = cc
find_run-Found (suc rounds) b count i {r} e = elim (Bool-cases (leb (i + count) pool_pages)) [
  | inl fits ↦ elim (Bool-cases (all_zero b i count)) [
    | inl hit ↦
        let same : i ≡ r = ground arith in
        record {
          zero_run = rw (← same) hit;
          inside = ground arith;
          steps = 0;
          aligned = omega arith;
        }
    | inr miss ↦
        let rest : Found b count (i + count) r =
          find_run-Found rounds b count (i + count) (ground arith) in
        record {
          zero_run = rest.zero_run;
          inside = rest.inside;
          steps = suc rest.steps;
          aligned = omega (arith, rest.aligned);
        }
  ]
  | inr out ↦ absurd (ground arith)
]

-- A run that is not clear has a page in use.
used_page :
    (b : List ℕ) (i n : ℕ)
    → all_zero b i n ≡ false
    → (j : ℕ) × (in_run i n j ≡ true) × (bit_get b j ≡ true)
unfolding all_zero
used_page b i zero h = cc
used_page b i (suc n) h = elim (Bool-cases (bit_get b i)) [
  | inl used ↦ (i, ground arith, used)
  | inr clear ↦
      let (j, inside, used) = used_page b (i + 1) n (ground arith) in (j, ground arith, used)
]

-- With enough rounds the loop misses no run.
find_run-none :
    (rounds : ℕ) (b : List ℕ) (count i k : ℕ)
    → 0 < count
    → pool_pages < i + rounds
    → find_run rounds b count i ≡ none
    → i + k * count + count ≤ pool_pages
    → all_zero b (i + k * count) count ≡ false
unfolding find_run
find_run-none zero b count i k pos enough e le = absurd (omega arith)
find_run-none (suc rounds) b count i zero pos enough e le = ground arith
find_run-none (suc rounds) b count i (suc k) pos enough e le =
    let later : i + suc k * count ≡ i + count + k * count = omega arith in
    rw later
      (find_run-none rounds b count (i + count) k pos (omega arith) (ground arith) (omega arith))

-- What a successful call hands out: a naturally aligned run of pages that were free and are now in
-- use, and no other page changes its state.
pub record Granted (order : ℕ) (p : Pool) (pa : ℕ) (p' : Pool) : Type 0 where
  pub index : ℕ
  pub address : pa ≡ pool_pa_base + index * page_size
  pub aligned : pa % (page_count order * page_size) ≡ 0
  pub inside : index + page_count order ≤ pool_pages
  pub was_free : (j : ℕ) → in_run index (page_count order) j ≡ true → bit_get p.bitmap j ≡ false
  pub taken :
      (j : ℕ) → bit_get p'.bitmap j ≡ (in_run index (page_count order) j || bit_get p.bitmap j)
  pub valid : IsValid p'
  pub count : p'.free_count + page_count order ≡ p.free_count

pub claim-Granted :
    (order : ℕ) {p : Pool} {r : ℕ}
    → order ≤ page_max_order
    → IsValid p
    → Found p.bitmap (page_count order) 0 r
    → Granted order p
        (claim p (page_count order) (some r)).0
        (claim p (page_count order) (some r)).1
unfolding claim
claim-Granted order {p} {r} small v f =
    let run : r ≡ f.steps * page_count order = omega (arith, f.aligned) in
    let free = all_zero-clear p.bitmap r (page_count order) in
    let bounds = page_count_bounds order small in
    let counts =
      clear_count-set_run p.bitmap r (page_count order) pool_pages
        (omega (arith, v.words, f.inside)) f.inside (λ j. free j f.zero_run) in
    let le = clear_count-le p.bitmap pool_pages in
    record {
      index = r;
      address = refl;
      aligned = rw run (address_aligned order f.steps small);
      inside = f.inside;
      was_free = λ j. free j f.zero_run;
      taken =
          λ j. bit_get-set_run p.bitmap r (page_count order) j (omega (arith, v.words, f.inside));
      valid = record {
        words = length-set_run p.bitmap r (page_count order) ∙ v.words;
        counted = omega (arith, v.counted);
      };
      count = omega (arith, v.counted);
    }

zero_add : (n : ℕ) → 0 + n ≡ n
zero_add n = omega arith

alloc_pages_allowed :
    (order : ℕ) (p : Pool)
    → order ≤ page_max_order
    → alloc_pages order p
      ≡ claim p (page_count order) (find_run (suc pool_pages) p.bitmap (page_count order) 0)
unfolding alloc_pages
alloc_pages_allowed order p small = ground arith

-- Every aligned run of the order's length in the pool has a page in use.
abbrev pub NoRun : ℕ → Pool → Type 0
NoRun order p =
    (k : ℕ)
    → k * page_count order + page_count order ≤ pool_pages
    → (j : ℕ) × (in_run (k * page_count order) (page_count order) j ≡ true)
      × (bit_get p.bitmap j ≡ true)

-- From a valid pool and for an order that is allowed, `alloc_pages` either returns a run as
-- described by `Granted`, or returns 0, leaves the pool as it is, and then every aligned run of that
-- many pages in the pool has a page in use.
pub alloc_pages-Granted :
    (order : ℕ) {p : Pool}
    → order ≤ page_max_order
    → IsValid p
    → Granted order p (alloc_pages order p).0 (alloc_pages order p).1
      ⊎ (alloc_pages order p ≡ (0, p)) × NoRun order p
unfolding claim
alloc_pages-Granted order {p} small v =
    elim (Option-cases (find_run (suc pool_pages) p.bitmap (page_count order) 0)) [
      | inl none_left ↦ inr (
        rw (alloc_pages_allowed order p small, none_left),
        λ k le. used_page p.bitmap (k * page_count order) (page_count order) (
            rw (zero_add (k * page_count order)) at (
              find_run-none (suc pool_pages) p.bitmap (page_count order) 0 k
                (page_count_bounds order small).0 (omega arith) none_left (omega arith))),
      )
      | inr (r, hit) ↦ inl (
          rw (alloc_pages_allowed order p small, hit)
            (claim-Granted order small v
              (find_run-Found (suc pool_pages) p.bitmap (page_count order) 0 hit)))
    ]

-- An order beyond PAGE_MAX_ORDER is refused with 0, and the pool is left as it is.
pub alloc_pages-too_large :
    (order : ℕ) (p : Pool) → page_max_order < order → alloc_pages order p ≡ (0, p)
unfolding alloc_pages
alloc_pages-too_large order p h = ground arith
