-- ===== src/Mm/PageAlloc/Free.antt =====
-- `free_pages` of page_alloc.c: which calls its ASSERTs let through, and what those do.
use vinix_os.Base.{
  ℕ, zero, suc, ◌+◌, ◌-◌, ◌*◌, ◌/◌, ◌<◌, ◌≤◌, ◌≡◌, ◌≢◌, refl, ap, ◌∙◌, true, false, not, ◌&&◌, List,
  arith, ◌==◌, length, Bool-cases, inl, inr,
}
use vinix_os.Mm.PageAlloc.{
  Pool, page_size, page_max_order, pool_pa_base, pool_pages, bitmap_words, bit_get, bit_clear, ok,
  assert_failed, out_of_bounds, clear_run, credit, free_pages, alloc_pages, page_count,
}
use vinix_os.Mm.PageAlloc.Bits.{in_run, bit_get-bit_clear, length-bit_clear}
use vinix_os.Mm.PageAlloc.Count.{clear_count, IsValid, clear_count-bit_clear, clear_count-le}
use vinix_os.Mm.PageAlloc.Alloc.{Granted, page_count_bounds, alloc_pages-Granted}

-- The bitmap after the loop of `free_pages` over a run that is in use.
record Cleared (b : List ℕ) (i n : ℕ) (b' : List ℕ) : Type 0 where
  words : length b' ≡ length b
  bits : (j : ℕ) → bit_get b' j ≡ (not (in_run i n j) && bit_get b j)
  count : clear_count b' pool_pages ≡ clear_count b pool_pages + n

clear_run-Cleared :
    (b : List ℕ) (i n : ℕ)
    → length b ≡ bitmap_words
    → i + n ≤ pool_pages
    → ((j : ℕ) → in_run i n j ≡ true → bit_get b j ≡ true)
    → (b' : List ℕ) × (clear_run b i n ≡ ok b') × Cleared b i n b'
unfolding clear_run
clear_run-Cleared b i zero words inside used =
    (b, refl, record { words = refl; bits = λ j. ground arith; count = omega arith })
clear_run-Cleared b i (suc n) words inside used =
    let below : i / 32 < length b = omega arith in
    let (b', e, c) =
      clear_run-Cleared (bit_clear b i) (i + 1) n (length-bit_clear b i ∙ words) (omega arith)
        (λ j r. ground (arith, used j, bit_get-bit_clear b i j below)) in
    (
      b',
      ground (arith, used i),
      record {
        words = c.words ∙ length-bit_clear b i;
        bits = λ j. ground (arith, c.bits j, bit_get-bit_clear b i j below, used j);
        count = omega (
          arith,
          c.count,
          clear_count-bit_clear b i pool_pages (omega arith) (omega arith) (used i (ground arith)),
        );
      },
    )

-- What a call of `free_pages` that succeeds does: the run of pages becomes free, no other page
-- changes its state, and the free count goes up by the length of the run.
pub record Released (order index : ℕ) (p p' : Pool) : Type 0 where
  pub bits :
      (j : ℕ)
      → bit_get p'.bitmap j ≡ (not (in_run index (page_count order) j) && bit_get p.bitmap j)
  pub valid : IsValid p'
  pub count : p'.free_count ≡ p.free_count + page_count order

-- The ASSERTs pass at the address of a page of the pool.
free_pages_allowed :
    (order index : ℕ) (p : Pool)
    → order ≤ page_max_order
    → index < pool_pages
    → free_pages (pool_pa_base + index * page_size) order p
      ≡ credit p (page_count order) (clear_run p.bitmap index (page_count order))
unfolding free_pages
free_pages_allowed order index p small inside =
    let at : (pool_pa_base + index * page_size - pool_pa_base) / page_size ≡ index = omega arith in
    rw at (ground arith)

-- From a valid pool, `free_pages` at the address of a run of pages of the pool that are all in use
-- succeeds as described by `Released`.
pub free_pages-Released :
    (order index : ℕ) {p : Pool}
    → order ≤ page_max_order
    → index + page_count order ≤ pool_pages
    → IsValid p
    → ((j : ℕ) → in_run index (page_count order) j ≡ true → bit_get p.bitmap j ≡ true)
    → (p' : Pool) × (free_pages (pool_pa_base + index * page_size) order p ≡ ok p')
      × Released order index p p'
unfolding credit
free_pages-Released order index {p} small inside v used =
    let (b', e, c) = clear_run-Cleared p.bitmap index (page_count order) v.words inside used in
    let bounds = page_count_bounds order small in
    let le = clear_count-le b' pool_pages in
    (
      record { bitmap = b'; free_count = p.free_count + page_count order },
      rw (free_pages_allowed order index p small (omega arith), e)
          (ap (λ k. ok (record { bitmap = b'; free_count = k }))
            (omega (arith, c.count, v.counted))),
      record {
        bits = c.bits;
        valid = record { words = c.words ∙ v.words; counted = omega (arith, c.count, v.counted) };
        count = refl;
      },
    )

clear_run-clear :
    (b : List ℕ) (i n : ℕ)
    → i / 32 < length b
    → 0 < n
    → bit_get b i ≡ false
    → clear_run b i n ≡ assert_failed
unfolding clear_run
clear_run-clear b i zero below pos clear = absurd (omega arith)
clear_run-clear b i (suc n) below pos clear = ground arith

-- A second `free_pages` of the same run is caught by its ASSERT: from a valid pool, once the run has
-- been released, another release of it fails.
free_pages-twice :
    (order index : ℕ) {p p' : Pool}
    → order ≤ page_max_order
    → index + page_count order ≤ pool_pages
    → Released order index p p'
    → free_pages (pool_pa_base + index * page_size) order p' ≡ assert_failed
unfolding credit
free_pages-twice order index {p} {p'} small inside r =
    let bounds = page_count_bounds order small in
    let gone : bit_get p'.bitmap index ≡ false = ground (arith, r.bits index) in
    let stop =
      clear_run-clear p'.bitmap index (page_count order) (omega (arith, r.valid.words)) bounds.0
        gone in
    rw (free_pages_allowed order index p' small (omega arith), stop)

restored :
    (order : ℕ) {p p' : Pool} {pa : ℕ} {granted : Pool} (g : Granted order p pa granted)
    → Released order g.index granted p'
    → (j : ℕ) → bit_get p'.bitmap j ≡ bit_get p.bitmap j
restored order g r j = ground (arith, r.bits j, g.taken j, g.was_free j)

free_pages-Granted :
    (order : ℕ) {p granted : Pool} {pa : ℕ}
    → order ≤ page_max_order
    → Granted order p pa granted
    → (p' : Pool) × (free_pages pa order granted ≡ ok p')
      × ((j : ℕ) → bit_get p'.bitmap j ≡ bit_get p.bitmap j)
      × (p'.free_count ≡ p.free_count)
free_pages-Granted order small g =
    let (p', e, r) =
      free_pages-Released order g.index small g.inside g.valid
        (λ j inside. ground (arith, g.taken j)) in
    (p', rw g.address e, restored order g r, omega (arith, r.count, g.count))

-- From a valid pool and for an order that is allowed, a run that `alloc_pages` returns can be given
-- back by `free_pages`, which then leaves every page in the state that it had before, and the free
-- count as it was.
pub free_pages-alloc_pages :
    (order : ℕ) {p : Pool}
    → order ≤ page_max_order
    → IsValid p
    → (alloc_pages order p).0 ≢ 0
    → (p' : Pool) × (free_pages (alloc_pages order p).0 order (alloc_pages order p).1 ≡ ok p')
      × ((j : ℕ) → bit_get p'.bitmap j ≡ bit_get p.bitmap j)
      × (p'.free_count ≡ p.free_count)
free_pages-alloc_pages order {p} small v got = elim (alloc_pages-Granted order small v) [
  | inl g ↦ free_pages-Granted order small g
  | inr (e, _) ↦ absurd (got (ap (λ (r : ℕ × Pool). r.0) e))
]

clear_run-overrun :
    (b : List ℕ) (i n : ℕ)
    → length b ≡ bitmap_words
    → i ≤ pool_pages
    → pool_pages < i + n
    → ((j : ℕ) → i ≤ j → j < pool_pages → bit_get b j ≡ true)
    → clear_run b i n ≡ out_of_bounds
unfolding clear_run
clear_run-overrun b i zero words le over used = absurd (omega arith)
clear_run-overrun b i (suc n) words le over used = elim (Bool-cases (i == pool_pages)) [
  | inl e ↦ ground arith
  | inr e ↦ ground (
    arith,
    used i,
    clear_run-overrun (bit_clear b i) (i + 1) n (length-bit_clear b i ∙ words) (ground arith)
        (omega arith) (λ j lo hi. ground (arith, used j, bit_get-bit_clear b i j (omega arith))),
  )
]

-- The ASSERTs of `free_pages` look at the first page of the run only: from a valid pool, for a run
-- that starts inside the pool and ends beyond it, with all its pages in the pool in use, the call
-- reads outside the bitmap.
pub free_pages-overrun :
    (order index : ℕ) {p : Pool}
    → order ≤ page_max_order
    → index < pool_pages
    → pool_pages < index + page_count order
    → IsValid p
    → ((j : ℕ) → index ≤ j → j < pool_pages → bit_get p.bitmap j ≡ true)
    → free_pages (pool_pa_base + index * page_size) order p ≡ out_of_bounds
unfolding credit
free_pages-overrun order index {p} small start over v used = rw (
  free_pages_allowed order index p small start,
  clear_run-overrun p.bitmap index (page_count order) v.words (omega arith) over used,
)
