-- ===== src/Mm/Slab/Tests.antt =====
-- Runs of the model of slab.c at concrete inputs.
use vinix_os.Base.{
  ℕ, zero, suc, ◌+◌, ◌*◌, ◌<◌, ◌≡◌, ◌⊎◌, refl, ap, true, none, some, List, [], ◌∷◌, length,
  replicate, get_or-replicate, arith,
}
use vinix_os.Mm.PageAlloc.{
  Pool, Outcome, ok, assert_failed, out_of_bounds, page_alloc_init, claim, alloc_pages, find_run,
  all_zero, set_run, bit_get, bit_set,
}
use vinix_os.Mm.PageAlloc.Count.{page_alloc_init-IsValid}
use vinix_os.Mm.PageAlloc.Alloc.{NoRun}
use vinix_os.Mm.Word.{test_bit, or_bit}
use vinix_os.Mm.Slab.{
  slab_max_caches, Ram, poke, Cache, no_cache, Slab, cache_at, align_up_8, link_objs, refill_page,
  slab_refill, unused_cache, kmem_cache_create, take_obj, kmem_cache_alloc, alloc_class, kmalloc,
  kfree, init_classes, slab_init,
}
use vinix_os.Mm.Slab.Inv.{CacheHas, HasFree, IsGiven}
use vinix_os.Mm.Slab.Alloc.{Gave, kmem_cache_alloc-Gave}
use vinix_os.Mm.Slab.Create.{IsNew, kmem_cache_create-IsNew}
use vinix_os.Mm.Slab.Sample.{first_used, first_used-IsValid}
use vinix_os.Mm.Slab.Free.{TookBack, kfree-TookBack}

-- A cache of objects of 64 bytes without a page.
abbrev cache64 : Cache
cache64 = record {
  obj_size = 64;
  objs_per_page = 63;
  freelist = 0;
  total_objs = 0;
  free_objs = 0;
  in_use = true;
}

abbrev with_one : Ram → Pool → Slab
with_one ram pool = record {
  cache_pool = cache64 ∷ replicate 15 no_cache;
  kmalloc_caches = [];
  ram = ram;
  pool = pool;
}

abbrev nothing : ℕ → List ℕ
nothing c = []

-- No cache has a free object.
with_one-CacheHas :
    (ram : Ram) (pool : Pool) (c : ℕ)
    → (cache_at c (with_one ram pool)).in_use ≡ true
    → CacheHas (with_one ram pool) c []
with_one-CacheHas ram pool zero used = record {
  some_size = omega arith;
  some_objs = omega arith;
  page_full = omega arith;
  chain = refl;
  objs = λ x inside. absurd (cc inside);
  count = refl;
}
with_one-CacheHas ram pool (suc c) used =
    absurd (cc (used, ap Cache.in_use (get_or-replicate 15 c no_cache)))

abbrev start : Slab
start = with_one (λ a. 0) page_alloc_init

start-HasFree : HasFree start nothing
start-HasFree = record {
  valid = page_alloc_init-IsValid.0;
  caches = with_one-CacheHas (λ a. 0) page_alloc_init;
}

-- The first object of the first page is in use.
abbrev busy : Slab
busy = with_one (poke 0xC1000000 1 (λ a. 0)) first_used

busy-HasFree : HasFree busy nothing
busy-HasFree = record {
  valid = first_used-IsValid;
  caches = with_one-CacheHas (poke 0xC1000000 1 (λ a. 0)) first_used;
}

busy-IsGiven : IsGiven busy nothing 0 0xC1000008
unfolding claim bit_get test_bit page_alloc_init set_run bit_set or_bit
busy-IsGiven = (
  record {
    page = 0;
    index = 0;
    inside = omega arith;
    taken = refl;
    owner = refl;
    address = refl;
    fits = omega arith;
    some_size = omega arith;
  },
  refl,
)

kfree-TookBack_example :
    (s' : Slab) × (kfree 0xC1000008 busy ≡ ok s') × TookBack busy nothing 0 0xC1000008 s'
kfree-TookBack_example = kfree-TookBack busy nothing 0 0xC1000008 refl busy-HasFree busy-IsGiven

kmem_cache_alloc-Gave_example :
    ((x : ℕ) × (s' : Slab) × (kmem_cache_alloc 0 start ≡ ok (x, s')) × Gave start nothing 0 x s')
    ⊎ ((kmem_cache_alloc 0 start ≡ ok (0, start)) × (nothing 0 ≡ []) × NoRun 0 page_alloc_init)
kmem_cache_alloc-Gave_example = kmem_cache_alloc-Gave start nothing 0 start-HasFree refl

kmem_cache_create-IsNew_example :
    ((c : ℕ) × (s' : Slab) × (kmem_cache_create 100 start ≡ ok (some c, s'))
      × IsNew start nothing 100 c s')
    ⊎ ((kmem_cache_create 100 start ≡ ok (none, start))
        × ((d : ℕ) → d < length start.cache_pool → (cache_at d start).in_use ≡ true))
kmem_cache_create-IsNew_example =
    kmem_cache_create-IsNew start nothing 100 start-HasFree (omega arith) (omega arith)

abbrev empty : Slab
empty = record {
  cache_pool = replicate slab_max_caches no_cache;
  kmalloc_caches = [];
  ram = λ a. 0;
  pool = page_alloc_init;
}

address : Outcome (ℕ × Slab) → ℕ
address (ok r) = r.0
address assert_failed = 0
address out_of_bounds = 1

after : Outcome Slab → (Slab → ℕ) → ℕ
after (ok s) f = f s
after assert_failed f = 0
after out_of_bounds f = 1

-- The last object of the first page goes out first.
kmalloc_run : after (slab_init empty) (λ s. address (kmalloc 100 s)) ≡ 0xC1000000 + 8 + 30 * 128
unfolding after address slab_init init_classes kmem_cache_create unused_cache align_up_8 kmalloc
    alloc_class kmem_cache_alloc slab_refill refill_page take_obj link_objs alloc_pages
    page_alloc_init find_run all_zero set_run bit_get bit_set test_bit or_bit
kmalloc_run = refl
