-- ===== src/Mm/Slab.antt =====
-- The slab allocator, VinixOS/kernel/src/kernel/mm/slab.c: caches of objects of one size, whose free
-- objects are linked through their first words, `kmalloc` and `kfree`.
pub mod Link
pub mod Inv
pub mod Change
pub mod Refill
pub mod Alloc
pub mod Free
pub mod Create
pub mod Sample
mod Tests
use vinix_os.Base.{
  ℕ, zero, suc, ◌+◌, ◌-◌, ◌*◌, ◌/◌, ◌%◌, ◌^◌, Bool, true, false, ◌||◌, not, Option, none, some,
  List, [], ◌∷◌, ◌++◌, ◌==◌, ltb, leb, if◌then◌else◌, get_or, set, replicate,
}
use vinix_os.Mm.PageAlloc.{
  Pool, Outcome, ok, assert_failed, out_of_bounds, page_size, add32, sub32, alloc_pages,
}

abbrev pub slab_max_caches : ℕ
slab_max_caches = 16

abbrev pub slab_page_hdr_bytes : ℕ
slab_page_hdr_bytes = 8

abbrev pub va_offset : ℕ
va_offset = 0x40000000

-- The words of memory, by their addresses.
abbrev pub Ram : Type 0
Ram = ℕ → ℕ

abbrev pub poke : ℕ → ℕ → Ram → Ram
poke a v ram = λ b. if b == a then v else ram b

-- `struct kmem_cache`, without the name, which is printed only
pub record Cache : Type 0 where
  pub obj_size : ℕ
  pub objs_per_page : ℕ
  pub freelist : ℕ
  pub total_objs : ℕ
  pub free_objs : ℕ
  pub in_use : Bool

abbrev pub no_cache : Cache
no_cache = record {
  obj_size = 0;
  objs_per_page = 0;
  freelist = 0;
  total_objs = 0;
  free_objs = 0;
  in_use = false;
}

-- `cache_pool` and `kmalloc_caches`, with the memory and the page allocator. A pointer to a cache is its
-- index in `cache_pool`; in memory it is stored as the index and 1, and 0 is NULL.
pub record Slab : Type 0 where
  pub cache_pool : List Cache
  pub kmalloc_caches : List ℕ
  pub ram : Ram
  pub pool : Pool

abbrev pub cache_at : ℕ → Slab → Cache
cache_at c s = get_or s.cache_pool c no_cache

abbrev pub put_cache : ℕ → Cache → Slab → Slab
put_cache c cache s = record s { cache_pool = set s.cache_pool c cache }

unfoldable pub align_up_8 : ℕ → ℕ
align_up_8 x = (x + 7) / 8 * 8

-- The loop of `slab_refill` from object `i` on, with the list so far.
unfoldable pub link_objs : (count i base size : ℕ) → ℕ × Ram → ℕ × Ram
link_objs zero i base size r = r
link_objs (suc count) i base size (freelist, ram) =
    link_objs count (i + 1) base size (base + i * size, poke (base + i * size) freelist ram)

-- `slab_refill` at a page. The second word of its header is padding, which nothing reads; writing 0 to it
-- is left out.
unfoldable pub refill_page : (c : ℕ) → (page_va : ℕ) → Slab → Slab
refill_page c page_va s =
    let cache = cache_at c s in
    let (freelist, ram) =
      link_objs cache.objs_per_page 0 (page_va + slab_page_hdr_bytes) cache.obj_size
        (cache.freelist, poke page_va (c + 1) s.ram) in
    put_cache c
      (record cache {
        freelist = freelist;
        total_objs = add32 cache.total_objs cache.objs_per_page;
        free_objs = add32 cache.free_objs cache.objs_per_page;
      })
      (record s { ram = ram })

unfoldable pub slab_refill : ℕ → Slab → Bool × Slab
slab_refill c s =
    let (pa, pool) = alloc_pages 0 s.pool in
    if pa == 0
    then (false, record s { pool = pool })
    else (true, refill_page c (pa + va_offset) (record s { pool = pool }))

-- The first cache that is not in use.
unfoldable pub unused_cache : List Cache → Option ℕ
unused_cache [] = none
unused_cache (cache ∷ caches) =
    let rest = unused_cache caches in
    if cache.in_use then elim rest [ none ↦ none | some i ↦ some (suc i) ] else some 0

unfoldable pub kmem_cache_create : (obj_size : ℕ) → Slab → Outcome (Option ℕ × Slab)
kmem_cache_create obj_size s =
    let aligned = align_up_8 obj_size in
    if ltb obj_size 4 || ltb (page_size - slab_page_hdr_bytes) obj_size
    then assert_failed
    else elim (unused_cache s.cache_pool) [
      | none ↦ ok (none, s)
      | some c ↦ ok (
        some c,
        put_cache c
            (record {
              obj_size = aligned;
              objs_per_page = (page_size - slab_page_hdr_bytes) / aligned;
              freelist = 0;
              total_objs = 0;
              free_objs = 0;
              in_use = true;
            })
            s,
      )
    ]

-- The end of `kmem_cache_alloc`: the first free object.
unfoldable pub take_obj : ℕ → Slab → ℕ × Slab
take_obj c s =
    let cache = cache_at c s in
    (
      cache.freelist,
      put_cache c
          (record cache { freelist = s.ram cache.freelist; free_objs = sub32 cache.free_objs 1 }) s,
    )

-- The object, 0 if there is no memory.
unfoldable pub kmem_cache_alloc : ℕ → Slab → Outcome (ℕ × Slab)
kmem_cache_alloc c s =
    let (done, s') = slab_refill c s in
    if not (cache_at c s).in_use
    then assert_failed
    else if (cache_at c s).freelist == 0
    then (if done then ok (take_obj c s') else ok (0, s'))
    else ok (take_obj c s)

unfoldable pub kmem_cache_free : (c : ℕ) → (ptr : ℕ) → Slab → Outcome Slab
kmem_cache_free c ptr s =
    let cache = cache_at c s in
    if ptr == 0
    then assert_failed
    else ok (
        put_cache c (record cache { freelist = ptr; free_objs = add32 cache.free_objs 1 })
          (record s { ram = poke ptr cache.freelist s.ram }))

abbrev pub kmalloc_sizes : List ℕ
kmalloc_sizes = 32 ∷ 64 ∷ 128 ∷ 256 ∷ 512 ∷ 1024 ∷ 2048 ∷ []

-- The loop of `kmalloc`, over the sizes and the caches; before `slab_init` the pointers to them are NULL.
unfoldable pub alloc_class : (size : ℕ) → List ℕ → List ℕ → Slab → Outcome (ℕ × Slab)
alloc_class size [] caches s = ok (0, s)
alloc_class size (max ∷ sizes) [] s =
    if leb size max then assert_failed else alloc_class size sizes [] s
alloc_class size (max ∷ sizes) (c ∷ caches) s =
    if leb size max then kmem_cache_alloc c s else alloc_class size sizes caches s

unfoldable pub kmalloc : ℕ → Slab → Outcome (ℕ × Slab)
kmalloc size s = if size == 0 then ok (0, s) else alloc_class size kmalloc_sizes s.kmalloc_caches s

-- The start of the page that an address lies in.
abbrev pub page_of : ℕ → ℕ
page_of ptr = ptr / page_size * page_size

unfoldable pub kfree : ℕ → Slab → Outcome Slab
kfree ptr s =
    let hdr = s.ram (page_of ptr) in
    if ptr == 0 then ok s else if hdr == 0 then assert_failed else kmem_cache_free (hdr - 1) ptr s

unfoldable pub slab_cache_free_count : ℕ → Slab → ℕ
slab_cache_free_count c s = (cache_at c s).free_objs

unfoldable pub slab_cache_total_count : ℕ → Slab → ℕ
slab_cache_total_count c s = (cache_at c s).total_objs

-- The loop of `slab_init`.
unfoldable pub init_classes : List ℕ → Slab → Outcome Slab
init_classes [] s = ok s
init_classes (size ∷ sizes) s = elim (kmem_cache_create size s) [
  | assert_failed ↦ assert_failed
  | out_of_bounds ↦ out_of_bounds
  | ok r ↦ elim r.0 [
    | none ↦ assert_failed
    | some c ↦ init_classes sizes (record r.1 { kmalloc_caches = r.1.kmalloc_caches ++ c ∷ [] })
  ]
]

unfoldable pub slab_init : Slab → Outcome Slab
slab_init s = init_classes kmalloc_sizes s
