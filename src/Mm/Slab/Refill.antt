-- ===== src/Mm/Slab/Refill.antt =====
-- `slab_refill` of slab.c: a page that was free becomes objects of a cache.
use vinix_os.Base.{
  ℕ, ◌+◌, ◌*◌, ◌<◌, ◌≤◌, ◌≡◌, ◌≢◌, refl, sym, ap, ◌∙◌, true, false, List, [], length, arith, inl,
  inr, Bool-cases,
}
use mathlib.Core.Path.{subst}
use native.Mathlib.Nat.{mul-le-mul_right}
use vinix_os.Base.Linked.{has}
use vinix_os.Mm.PageAlloc.{Pool, bit_get, add32, pool_pages}
use vinix_os.Mm.PageAlloc.Count.{IsValid}
use vinix_os.Mm.Slab.{Ram, Cache, Slab, poke, link_objs, refill_page, cache_at}
use vinix_os.Mm.Slab.Link.{
  poke_ne, poke_self, objs_from, length-objs_from, objs_from-members, link_objs-frame,
  link_objs-Chain,
}
use vinix_os.Mm.Slab.Inv.{page_va, IsObj, CacheHas, HasFree, with_free}
use vinix_os.Mm.Slab.Change.{
  changed, IsChange, changed_self, CacheHas-at, IsObj-changed, HasFree-kept,
}

-- An object before the last one ends where the next one starts.
obj_end : (j n size m : ℕ) → j < n → n * size + 8 ≤ m → 8 + j * size + size ≤ m
obj_end j n size m lt h =
    let step : j + 1 ≤ n = omega arith in omega (arith, mul-le-mul_right size step)

module _ (s : Slab) (c k : ℕ) (pool : Pool) (used : (cache_at c s).in_use ≡ true)
    (has_none : CacheHas s c []) (inside : k < pool_pages)
    (was_free : bit_get s.pool.bitmap k ≡ false) (now_taken : bit_get pool.bitmap k ≡ true)
    (others_taken : (j : ℕ) → bit_get s.pool.bitmap j ≡ true → bit_get pool.bitmap j ≡ true) where
  abbrev cache : Cache
  cache = cache_at c s

  abbrev linked : ℕ × Ram
  linked =
      link_objs cache.objs_per_page 0 (page_va k + 8) cache.obj_size
        (cache.freelist, poke (page_va k) (c + 1) s.ram)

  abbrev pub page_objs : List ℕ
  page_objs = objs_from (cache_at c s).objs_per_page 0 (page_va k + 8) (cache_at c s).obj_size []

  abbrev filled : Cache
  filled = record cache {
    freelist = linked.0;
    total_objs = add32 cache.total_objs cache.objs_per_page;
    free_objs = add32 cache.free_objs cache.objs_per_page;
  }

  -- Outside the page nothing is written.
  linked-frame :
      (a : ℕ)
      → ((j : ℕ) → j < cache.objs_per_page → a ≢ page_va k + 8 + j * cache.obj_size)
      → a ≢ page_va k
      → linked.1 a ≡ s.ram a
  linked-frame a out ne =
      link_objs-frame cache.objs_per_page 0 (page_va k + 8) cache.obj_size
        (cache.freelist, poke (page_va k) (c + 1) s.ram) a (λ j lt. out j (omega arith))
      ∙ poke_ne (page_va k) a (c + 1) s.ram ne

  other_page :
      (j a off : ℕ)
      → bit_get s.pool.bitmap j ≡ true
      → a ≡ page_va j + off
      → off < 4096
      → linked.1 a ≡ s.ram a
  other_page j a off taken e small =
      let ne : j ≢ k = λ same. cc (taken, was_free, ap (λ i. bit_get s.pool.bitmap i) same) in
      linked-frame a
        (λ i lt. omega (
          arith,
          ne,
          e,
          small,
          obj_end i cache.objs_per_page cache.obj_size 4096 lt has_none.page_full,
          has_none.some_size,
        ))
        (omega (arith, ne))

  header : linked.1 (page_va k) ≡ c + 1
  header =
      link_objs-frame cache.objs_per_page 0 (page_va k + 8) cache.obj_size
        (cache.freelist, poke (page_va k) (c + 1) s.ram) (page_va k) (λ j lt. omega arith)
      ∙ poke_self (page_va k) (c + 1) s.ram

  filled-IsChange : IsChange s c filled linked.1 pool
  filled-IsChange = record {
    used = used;
    size = refl;
    per_page = refl;
    still = used;
    keeps = record {
      pages = others_taken;
      headers = λ j taken. other_page j (page_va j) 0 taken (omega arith) (omega arith);
      others = λ d x ne o.
          other_page o.page x (8 + o.index * (cache_at d s).obj_size) o.taken
            (o.address ∙ omega arith) (omega (arith, o.fits, o.some_size));
    };
  }

  page_objs-IsObj : (x : ℕ) → has x page_objs ≡ true → IsObj (changed s c filled linked.1 pool) c x
  page_objs-IsObj x h =
      elim (objs_from-members cache.objs_per_page 0 (page_va k + 8) cache.obj_size [] x h) [
        | inl old ↦ absurd (cc old)
        | inr (j, lt, e) ↦
            let same : (cache_at c (changed s c filled linked.1 pool)).obj_size ≡ cache.obj_size =
              ap Cache.obj_size (changed_self s c filled linked.1 pool filled-IsChange) in
            record {
              page = k;
              index = j;
              inside = inside;
              taken = now_taken;
              owner = header;
              address = subst (λ n. x ≡ page_va k + 8 + j * n) (sym same) e;
              fits =
                  subst (λ n. 8 + j * n + n ≤ 4096) (sym same)
                    (obj_end j cache.objs_per_page cache.obj_size 4096 (omega arith)
                      has_none.page_full);
              some_size = subst (λ n. 0 < n) (sym same) has_none.some_size;
            }
      ]

  -- The objects of the page are the free objects of the cache.
  pub refill_page-CacheHas :
      CacheHas (refill_page c (page_va k) (record s { pool = pool })) c page_objs
  unfolding refill_page
  refill_page-CacheHas =
      CacheHas-at s c filled linked.1 pool (changed_self s c filled linked.1 pool filled-IsChange)
        page_objs has_none.some_size has_none.some_objs has_none.page_full
        (link_objs-Chain cache.objs_per_page 0 (page_va k + 8) cache.obj_size cache.freelist
          (poke (page_va k) (c + 1) s.ram) [] has_none.some_size (omega arith)
          (λ x none_old. absurd (cc none_old)) has_none.chain)
        page_objs-IsObj
        (omega (
          arith,
          has_none.count,
          length-objs_from cache.objs_per_page 0 (page_va k + 8) cache.obj_size [],
        ))

  pub refill_page-HasFree :
      (free : ℕ → List ℕ)
      → HasFree s free
      → IsValid pool
      → HasFree (refill_page c (page_va k) (record s { pool = pool })) (with_free c page_objs free)
  unfolding refill_page
  refill_page-HasFree free h valid =
      HasFree-kept s c filled linked.1 pool filled-IsChange.keeps free page_objs h valid
        refill_page-CacheHas

  pub refill_page-used :
      (cache_at c (refill_page c (page_va k) (record s { pool = pool }))).in_use ≡ true
  unfolding refill_page
  refill_page-used = ap Cache.in_use (changed_self s c filled linked.1 pool filled-IsChange) ∙ used

  pub length-page_objs : length page_objs ≡ cache.objs_per_page
  length-page_objs =
      omega (arith, length-objs_from cache.objs_per_page 0 (page_va k + 8) cache.obj_size [])

  -- There is one, as a page has room for it.
  pub page_objs-some : 0 < length page_objs
  page_objs-some = omega (arith, length-page_objs, has_none.some_objs)

  pub refill_page-IsObj :
      (d x : ℕ) → IsObj s d x → IsObj (refill_page c (page_va k) (record s { pool = pool })) d x
  unfolding refill_page
  refill_page-IsObj d x o = IsObj-changed s c filled linked.1 pool filled-IsChange d x o

  -- The objects of the page were none before.
  pub page_objs-new : (d x : ℕ) → IsObj s d x → has x page_objs ≡ false
  page_objs-new d x o = elim (Bool-cases (has x page_objs)) [
    | inr out ↦ out
    | inl new ↦
        elim (objs_from-members cache.objs_per_page 0 (page_va k + 8) cache.obj_size [] x new) [
          | inl old ↦ absurd (cc old)
          | inr (j, lt, e) ↦
              let same : o.page ≡ k = omega (
                arith,
                e,
                o.address,
                o.fits,
                o.some_size,
                obj_end j cache.objs_per_page cache.obj_size 4096 (omega arith) has_none.page_full,
              ) in
              absurd (cc (o.taken, was_free, ap (λ i. bit_get s.pool.bitmap i) same))
        ]
  ]
