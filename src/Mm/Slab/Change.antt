-- ===== src/Mm/Slab/Change.antt =====
-- A change of one cache of slab.c, with the memory and the page allocator, and the other caches.
use vinix_os.Base.{
  ℕ, ◌+◌, ◌*◌, ◌%◌, ◌^◌, ◌<◌, ◌≤◌, ◌≡◌, ◌≢◌, sym, ap, ◌∙◌, true, List, ◌==◌, length, inl, inr,
  Bool-cases, eq_of_==, ne_of_==,
}
use mathlib.Core.Path.{subst}
use vinix_os.Base.Linked.{has, Linked, Linked-frame}
use vinix_os.Mm.PageAlloc.{Pool, bit_get}
use vinix_os.Mm.PageAlloc.Count.{IsValid}
use vinix_os.Mm.Slab.{Ram, Cache, Slab, cache_at, put_cache}
use vinix_os.Mm.Slab.Inv.{
  page_va, IsObj, CacheHas, HasFree, with_free, cache_at-put_self, cache_at-put_ne,
}

module _ (s : Slab) (c : ℕ) (cache : Cache) (ram : Ram) (pool : Pool) where
  abbrev pub changed : Slab
  changed = put_cache c cache (record s { ram = ram; pool = pool })

  -- Pages stay in use and keep their headers, and the objects of the other caches keep their links.
  pub record KeepsOthers : Type 0 where
    pub pages : (k : ℕ) → bit_get s.pool.bitmap k ≡ true → bit_get pool.bitmap k ≡ true
    pub headers : (k : ℕ) → bit_get s.pool.bitmap k ≡ true → ram (page_va k) ≡ s.ram (page_va k)
    pub others : (d x : ℕ) → d ≢ c → IsObj s d x → ram x ≡ s.ram x

  -- The cache keeps its layout, too.
  pub record IsChange : Type 0 where
    pub used : (cache_at c s).in_use ≡ true
    pub size : cache.obj_size ≡ (cache_at c s).obj_size
    pub per_page : cache.objs_per_page ≡ (cache_at c s).objs_per_page
    pub still : cache.in_use ≡ true
    pub keeps : KeepsOthers

  module _ (keeps : KeepsOthers) where
    pub changed_ne : (d : ℕ) → d ≢ c → cache_at d changed ≡ cache_at d s
    changed_ne d ne = cache_at-put_ne c d cache (record s { ram = ram; pool = pool }) ne

    pub IsObj-kept :
        (d x : ℕ)
        → (cache_at d changed).obj_size ≡ (cache_at d s).obj_size
        → IsObj s d x
        → IsObj changed d x
    IsObj-kept d x same o = record {
      page = o.page;
      index = o.index;
      inside = o.inside;
      taken = keeps.pages o.page o.taken;
      owner = keeps.headers o.page o.taken ∙ o.owner;
      address = subst (λ n. x ≡ page_va o.page + 8 + o.index * n) (sym same) o.address;
      fits = subst (λ n. 8 + o.index * n + n ≤ 4096) (sym same) o.fits;
      some_size = subst (λ n. 0 < n) (sym same) o.some_size;
    }

    pub CacheHas-kept : (d : ℕ) (xs : List ℕ) → d ≢ c → CacheHas s d xs → CacheHas changed d xs
    CacheHas-kept d xs ne h =
        let same = changed_ne d ne in
        record {
          some_size = subst (λ e. 0 < e.obj_size) (sym same) h.some_size;
          some_objs = subst (λ e. 0 < e.objs_per_page) (sym same) h.some_objs;
          page_full = subst (λ e. e.objs_per_page * e.obj_size + 8 ≤ 4096) (sym same) h.page_full;
          chain =
              subst (λ e. Linked (λ w. w) ram e.freelist xs) (sym same)
                (Linked-frame (λ w. w) s.ram ram (cache_at d s).freelist xs
                  (λ x inside. keeps.others d x ne (h.objs x inside)) h.chain);
          objs = λ x inside. IsObj-kept d x (ap Cache.obj_size same) (h.objs x inside);
          count = subst (λ e. e.free_objs ≡ length xs % 2 ^ 32) (sym same) h.count;
        }

    pub HasFree-kept :
        (free : ℕ → List ℕ) (xs : List ℕ)
        → HasFree s free
        → IsValid pool
        → CacheHas changed c xs
        → HasFree changed (with_free c xs free)
    HasFree-kept free xs h valid new = record {
      valid = valid;
      caches = λ d used. elim (Bool-cases (d == c)) [
        | inl same ↦ rw same (subst (λ e. CacheHas changed e xs) (sym (eq_of_== d c same)) new)
        | inr other ↦ rw other (
            CacheHas-kept d (free d) (ne_of_== d c other)
              (h.caches d (cc (used, ap Cache.in_use (changed_ne d (ne_of_== d c other))))))
      ];
    }

  module _ (at : cache_at c changed ≡ cache) where
    pub CacheHas-at :
        (xs : List ℕ)
        → 0 < cache.obj_size
        → 0 < cache.objs_per_page
        → cache.objs_per_page * cache.obj_size + 8 ≤ 4096
        → Linked (λ w. w) ram cache.freelist xs
        → ((x : ℕ) → has x xs ≡ true → IsObj changed c x)
        → cache.free_objs ≡ length xs % 2 ^ 32
        → CacheHas changed c xs
    CacheHas-at xs some_size some_objs page_full chain objs count = record {
      some_size = subst (λ e. 0 < e.obj_size) (sym at) some_size;
      some_objs = subst (λ e. 0 < e.objs_per_page) (sym at) some_objs;
      page_full = subst (λ e. e.objs_per_page * e.obj_size + 8 ≤ 4096) (sym at) page_full;
      chain = subst (λ e. Linked (λ w. w) ram e.freelist xs) (sym at) chain;
      objs = objs;
      count = subst (λ e. e.free_objs ≡ length xs % 2 ^ 32) (sym at) count;
    }

  module _ (change : IsChange) where
    pub changed_self : cache_at c changed ≡ cache
    changed_self = cache_at-put_self c cache (record s { ram = ram; pool = pool }) change.used

    same_size : (d : ℕ) → (cache_at d changed).obj_size ≡ (cache_at d s).obj_size
    same_size d = elim (Bool-cases (d == c)) [
      | inl same ↦ cc (eq_of_== d c same, ap Cache.obj_size changed_self, change.size)
      | inr other ↦ ap Cache.obj_size (changed_ne change.keeps d (ne_of_== d c other))
    ]

    pub IsObj-changed : (d x : ℕ) → IsObj s d x → IsObj changed d x
    IsObj-changed d x o = IsObj-kept change.keeps d x (same_size d) o
