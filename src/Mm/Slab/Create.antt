-- ===== src/Mm/Slab/Create.antt =====
-- `kmem_cache_create` of slab.c.
use vinix_os.Base.{
  ℕ, zero, suc, ◌+◌, ◌-◌, ◌*◌, ◌/◌, ◌<◌, ◌≤◌, ◌≡◌, ◌≢◌, ◌⊎◌, refl, sym, ap, ◌∙◌, true, false, ◌||◌,
  none, some, List, [], ◌∷◌, ◌==◌, ltb, length, get_or, get_or-set_self, arith, inl, inr,
  Bool-cases, Option-cases, eq_of_==, ne_of_==,
}
use mathlib.Core.Path.{subst}
use native.Mathlib.Nat.{div-add-mod', div-mul-le_self, mod-lt}
use vinix_os.Mm.PageAlloc.{ok, page_size}
use vinix_os.Mm.Slab.{
  Cache, no_cache, Slab, cache_at, align_up_8, unused_cache, kmem_cache_create, slab_page_hdr_bytes,
}
use vinix_os.Mm.Slab.Inv.{HasFree, with_free}
use vinix_os.Mm.Slab.Change.{changed, changed_ne, KeepsOthers, CacheHas-at, HasFree-kept}

unused_cache-some :
    (caches : List Cache) (i : ℕ)
    → unused_cache caches ≡ some i
    → (i < length caches) × ((get_or caches i no_cache).in_use ≡ false)
unfolding unused_cache
unused_cache-some [] i e = absurd (cc e)
unused_cache-some (cache ∷ caches) zero e = (omega arith, ground (arith, e))
unused_cache-some (cache ∷ caches) (suc j) e = elim (Option-cases (unused_cache caches)) [
  | inl full ↦ absurd (ground (arith, e, full))
  | inr (i, found) ↦ ground (arith, e, found, unused_cache-some caches i found)
]

unused_cache-none :
    (caches : List Cache)
    → unused_cache caches ≡ none
    → (d : ℕ) → d < length caches
    → (get_or caches d no_cache).in_use ≡ true
unfolding unused_cache
unused_cache-none [] e d lt = absurd (omega arith)
unused_cache-none (cache ∷ caches) e zero lt = ground (arith, e)
unused_cache-none (cache ∷ caches) e (suc d) lt = elim (Option-cases (unused_cache caches)) [
  | inl full ↦ unused_cache-none caches full d (omega arith)
  | inr (i, found) ↦ absurd (ground (arith, e, found))
]

unused_cache-first :
    (caches : List Cache) (i : ℕ)
    → unused_cache caches ≡ some i
    → (d : ℕ) → d < i
    → (get_or caches d no_cache).in_use ≡ true
unfolding unused_cache
unused_cache-first [] i e d lt = absurd (cc e)
unused_cache-first (cache ∷ caches) zero e d lt = absurd (omega arith)
unused_cache-first (cache ∷ caches) (suc i) e zero lt = ground (arith, e)
unused_cache-first (cache ∷ caches) (suc i) e (suc d) lt =
    elim (Option-cases (unused_cache caches)) [
      | inl full ↦ absurd (ground (arith, e, full))
      | inr (j, found) ↦ unused_cache-first caches i (ground (arith, e, found)) d (omega arith)
    ]

align_up_8-le : (x : ℕ) → x ≤ align_up_8 x
unfolding align_up_8
align_up_8-le x = omega arith

div_pos : (a : ℕ) → 0 < a → a ≤ 4088 → 0 < 4088 / a
div_pos a some_size fits = elim (Bool-cases (4088 / a == 0)) [
  | inr other ↦ omega (arith, ne_of_== (4088 / a) 0 other)
  | inl zero_objs ↦
      let left : 4088 / a * a ≡ 0 =
        ap (λ q. q * a) (eq_of_== (4088 / a) 0 zero_objs) ∙ omega arith in
      absurd (omega (arith, left, div-add-mod' 4088 a, mod-lt 4088 some_size))
]

-- There is room for an object, and what is left of the page cannot be used.
abbrev pub layout : ℕ → Cache
layout obj_size = record {
  obj_size = align_up_8 obj_size;
  objs_per_page = (page_size - slab_page_hdr_bytes) / align_up_8 obj_size;
  freelist = 0;
  total_objs = 0;
  free_objs = 0;
  in_use = true;
}

layout-fits :
    (size : ℕ)
    → 4 ≤ size
    → size ≤ 4088
    → (0 < (layout size).obj_size)
      × (0 < (layout size).objs_per_page)
      × ((layout size).objs_per_page * (layout size).obj_size + 8 ≤ 4096)
unfolding align_up_8
layout-fits size lo hi =
    let a : ℕ = align_up_8 size in
    let some_size : 0 < a = omega arith in
    (some_size, div_pos a some_size (omega arith), omega (arith, div-mul-le_self 4088 a))

-- `c` is the first cache that was not in use. Now it is in use, for objects of at least this size, and
-- has no free object; every other cache is as it was, and so are the rest of the state and the free
-- objects of the other caches.
pub record IsNew (s : Slab) (free : ℕ → List ℕ) (size c : ℕ) (s' : Slab) : Type 0 where
  pub has_free : HasFree s' (with_free c [] free)
  pub inside : c < length s.cache_pool
  pub unused : (cache_at c s).in_use ≡ false
  pub first : (d : ℕ) → d < c → (cache_at d s).in_use ≡ true
  pub used : (cache_at c s').in_use ≡ true
  pub fits : size ≤ (cache_at c s').obj_size
  pub others : (d : ℕ) → d ≢ c → cache_at d s' ≡ cache_at d s
  pub same_ram : s'.ram ≡ s.ram
  pub same_pool : s'.pool ≡ s.pool
  pub same_classes : s'.kmalloc_caches ≡ s.kmalloc_caches

-- From a valid state and for a size that is allowed, the first cache that is not in use becomes a cache
-- as described by `IsNew`; the call returns NULL, without a change, only where every cache of the pool
-- is in use.
pub kmem_cache_create-IsNew :
    (s : Slab) (free : ℕ → List ℕ) (size : ℕ)
    → HasFree s free
    → 4 ≤ size
    → size ≤ 4088
    → ((c : ℕ) × (s' : Slab) × (kmem_cache_create size s ≡ ok (some c, s'))
        × IsNew s free size c s')
      ⊎ ((kmem_cache_create size s ≡ ok (none, s))
          × ((d : ℕ) → d < length s.cache_pool → (cache_at d s).in_use ≡ true))
unfolding kmem_cache_create
kmem_cache_create-IsNew s free size all lo hi =
    let allowed : (ltb size 4 || ltb (page_size - slab_page_hdr_bytes) size) ≡ false =
      ground arith in
    elim (Option-cases (unused_cache s.cache_pool)) [
      | inl full ↦ inr (rw (allowed, full) refl, unused_cache-none s.cache_pool full)
      | inr (c, e) ↦
          let (room, unused) = unused_cache-some s.cache_pool c e in
          let at : cache_at c (changed s c (layout size) s.ram s.pool) ≡ layout size =
            get_or-set_self s.cache_pool c (layout size) no_cache room in
          let (some_size, some_objs, full) = layout-fits size lo hi in
          let keeps : KeepsOthers s c (layout size) s.ram s.pool = record {
            pages = λ k t. t;
            headers = λ k t. refl;
            others = λ d x ne o. refl;
          } in
          inl (
            c,
            changed s c (layout size) s.ram s.pool,
            rw (allowed, e) refl,
            record {
              has_free = HasFree-kept s c (layout size) s.ram s.pool keeps free [] all all.valid (
                  CacheHas-at s c (layout size) s.ram s.pool at [] some_size some_objs full refl
                    (λ x inside. absurd (cc inside)) refl);
              inside = room;
              unused = unused;
              first = unused_cache-first s.cache_pool c e;
              used = ap Cache.in_use at;
              fits = subst (λ e. size ≤ e.obj_size) (sym at) (align_up_8-le size);
              others = changed_ne s c (layout size) s.ram s.pool keeps;
              same_ram = refl;
              same_pool = refl;
              same_classes = refl;
            },
          )
    ]
