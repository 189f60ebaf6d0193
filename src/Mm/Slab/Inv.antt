-- ===== src/Mm/Slab/Inv.antt =====
-- The state of slab.c: which objects there are, which of them are free, and what a change of one cache
-- leaves as it is.
use vinix_os.Base.{
  ℕ, zero, suc, ◌+◌, ◌*◌, ◌%◌, ◌^◌, ◌<◌, ◌≤◌, ◌≡◌, ◌≢◌, sym, ap, true, false, List, [], ◌∷◌, ◌==◌,
  if◌then◌else◌, length, get_or, get_or-set_self, get_or-set_ne, arith,
}
use vinix_os.Base.Linked.{has}
use vinix_os.Mm.PageAlloc.{bit_get, pool_pa_base, pool_pages, page_size}
use vinix_os.Mm.PageAlloc.Count.{IsValid}
use vinix_os.Mm.Slab.{Cache, no_cache, Slab, cache_at, put_cache, va_offset, slab_page_hdr_bytes}
use vinix_os.Mm.Slab.Link.{Chain}

-- Where page `k` of the pool lies.
abbrev pub page_va : ℕ → ℕ
page_va k = pool_pa_base + va_offset + k * page_size

-- `x` is an object of cache `c`: it lies in a page that is in use and has `c` in its header.
pub record IsObj (s : Slab) (c x : ℕ) : Type 0 where
  pub page : ℕ
  pub index : ℕ
  pub inside : page < pool_pages
  pub taken : bit_get s.pool.bitmap page ≡ true
  pub owner : s.ram (page_va page) ≡ c + 1
  pub address : x ≡ page_va page + slab_page_hdr_bytes + index * (cache_at c s).obj_size
  pub fits :
      slab_page_hdr_bytes + index * (cache_at c s).obj_size + (cache_at c s).obj_size ≤ page_size
  pub some_size : 0 < (cache_at c s).obj_size

-- Cache `c` has the free objects `xs`.
pub record CacheHas (s : Slab) (c : ℕ) (xs : List ℕ) : Type 0 where
  pub some_size : 0 < (cache_at c s).obj_size
  pub some_objs : 0 < (cache_at c s).objs_per_page
  pub page_full :
      (cache_at c s).objs_per_page * (cache_at c s).obj_size + slab_page_hdr_bytes ≤ page_size
  pub chain : Chain s.ram (cache_at c s).freelist xs
  pub objs : (x : ℕ) → has x xs ≡ true → IsObj s c x
  pub count : (cache_at c s).free_objs ≡ length xs % 2 ^ 32

-- The free objects of every cache that is in use.
pub record HasFree (s : Slab) (free : ℕ → List ℕ) : Type 0 where
  pub valid : IsValid s.pool
  pub caches : (c : ℕ) → (cache_at c s).in_use ≡ true → CacheHas s c (free c)

-- An object that has been given out.
abbrev pub IsGiven : Slab → (ℕ → List ℕ) → (c x : ℕ) → Type 0
IsGiven s free c x = IsObj s c x × (has x (free c) ≡ false)

-- The free objects after a change of those of one cache.
abbrev pub with_free : ℕ → List ℕ → (ℕ → List ℕ) → ℕ → List ℕ
with_free c xs free d = if d == c then xs else free d

-- Two objects at the same place are in the same page, and so of the same cache.
pub same_page :
    {s : Slab} {c d x y : ℕ} (a : IsObj s c x) (b : IsObj s d y) → x ≡ y → a.page ≡ b.page
same_page a b e = omega (arith, a.address, b.address, a.fits, b.fits, a.some_size, b.some_size)

pub same_cache : {s : Slab} {c d x y : ℕ} → IsObj s c x → IsObj s d y → x ≡ y → c ≡ d
same_cache {s} a b e =
    omega (arith, ap (λ k. s.ram (page_va k)) (same_page a b e), a.owner, b.owner)

pub IsObj-ne-page_va : {s : Slab} {c x : ℕ} (k : ℕ) → IsObj s c x → x ≢ page_va k
IsObj-ne-page_va k a e = omega (arith, a.address, a.fits, a.some_size)

in_use-lt :
    (caches : List Cache) (c : ℕ) → (get_or caches c no_cache).in_use ≡ true → c < length caches
in_use-lt [] c h = absurd (cc h)
in_use-lt (x ∷ xs) zero h = omega arith
in_use-lt (x ∷ xs) (suc c) h = omega (arith, in_use-lt xs c h)

pub cache_at-put_self :
    (c : ℕ) (cache : Cache) (s : Slab)
    → (cache_at c s).in_use ≡ true
    → cache_at c (put_cache c cache s) ≡ cache
cache_at-put_self c cache s used =
    get_or-set_self s.cache_pool c cache no_cache (in_use-lt s.cache_pool c used)

pub cache_at-put_ne :
    (c d : ℕ) (cache : Cache) (s : Slab) → d ≢ c → cache_at d (put_cache c cache s) ≡ cache_at d s
cache_at-put_ne c d cache s ne = get_or-set_ne s.cache_pool c d cache no_cache (λ e. ne (sym e))
