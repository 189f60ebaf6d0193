-- ===== src/Mm/Slab/Free.antt =====
-- `kfree` of slab.c: the object goes back to the cache that it came from.
use vinix_os.Base.{
  ℕ, ◌+◌, ◌-◌, ◌≡◌, ◌≢◌, refl, sym, ap, ◌∙◌, true, false, List, ◌∷◌, ◌==◌, arith, inl, inr,
  Bool-cases, eq_of_==,
}
use mathlib.Core.Path.{subst}
use vinix_os.Base.Linked.{has}
use vinix_os.Mm.PageAlloc.{ok, add32}
use vinix_os.Mm.Slab.{Ram, Cache, Slab, cache_at, poke, page_of, kmem_cache_free, kfree}
use vinix_os.Mm.Slab.Link.{Chain-poke, poke_ne}
use vinix_os.Mm.Slab.Inv.{
  page_va, IsObj, CacheHas, HasFree, IsGiven, with_free, same_cache, IsObj-ne-page_va,
}
use vinix_os.Mm.Slab.Change.{
  changed, IsChange, changed_self, CacheHas-at, IsObj-changed, HasFree-kept,
}

-- Object `x` of cache `c` has been taken back: it is the first free one of the cache, the other caches
-- have the same free objects as before, and what was given out to others still is.
pub record TookBack (s : Slab) (free : ℕ → List ℕ) (c x : ℕ) (s' : Slab) : Type 0 where
  pub has_free : HasFree s' (with_free c (x ∷ free c) free)
  pub first : (cache_at c s').freelist ≡ x
  pub still : (cache_at c s').in_use ≡ true
  pub kept : (d y : ℕ) → IsGiven s free d y → y ≢ x → IsGiven s' (with_free c (x ∷ free c) free) d y

module _ (s : Slab) (free : ℕ → List ℕ) (c x : ℕ) (used : (cache_at c s).in_use ≡ true)
    (all : HasFree s free) (given : IsGiven s free c x) where
  abbrev freed : Cache
  freed = record (cache_at c s) { freelist = x; free_objs = add32 (cache_at c s).free_objs 1 }

  abbrev linked : Ram
  linked = poke x (cache_at c s).freelist s.ram

  freed-IsChange : IsChange s c freed linked s.pool
  freed-IsChange = record {
    used = used;
    size = refl;
    per_page = refl;
    still = used;
    keeps = record {
      pages = λ k t. t;
      headers = λ k t.
          poke_ne x (page_va k) (cache_at c s).freelist s.ram
            (λ e. IsObj-ne-page_va k given.0 (sym e));
      others =
          λ d y ne o. poke_ne x y (cache_at c s).freelist s.ram (λ e. ne (same_cache o given.0 e));
    };
  }

  freed-CacheHas : CacheHas (changed s c freed linked s.pool) c (x ∷ free c)
  freed-CacheHas =
      let h = all.caches c used in
      CacheHas-at s c freed linked s.pool (changed_self s c freed linked s.pool freed-IsChange)
        (x ∷ free c) h.some_size h.some_objs h.page_full
        (Chain-poke x (cache_at c s).freelist s.ram (free c) (omega (arith, given.0.address))
          given.1 h.chain)
        (λ y inside.
          IsObj-changed s c freed linked s.pool freed-IsChange c y (elim (Bool-cases (y == x)) [
            | inl same ↦ subst (λ z. IsObj s c z) (sym (eq_of_== y x same)) given.0
            | inr other ↦ h.objs y (ground (arith, inside, other))
          ]))
        (omega (arith, h.count))

  freed-TookBack : TookBack s free c x (changed s c freed linked s.pool)
  freed-TookBack = record {
    has_free =
        HasFree-kept s c freed linked s.pool freed-IsChange.keeps free (x ∷ free c) all all.valid
          freed-CacheHas;
    first = ap Cache.freelist (changed_self s c freed linked s.pool freed-IsChange);
    still = ap Cache.in_use (changed_self s c freed linked s.pool freed-IsChange) ∙ used;
    kept = λ d y before ne. (
      IsObj-changed s c freed linked s.pool freed-IsChange d y before.0,
      elim (Bool-cases (d == c)) [
        | inl same ↦
            rw same
              (ground (arith, ne, subst (λ e. has y (free e) ≡ false) (eq_of_== d c same) before.1))
        | inr other ↦ rw other before.1
      ],
    );
  }

  header : s.ram (page_of x) ≡ c + 1
  header =
      ap s.ram (omega (arith, given.0.address, given.0.fits, given.0.some_size)) ∙ given.0.owner

  freed-eq : kfree x s ≡ ok (changed s c freed linked s.pool)
  unfolding kfree kmem_cache_free
  freed-eq =
      let not_null : (x == 0) ≡ false = ground (arith, given.0.address) in
      let some_header : (c + 1 == 0) ≡ false = ground arith in
      let back : c + 1 - 1 ≡ c = omega arith in rw (header, not_null, some_header, back) refl

-- From a valid state, `kfree` of an object that has been given out finds its cache and takes the object
-- back as described by `TookBack`.
pub kfree-TookBack :
    (s : Slab) (free : ℕ → List ℕ) (c x : ℕ)
    → (cache_at c s).in_use ≡ true
    → HasFree s free
    → IsGiven s free c x
    → (s' : Slab) × (kfree x s ≡ ok s') × TookBack s free c x s'
kfree-TookBack s free c x used all given = (
  changed s c (freed s free c x used all given) (linked s free c x used all given) s.pool,
  freed-eq s free c x used all given,
  freed-TookBack s free c x used all given,
)

-- The same for `kmem_cache_free`, which is told the cache.
pub kmem_cache_free-TookBack :
    (s : Slab) (free : ℕ → List ℕ) (c x : ℕ)
    → (cache_at c s).in_use ≡ true
    → HasFree s free
    → IsGiven s free c x
    → (s' : Slab) × (kmem_cache_free c x s ≡ ok s') × TookBack s free c x s'
unfolding kmem_cache_free
kmem_cache_free-TookBack s free c x used all given =
    let not_null : (x == 0) ≡ false = ground (arith, given.0.address) in
    (
      changed s c (freed s free c x used all given) (linked s free c x used all given) s.pool,
      rw not_null refl,
      freed-TookBack s free c x used all given,
    )
