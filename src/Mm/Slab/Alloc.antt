-- ===== src/Mm/Slab/Alloc.antt =====
-- `kmem_cache_alloc` of slab.c: which object it gives out.
use vinix_os.Base.{
  ℕ, ◌+◌, ◌<◌, ◌≡◌, ◌≢◌, ◌⊎◌, refl, sym, ap, ◌∙◌, true, false, List, [], ◌∷◌, ◌==◌, length, arith,
  inl, inr, Bool-cases, eq_of_==, ne_of_==, ==_refl,
}
use mathlib.Core.Path.{subst}
use vinix_os.Base.Linked.{has, Linked}
use vinix_os.Mm.PageAlloc.{Pool, Outcome, ok, bit_get, alloc_pages, pool_pages, sub32}
use vinix_os.Mm.PageAlloc.Bits.{in_run}
use vinix_os.Mm.PageAlloc.Count.{IsValid}
use vinix_os.Mm.PageAlloc.Alloc.{NoRun, alloc_pages-Granted}
use vinix_os.Mm.Slab.{
  Cache, Slab, cache_at, refill_page, slab_refill, take_obj, kmem_cache_alloc, va_offset,
}
use vinix_os.Mm.Slab.Inv.{page_va, IsObj, CacheHas, HasFree, IsGiven, with_free, same_cache}
use vinix_os.Mm.Slab.Change.{changed_self, IsChange, CacheHas-at, IsObj-changed, HasFree-kept}
use vinix_os.Mm.Slab.Refill.{
  page_objs, refill_page-HasFree, refill_page-IsObj, page_objs-new, refill_page-used,
  page_objs-some, length-page_objs,
}

-- The free objects of cache `c` after `x` has been taken: those before without `x`, which was the first
-- of them; or, where there were none, those of a page that is new, all but `x`.
abbrev Taken : Slab → (ℕ → List ℕ) → (c x : ℕ) → List ℕ → Type 0
Taken s free c x left =
    (free c ≡ x ∷ left)
    ⊎ ((free c ≡ [])
        × (length left + 1 ≡ (cache_at c s).objs_per_page)
        × ((d y : ℕ) → IsObj s d y → has y (x ∷ left) ≡ false))

-- Object `x` of cache `c` has been given out: it is one of its objects and not free any more, every
-- object that was given out before still is and is another one, and the free objects are `free'`: for
-- the other caches those before, and for `c` what `Taken` says.
pub record Gave (s : Slab) (free : ℕ → List ℕ) (c x : ℕ) (s' : Slab) : Type 1 where
  pub free' : ℕ → List ℕ
  pub has_free : HasFree s' free'
  pub given : IsGiven s' free' c x
  pub not_null : x ≢ 0
  pub kept : (d y : ℕ) → IsGiven s free d y → IsGiven s' free' d y × (y ≢ x)
  pub own : Taken s free c x (free' c)
  pub others : (d : ℕ) → d ≢ c → free' d ≡ free d

with_free_self : (c : ℕ) (xs : List ℕ) (free : ℕ → List ℕ) → with_free c xs free c ≡ xs
with_free_self c xs free = rw (==_refl c) refl

with_free_other :
    (c d : ℕ) (xs : List ℕ) (free : ℕ → List ℕ) → d ≢ c → with_free c xs free d ≡ free d
with_free_other c d xs free ne = ground (arith, ne)

module _ (s : Slab) (c x : ℕ) (xs : List ℕ) (used : (cache_at c s).in_use ≡ true)
    (h : CacheHas s c (x ∷ xs)) where
  abbrev taken : Cache
  taken = record (cache_at c s) {
    freelist = s.ram (cache_at c s).freelist;
    free_objs = sub32 (cache_at c s).free_objs 1;
  }

  taken-IsChange : IsChange s c taken s.ram s.pool
  taken-IsChange = record {
    used = used;
    size = refl;
    per_page = refl;
    still = used;
    keeps = record { pages = λ k t. t; headers = λ k t. refl; others = λ d y ne o. refl };
  }

  take_obj-CacheHas : CacheHas (take_obj c s).1 c xs
  unfolding take_obj
  take_obj-CacheHas =
      CacheHas-at s c taken s.ram s.pool (changed_self s c taken s.ram s.pool taken-IsChange) xs
        h.some_size h.some_objs h.page_full
        (subst (λ q. Linked (λ w. w) s.ram (s.ram q) xs) (sym h.chain.0) h.chain.3)
        (λ y inside.
          IsObj-changed s c taken s.ram s.pool taken-IsChange c y
            (h.objs y (ground (arith, inside))))
        (omega (arith, h.count))

  -- An object that had been given out is still given out, and is another one.
  taken-kept :
      (free : ℕ → List ℕ)
      → free c ≡ x ∷ xs
      → (d y : ℕ) → IsGiven s free d y
      → IsGiven (take_obj c s).1 (with_free c xs free) d y × (y ≢ x)
  unfolding take_obj
  taken-kept free e d y (o, out) =
      let o' = IsObj-changed s c taken s.ram s.pool taken-IsChange d y o in
      elim (Bool-cases (d == c)) [
        | inl same ↦
            let out' : has y (x ∷ xs) ≡ false =
              subst (λ l. has y l ≡ false) (ap free (eq_of_== d c same) ∙ e) out in
            ((o', rw same (ground (arith, out'))), λ eq. ground (arith, out', eq))
        | inr other ↦ (
          (o', rw other out),
          λ eq. ne_of_== d c other (same_cache o (h.objs x (rw (==_refl x) refl)) eq),
        )
      ]

  take_obj-Gave :
      (free : ℕ → List ℕ)
      → HasFree s free
      → free c ≡ x ∷ xs
      → ((take_obj c s).0 ≡ x) × Gave s free c x (take_obj c s).1
  unfolding take_obj
  take_obj-Gave free all e = (
    h.chain.0,
    record {
      free' = with_free c xs free;
      has_free =
          HasFree-kept s c taken s.ram s.pool taken-IsChange.keeps free xs all all.valid
            take_obj-CacheHas;
      given = (
        IsObj-changed s c taken s.ram s.pool taken-IsChange c x (h.objs x (rw (==_refl x) refl)),
        rw (==_refl c) h.chain.2,
      );
      not_null = h.chain.1;
      kept = taken-kept free e;
      own = inl (e ∙ ap (λ l. x ∷ l) (sym (with_free_self c xs free)));
      others = λ d ne. with_free_other c d xs free ne;
    },
  )

-- After a cache without free objects has been given those of a new page.
Gave-refilled :
    {s s1 s2 : Slab} {free : ℕ → List ℕ} {c x : ℕ} (new : List ℕ)
    → free c ≡ []
    → length new ≡ (cache_at c s).objs_per_page
    → ((d y : ℕ) → IsObj s d y → has y new ≡ false)
    → ((d y : ℕ) → IsGiven s free d y → IsGiven s1 (with_free c new free) d y)
    → Gave s1 (with_free c new free) c x s2
    → 0 < length new
    → Gave s free c x s2
Gave-refilled {s} {free} {c} {x} new none_free full fresh before g some_new =
    let all_new : new ≡ x ∷ g.free' c = elim g.own [
      | inl e ↦ sym (with_free_self c new free) ∙ e
      | inr empty ↦
          absurd (
            omega (arith, some_new, ap (λ l. length l) (sym (with_free_self c new free) ∙ empty.0)))
    ] in
    record {
      free' = g.free';
      has_free = g.has_free;
      given = g.given;
      not_null = g.not_null;
      kept = λ d y given. g.kept d y (before d y given);
      own = inr (
        none_free,
        omega (arith, full, ap (λ l. length l) all_new),
        λ d y o. subst (λ l. has y l ≡ false) all_new (fresh d y o),
      );
      others = λ d ne. g.others d ne ∙ with_free_other c d new free ne;
    }

list-cases : (xs : List ℕ) → (xs ≡ []) ⊎ ((y : ℕ) × (ys : List ℕ) × (xs ≡ y ∷ ys))
list-cases [] = inl refl
list-cases (y ∷ ys) = inr (y, ys, refl)

-- The object and the state are as described by `Gave`.
Gives : Slab → (ℕ → List ℕ) → ℕ → Outcome (ℕ × Slab) → Type 1
Gives s free c r = (x : ℕ) × (s' : Slab) × (r ≡ ok (x, s')) × Gave s free c x s'

take_obj-Gives :
    (s : Slab) (free : ℕ → List ℕ) (c x : ℕ) (xs : List ℕ)
    → (cache_at c s).in_use ≡ true
    → HasFree s free
    → free c ≡ x ∷ xs
    → Gives s free c (ok (take_obj c s))
unfolding Gives
take_obj-Gives s free c x xs used all e =
    let (got, gave) =
      take_obj-Gave s c x xs used (subst (λ l. CacheHas s c l) e (all.caches c used)) free all e in
    (x, (take_obj c s).1, ap (λ q. ok (q, (take_obj c s).1)) got, gave)

module _ (s : Slab) (free : ℕ → List ℕ) (c k : ℕ) (pool : Pool)
    (used : (cache_at c s).in_use ≡ true) (all : HasFree s free) (none_free : free c ≡ [])
    (inside : k < pool_pages) (was_free : bit_get s.pool.bitmap k ≡ false)
    (now_taken : bit_get pool.bitmap k ≡ true)
    (others_taken : (j : ℕ) → bit_get s.pool.bitmap j ≡ true → bit_get pool.bitmap j ≡ true)
    (valid : IsValid pool) where
  has_none : CacheHas s c []
  has_none = subst (λ l. CacheHas s c l) none_free (all.caches c used)

  abbrev new : List ℕ
  new = page_objs s c k pool used has_none inside was_free now_taken others_taken

  abbrev refilled : Slab
  refilled = refill_page c (page_va k) (record s { pool = pool })

  given-refilled : (d y : ℕ) → IsGiven s free d y → IsGiven refilled (with_free c new free) d y
  given-refilled d y (o, out) = (
    refill_page-IsObj s c k pool used has_none inside was_free now_taken others_taken d y o,
    elim (Bool-cases (d == c)) [
      | inl same ↦
          rw same
            (page_objs-new s c k pool used has_none inside was_free now_taken others_taken d y o)
      | inr other ↦ rw other out
    ],
  )

  refilled-Gives : Gives s free c (ok (take_obj c refilled))
  unfolding Gives
  refilled-Gives =
      let some_new : 0 < length new =
        page_objs-some s c k pool used has_none inside was_free now_taken others_taken in
      let all' =
        refill_page-HasFree s c k pool used has_none inside was_free now_taken others_taken free all
          valid in
      let used' =
        refill_page-used s c k pool used has_none inside was_free now_taken others_taken in
      elim (list-cases new) [
        | inl empty ↦ absurd (omega (arith, some_new, ap (λ l. length l) empty))
        | inr (y, ys, e) ↦
            let (x, s2, eq, gave) =
              take_obj-Gives refilled (with_free c new free) c y ys used' all' (rw (==_refl c) e) in
            (
              x,
              s2,
              eq,
              Gave-refilled new none_free
                  (length-page_objs s c k pool used has_none inside was_free now_taken others_taken)
                  (page_objs-new s c k pool used has_none inside was_free now_taken others_taken)
                  given-refilled gave some_new,
            )
      ]

empty-freelist : (s : Slab) (c : ℕ) → CacheHas s c [] → ((cache_at c s).freelist == 0) ≡ true
empty-freelist s c h = rw h.chain refl

-- From a valid state, an allocation in a cache that is in use returns an object of the cache as
-- described by `Gave`: it was not given out to anyone else, what was given out stays so, and the free
-- objects are those before without it; only where the cache had none are they the other objects of a
-- page that is new, none of which was an object before. It returns NULL only where the cache has no free object and the page allocator no free page, and then
-- the state stays as it is.
pub kmem_cache_alloc-Gave :
    (s : Slab) (free : ℕ → List ℕ) (c : ℕ)
    → HasFree s free
    → (cache_at c s).in_use ≡ true
    → ((x : ℕ) × (s' : Slab) × (kmem_cache_alloc c s ≡ ok (x, s')) × Gave s free c x s')
      ⊎ ((kmem_cache_alloc c s ≡ ok (0, s)) × (free c ≡ []) × NoRun 0 s.pool)
unfolding kmem_cache_alloc slab_refill Gives
kmem_cache_alloc-Gave s free c all used = elim (list-cases (free c)) [
  | inr (y, ys, e) ↦
      let h : CacheHas s c (y ∷ ys) = subst (λ l. CacheHas s c l) e (all.caches c used) in
      let some_obj : ((cache_at c s).freelist == 0) ≡ false =
        ground (arith, h.chain.0, h.chain.1) in
      inl (rw (used, some_obj) (take_obj-Gives s free c y ys used all e))
  | inl none_free ↦
      let no_obj = empty-freelist s c (subst (λ l. CacheHas s c l) none_free (all.caches c used)) in
      elim (alloc_pages-Granted 0 (omega arith) all.valid) [
        | inl g ↦
            let some_page : ((alloc_pages 0 s.pool).0 == 0) ≡ false = ground (arith, g.address) in
            let at : (alloc_pages 0 s.pool).0 + va_offset ≡ page_va g.index =
              omega (arith, g.address) in
            let here : in_run g.index 1 g.index ≡ true = ground arith in
            inl (
              rw (used, no_obj, some_page, at)
                (refilled-Gives s free c g.index (alloc_pages 0 s.pool).1 used all none_free
                  (omega (arith, g.inside)) (g.was_free g.index here)
                  (ground (arith, g.taken g.index)) (λ j t. ground (arith, g.taken j, t)) g.valid))
        | inr (same, no_run) ↦ inr (rw (used, no_obj, same) refl, none_free, no_run)
      ]
]
