-- ===== src/Mm/Vmm/Tests.antt =====
-- Runs of the model of vmm.c at concrete inputs.
use vinix_os.Base.{
  ℕ, zero, suc, ◌≡◌, ◌⊎◌, refl, ap, true, some, List, [], ◌∷◌, replicate, get_or-replicate, arith,
}
use vinix_os.Mm.PageAlloc.{claim, bit_get, set_run, bit_set, ok, page_alloc_init}
use vinix_os.Mm.PageAlloc.Count.{page_alloc_init-IsValid}
use vinix_os.Mm.Slab.{poke, Cache, no_cache, Slab, cache_at}
use vinix_os.Mm.Slab.Inv.{CacheHas, IsGiven}
use vinix_os.Mm.Slab.Alloc.{Gave}
use vinix_os.Mm.Vmm.{Vmm, vma_create, free_areas}
use vinix_os.Mm.Vmm.Release.{IsReleased, free_areas-IsReleased}
use vinix_os.Base.Linked.{has}
use vinix_os.Mm.Word.{test_bit, or_bit}
use vinix_os.Mm.Slab.Sample.{first_used, first_used-IsValid}
use vinix_os.Mm.Vmm.Sorted.{IsInserted, vma_create-IsInserted}

abbrev area_cache : Cache
area_cache = record {
  obj_size = 16;
  objs_per_page = 255;
  freelist = 0;
  total_objs = 0;
  free_objs = 0;
  in_use = true;
}

abbrev heap : Slab
heap = record {
  cache_pool = area_cache ∷ replicate 15 no_cache;
  kmalloc_caches = [];
  ram = λ a. 0;
  pool = page_alloc_init;
}

abbrev nothing : ℕ → List ℕ
nothing c = []

heap-CacheHas : (c : ℕ) → (cache_at c heap).in_use ≡ true → CacheHas heap c []
heap-CacheHas zero used = record {
  some_size = omega arith;
  some_objs = omega arith;
  page_full = omega arith;
  chain = refl;
  objs = λ x inside. absurd (cc inside);
  count = refl;
}
heap-CacheHas (suc c) used = absurd (cc (used, ap Cache.in_use (get_or-replicate 15 c no_cache)))

-- One space at address 8, without an area.
abbrev one_space : Vmm
one_space = record {
  mm_cache = 1;
  vma_cache = 0;
  slab = heap;
  areas = λ p. record { vm_start = 0; vm_end = 0; vm_flags = 0; vm_next = 0 };
  spaces = λ p. record { mmap = 0; pgd_pa = 0; in_use = true };
}

vma_create-IsInserted_example :
    (vma_create 1 8 100 200 1 one_space ≡ some (ok (0, one_space)))
    ⊎ ((p : ℕ) × (v' : Vmm) × (vma_create 1 8 100 200 1 one_space ≡ some (ok (p, v')))
        × IsInserted one_space 8 p 100 200 1 [] v'
        × Gave heap nothing 0 p v'.slab)
vma_create-IsInserted_example =
    vma_create-IsInserted 1 8 100 200 1 one_space nothing [] (omega arith) refl (omega arith)
      (record { valid = page_alloc_init-IsValid.0; caches = heap-CacheHas }) refl refl tt
      (λ x inside. absurd (cc inside)) (omega arith)

-- The first object of the first page holds the only area.
abbrev area_heap : Slab
area_heap = record heap { ram = poke 0xC1000000 1 (λ a. 0); pool = first_used }

abbrev one_area : Vmm
one_area = record one_space { slab = area_heap }

area_heap-CacheHas : (c : ℕ) → (cache_at c area_heap).in_use ≡ true → CacheHas area_heap c []
area_heap-CacheHas zero used = record {
  some_size = omega arith;
  some_objs = omega arith;
  page_full = omega arith;
  chain = refl;
  objs = λ x inside. absurd (cc inside);
  count = refl;
}
area_heap-CacheHas (suc c) used =
    absurd (cc (used, ap Cache.in_use (get_or-replicate 15 c no_cache)))

area-IsGiven : (x : ℕ) → has x (0xC1000008 ∷ []) ≡ true → IsGiven area_heap nothing 0 x
unfolding claim bit_get test_bit page_alloc_init set_run bit_set or_bit
area-IsGiven x inside = (
  record {
    page = 0;
    index = 0;
    inside = omega arith;
    taken = refl;
    owner = refl;
    address = ground (arith, inside);
    fits = omega arith;
    some_size = omega arith;
  },
  refl,
)

free_areas-IsReleased_example :
    (v' : Vmm) × (free_areas 2 0xC1000008 one_area ≡ some (ok v'))
    × IsReleased one_area nothing (0xC1000008 ∷ []) v'
free_areas-IsReleased_example =
    free_areas-IsReleased 2 0xC1000008 one_area nothing (0xC1000008 ∷ [])
      (record { valid = first_used-IsValid; caches = area_heap-CacheHas }) refl
      (refl, (λ e. omega (arith, e)), refl, refl) area-IsGiven (omega arith)
