-- ===== src/Mm/Vmm.antt =====
-- Address spaces, VinixOS/kernel/src/kernel/mm/vmm.c: a list of areas, sorted by their starts, in objects
-- of the slab allocator.
pub mod Insert
pub mod Order
pub mod Release
pub mod Sorted
mod Tests
use vinix_os.Base.{
  ℕ, zero, suc, ◌+◌, Bool, true, false, not, ◌||◌, ◌&&◌, Option, none, some, List, [], ◌∷◌, ◌==◌,
  ltb, leb, if◌then◌else◌,
}
use vinix_os.Mm.PageAlloc.{Outcome, ok, assert_failed, out_of_bounds, Pool, alloc_pages, free_pages}
use vinix_os.Mm.Slab.{Slab, kmem_cache_create, kmem_cache_alloc, kmem_cache_free}

-- `struct vm_area_struct`
pub record Area : Type 0 where
  pub vm_start : ℕ
  pub vm_end : ℕ
  pub vm_flags : ℕ
  pub vm_next : ℕ

-- `struct mm_struct`
pub record Space : Type 0 where
  pub mmap : ℕ
  pub pgd_pa : ℕ
  pub in_use : Bool

-- `mm_cache` and `vma_cache`, the slab allocator, and what the objects in use hold, by their addresses.
-- A free object holds its link instead, which is in the slab allocator's memory; no free object is
-- read here.
pub record Vmm : Type 0 where
  pub mm_cache : ℕ
  pub vma_cache : ℕ
  pub slab : Slab
  pub areas : ℕ → Area
  pub spaces : ℕ → Space

-- A store to an object.
abbrev pub put_at {ℓ} : {A : Type ℓ} → ℕ → A → (ℕ → A) → ℕ → A
put_at p v m q = if q == p then v else m q

-- sizeof(struct mm_struct), sizeof(struct vm_area_struct)
abbrev pub space_size : ℕ
space_size = 12

abbrev pub area_size : ℕ
area_size = 16

-- Steps that may run out of rounds (`none`) or fail.
abbrev pub Steps {ℓ} : Type ℓ → Type ℓ
Steps A = Option (Outcome A)

infixl 5 ◌>>=◌
abbrev pub ◌>>=◌ {ℓ κ} : {A : Type ℓ} {B : Type κ} → Steps A → (A → Steps B) → Steps B
none >>= f = none
some (ok a) >>= f = f a
some assert_failed >>= f = some assert_failed
some out_of_bounds >>= f = some out_of_bounds

-- A cache that `vmm_init` creates; its ASSERT fails for NULL.
unfoldable pub create_cache : ℕ → Slab → Steps (ℕ × Slab)
create_cache size s = do
  (cache, s') ← some (kmem_cache_create size s)
  elim cache [ none ↦ some assert_failed | some c ↦ some (ok (c, s')) ]

unfoldable pub vmm_init : Vmm → Steps Vmm
vmm_init v = do
  (mm_cache, s) ← create_cache space_size v.slab
  (vma_cache, s') ← create_cache area_size s
  some (ok (record v { mm_cache = mm_cache; vma_cache = vma_cache; slab = s' }))

-- The pages of `mmu_new_pgd`; what it writes to them is not modelled.
unfoldable pub mmu_new_pgd : Slab → ℕ × Slab
mmu_new_pgd s = let (pa, pool) = alloc_pages 2 s.pool in (pa, record s { pool = pool })

unfoldable pub mmu_free_pgd : ℕ → Slab → Steps Slab
mmu_free_pgd pa s = do pool ← some (free_pages pa 2 s.pool); some (ok (record s { pool = pool }))

-- The second half of `mm_alloc`.
unfoldable pub start_space : (mm : ℕ) → Slab → Vmm → Steps (ℕ × Vmm)
start_space mm s v =
    let (pgd_pa, s1) = mmu_new_pgd s in
    if pgd_pa == 0
    then (do s2 ← some (kmem_cache_free v.mm_cache mm s1); some (ok (0, record v { slab = s2 })))
    else some (
        ok (
          mm,
          record v {
            slab = s1;
            spaces = put_at mm (record { mmap = 0; pgd_pa = pgd_pa; in_use = true }) v.spaces;
          },
        ))

-- The space, 0 if there is no memory.
unfoldable pub mm_alloc : Vmm → Steps (ℕ × Vmm)
mm_alloc v = do
  (mm, s) ← some (kmem_cache_alloc v.mm_cache v.slab)
  if mm == 0 then some (ok (0, record v { slab = s })) else start_space mm s v

-- The loop of `mm_free`, with a bound on its rounds.
unfoldable pub free_areas : (rounds : ℕ) → (vma : ℕ) → Vmm → Steps Vmm
free_areas zero vma v = none
free_areas (suc rounds) vma v = if vma == 0 then some (ok v) else do
  s ← some (kmem_cache_free v.vma_cache vma v.slab)
  free_areas rounds (v.areas vma).vm_next (record v { slab = s })

unfoldable pub mm_free : (rounds : ℕ) → ℕ → Vmm → Steps Vmm
mm_free rounds mm v = if (mm == 0) || not (v.spaces mm).in_use then some assert_failed else do
  v1 ← free_areas rounds (v.spaces mm).mmap v
  s ← mmu_free_pgd (v1.spaces mm).pgd_pa v1.slab
  s' ← some (kmem_cache_free v1.mm_cache mm s)
  some (
      ok (record v1 {
        slab = s';
        spaces = put_at mm (record (v1.spaces mm) { in_use = false }) v1.spaces;
      }))

-- The place that `pp` points at: the head of the list, or the link of an area.
pub data Place : Type 0 where
  head : Place
  link_of : ℕ → Place

-- The loop of `vma_create`, with a bound on its rounds: the place, and the area that it points at.
unfoldable pub find_place : (rounds : ℕ) → (ℕ → Area) → (start : ℕ) → Place → ℕ → Option (Place × ℕ)
find_place zero areas start pp p = none
find_place (suc rounds) areas start pp p =
    if not (p == 0) && ltb (areas p).vm_start start
    then find_place rounds areas start (link_of p) (areas p).vm_next
    else some (pp, p)

-- `*pp = vma`
unfoldable pub store_place : Place → (mm vma : ℕ) → Vmm → Vmm
store_place head mm vma v = record v {
  spaces = put_at mm (record (v.spaces mm) { mmap = vma }) v.spaces;
}
store_place (link_of q) mm vma v = record v {
  areas = put_at q (record (v.areas q) { vm_next = vma }) v.areas;
}

-- The end of `vma_create`: the new area goes to the place.
unfoldable pub insert_area : (mm vma : ℕ) → Area → Place × ℕ → Vmm → Vmm
insert_area mm vma area (pp, next) v =
    store_place pp mm vma (record v { areas = put_at vma (record area { vm_next = next }) v.areas })

-- The area, 0 if there is no memory.
unfoldable pub vma_create : (rounds : ℕ) → (mm start end flags : ℕ) → Vmm → Steps (ℕ × Vmm)
vma_create rounds mm start end flags v =
    if (mm == 0) || not (v.spaces mm).in_use || leb end start then some assert_failed else do
      (vma, s) ← some (kmem_cache_alloc v.vma_cache v.slab)
      if vma == 0
          then some (ok (0, record v { slab = s }))
          else elim (find_place rounds v.areas start head (v.spaces mm).mmap) [
            | none ↦ none
            | some place ↦
                let area : Area = record {
                  vm_start = start;
                  vm_end = end;
                  vm_flags = flags;
                  vm_next = 0;
                } in
                some (ok (vma, insert_area mm vma area place (record v { slab = s })))
          ]
