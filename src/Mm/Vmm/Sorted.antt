-- ===== src/Mm/Vmm/Sorted.antt =====
-- `vma_create` of vmm.c: the list of areas stays sorted.
use vinix_os.Base.{
  ℕ, zero, suc, ◌<◌, ◌≡◌, ◌≢◌, ◌⊎◌, refl, sym, ap, true, false, not, ◌&&◌, ◌||◌, some, List, [],
  ◌∷◌, ◌==◌, ltb, leb, length, arith, inl, inr, Bool-cases, ==_refl,
}
use mathlib.Core.Path.{subst}
use vinix_os.Base.Linked.{has, ne_of_has, Linked}
use vinix_os.Mm.PageAlloc.{ok}
use vinix_os.Mm.Slab.{Slab, cache_at}
use vinix_os.Mm.Slab.Inv.{HasFree, IsGiven}
use vinix_os.Mm.Slab.Alloc.{Gave, kmem_cache_alloc-Gave}
use vinix_os.Mm.Vmm.{
  Area, Vmm, Place, head, link_of, find_place, store_place, insert_area, vma_create,
}
use vinix_os.Mm.Vmm.Insert.{
  insert, put_at_self, put_at_ne, with_area, relinked, with_area-Linked, start-relinked,
  new-relinked, Found, find_place-Found,
}
use vinix_os.Mm.Vmm.Order.{IsSorted, SameStarts, IsSorted-insert}

-- Area `p` is in the list of space `mm` at its place, with these bounds.
pub record IsInserted (v : Vmm) (mm p start end flags : ℕ) (xs : List ℕ) (v' : Vmm) : Type 0 where
  pub linked : Linked Area.vm_next v'.areas (v'.spaces mm).mmap (insert v.areas p start xs)
  pub sorted : IsSorted v'.areas (insert v.areas p start xs)
  pub is_new : has p xs ≡ false
  pub bounds :
      ((v'.areas p).vm_start ≡ start)
      × ((v'.areas p).vm_end ≡ end)
      × ((v'.areas p).vm_flags ≡ flags)

-- The search and the insertion, once there is an object for the area.
module _ (v : Vmm) (s : Slab) (mm p start end flags : ℕ) (not_null : p ≢ 0) where
  abbrev area : Area
  area = record { vm_start = start; vm_end = end; vm_flags = flags; vm_next = 0 }

  Places : ℕ → List ℕ → Type 0
  Places rounds xs =
      (place : Place × ℕ) × (find_place rounds v.areas start head (v.spaces mm).mmap ≡ some place)
      × IsInserted v mm p start end flags xs (insert_area mm p area place (record v { slab = s }))

  -- In front of the list.
  in_front :
      (xs : List ℕ)
      → has p xs ≡ false
      → insert v.areas p start xs ≡ p ∷ xs
      → Linked Area.vm_next v.areas (v.spaces mm).mmap xs
      → IsSorted v.areas xs
      → IsInserted v mm p start end flags xs
          (insert_area mm p area (head, (v.spaces mm).mmap) (record v { slab = s }))
  unfolding insert_area store_place SameStarts
  in_front xs out at linked sorted =
      let new = put_at_self p (record area { vm_next = (v.spaces mm).mmap }) v.areas in
      record {
        linked = rw at (
            rw (==_refl mm)
              (with_area-Linked v.areas p area not_null (v.spaces mm).mmap xs out linked));
        sorted =
            IsSorted-insert v.areas (with_area v.areas p area not_null (v.spaces mm).mmap) p start
              xs
              (λ z inside. ap Area.vm_start (
                put_at_ne p z (record area { vm_next = (v.spaces mm).mmap }) v.areas
                  (λ e. ne_of_has p z xs out inside (sym e))))
              (ap Area.vm_start new) sorted;
        is_new = out;
        bounds = (ap Area.vm_start new, ap Area.vm_end new, ap Area.vm_flags new);
      }

  -- Behind an area of the list.
  in_list :
      (rounds x : ℕ) (xs : List ℕ)
      → has p (x ∷ xs) ≡ false
      → ltb (v.areas x).vm_start start ≡ true
      → (v.spaces mm).mmap ≡ x
      → IsSorted v.areas (x ∷ xs)
      → (f : Found v.areas p area not_null start rounds x xs)
      → IsInserted v mm p start end flags
          (x ∷ xs)
          (insert_area mm p area (link_of f.behind, f.next) (record v { slab = s }))
  unfolding insert_area store_place SameStarts
  in_list rounds x xs out before at sorted f =
      let new = new-relinked v.areas p area not_null f.behind f.next f.not_new in
      record {
        linked = rw before (
            subst
              (λ n.
                Linked Area.vm_next (relinked v.areas p area not_null f.behind f.next) n
                  (x ∷ insert v.areas p start xs))
              (sym at) f.linked);
        sorted =
            IsSorted-insert v.areas (relinked v.areas p area not_null f.behind f.next) p start
              (x ∷ xs)
              (λ z inside.
                start-relinked v.areas p area not_null f.behind f.next z
                  (λ e. ne_of_has p z (x ∷ xs) out inside (sym e)))
              (ap Area.vm_start new) sorted;
        is_new = out;
        bounds = (ap Area.vm_start new, ap Area.vm_end new, ap Area.vm_flags new);
      }

  find_place-Places :
      (rounds : ℕ) (xs : List ℕ)
      → length xs < rounds
      → has p xs ≡ false
      → Linked Area.vm_next v.areas (v.spaces mm).mmap xs
      → IsSorted v.areas xs
      → Places rounds xs
  unfolding Places find_place
  find_place-Places zero xs enough out linked sorted = absurd (omega arith)
  find_place-Places (suc rounds) [] enough out linked sorted =
      ((head, (v.spaces mm).mmap), rw linked refl, in_front [] out refl linked sorted)
  find_place-Places (suc rounds) (x ∷ xs) enough out (at, some_x, apart, rest) sorted =
      elim (Bool-cases (ltb (v.areas x).vm_start start)) [
        | inr here ↦
            let stop : (not ((v.spaces mm).mmap == 0)
                  && ltb (v.areas (v.spaces mm).mmap).vm_start start)
                ≡ false =
              rw at (ground (arith, here)) in
            (
              (head, (v.spaces mm).mmap),
              rw stop refl,
              in_front (x ∷ xs) out (rw here refl) (at, some_x, apart, rest) sorted,
            )
        | inl before ↦
            let step : (not ((v.spaces mm).mmap == 0)
                  && ltb (v.areas (v.spaces mm).mmap).vm_start start)
                ≡ true =
              rw at (ground (arith, before, some_x)) in
            let f =
              find_place-Found v.areas p area not_null start rounds x xs (omega arith) some_x
                (λ e. ground (arith, out, e)) apart (ground (arith, out)) rest in
            (
              (link_of f.behind, f.next),
              rw step (rw at f.ends),
              in_list rounds x xs out before at sorted f,
            )
      ]

insert_area-slab :
    (mm p : ℕ) (a : Area) (place : Place × ℕ) (v : Vmm) → (insert_area mm p a place v).slab ≡ v.slab
unfolding insert_area store_place
insert_area-slab mm p a (head, next) v = refl
insert_area-slab mm p a (link_of q, next) v = refl

-- If the list of a space is linked and sorted, its areas are objects that have been given out, and the
-- rounds are more than its areas, then for an area that is not empty `vma_create` either finds no memory
-- and changes nothing, or returns a new area, which it has put into the list at its place as described
-- by `IsInserted`; the slab allocator is as described by `Gave`.
pub vma_create-IsInserted :
    (rounds mm start end flags : ℕ) (v : Vmm) (free : ℕ → List ℕ) (xs : List ℕ)
    → mm ≢ 0
    → (v.spaces mm).in_use ≡ true
    → start < end
    → HasFree v.slab free
    → (cache_at v.vma_cache v.slab).in_use ≡ true
    → Linked Area.vm_next v.areas (v.spaces mm).mmap xs
    → IsSorted v.areas xs
    → ((x : ℕ) → has x xs ≡ true → IsGiven v.slab free v.vma_cache x)
    → length xs < rounds
    → (vma_create rounds mm start end flags v ≡ some (ok (0, v)))
      ⊎ ((p : ℕ) × (v' : Vmm) × (vma_create rounds mm start end flags v ≡ some (ok (p, v')))
          × IsInserted v mm p start end flags xs v'
          × Gave v.slab free v.vma_cache p v'.slab)
unfolding vma_create Places
vma_create-IsInserted rounds mm start end flags v free xs some_mm used some_area all cache linked
      sorted given enough =
    let allowed : ((mm == 0) || not (v.spaces mm).in_use || leb end start) ≡ false =
      ground (arith, some_mm, used, some_area) in
    elim (kmem_cache_alloc-Gave v.slab free v.vma_cache all cache) [
      | inr (e, none_free, no_page) ↦ inl (rw (allowed, e) refl)
      | inl (p, s, e, gave) ↦
          let out : has p xs ≡ false = elim (Bool-cases (has p xs)) [
            | inr away ↦ away
            | inl inside ↦ absurd ((gave.kept v.vma_cache p (given p inside)).1 refl)
          ] in
          let some_p : (p == 0) ≡ false = ground (arith, gave.not_null) in
          let (place, found, inserted) =
            find_place-Places v s mm p start end flags gave.not_null rounds xs enough out linked
              sorted in
          inr (
            p,
            insert_area mm p (area v s mm p start end flags gave.not_null) place
                (record v { slab = s }),
            rw (allowed, e) (rw some_p (rw found refl)),
            inserted,
            subst (λ t. Gave v.slab free v.vma_cache p t)
                (sym (
                  insert_area-slab mm p (area v s mm p start end flags gave.not_null) place
                    (record v { slab = s })))
                gave,
          )
    ]
