-- ===== src/Mm/Vmm/Release.antt =====
-- The loop of `mm_free` of vmm.c: every area of a space goes back to the slab allocator.
use vinix_os.Base.{
  ℕ, zero, suc, ◌<◌, ◌≡◌, refl, sym, true, false, some, List, [], ◌∷◌, ◌==◌, length, arith, inl,
  inr, Bool-cases, ==_refl,
}
use vinix_os.Base.Linked.{has, ne_of_has, Linked}
use vinix_os.Mm.PageAlloc.{ok}
use vinix_os.Mm.Slab.{cache_at}
use vinix_os.Mm.Slab.Inv.{HasFree, IsGiven, with_free}
use vinix_os.Mm.Slab.Free.{kmem_cache_free-TookBack}
use vinix_os.Mm.Vmm.{Area, Vmm, free_areas}

-- The areas `xs` are free objects now, no other object of any cache changes hands, and the spaces are as
-- before.
pub record IsReleased (v : Vmm) (free : ℕ → List ℕ) (xs : List ℕ) (v' : Vmm) : Type 1 where
  pub free' : ℕ → List ℕ
  pub has_free : HasFree v'.slab free'
  pub released : (x : ℕ) → has x xs ≡ true → has x (free' v.vma_cache) ≡ true
  pub grown : (x : ℕ) → has x (free v.vma_cache) ≡ true → has x (free' v.vma_cache) ≡ true
  pub kept : (d y : ℕ) → IsGiven v.slab free d y → has y xs ≡ false → IsGiven v'.slab free' d y
  pub same_spaces : v'.spaces ≡ v.spaces

-- If the list of areas is linked and they are objects that have been given out, and the rounds are more
-- than the areas, then the loop of `mm_free` ends without a failed ASSERT, and the areas are released as
-- described by `IsReleased`.
pub free_areas-IsReleased :
    (rounds vma : ℕ) (v : Vmm) (free : ℕ → List ℕ) (xs : List ℕ)
    → HasFree v.slab free
    → (cache_at v.vma_cache v.slab).in_use ≡ true
    → Linked Area.vm_next v.areas vma xs
    → ((x : ℕ) → has x xs ≡ true → IsGiven v.slab free v.vma_cache x)
    → length xs < rounds
    → (v' : Vmm) × (free_areas rounds vma v ≡ some (ok v')) × IsReleased v free xs v'
unfolding free_areas
free_areas-IsReleased zero vma v free xs all used linked given enough = absurd (omega arith)
free_areas-IsReleased (suc rounds) vma v free [] all used linked given enough = (
  v,
  rw linked refl,
  record {
    free' = free;
    has_free = all;
    released = λ x inside. absurd (cc inside);
    grown = λ x h. h;
    kept = λ d y h out. h;
    same_spaces = refl;
  },
)
free_areas-IsReleased (suc rounds) vma v free (x ∷ xs) all used (at, some_x, apart, rest) given
      enough =
    let c = v.vma_cache in
    let (s, e, back) =
      kmem_cache_free-TookBack v.slab free c x used all (given x (rw (==_refl x) refl)) in
    let some_area : (vma == 0) ≡ false = ground (arith, at, some_x) in
    let (v', e', done) =
      free_areas-IsReleased rounds (v.areas x).vm_next (record v { slab = s })
        (with_free c (x ∷ free c) free) xs back.has_free back.still rest
        (λ z inside.
          back.kept c z (given z (ground (arith, inside)))
            (λ eq. ne_of_has x z xs apart inside (sym eq)))
        (omega arith) in
    let grown : (z : ℕ) → has z (x ∷ free c) ≡ true → has z (done.free' c) ≡ true =
      λ z h. done.grown z (rw (==_refl c) h) in
    (
      v',
      rw some_area (rw at (rw e e')),
      record {
        free' = done.free';
        has_free = done.has_free;
        released = λ z inside. elim (Bool-cases (z == x)) [
          | inl same ↦ grown z (ground (arith, same))
          | inr other ↦ done.released z (ground (arith, inside, other))
        ];
        grown = λ z h. grown z (ground (arith, h));
        kept = λ d y h out.
            done.kept d y (back.kept d y h (λ eq. ground (arith, out, eq))) (ground (arith, out));
        same_spaces = done.same_spaces;
      },
    )
