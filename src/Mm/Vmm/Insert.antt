-- ===== src/Mm/Vmm/Insert.antt =====
-- `vma_create` of vmm.c: where the new area goes in the list.
use vinix_os.Base.{
  ℕ, zero, suc, ◌<◌, ◌≡◌, ◌≢◌, refl, sym, ap, ◌∙◌, true, false, not, ◌&&◌, ◌||◌, some, List, [],
  ◌∷◌, ◌==◌, ltb, if◌then◌else◌, length, arith, inl, inr, Bool-cases, eq_of_==, ne_of_==, ==_refl,
}
use mathlib.Core.Path.{subst}
use vinix_os.Base.Linked.{has, ne_of_has, Linked, Linked-frame}
use vinix_os.Mm.Vmm.{Area, link_of, put_at, find_place}

-- `p` in front of the first area that does not start before `start`.
abbrev pub insert : (areas : ℕ → Area) → (p start : ℕ) → List ℕ → List ℕ
insert areas p start [] = p ∷ []
insert areas p start (x ∷ xs) =
    if ltb (areas x).vm_start start then x ∷ insert areas p start xs else p ∷ x ∷ xs

pub has-insert :
    (areas : ℕ → Area) (p start q : ℕ) (xs : List ℕ)
    → has q (insert areas p start xs) ≡ ((q == p) || has q xs)
has-insert areas p start q [] = refl
has-insert areas p start q (x ∷ xs) = elim (Bool-cases (ltb (areas x).vm_start start)) [
  | inl before ↦ rw before (ground (arith, has-insert areas p start q xs))
  | inr behind ↦ rw behind refl
]

pub put_at_ne : (p q : ℕ) (a : Area) (areas : ℕ → Area) → q ≢ p → put_at p a areas q ≡ areas q
put_at_ne p q a areas ne = elim (Bool-cases (q == p)) [
  | inl same ↦ absurd (ne (eq_of_== q p same))
  | inr other ↦ rw other refl
]

pub put_at_self : (p : ℕ) (a : Area) (areas : ℕ → Area) → put_at p a areas p ≡ a
put_at_self p a areas = rw (==_refl p) refl

module _ (areas : ℕ → Area) (p : ℕ) (area : Area) (not_null : p ≢ 0) where
  -- The areas with the new one, which leads to `next`.
  abbrev pub with_area : ℕ → ℕ → Area
  with_area next = put_at p (record area { vm_next = next }) areas

  abbrev pub relinked : (q next : ℕ) → ℕ → Area
  relinked q next = put_at q (record (with_area next q) { vm_next = p }) (with_area next)

  relinked-frame : (q next z : ℕ) → z ≢ p → z ≢ q → relinked q next z ≡ areas z
  relinked-frame q next z ne ne' =
      put_at_ne q z (record (with_area next q) { vm_next = p }) (with_area next) ne'
      ∙ put_at_ne p z (record area { vm_next = next }) areas ne

  -- The new area at the place `p`, in front of a list.
  pub with_area-Linked :
      (r : ℕ) (xs : List ℕ)
      → has p xs ≡ false
      → Linked Area.vm_next areas r xs
      → Linked Area.vm_next (with_area r) p (p ∷ xs)
  with_area-Linked r xs out h = (
    refl,
    not_null,
    out,
    subst (λ n. Linked Area.vm_next (with_area r) n xs)
        (sym (ap Area.vm_next (put_at_self p (record area { vm_next = r }) areas)))
        (Linked-frame Area.vm_next areas (with_area r) r xs
          (λ z inside. ap Area.vm_next (
            put_at_ne p z (record area { vm_next = r }) areas
              (λ e. ne_of_has p z xs out inside (sym e))))
          h),
  )

  -- Behind an area `q` of the list.
  relinked-Linked :
      (q : ℕ) (xs : List ℕ)
      → q ≢ 0
      → q ≢ p
      → has q xs ≡ false
      → has p xs ≡ false
      → Linked Area.vm_next areas (areas q).vm_next xs
      → Linked Area.vm_next (relinked q (areas q).vm_next) q (q ∷ p ∷ xs)
  relinked-Linked q xs some_q ne out out' h =
      let r = (areas q).vm_next in
      let apart : has q (p ∷ xs) ≡ false = ground (arith, ne, out) in
      (
        refl,
        some_q,
        apart,
        subst (λ n. Linked Area.vm_next (relinked q r) n (p ∷ xs))
            (sym (
              ap Area.vm_next
                (put_at_self q (record (with_area r q) { vm_next = p }) (with_area r))))
            (Linked-frame Area.vm_next (with_area r) (relinked q r) p (p ∷ xs)
              (λ z inside. ap Area.vm_next (
                put_at_ne q z (record (with_area r q) { vm_next = p }) (with_area r)
                  (λ e. ne_of_has q z (p ∷ xs) apart inside (sym e))))
              (with_area-Linked r xs out' h)),
      )

  pub start-relinked : (q next z : ℕ) → z ≢ p → (relinked q next z).vm_start ≡ (areas z).vm_start
  start-relinked q next z ne = elim (Bool-cases (z == q)) [
    | inl same ↦
        let at = eq_of_== z q same in
        rw same (
          ap Area.vm_start (put_at_ne p q (record area { vm_next = next }) areas (λ e. ne (at ∙ e)))
          ∙ ap (λ i. (areas i).vm_start) (sym at))
    | inr other ↦ ap Area.vm_start (relinked-frame q next z ne (ne_of_== z q other))
  ]

  pub new-relinked : (q next : ℕ) → q ≢ p → relinked q next p ≡ record area { vm_next = next }
  new-relinked q next ne =
      put_at_ne q p (record (with_area next q) { vm_next = p }) (with_area next) (λ e. ne (sym e))
      ∙ put_at_self p (record area { vm_next = next }) areas

  -- What the search from `q` on finds, and the list once the new area is there.
  pub record Found (start rounds q : ℕ) (xs : List ℕ) : Type 0 where
    pub behind : ℕ
    pub next : ℕ
    pub ends :
        find_place rounds areas start (link_of q) (areas q).vm_next ≡ some (link_of behind, next)
    pub linked : Linked Area.vm_next (relinked behind next) q (q ∷ insert areas p start xs)
    pub frame : (z : ℕ) → z ≢ p → has z (q ∷ xs) ≡ false → relinked behind next z ≡ areas z
    pub not_new : behind ≢ p

  pub find_place-Found :
      (start rounds q : ℕ) (xs : List ℕ)
      → length xs < rounds
      → q ≢ 0
      → q ≢ p
      → has q xs ≡ false
      → has p xs ≡ false
      → Linked Area.vm_next areas (areas q).vm_next xs
      → Found start rounds q xs
  unfolding find_place
  find_place-Found start zero q xs enough some_q ne out out' h = absurd (omega arith)
  find_place-Found start (suc rounds) q [] enough some_q ne out out' h = record {
    behind = q;
    next = (areas q).vm_next;
    ends = rw h refl;
    linked = relinked-Linked q [] some_q ne out out' h;
    frame = λ z ne' away. relinked-frame q (areas q).vm_next z ne' (ground (arith, away));
    not_new = ne;
  }
  find_place-Found start (suc rounds) q (x ∷ xs) enough some_q ne out out'
        (at, some_x, apart, rest) =
      let some_next : ((areas q).vm_next == 0) ≡ false = ground (arith, at, some_x) in
      elim (Bool-cases (ltb (areas x).vm_start start)) [
        | inr here ↦
            let stop : (not ((areas q).vm_next == 0)
                  && ltb (areas (areas q).vm_next).vm_start start)
                ≡ false =
              rw at (ground (arith, here)) in
            record {
              behind = q;
              next = (areas q).vm_next;
              ends = rw stop refl;
              linked =
                  rw here (relinked-Linked q (x ∷ xs) some_q ne out out' (at, some_x, apart, rest));
              frame = λ z ne' away. relinked-frame q (areas q).vm_next z ne' (ground (arith, away));
              not_new = ne;
            }
        | inl further ↦
            let found =
              find_place-Found start rounds x xs (omega arith) some_x (λ e. ground (arith, out', e))
                apart (ground (arith, out')) rest in
            let step : (not ((areas q).vm_next == 0)
                  && ltb (areas (areas q).vm_next).vm_start start)
                ≡ true =
              rw at (ground (arith, further, some_x)) in
            let away : has q (x ∷ insert areas p start xs) ≡ false =
              ground (arith, out, ne, has-insert areas p start q xs) in
            record {
              behind = found.behind;
              next = found.next;
              ends = rw step (rw at found.ends);
              linked = rw further (
                refl,
                some_q,
                away,
                subst
                    (λ n.
                      Linked Area.vm_next (relinked found.behind found.next) n
                        (x ∷ insert areas p start xs))
                    (sym (ap Area.vm_next (found.frame q ne out) ∙ at)) found.linked,
              );
              frame = λ z ne' away'. found.frame z ne' (ground (arith, away'));
              not_new = found.not_new;
            }
      ]
