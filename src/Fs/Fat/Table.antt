-- ===== src/Fs/Fat/Table.antt =====
-- The entries of the allocation table that `fat_set_entry` of fat32.c sets.
use mathlib.Core.Path.{subst}
use vinix_os.Base.{
  ℕ, zero, suc, ◌+◌, ◌*◌, ◌%◌, ◌^◌, ◌<◌, ◌≤◌, ◌≡◌, ◌≢◌, refl, sym, ap, ◌∙◌, false, some, List, ◌==◌,
  if◌then◌else◌, length, arith, inl, inr, Bool-cases, eq_of_==, ==_refl, Option-cases,
}
use vinix_os.Fs.Fat.Bytes.{rd32, wr32, rd32-wr32, length-wr32}
use vinix_os.Fs.Fat.Volume.{
  sector_size, Layout, Sectors, Disk, Outcome, done, failed, spent, fat_read_sector, write_back,
}
use vinix_os.Fs.Fat.Chain.{entry_sector, entry_offset, merge, set_copies}

-- What `fat_set_entry` relies on of the sector cache, in the states that are `Ok`: `view` is what a
-- sector shows, a read changes no sector, and bytes that are put into the buffer of a sector that has
-- just been read are what the sector then shows.
pub record IsCache (sectors : Sectors) (view : Sectors.State sectors → ℕ → List ℕ)
    (Ok : Sectors.State sectors → Type 0) : Type 0 where
  pub full : (s : Sectors.State sectors) → Ok s → (i : ℕ) → length (view s i) ≡ sector_size
  pub kept : (lba : ℕ) (s : Sectors.State sectors) → Ok s → Ok (sectors.get lba s).1
  pub same :
      (lba : ℕ) (s : Sectors.State sectors)
      → Ok s
      → (i : ℕ) → view (sectors.get lba s).1 i ≡ view s i
  pub reads :
      (lba : ℕ) (s : Sectors.State sectors) {d : List ℕ}
      → Ok s
      → (sectors.get lba s).0 ≡ some d
      → d ≡ view s lba
  pub puts :
      (lba : ℕ) (d : List ℕ) (s : Sectors.State sectors) {before : List ℕ}
      → Ok s
      → (sectors.get lba s).0 ≡ some before
      → length d ≡ sector_size
      → let s' = sectors.put lba d (sectors.get lba s).1 in
        Ok s' × ((i : ℕ) → view s' i ≡ (if lba == i then d else view s i))

-- The sector of the entry of a cluster in copy `f` of the table.
abbrev pub copy_sector : Layout → (cluster f : ℕ) → ℕ
copy_sector fs cluster f = (fs.fat_lba + f * fs.fat_sectors + entry_sector cluster) % 2 ^ 32

==-ne : (a b : ℕ) → a ≢ b → (a == b) ≡ false
==-ne a b h = ground arith

module _ (sectors : Sectors) (view : Sectors.State sectors → ℕ → List ℕ)
    (Ok : Sectors.State sectors → Type 0) (fs : Layout) (cluster value : ℕ) where
  -- The copies from `f` on hold the value.
  abbrev HoldValue : (rounds f : ℕ) → Sectors.State sectors → Type 0
  HoldValue rounds f s' =
      (g : ℕ)
      → f ≤ g
      → g < f + rounds
      → rd32 (view s' (copy_sector fs cluster g)) (entry_offset cluster) % 2 ^ 28 ≡ value % 2 ^ 28

  -- No sector but those of the copies from `f` on has changed.
  abbrev OnlyCopies : (rounds f : ℕ) → (s s' : Sectors.State sectors) → Type 0
  OnlyCopies rounds f s s' =
      (i : ℕ)
      → ((g : ℕ) → f ≤ g → g < f + rounds → copy_sector fs cluster g ≢ i)
      → view s' i ≡ view s i

  -- The loop ends, in a state that is `Ok`, and changes only the copies from `f` on; if it ends well,
  -- they all hold the value.
  abbrev pub Merged : (rounds f : ℕ) → Disk sectors → Outcome (Disk sectors) (Unit {0}) → Type 0
  Merged rounds f s (done _ s') =
      Ok s'.state × HoldValue rounds f s'.state × OnlyCopies rounds f s.state s'.state
  Merged rounds f s (failed e s') = Ok s'.state × OnlyCopies rounds f s.state s'.state
  Merged rounds f s spent = ⊥

  -- The sector that a round writes shows the value.
  written :
      (d : List ℕ)
      → length d ≡ sector_size
      → rd32
            (wr32 d (entry_offset cluster) (merge (rd32 d (entry_offset cluster)) value))
            (entry_offset cluster)
          % 2 ^ 28
        ≡ value % 2 ^ 28
  written d size =
      ap (λ n. n % 2 ^ 28)
        (rd32-wr32 d (entry_offset cluster) (merge (rd32 d (entry_offset cluster)) value)
          (omega (arith, size)) small)
      ∙ low (rd32 d (entry_offset cluster))
    where
      small : merge (rd32 d (entry_offset cluster)) value < 2 ^ 32
      small = omega arith

      low : (old : ℕ) → merge old value % 2 ^ 28 ≡ value % 2 ^ 28
      low old = omega arith

  -- What a round does: the sector of copy `f`, which showed `d`, shows the new entry.
  abbrev Written : (f : ℕ) → List ℕ → (s s2 : Sectors.State sectors) → Type 0
  Written f d s s2 =
      (i : ℕ)
      → view s2 i ≡ (
          if copy_sector fs cluster f == i
          then wr32 d (entry_offset cluster) (merge (rd32 d (entry_offset cluster)) value)
          else view s i)

  OnlyCopies-step :
      (rounds f : ℕ) (s s2 s' : Sectors.State sectors) (d : List ℕ)
      → Written f d s s2
      → OnlyCopies rounds (f + 1) s2 s'
      → OnlyCopies (suc rounds) f s s'
  OnlyCopies-step rounds f s s2 s' d seen others i out =
      others i (λ g le lt. out g (omega arith) (omega arith))
      ∙ seen i
      ∙ rw (==-ne (copy_sector fs cluster f) i (out f (omega arith) (omega arith))) refl

  HoldValue-step :
      (rounds f : ℕ) (s s2 s' : Sectors.State sectors) (d : List ℕ)
      → ((g : ℕ) → f < g → g < f + suc rounds → copy_sector fs cluster f ≢ copy_sector fs cluster g)
      → length d ≡ sector_size
      → Written f d s s2
      → OnlyCopies rounds (f + 1) s2 s'
      → HoldValue rounds (f + 1) s'
      → HoldValue (suc rounds) f s'
  HoldValue-step rounds f s s2 s' d apart size seen others set_ones g le lt =
      elim (Bool-cases (f == g)) [
        | inl e ↦
            subst
              (λ k.
                rd32 (view s' (copy_sector fs cluster k)) (entry_offset cluster) % 2 ^ 28
                ≡ value % 2 ^ 28)
              (eq_of_== f g e)
              (ap (λ x. rd32 x (entry_offset cluster) % 2 ^ 28) here ∙ written d size)
        | inr ne ↦ set_ones g (ground arith) (omega arith)
      ]
    where
      here :
          view s' (copy_sector fs cluster f)
          ≡ wr32 d (entry_offset cluster) (merge (rd32 d (entry_offset cluster)) value)
      here =
          others (copy_sector fs cluster f)
            (λ g le lt e. apart g (omega arith) (omega arith) (sym e))
          ∙ seen (copy_sector fs cluster f)
          ∙ rw (==_refl (copy_sector fs cluster f)) refl

  -- One round and the rest of the loop.
  Merged-step :
      (rounds f : ℕ) (s : Disk sectors) (d : List ℕ) (s2 : Sectors.State sectors)
      (o : Outcome (Disk sectors) (Unit {0}))
      → ((g : ℕ) → f < g → g < f + suc rounds → copy_sector fs cluster f ≢ copy_sector fs cluster g)
      → length d ≡ sector_size
      → Written f d s.state s2
      → Merged rounds (f + 1) (record s { state = s2 }) o
      → Merged (suc rounds) f s o
  Merged-step rounds f s d s2 spent apart size seen m = m
  Merged-step rounds f s d s2 (failed e s') apart size seen (fine, others) =
      (fine, OnlyCopies-step rounds f s.state s2 s'.state d seen others)
  Merged-step rounds f s d s2 (done _ s') apart size seen (fine, set_ones, others) = (
    fine,
    HoldValue-step rounds f s.state s2 s'.state d apart size seen others set_ones,
    OnlyCopies-step rounds f s.state s2 s'.state d seen others,
  )

  pub set_copies-Merged :
      (laws : IsCache sectors view Ok) (rounds f : ℕ) (s : Disk sectors)
      → Ok s.state
      → ((g h : ℕ)
          → f ≤ g
          → g < h
          → h < f + rounds
          → copy_sector fs cluster g ≢ copy_sector fs cluster h)
      → Merged rounds f s (set_copies sectors fs rounds f cluster value s)
  unfolding set_copies fat_read_sector write_back
  set_copies-Merged laws zero f s fine apart =
      (fine, λ g le lt. absurd (omega arith), λ i out. refl)
  set_copies-Merged laws (suc rounds) f s fine apart =
      elim (Option-cases (sectors.get (copy_sector fs cluster f) s.state).0) [
        | inl e ↦
            rw (e, Merged, set_copies, fat_read_sector)
              (
                laws.kept (copy_sector fs cluster f) s.state fine,
                λ i out. laws.same (copy_sector fs cluster f) s.state fine i,
              )
        | inr (d, e) ↦
            let size : length d ≡ sector_size =
              ap length (laws.reads (copy_sector fs cluster f) s.state fine e)
              ∙ laws.full s.state fine (copy_sector fs cluster f) in
            let (fine', seen) =
              laws.puts (copy_sector fs cluster f)
                (wr32 d (entry_offset cluster) (merge (rd32 d (entry_offset cluster)) value))
                s.state fine e (length-wr32 d (entry_offset cluster) _ ∙ size) in
            rw (e, Merged, set_copies, fat_read_sector)
              (Merged-step rounds f s d (next d) _ (λ g lt lt'. apart f g (omega arith) lt lt') size
                seen
                (set_copies-Merged laws rounds (f + 1) (record s { state = next d }) fine'
                  (λ g h le lt lt'. apart g h (omega arith) lt (omega arith))))
      ]
    where
      next : List ℕ → Sectors.State sectors
      next d =
          sectors.put (copy_sector fs cluster f)
            (wr32 d (entry_offset cluster) (merge (rd32 d (entry_offset cluster)) value))
            (sectors.get (copy_sector fs cluster f) s.state).1
