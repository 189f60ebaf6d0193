-- ===== src/Fs/Fat/Bound.antt =====
-- How much `fat32_read` of fat32.c reads at most.
use vinix_os.Base.{
  ℕ, zero, suc, ◌+◌, ◌-◌, ◌/◌, ◌%◌, ◌^◌, ◌≤◌, ◌≡◌, Bool, true, false, some, List, ◌++◌, ◌==◌, ltb,
  leb, if◌then◌else◌, drop, take, length, get_elem?, arith, length-append, length-take-le, inl, inr,
  Bool-cases,
}
use vinix_os.Base.Result.{fail}
use vinix_os.Fs.Fat.Volume.{
  sector_size, Layout, FatFile, Sectors, Disk, Outcome, done, failed, spent, Io, and_then, refuse,
  fat_read_sector,
}
use vinix_os.Fs.Fat.Chain.{ends_chain, fat_next_cluster, walk_chain}
use vinix_os.Fs.Fat.File.{read_sectors, read_clusters, fat32_read}

module _ (sectors : Sectors) where
  -- If the call gives bytes, they are at most `n`.
  abbrev pub AtMost : ℕ → Outcome (Disk sectors) (List ℕ) → Type 0
  AtMost n (done bytes s) = length bytes ≤ n
  AtMost n (failed e s) = Unit {0}
  AtMost n spent = Unit {0}

  if_AtMost :
      (n : ℕ) (t : Bool) (x y : Outcome (Disk sectors) (List ℕ))
      → AtMost n x
      → AtMost n y
      → AtMost n (if t then x else y)
  if_AtMost n true x y hx hy = hx
  if_AtMost n false x y hx hy = hy

  and_then-AtMost :
      {A : Type 0} (n : ℕ) (o : Outcome (Disk sectors) A) (k : A → Io sectors (List ℕ))
      → ((a : A) (s : Disk sectors) → AtMost n (k a s))
      → AtMost n (elim o [ done a s ↦ k a s | failed e s ↦ failed e s | spent ↦ spent ])
  and_then-AtMost n (done a s) k h = h a s
  and_then-AtMost n (failed e s) k h = tt
  and_then-AtMost n spent k h = tt

  AtMost-and_then :
      (m n : ℕ) (o : Outcome (Disk sectors) (List ℕ)) (k : List ℕ → Io sectors (List ℕ))
      → AtMost m o
      → ((bytes : List ℕ) (s : Disk sectors) → length bytes ≤ m → AtMost n (k bytes s))
      → AtMost n (elim o [ done a s ↦ k a s | failed e s ↦ failed e s | spent ↦ spent ])
  AtMost-and_then m n (done bytes s) k b h = h bytes s b
  AtMost-and_then m n (failed e s) k b h = tt
  AtMost-and_then m n spent k b h = tt

  joined :
      (a b n : ℕ) (xs ys : List ℕ)
      → length xs ≤ a
      → length ys ≤ b
      → a + b ≤ n
      → length (xs ++ ys) ≤ n
  joined a b n xs ys hx hy h = omega (arith, length-append xs ys)

  read_sectors-AtMost :
      (fs : Layout) (rounds sector intra_sec remaining : ℕ) (s : Disk sectors)
      → AtMost remaining (read_sectors sectors fs rounds sector intra_sec remaining s)
  unfolding read_sectors
  read_sectors-AtMost fs zero sector intra_sec remaining s = omega arith
  read_sectors-AtMost fs (suc rounds) sector intra_sec remaining s =
      if_AtMost remaining (remaining == 0) _ _ (omega arith) (
        and_then-AtMost remaining (fat_read_sector sectors sector s) _ (λ d s1.
          AtMost-and_then (remaining - chunk) remaining
            (read_sectors sectors fs rounds ((sector + 1) % 2 ^ 32) 0 (remaining - chunk) s1) _
            (read_sectors-AtMost fs rounds ((sector + 1) % 2 ^ 32) 0 (remaining - chunk) s1)
            (λ rest s2 b.
              joined chunk (remaining - chunk) remaining (take chunk (drop intra_sec d)) rest
                (length-take-le chunk (drop intra_sec d)) b fits)))
    where
      chunk : ℕ
      chunk = if ltb remaining (sector_size - intra_sec) then remaining else sector_size - intra_sec

      fits : chunk + (remaining - chunk) ≤ remaining
      fits = ground arith

  module _ (fs : Layout) where
    read_clusters-AtMost :
        (rounds cluster intra_cluster remaining : ℕ) (s : Disk sectors)
        → AtMost remaining (read_clusters sectors fs rounds cluster intra_cluster remaining s)
    unfolding read_clusters
    read_clusters-AtMost zero cluster intra_cluster remaining s =
        if_AtMost remaining (remaining == 0) _ _ (omega arith) tt
    read_clusters-AtMost (suc rounds) cluster intra_cluster remaining s =
        if_AtMost remaining (remaining == 0) _ _ (omega arith) (
          AtMost-and_then remaining remaining _ _ (read_sectors-AtMost fs _ _ _ remaining s)
            (λ bytes s1 b. if_AtMost remaining (remaining - length bytes == 0) _ _ b (
              and_then-AtMost remaining (fat_next_cluster sectors fs cluster s1) _ (λ c s2.
                if_AtMost remaining (ends_chain c) _ _ b (
                  AtMost-and_then (remaining - length bytes) remaining
                    (read_clusters sectors fs rounds c 0 (remaining - length bytes) s2) _
                    (read_clusters-AtMost rounds c 0 (remaining - length bytes) s2)
                    (λ tail s3 b'.
                      joined (length bytes) (remaining - length bytes) remaining bytes tail
                        (omega arith) b' (omega arith)))))))

    -- A read of a file in the table gives no more bytes than were asked for and no byte beyond the
    -- size of the file, whatever the sectors and the allocation table hold.
    pub fat32_read-AtMost :
        (file_index offset len : ℕ) (s : Disk sectors) {f : FatFile}
        → get_elem? s.files file_index ≡ some f
        → AtMost
            (if ltb len (f.size - offset) then len else f.size - offset)
            (fat32_read sectors fs file_index offset len s)
    unfolding fat32_read
    fat32_read-AtMost file_index offset len s {f} e =
        rw (e, fat32_read) (if_AtMost remaining (leb f.size offset) _ _ (omega arith) (body s))
      where
        remaining : ℕ
        remaining = if ltb len (f.size - offset) then len else f.size - offset

        at_cluster : ℕ → Io sectors (List ℕ)
        at_cluster cluster =
            if cluster == 0
            then refuse sectors fail
            else read_clusters sectors fs (suc remaining) cluster (offset % fs.bytes_per_cluster)
                remaining

        at_cluster-AtMost :
            (cluster : ℕ) (s1 : Disk sectors) → AtMost remaining (at_cluster cluster s1)
        at_cluster-AtMost cluster s1 = elim (Bool-cases (cluster == 0)) [
          | inl none_there ↦ rw none_there tt
          | inr here ↦ rw here (
              read_clusters-AtMost (suc remaining) cluster (offset % fs.bytes_per_cluster) remaining
                s1)
        ]

        body :
            (s0 : Disk sectors)
            → AtMost remaining (
                and_then sectors
                  (walk_chain sectors fs f.first_cluster (offset / fs.bytes_per_cluster))
                  at_cluster
                  s0)
        body s0 =
            and_then-AtMost remaining
              (walk_chain sectors fs f.first_cluster (offset / fs.bytes_per_cluster) s0) at_cluster
              at_cluster-AtMost
