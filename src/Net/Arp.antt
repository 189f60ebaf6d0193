-- ===== src/Net/Arp.antt =====
-- The ARP cache of netcore.c.
pub mod Lookup
use vinix_os.Base.{
  ℕ, zero, suc, ◌+◌, ◌-◌, ◌%◌, ◌^◌, Bool, true, false, ◌&&◌, Option, none, some, List, [], ◌∷◌,
  ◌==◌, ltb, if◌then◌else◌, get_or, set, replicate,
}

abbrev pub arp_cache_size : ℕ
arp_cache_size = 8

abbrev pub arp_timeout : ℕ
arp_timeout = 6000

-- `arp_entry_t`
pub record ArpEntry : Type 0 where
  pub ip : ℕ
  pub mac : List ℕ
  pub ts : ℕ
  pub valid : Bool

abbrev pub no_entry : ArpEntry
no_entry = record { ip = 0; mac = []; ts = 0; valid = false }

-- `(now - e.ts) < ARP_TIMEOUT` in 32 bits
abbrev pub is_fresh : ℕ → ArpEntry → Bool
is_fresh now e = ltb ((now + 2 ^ 32 - e.ts) % 2 ^ 32) arp_timeout

abbrev pub matches_ip : ℕ → ArpEntry → Bool
matches_ip ip e = e.valid && (e.ip == ip)

abbrev pub next_index : Option ℕ → Option ℕ
next_index none = none
next_index (some i) = some (suc i)

-- The first entry for the address that has not expired; those that have on the way there are dropped.
unfoldable pub arp_find : (now ip : ℕ) → List ArpEntry → Option ℕ × List ArpEntry
arp_find now ip [] = (none, [])
arp_find now ip (e ∷ es) =
    let (found, rest) = arp_find now ip es in
    if matches_ip ip e
    then (if is_fresh now e
        then (some 0, e ∷ es)
        else (next_index found, record e { valid = false } ∷ rest))
    else (next_index found, e ∷ rest)

-- The loop of `arp_alloc` from index `i` on, with the oldest entry so far and its time.
unfoldable pub oldest_from : (i oldest ts : ℕ) → List ArpEntry → ℕ
oldest_from i oldest ts [] = oldest
oldest_from i oldest ts (e ∷ es) =
    let older = ltb e.ts ts in
    if e.valid
    then oldest_from (i + 1) (if older then i else oldest) (if older then e.ts else ts) es
    else i

unfoldable pub arp_alloc : List ArpEntry → ℕ
arp_alloc es = oldest_from 0 0 (get_or es 0 no_entry).ts es

abbrev pub entry_for : Option ℕ → List ArpEntry → ℕ
entry_for none es = arp_alloc es
entry_for (some i) es = i

unfoldable pub arp_cache_update : (now ip : ℕ) → List ℕ → List ArpEntry → List ArpEntry
arp_cache_update now ip mac es =
    let (found, es') = arp_find now ip es in
    set es' (entry_for found es') (record { ip = ip; mac = mac; ts = now; valid = true })
