-- ===== src/Net/Arp/Lookup.antt =====
-- An address that has been put into the ARP cache of netcore.c is found there.
use vinix_os.Base.{
  ℕ, zero, suc, ◌+◌, ◌^◌, ◌<◌, ◌≤◌, ◌≡◌, refl, ap, ◌∙◌, true, false, Option, none, some, List, [],
  ◌∷◌, ltb, if◌then◌else◌, length, get_or, set, arith, inl, inr, Bool-cases, get_or-set_self,
  length-set, ==_refl,
}
use vinix_os.Net.Arp.{
  ArpEntry, no_entry, is_fresh, matches_ip, next_index, arp_find, oldest_from, arp_alloc, entry_for,
  arp_cache_update,
}

-- No entry before index `i` is for the address.
abbrev Clear : (ip i : ℕ) → List ArpEntry → Type 0
Clear ip zero es = Unit {0}
Clear ip (suc i) [] = Unit {0}
Clear ip (suc i) (e ∷ es) = (matches_ip ip e ≡ false) × Clear ip i es

-- Where the search ends: no entry is for the address, or none before the one that was found.
Ends : (ip n : ℕ) → Option ℕ × List ArpEntry → Type 0
Ends ip n (none, es) = (length es ≡ n) × ((i : ℕ) → Clear ip i es)
Ends ip n (some i, es) = (length es ≡ n) × (i < n) × Clear ip i es

Ends-next :
    (ip n : ℕ) (e : ArpEntry) (r : Option ℕ × List ArpEntry)
    → matches_ip ip e ≡ false
    → Ends ip n r
    → Ends ip (suc n) (next_index r.0, e ∷ r.1)
unfolding Ends
Ends-next ip n e (none, es) h (len, clear) = (ap suc len, clear')
  where
    clear' : (i : ℕ) → Clear ip i (e ∷ es)
    clear' zero = tt
    clear' (suc i) = (h, clear i)
Ends-next ip n e (some i, es) h (len, lt, clear) = (ap suc len, omega arith, (h, clear))

arp_find-Ends : (now ip : ℕ) (es : List ArpEntry) → Ends ip (length es) (arp_find now ip es)
unfolding arp_find Ends
arp_find-Ends now ip [] = (refl, clear)
  where
    clear : (i : ℕ) → Clear ip i []
    clear zero = tt
    clear (suc i) = tt
arp_find-Ends now ip (e ∷ es) = elim (Bool-cases (matches_ip ip e)) [
  | inr other ↦
      rw other (Ends-next ip (length es) e (arp_find now ip es) other (arp_find-Ends now ip es))
  | inl mine ↦ rw mine (elim (Bool-cases (is_fresh now e)) [
    | inl fresh ↦ rw fresh (refl, omega arith, tt)
    | inr old ↦ rw old (
        Ends-next ip (length es) (record e { valid = false }) (arp_find now ip es) refl
          (arp_find-Ends now ip es))
  ])
]

oldest_from-lt :
    (i oldest ts n : ℕ) (es : List ArpEntry)
    → oldest < n
    → i + length es ≤ n
    → oldest_from i oldest ts es < n
unfolding oldest_from
oldest_from-lt i oldest ts n [] lo le = lo
oldest_from-lt i oldest ts n (e ∷ es) lo le = elim (Bool-cases e.valid) [
  | inl used ↦ rw used (
      oldest_from-lt (i + 1) (if ltb e.ts ts then i else oldest) (if ltb e.ts ts then e.ts else ts)
        n es (ground (arith, lo, le)) (omega arith))
  | inr free ↦ rw free (omega arith)
]

-- The index that an update writes.
entry_for-lt :
    (ip n : ℕ) (found : Option ℕ) (es : List ArpEntry)
    → 0 < n
    → Ends ip n (found, es)
    → (entry_for found es < n) × Clear ip (entry_for found es) es × (length es ≡ n)
unfolding Ends arp_alloc
entry_for-lt ip n none es some_room (len, clear) = (
  oldest_from-lt 0 0 (get_or es 0 no_entry).ts n es some_room (omega (arith, len)),
  clear (arp_alloc es),
  len,
)
entry_for-lt ip n (some i) es some_room (len, lt, clear) = (lt, clear, len)

-- The entry that is written, if those before it are not for the address.
find-set :
    (now ip i : ℕ) (e : ArpEntry) (es : List ArpEntry)
    → Clear ip i es
    → i < length es
    → matches_ip ip e ≡ true
    → is_fresh now e ≡ true
    → arp_find now ip (set es i e) ≡ (some i, set es i e)
unfolding arp_find
find-set now ip i e [] clear lt m f = absurd (omega arith)
find-set now ip zero e (x ∷ es) clear lt m f = rw (m, f) refl
find-set now ip (suc i) e (x ∷ es) (h, clear) lt m f =
    rw h (ap (λ r. step r) (find-set now ip i e es clear (omega arith) m f))
  where
    step : Option ℕ × List ArpEntry → Option ℕ × List ArpEntry
    step r = (next_index r.0, x ∷ r.1)

-- An update with the hardware address of an IP address, at a time that fits 32 bits, leaves the cache
-- its size and makes the search at the same time find the address with that hardware address.
pub arp_find-arp_cache_update :
    (now ip : ℕ) (mac : List ℕ) (es : List ArpEntry)
    → now < 2 ^ 32
    → 0 < length es
    → (i : ℕ) × (arp_find now ip (arp_cache_update now ip mac es)
        ≡ (some i, arp_cache_update now ip mac es))
      × ((get_or (arp_cache_update now ip mac es) i no_entry).mac ≡ mac)
      × (length (arp_cache_update now ip mac es) ≡ length es)
unfolding arp_cache_update
arp_find-arp_cache_update now ip mac es small some_room =
    let (lt, clear, len) =
      entry_for-lt ip (length es) (arp_find now ip es).0 (arp_find now ip es).1 some_room
        (arp_find-Ends now ip es) in
    (
      index,
      find-set now ip index new (arp_find now ip es).1 clear (omega (arith, lt, len)) (==_refl ip)
          fresh,
      ap ArpEntry.mac
          (get_or-set_self (arp_find now ip es).1 index new no_entry (omega (arith, lt, len))),
      length-set (arp_find now ip es).1 index new ∙ len,
    )
  where
    index : ℕ
    index = entry_for (arp_find now ip es).0 (arp_find now ip es).1

    new : ArpEntry
    new = record { ip = ip; mac = mac; ts = now; valid = true }

    fresh : is_fresh now new ≡ true
    fresh = ground arith
