-- ===== src/Net/Core/Frames.antt =====
-- Bytes and fields of a frame, before its header's end and behind it, as netcore.c reads them.
use vinix_os.Base.{
  ℕ, zero, suc, ◌+◌, ◌<◌, ◌≡◌, refl, ap, List, [], ◌∷◌, ◌++◌, ◌||◌, length, drop, arith,
}
use vinix_os.Net.Bytes.{byte, field16, field32}
use vinix_os.Net.Core.Receive.{mac_eq, mac_is_bcast, ip_accepts}

-- Bytes in front of a packet, and behind the header of the frame.
pub byte-front :
    (front xs : List ℕ) (i : ℕ) → i < length front → byte (front ++ xs) i ≡ byte front i
byte-front [] xs i lt = absurd (omega arith)
byte-front (x ∷ front) xs zero lt = refl
byte-front (x ∷ front) xs (suc i) lt = byte-front front xs i (omega arith)

pub drop-after :
    (front xs : List ℕ) (m k : ℕ) → m ≡ length front + k → drop m (front ++ xs) ≡ drop k xs
drop-after [] xs m k e = let same : m ≡ k = omega (arith, e) in ap (λ i. drop i xs) same
drop-after (x ∷ front) xs zero k e = absurd (omega (arith, e))
drop-after (x ∷ front) xs (suc m) k e = drop-after front xs m k (omega (arith, e))

pub byte-after :
    (front xs : List ℕ) (m k : ℕ) → m ≡ length front + k → byte (front ++ xs) m ≡ byte xs k
byte-after [] xs m k e = let same : m ≡ k = omega (arith, e) in ap (byte xs) same
byte-after (x ∷ front) xs zero k e = absurd (omega (arith, e))
byte-after (x ∷ front) xs (suc m) k e = byte-after front xs m k (omega (arith, e))

module _ (front xs : List ℕ) where
  pub field16-front : (i : ℕ) → i + 1 < length front → field16 (front ++ xs) i ≡ field16 front i
  unfolding field16
  field16-front i lt =
      omega (arith, byte-front front xs i (omega arith), byte-front front xs (i + 1) lt)

  pub mac-front :
      (mac : List ℕ)
      → length front ≡ 14
      → (mac_eq (front ++ xs) mac || mac_is_bcast (front ++ xs))
        ≡ (mac_eq front mac || mac_is_bcast front)
  unfolding mac_eq mac_is_bcast
  mac-front mac size =
      rw
        (
          byte-front front xs 0 (omega (arith, size)),
          byte-front front xs 1 (omega (arith, size)),
          byte-front front xs 2 (omega (arith, size)),
          byte-front front xs 3 (omega (arith, size)),
          byte-front front xs 4 (omega (arith, size)),
          byte-front front xs 5 (omega (arith, size)),
        )
        refl

  pub field16-after : (m k : ℕ) → m ≡ length front + k → field16 (front ++ xs) m ≡ field16 xs k
  unfolding field16
  field16-after m k e =
      omega
        (arith, byte-after front xs m k e, byte-after front xs (m + 1) (k + 1) (omega (arith, e)))

  pub field32-after : (m k : ℕ) → m ≡ length front + k → field32 (front ++ xs) m ≡ field32 xs k
  unfolding field32
  field32-after m k e =
      omega (arith, field16-after m k e, field16-after (m + 2) (k + 2) (omega (arith, e)))

  pub ip_accepts-after :
      (len g_ip : ℕ)
      → length front ≡ 14
      → ip_accepts (front ++ xs) 14 len g_ip ≡ ip_accepts xs 0 len g_ip
  unfolding ip_accepts
  ip_accepts-after len g_ip size =
      rw
        (
          byte-after front xs 14 0 (omega (arith, size)),
          field16-after 16 2 (omega (arith, size)),
          field16-after 20 6 (omega (arith, size)),
          field32-after 30 16 (omega (arith, size)),
          drop-after front xs 14 0 (omega (arith, size)),
        )
        refl
