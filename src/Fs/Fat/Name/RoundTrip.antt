-- ===== src/Fs/Fat/Name/RoundTrip.antt =====
-- The name that fat32.c shows for an entry leads back to the entry; and where a long component does not.
use vinix_os.Base.{
  ℕ, zero, suc, ◌≤◌, ◌≡◌, ◌≢◌, refl, sym, ap, ◌∙◌, Bool, true, false, not, ◌&&◌, List, [], ◌∷◌,
  ◌++◌, ◌==◌, if◌then◌else◌, length, get_or, drop, take, arith, inl, inr, Bool-cases,
}
use vinix_os.Fs.Fat.Name.{
  blank, dot, is_lower, to_upper, to_lower, raw_base, after_dot, raw_ext, name_to_raw, shown,
  lower_base, lower_ext, raw_to_name, component_raw,
}

-- A character of a name on disk: no blank, no small letter and no dot.
abbrev pub plain : ℕ → Bool
plain c = not (c == blank) && not (is_lower c) && not (c == dot)

abbrev pub all_plain : List ℕ → Bool
all_plain [] = true
all_plain (c ∷ cs) = plain c && all_plain cs

-- The part of a name, with blanks up to `n` characters.
abbrev pub pad : ℕ → List ℕ → List ℕ
pad zero cs = []
pad (suc n) [] = blank ∷ pad n []
pad (suc n) (c ∷ cs) = c ∷ pad n cs

abbrev recase : Bool → List ℕ → List ℕ
recase lower [] = []
recase lower (c ∷ cs) = (if lower then to_lower c else c) ∷ recase lower cs

to_upper-to_lower :
    (lower : Bool) (c : ℕ) → plain c ≡ true → to_upper (if lower then to_lower c else c) ≡ c
unfolding to_upper to_lower
to_upper-to_lower true c h = ground arith
to_upper-to_lower false c h = ground arith

ne_dot :
    (lower : Bool) (c : ℕ) → plain c ≡ true → ((if lower then to_lower c else c) == dot) ≡ false
unfolding to_lower
ne_dot true c h = ground arith
ne_dot false c h = ground arith

not_blank : (c : ℕ) → plain c ≡ true → (c == blank) ≡ false
not_blank c h = ground arith

shown-pad :
    (lower : Bool) (n : ℕ) (cs : List ℕ)
    → all_plain cs ≡ true
    → length cs ≤ n
    → shown lower (pad n cs) ≡ recase lower cs
unfolding shown
shown-pad lower zero [] h fits = refl
shown-pad lower (suc n) [] h fits = refl
shown-pad lower zero (c ∷ cs) h fits = absurd (omega arith)
shown-pad lower (suc n) (c ∷ cs) h fits = rw (not_blank c (ground arith)) (
    ap (λ xs. (if lower then to_lower c else c) ∷ xs)
      (shown-pad lower n cs (ground arith) (omega arith)))

take-pad : (n : ℕ) (cs zs : List ℕ) → take n (pad n cs ++ zs) ≡ pad n cs
take-pad zero cs zs = refl
take-pad (suc n) [] zs = ap (λ xs. blank ∷ xs) (take-pad n [] zs)
take-pad (suc n) (c ∷ cs) zs = ap (λ xs. c ∷ xs) (take-pad n cs zs)

drop-pad : (n : ℕ) (cs zs : List ℕ) → drop n (pad n cs ++ zs) ≡ zs
drop-pad zero cs zs = refl
drop-pad (suc n) [] zs = drop-pad n [] zs
drop-pad (suc n) (c ∷ cs) zs = drop-pad n cs zs

get_or-pad : (n d : ℕ) (cs zs : List ℕ) → get_or (pad n cs ++ zs) n d ≡ get_or zs 0 d
get_or-pad zero d cs zs = refl
get_or-pad (suc n) d [] zs = get_or-pad n d [] zs
get_or-pad (suc n) d (c ∷ cs) zs = get_or-pad n d cs zs

raw_base_nil : (n : ℕ) → raw_base n [] ≡ pad n []
unfolding raw_base
raw_base_nil zero = refl
raw_base_nil (suc n) = ap (λ xs. blank ∷ xs) (raw_base_nil n)

raw_base-dot : (n : ℕ) (zs : List ℕ) → raw_base n (dot ∷ zs) ≡ pad n []
unfolding raw_base
raw_base-dot zero zs = refl
raw_base-dot (suc n) zs = ap (λ xs. blank ∷ xs) (raw_base-dot n zs)

raw_base-recase :
    (lower : Bool) (n : ℕ) (cs zs : List ℕ)
    → all_plain cs ≡ true
    → length cs ≤ n
    → ((m : ℕ) → raw_base m zs ≡ pad m [])
    → raw_base n (recase lower cs ++ zs) ≡ pad n cs
unfolding raw_base
raw_base-recase lower n [] zs h fits tail = tail n
raw_base-recase lower zero (c ∷ cs) zs h fits tail = absurd (omega arith)
raw_base-recase lower (suc n) (c ∷ cs) zs h fits tail =
    rw (ne_dot lower c (ground arith), to_upper-to_lower lower c (ground arith))
      (ap (λ xs. c ∷ xs) (raw_base-recase lower n cs zs (ground arith) (omega arith) tail))

raw_ext-recase :
    (lower : Bool) (n : ℕ) (cs : List ℕ)
    → all_plain cs ≡ true
    → length cs ≤ n
    → raw_ext n (recase lower cs) ≡ pad n cs
unfolding raw_ext
raw_ext-recase lower zero [] h fits = refl
raw_ext-recase lower (suc n) [] h fits =
    ap (λ xs. blank ∷ xs) (raw_ext-recase lower n [] h (omega arith))
raw_ext-recase lower zero (c ∷ cs) h fits = absurd (omega arith)
raw_ext-recase lower (suc n) (c ∷ cs) h fits =
    rw (to_upper-to_lower lower c (ground arith))
      (ap (λ xs. c ∷ xs) (raw_ext-recase lower n cs (ground arith) (omega arith)))

after_dot-recase :
    (lower : Bool) (cs zs : List ℕ)
    → all_plain cs ≡ true
    → after_dot (recase lower cs ++ zs) ≡ after_dot zs
unfolding after_dot
after_dot-recase lower [] zs h = refl
after_dot-recase lower (c ∷ cs) zs h =
    rw (ne_dot lower c (ground arith)) (after_dot-recase lower cs zs (ground arith))

take_all-pad : (n : ℕ) (cs : List ℕ) → take n (pad n cs) ≡ pad n cs
take_all-pad zero cs = refl
take_all-pad (suc n) [] = ap (λ xs. blank ∷ xs) (take_all-pad n [])
take_all-pad (suc n) (c ∷ cs) = ap (λ xs. c ∷ xs) (take_all-pad n cs)

unfoldable shown_ext : ℕ → List ℕ → List ℕ
shown_ext nt_res zs =
    if get_or zs 0 blank == blank then [] else dot ∷ shown (lower_ext nt_res) (take 3 zs)

raw_to_name-pad :
    (base zs : List ℕ) (nt_res : ℕ)
    → raw_to_name (pad 8 base ++ zs) nt_res
      ≡ shown (lower_base nt_res) (pad 8 base) ++ shown_ext nt_res zs
unfolding raw_to_name shown_ext
raw_to_name-pad base zs nt_res =
    rw (take-pad 8 base zs, drop-pad 8 base zs, get_or-pad 8 blank base zs) refl

shown_ext-pad :
    (c : ℕ) (cs : List ℕ) (nt_res : ℕ)
    → all_plain (c ∷ cs) ≡ true
    → length (c ∷ cs) ≤ 3
    → shown_ext nt_res (pad 3 (c ∷ cs)) ≡ dot ∷ recase (lower_ext nt_res) (c ∷ cs)
unfolding shown_ext
shown_ext-pad c cs nt_res h fits = rw (not_blank c (ground arith)) (
    ap (λ xs. dot ∷ xs)
      (ap (λ xs. shown (lower_ext nt_res) xs) (take_all-pad 3 (c ∷ cs))
        ∙ shown-pad (lower_ext nt_res) 3 (c ∷ cs) h fits))

-- The name with this tail goes back.
back :
    (lower : Bool) (base zs ext : List ℕ)
    → all_plain base ≡ true
    → length base ≤ 8
    → ((m : ℕ) → raw_base m zs ≡ pad m [])
    → raw_ext 3 (after_dot zs) ≡ pad 3 ext
    → name_to_raw (recase lower base ++ zs) ≡ pad 8 base ++ pad 3 ext
unfolding name_to_raw
back lower base zs ext h fits tail e =
    ap (λ xs. xs ++ raw_ext 3 (after_dot (recase lower base ++ zs)))
      (raw_base-recase lower 8 base zs h fits tail)
    ∙ ap (λ xs. pad 8 base ++ xs) (ap (λ xs. raw_ext 3 xs) (after_dot-recase lower base zs h) ∙ e)

-- Whatever the flags for small letters are, the name that is shown for an entry is turned by
-- `name_to_raw` into the bytes of the entry, if these are a base of up to 8 and an extension of up to 3
-- plain characters, each with blanks behind.
pub name_to_raw-raw_to_name :
    (base ext : List ℕ) (nt_res : ℕ)
    → all_plain base ≡ true
    → all_plain ext ≡ true
    → length base ≤ 8
    → length ext ≤ 3
    → name_to_raw (raw_to_name (pad 8 base ++ pad 3 ext) nt_res) ≡ pad 8 base ++ pad 3 ext
unfolding after_dot shown_ext
name_to_raw-raw_to_name base [] nt_res hb he fits fits' =
    ap (λ xs. name_to_raw xs)
      (raw_to_name-pad base (pad 3 []) nt_res
        ∙ ap (λ xs. xs ++ []) (shown-pad (lower_base nt_res) 8 base hb fits))
    ∙ back (lower_base nt_res) base [] [] hb fits raw_base_nil
        (raw_ext-recase false 3 [] refl (omega arith))
name_to_raw-raw_to_name base (c ∷ cs) nt_res hb he fits fits' =
    ap (λ xs. name_to_raw xs)
      (raw_to_name-pad base (pad 3 (c ∷ cs)) nt_res
        ∙ ap (λ xs. xs ++ shown_ext nt_res (pad 3 (c ∷ cs)))
            (shown-pad (lower_base nt_res) 8 base hb fits)
        ∙ ap (λ xs. recase (lower_base nt_res) base ++ xs) (shown_ext-pad c cs nt_res he fits'))
    ∙ back (lower_base nt_res) base (dot ∷ recase (lower_ext nt_res) (c ∷ cs)) (c ∷ cs) hb fits
        (λ m. raw_base-dot m _) (raw_ext-recase (lower_ext nt_res) 3 (c ∷ cs) he fits')

abbrev no_dot : List ℕ → Bool
no_dot [] = true
no_dot (c ∷ cs) = not (c == dot) && no_dot cs

get_or-raw_base : (n d : ℕ) (cs zs : List ℕ) → get_or (raw_base n cs ++ zs) n d ≡ get_or zs 0 d
unfolding raw_base
get_or-raw_base zero d cs zs = refl
get_or-raw_base (suc n) d [] zs = get_or-raw_base n d [] zs
get_or-raw_base (suc n) d (c ∷ cs) zs = elim (Bool-cases (c == dot)) [
  | inl at ↦ rw at (get_or-raw_base n d (c ∷ cs) zs)
  | inr on ↦ rw on (get_or-raw_base n d cs zs)
]

no_dot-head : (c : ℕ) (cs : List ℕ) → no_dot (c ∷ cs) ≡ true → (c == dot) ≡ false
no_dot-head c cs h = ground arith

after_dot-take :
    (n : ℕ) (base zs : List ℕ)
    → no_dot base ≡ true
    → n ≤ length base
    → after_dot (take n (base ++ zs)) ≡ []
unfolding after_dot
after_dot-take zero base zs h long = refl
after_dot-take (suc n) [] zs h long = absurd (omega arith)
after_dot-take (suc n) (c ∷ cs) zs h long =
    rw (no_dot-head c cs h) (after_dot-take n cs zs (ground arith) (omega arith))

after_dot-base : (base zs : List ℕ) → no_dot base ≡ true → after_dot (base ++ dot ∷ zs) ≡ zs
unfolding after_dot
after_dot-base [] zs h = refl
after_dot-base (c ∷ cs) zs h = rw (no_dot-head c cs h) (after_dot-base cs zs (ground arith))

-- A component whose base has 12 or more characters, none a dot, and that has an extension, is looked
-- up under another name on disk than the one that `fat32_create` writes for it.
pub component_raw-ne-name_to_raw :
    (base : List ℕ) (c : ℕ) (cs : List ℕ)
    → no_dot base ≡ true
    → 12 ≤ length base
    → to_upper c ≢ blank
    → component_raw (base ++ dot ∷ c ∷ cs) ≢ name_to_raw (base ++ dot ∷ c ∷ cs)
unfolding component_raw name_to_raw raw_ext
component_raw-ne-name_to_raw base c cs h long ne e = ne (
    sym (
      sym (
        get_or-raw_base 8 0 (take 12 name) (raw_ext 3 (after_dot (take 12 name)))
        ∙ ap (λ xs. get_or (raw_ext 3 xs) 0 0) (after_dot-take 12 base (dot ∷ c ∷ cs) h long))
      ∙ ap (λ xs. get_or xs 8 0) e
      ∙ get_or-raw_base 8 0 name (raw_ext 3 (after_dot name))
      ∙ ap (λ xs. get_or (raw_ext 3 xs) 0 0) (after_dot-base base (c ∷ cs) h)))
  where
    name : List ℕ
    name = base ++ dot ∷ c ∷ cs
