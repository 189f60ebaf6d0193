-- ===== src/Fs/Fat/Name.antt =====
-- The names of fat32.c: 8.3 names on disk and as they are shown. A name is the list of its
-- characters, without the null at its end; a name on disk is its 11 bytes.
pub mod RoundTrip
use vinix_os.Base.{
  ℕ, zero, suc, ◌+◌, ◌-◌, ◌/◌, ◌%◌, ◌^◌, ◌≡◌, Bool, true, false, not, ◌&&◌, ◌||◌, List, [], ◌∷◌,
  ◌++◌, ◌==◌, leb, if◌then◌else◌, get_or, drop, take,
}

abbrev pub blank : ℕ
blank = 32

abbrev pub dot : ℕ
dot = 46

abbrev pub is_lower : ℕ → Bool
is_lower c = leb 97 c && leb c 122

abbrev pub is_upper : ℕ → Bool
is_upper c = leb 65 c && leb c 90

unfoldable pub to_upper : ℕ → ℕ
to_upper c = if is_lower c then c - 32 else c

unfoldable pub to_lower : ℕ → ℕ
to_lower c = if is_upper c then c + 32 else c

-- The base: up to `room` characters before the dot, and blanks.
unfoldable pub raw_base : (room : ℕ) → List ℕ → List ℕ
raw_base zero cs = []
raw_base (suc n) [] = blank ∷ raw_base n []
raw_base (suc n) (c ∷ cs) =
    if c == dot then blank ∷ raw_base n (c ∷ cs) else to_upper c ∷ raw_base n cs

unfoldable pub after_dot : List ℕ → List ℕ
after_dot [] = []
after_dot (c ∷ cs) = if c == dot then cs else after_dot cs

-- The extension: up to `room` characters, and blanks.
unfoldable pub raw_ext : (room : ℕ) → List ℕ → List ℕ
raw_ext zero cs = []
raw_ext (suc n) [] = blank ∷ raw_ext n []
raw_ext (suc n) (c ∷ cs) = to_upper c ∷ raw_ext n cs

unfoldable pub name_to_raw : List ℕ → List ℕ
name_to_raw name = raw_base 8 name ++ raw_ext 3 (after_dot name)

-- The loops of `raw_to_name`: up to the first blank.
unfoldable pub shown : (lower : Bool) → List ℕ → List ℕ
shown lower [] = []
shown lower (c ∷ cs) = if c == blank then [] else (if lower then to_lower c else c) ∷ shown lower cs

-- NT_RES_LOWER_BASE and NT_RES_LOWER_EXT
abbrev pub lower_base : ℕ → Bool
lower_base nt_res = nt_res / 2 ^ 3 % 2 == 1

abbrev pub lower_ext : ℕ → Bool
lower_ext nt_res = nt_res / 2 ^ 4 % 2 == 1

unfoldable pub raw_to_name : List ℕ → (nt_res : ℕ) → List ℕ
raw_to_name raw nt_res =
    let ext =
      if get_or raw 8 blank == blank
      then []
      else dot ∷ shown (lower_ext nt_res) (take 3 (drop 8 raw)) in
    shown (lower_base nt_res) (take 8 raw) ++ ext

-- `raw_name_eq`
unfoldable pub raw_name_eq : List ℕ → List ℕ → Bool
raw_name_eq [] [] = true
raw_name_eq [] (b ∷ bs) = false
raw_name_eq (a ∷ xs) [] = false
raw_name_eq (a ∷ xs) (b ∷ ys) = (a == b) && raw_name_eq xs ys

abbrev any : (ℕ → Bool) → List ℕ → Bool
any p [] = false
any p (c ∷ cs) = p c || any p cs

unfoldable pub before_dot : List ℕ → List ℕ
before_dot [] = []
before_dot (c ∷ cs) = if c == dot then [] else c ∷ before_dot cs

unfoldable pub detect_nt_res : List ℕ → ℕ
detect_nt_res name =
    let base = before_dot name in
    let ext = after_dot name in
    (if any is_lower base && not (any is_upper base) then 8 else 0)
    + (if any is_lower ext && not (any is_upper ext) then 16 else 0)

-- The name that `resolve_path` looks up for a component: its first 12 characters.
unfoldable pub component_raw : List ℕ → List ℕ
component_raw component = name_to_raw (take 12 component)
