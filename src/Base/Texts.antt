-- ===== src/Base/Texts.antt =====
-- The methods of `str` that the code calls, on the characters of a text; letters and white space are
-- those of ASCII. Also `bytes` as lists of numbers.
use Prim.Native.Char.{Char, code}
use Prim.Native.Nat.{ℕ, zero, suc, ◌-◌, ◌%◌}
use Prim.Native.String.{String, char_at, ◌++◌ as concat}
use mathlib.Core.Bool.{Bool, true, false, ◌&&◌, ◌||◌}
use mathlib.Core.List.{List, [], ◌∷◌}
use mathlib.Core.Path.{◌≡◌, refl}
use native.Mathlib.Omega.{arith}
use text.Mathlib.Text.{◌==◌, starts_with}
use dadi_runtime.Base.Tests.{if◌then◌else◌, leb, nat_eq, nat_eq_self, nat_eq_iff_l}

abbrev is_space : Char → Bool
is_space c = leb 9 (code c) && leb (code c) 13 || leb 28 (code c) && leb (code c) 32

-- `s.lstrip()`
unfoldable pub strip_left : String → String
strip_left String.[] = String.[]
strip_left (String.◌∷◌ c s) = let rest = strip_left s in if is_space c then rest else String.◌∷◌ c s

unfoldable pub strip_right_by : (Char → Bool) → String → String
strip_right_by p String.[] = String.[]
strip_right_by p (String.◌∷◌ c s) =
    let rest = strip_right_by p s in if p c && rest == "" then String.[] else String.◌∷◌ c rest

-- `s.strip()`
unfoldable pub strip : String → String
unfolding strip_left strip_right_by
strip s = strip_right_by is_space (strip_left s)

-- `s.rstrip("=")`
unfoldable pub strip_padding : String → String
unfolding strip_right_by
strip_padding s = strip_right_by (λ c. nat_eq (code c) b'=') s

abbrev lower_char : Char → Char
lower_char c =
    if leb b'A' (code c) && leb (code c) b'Z'
    then char_at "abcdefghijklmnopqrstuvwxyz" (code c - b'A')
    else c

-- `s.lower()`
unfoldable pub lower : String → String
lower String.[] = String.[]
lower (String.◌∷◌ c s) = String.◌∷◌ (lower_char c) (lower s)

abbrev begin_part : Char → List String → List String
begin_part c [] = (String.◌∷◌ c "") ∷ []
begin_part c (part ∷ parts) = (String.◌∷◌ c part) ∷ parts

-- `s.split(sep)` for a separator of one character
unfoldable pub split : ℕ → String → List String
split sep String.[] = "" ∷ []
split sep (String.◌∷◌ c s) =
    let rest = split sep s in if nat_eq (code c) sep then "" ∷ rest else begin_part c rest

-- `s.endswith(t)`
unfoldable pub ends_with : String → String → Bool
ends_with String.[] t = t == ""
ends_with (String.◌∷◌ c s) t = (String.◌∷◌ c s) == t || ends_with s t

-- `t in s`
unfoldable pub contains_text : String → String → Bool
contains_text String.[] t = t == ""
contains_text (String.◌∷◌ c s) t = starts_with (String.◌∷◌ c s) t || contains_text s t

-- `len(s)`, in characters
unfoldable pub count : String → ℕ
count String.[] = 0
count (String.◌∷◌ c s) = suc (count s)

-- `"=" * n`
unfoldable pub padding : ℕ → String
padding zero = ""
padding (suc n) = concat "=" (padding n)

-- `"=" * (-len(s) % 4)`
unfoldable pub pad : String → String
unfolding padding count
pad s = padding ((4 - count s % 4) % 4)

-- `a == b` on two `bytes`
unfoldable pub bytes_eq : List ℕ → List ℕ → Bool
bytes_eq [] [] = true
bytes_eq [] (y ∷ ys) = false
bytes_eq (x ∷ xs) [] = false
bytes_eq (x ∷ xs) (y ∷ ys) = nat_eq x y && bytes_eq xs ys

pub bytes_eq_self : (xs : List ℕ) → bytes_eq xs xs ≡ true
unfolding bytes_eq
bytes_eq_self [] = refl
bytes_eq_self (x ∷ xs) = rw (nat_eq_self x) (bytes_eq_self xs)

pub bytes_eq_sound : (xs ys : List ℕ) → bytes_eq xs ys ≡ true → xs ≡ ys
unfolding bytes_eq
bytes_eq_sound [] [] h = refl
bytes_eq_sound [] (y ∷ ys) h = absurd (ground arith)
bytes_eq_sound (x ∷ xs) [] h = absurd (ground arith)
bytes_eq_sound (x ∷ xs) (y ∷ ys) h = ground (arith, nat_eq_iff_l x y, bytes_eq_sound xs ys)

stripped : strip "  a b " ≡ "a b"
unfolding strip
stripped = refl

lowered : lower "Bearer X1" ≡ "bearer x1"
unfolding lower
lowered = refl

splits : split b'.' "a.bc." ≡ "a" ∷ "bc" ∷ "" ∷ []
unfolding split
splits = refl

ends : ends_with "/artifacts/x/content" "/content" ≡ true
unfolding ends_with
ends = refl

padded : pad "abcde" ≡ "==="
unfolding pad
padded = refl
