-- ===== src/Prelude/Text.antt =====
-- What the code uses of Go's strings: TrimSpace, IndexFunc with unicode.IsControl, and the anchored
-- patterns `^[head][rest]{0,n}$`. A text is a sequence of code points; `len` counts its bytes.
use Prim.Native.Nat.{ℕ, zero, suc}
use Prim.Native.Char.{Char, code}
use Prim.Native.String.{String, ◌++◌ as str_append}
use text.Mathlib.Text.{◌==◌ as str_eq}
use mathlib.Core.Bool.{Bool, true, false, ◌&&◌, ◌||◌}
use mathlib.Core.List.{List, [], ◌∷◌}
use complicatedauth_backend.Prelude.Tests.{leb, ◌==◌, if◌then◌else◌}

-- unicode.IsSpace
abbrev pub is_space : ℕ → Bool
is_space c =
    (leb 9 c && leb c 13)
    || c == 32
    || c == 0x85
    || c == 0xA0
    || c == 0x1680
    || (leb 0x2000 c && leb c 0x200A)
    || c == 0x2028
    || c == 0x2029
    || c == 0x202F
    || c == 0x205F
    || c == 0x3000

-- unicode.IsControl: the category Cc
abbrev pub is_control : ℕ → Bool
is_control c = leb c 31 || (leb 127 c && leb c 159)

unfoldable pub trim_left : String → String
trim_left String.[] = String.[]
trim_left (String.◌∷◌ c s) = if is_space (code c) then trim_left s else String.◌∷◌ c s

unfoldable pub trim_right : String → String
trim_right String.[] = String.[]
trim_right (String.◌∷◌ c s) =
    let rest = trim_right s in
    if str_eq rest "" && is_space (code c) then String.[] else String.◌∷◌ c rest

-- strings.TrimSpace
unfoldable pub trim_space : String → String
unfolding trim_left trim_right
trim_space s = trim_right (trim_left s)

-- strings.IndexFunc(s, p) >= 0
unfoldable pub any_code : (ℕ → Bool) → String → Bool
any_code p String.[] = false
any_code p (String.◌∷◌ c s) = p (code c) || any_code p s

-- `[class]{0,n}$`
unfoldable pub class_upto : (ℕ → Bool) → ℕ → String → Bool
class_upto p n String.[] = true
class_upto p zero (String.◌∷◌ c s) = false
class_upto p (suc n) (String.◌∷◌ c s) = p (code c) && class_upto p n s

-- `^[head][rest]{0,n}$`
unfoldable pub matches : (ℕ → Bool) → (ℕ → Bool) → ℕ → String → Bool
unfolding class_upto
matches head rest n String.[] = false
matches head rest n (String.◌∷◌ c s) = head (code c) && class_upto rest n s

abbrev pub is_lower : ℕ → Bool
is_lower c = leb b'a' c && leb c b'z'

abbrev pub is_digit : ℕ → Bool
is_digit c = leb b'0' c && leb c b'9'

-- `[a-z0-9_]` and `[a-z0-9_.]`
abbrev pub is_word : ℕ → Bool
is_word c = is_lower c || is_digit c || c == b'_'

abbrev pub is_dotted : ℕ → Bool
is_dotted c = is_word c || c == b'.'

-- A word of strings.Fields, if it has begun.
abbrev add_word : String → List String → List String
add_word String.[] words = words
add_word (String.◌∷◌ c s) words = String.◌∷◌ c s ∷ words

unfoldable pub fields_after : String → String → List String
fields_after word String.[] = add_word word []
fields_after word (String.◌∷◌ c s) =
    if is_space (code c)
    then add_word word (fields_after "" s)
    else fields_after (str_append word (String.◌∷◌ c String.[])) s

-- strings.Fields
unfoldable pub fields : String → List String
unfolding fields_after
fields s = fields_after "" s

-- strings.Join(words, " ")
unfoldable pub join : List String → String
join [] = ""
join (word ∷ []) = word
join (word ∷ next ∷ words) = str_append word (str_append " " (join (next ∷ words)))

abbrev prepend : Char → List String → List String
prepend c [] = String.◌∷◌ c String.[] ∷ []
prepend c (word ∷ words) = String.◌∷◌ c word ∷ words

-- strings.Split on a separator of one character
unfoldable pub split_on : ℕ → String → List String
split_on separator String.[] = "" ∷ []
split_on separator (String.◌∷◌ c s) =
    let rest = split_on separator s in if code c == separator then "" ∷ rest else prepend c rest

-- strings.Cut at a separator of one character: what is before, what is after, and whether it is found
unfoldable pub cut : ℕ → String → String × String × Bool
cut separator String.[] = ("", "", false)
cut separator (String.◌∷◌ c s) =
    let (before, after, found) = cut separator s in
    if code c == separator then ("", s, true) else (String.◌∷◌ c before, after, found)
