-- ===== src/Core/Text.antt =====
-- The operations of `str` that the program calls, on texts as lists of characters.
use Prim.Native.Char.{Char, code}
use Prim.Native.String
use stackhour.Prelude.{
  ℕ, zero, suc, String, Bool, true, false, List, [], ◌∷◌, ◌==◌, ◌&&◌, ◌||◌, if◌then◌else◌, leb, ◌-◌,
}

abbrev pub same_char : Char → Char → Bool
same_char a b = code a == code b

unfoldable pub has_prefix : (pattern text : String) → Bool
has_prefix String.[] s = true
has_prefix (String.◌∷◌ p ps) String.[] = false
has_prefix (String.◌∷◌ p ps) (String.◌∷◌ c s) = same_char p c && has_prefix ps s

-- the number of characters
unfoldable pub size : String → ℕ
size String.[] = 0
size (String.◌∷◌ c s) = suc (size s)

-- the text from the scan's position on; `skip` counts the characters left of a match
unfoldable pub replace_from : (pattern to : String) (skip : ℕ) → String → String
unfolding has_prefix size
replace_from pattern to skip String.[] = String.[]
replace_from pattern to (suc skip) (String.◌∷◌ c s) = replace_from pattern to skip s
replace_from pattern to zero (String.◌∷◌ c s) =
    let found = String.◌++◌ to (replace_from pattern to (size pattern - 1) s) in
    let kept = String.◌∷◌ c (replace_from pattern to 0 s) in
    if has_prefix pattern (String.◌∷◌ c s) then found else kept

-- `replace`, of a pattern that is not empty
unfoldable pub replace : (pattern to text : String) → String
unfolding replace_from
replace pattern to text = replace_from pattern to 0 text

-- `contains`
unfoldable pub contains : (pattern text : String) → Bool
unfolding has_prefix
contains pattern String.[] = has_prefix pattern String.[]
contains pattern (String.◌∷◌ c s) = has_prefix pattern (String.◌∷◌ c s) || contains pattern s

unfoldable pub join : (separator : String) → List String → String
join separator [] = String.[]
join separator (x ∷ []) = x
join separator (x ∷ y ∷ rest) = String.◌++◌ x (String.◌++◌ separator (join separator (y ∷ rest)))

abbrev pub is_empty : String → Bool
is_empty String.[] = true
is_empty (String.◌∷◌ c s) = false

abbrev pub between : ℕ → ℕ → ℕ → Bool
between lo hi n = leb lo n && leb n hi

-- the code points of Unicode's `White_Space`
abbrev pub is_whitespace : ℕ → Bool
is_whitespace n =
    between 9 13 n
    || (n == 32)
    || (n == 133)
    || (n == 160)
    || (n == 5760)
    || between 8192 8202 n
    || (n == 8232)
    || (n == 8233)
    || (n == 8239)
    || (n == 8287)
    || (n == 12288)

-- `char::is_whitespace`
abbrev pub is_space : Char → Bool
is_space c = is_whitespace (code c)

-- `trim().is_empty()`
unfoldable pub is_blank : String → Bool
is_blank String.[] = true
is_blank (String.◌∷◌ c s) = is_space c && is_blank s

trim_start : String → String
trim_start String.[] = String.[]
trim_start (String.◌∷◌ c s) = let rest = trim_start s in if is_space c then rest else String.◌∷◌ c s

trim_end : String → String
trim_end String.[] = String.[]
trim_end (String.◌∷◌ c s) =
    let rest = trim_end s in if is_space c && is_empty rest then String.[] else String.◌∷◌ c rest

-- `trim`
unfoldable pub trim : String → String
unfolding trim_start trim_end
trim s = trim_end (trim_start s)
