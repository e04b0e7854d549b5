-- ===== src/Common/Text.antt =====
-- Texts: the tests of the package `strings` that the code calls, and lists of texts.
use Prim.Native.Nat.{ℕ, ◌-◌}
use Prim.Native.Char.{Char, code}
use Prim.Native.String.{String, char_at}
use Prim.Native.String.{◌++◌ as ◌<>◌}
use mathlib.Core.Path.{◌≡◌, refl}
use mathlib.Core.Bool.{Bool, true, false, ◌&&◌, ◌||◌}
use mathlib.Core.List.{List, [], ◌∷◌, ◌++◌}
use native.Mathlib.Omega.{arith}
use text.Mathlib.Text.{◌==◌, starts_with}
use fun_project.Common.Tests.{leb, nat_eq, if◌then◌else◌}

-- unicode.IsSpace
unfoldable pub is_space : ℕ → Bool
is_space c =
    leb 0x09 c && leb c 0x0d
    || nat_eq c 0x20
    || nat_eq c 0x85
    || nat_eq c 0xa0
    || nat_eq c 0x1680
    || leb 0x2000 c && leb c 0x200a
    || nat_eq c 0x2028
    || nat_eq c 0x2029
    || nat_eq c 0x202f
    || nat_eq c 0x205f
    || nat_eq c 0x3000

-- strings.TrimSpace(s) == ""
unfoldable pub is_blank : String → Bool
unfolding is_space
is_blank String.[] = true
is_blank (String.◌∷◌ c s) = is_space (code c) && is_blank s

trim_start : String → String
unfolding is_space
trim_start String.[] = ""
trim_start (String.◌∷◌ c s) =
    let rest = trim_start s in if is_space (code c) then rest else String.◌∷◌ c s

trim_end : String → String
unfolding is_blank is_space
trim_end String.[] = ""
trim_end (String.◌∷◌ c s) =
    let rest = trim_end s in if is_blank (String.◌∷◌ c s) then "" else String.◌∷◌ c rest

-- strings.TrimSpace
unfoldable pub trim_space : String → String
unfolding trim_start trim_end
trim_space s = trim_end (trim_start s)

-- The word that the text begins with, and the words after it.
words_from : String → String × List String
unfolding is_space
words_from String.[] = ("", [])
words_from (String.◌∷◌ c s) =
    let rest : String × List String = words_from s in
    if is_space (code c)
    then ("", (if rest.0 == "" then rest.1 else rest.0 ∷ rest.1))
    else (String.◌∷◌ c rest.0, rest.1)

-- strings.Fields
unfoldable pub words : String → List String
unfolding words_from
words s =
    let rest : String × List String = words_from s in
    if rest.0 == "" then rest.1 else rest.0 ∷ rest.1

-- The letters whose lower case is an ASCII letter: A to Z, and U+0130 and U+212A.
unfoldable pub lower_ascii : Char → Char
lower_ascii c =
    if leb 0x41 (code c) && leb (code c) 0x5a
    then char_at "abcdefghijklmnopqrstuvwxyz" (code c - 0x41)
    else (if nat_eq (code c) 0x130 then "i" else (if nat_eq (code c) 0x212a then "k" else c))

-- strings.ToLower, for a reader that looks for ASCII characters only: other letters stay as they are.
unfoldable pub lowered : String → String
unfolding lower_ascii
lowered String.[] = ""
lowered (String.◌∷◌ c s) = String.◌∷◌ (lower_ascii c) (lowered s)

-- strings.Contains
unfoldable pub contains : String → String → Bool
contains String.[] needle = needle == ""
contains (String.◌∷◌ c s) needle = starts_with (String.◌∷◌ c s) needle || contains s needle

-- strings.Join(ws, " ")
unfoldable pub join_words : List String → String
join_words [] = ""
join_words (w ∷ []) = w
join_words (w ∷ v ∷ ws) = w <> (" " <> join_words (v ∷ ws))

unfoldable pub mem_text : String → List String → Bool
mem_text k [] = false
mem_text k (x ∷ xs) = x == k || mem_text k xs

pub mem_text-append :
    (k : String) (xs ys : List String) → mem_text k (xs ++ ys) ≡ (mem_text k xs || mem_text k ys)
unfolding mem_text
mem_text-append k [] ys = refl
mem_text-append k (x ∷ xs) ys = ground (arith, mem_text-append k xs ys)
