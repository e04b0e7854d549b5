-- ===== src/Serving/Topics/Names.antt =====
-- serving/internal/wiki/topics.go: the directory of an entity, and the ids and titles made of directories.
-- A text is a list of characters, where the source has bytes; the characters it looks for are ASCII.
use Prim.Native.Char.{Char, code, len_utf8}
use Prim.Native.String.{char_at}
use Prim.Native.String.{◌++◌ as ◌<>◌}
use fun_project.Common.{
  join_words, lower_ascii, ℕ, String, Bool, true, false, ◌&&◌, ◌||◌, some, List, [], ◌∷◌, ◌==◌, leb,
  ltb, nat_eq, ◌-◌, zero, suc, if◌then◌else◌, is_blank, trim_space, words, map,
}
use fun_project.Storage.Schema.Json.{text, Fields, get_field}
use fun_project.Serving.Client.{Z4Entity}

abbrev pub misc_dir : String
misc_dir = "misc"

-- v, ok := p[k]; s, ok := v.(string)
unfoldable pub text_at : Fields → String → String
unfolding get_field
text_at p k = elim (get_field k p) [ some (text s) ↦ s | _ ↦ "" ]

unfoldable pub str_prop : Fields → List String → String
unfolding text_at is_blank trim_space
str_prop p [] = ""
str_prop p (k ∷ ks) =
    let rest = str_prop p ks in if is_blank (text_at p k) then rest else trim_space (text_at p k)

-- strings.ReplaceAll(p, "\\", "/")
unfoldable pub with_slashes : String → String
with_slashes String.[] = ""
with_slashes (String.◌∷◌ c s) =
    String.◌∷◌ (if nat_eq (code c) 0x5c then "/" else c) (with_slashes s)

-- strings.TrimLeft(p, "./")
unfoldable pub without_dots : String → String
without_dots String.[] = ""
without_dots (String.◌∷◌ c s) =
    let rest = without_dots s in
    if nat_eq (code c) 0x2e || nat_eq (code c) 0x2f then rest else String.◌∷◌ c s

unfoldable pub before_slash : String → String
before_slash String.[] = ""
before_slash (String.◌∷◌ c s) =
    let rest = before_slash s in if nat_eq (code c) 0x2f then "" else String.◌∷◌ c rest

unfoldable pub has_slash : String → Bool
has_slash String.[] = false
has_slash (String.◌∷◌ c s) = nat_eq (code c) 0x2f || has_slash s

unfoldable pub before_last_slash : String → String
unfolding has_slash
before_last_slash String.[] = ""
before_last_slash (String.◌∷◌ c s) =
    let rest = before_last_slash s in if has_slash s then String.◌∷◌ c rest else ""

unfoldable pub top_segment : String → String
unfolding with_slashes without_dots before_slash
top_segment p =
    let top = before_slash (without_dots (with_slashes p)) in if top == "" then "root" else top

unfoldable pub path_dir : String → String
unfolding with_slashes before_last_slash
path_dir p = before_last_slash (with_slashes p)

unfoldable pub dir_of_name : String → String
unfolding has_slash path_dir top_segment
dir_of_name name =
    if has_slash name
    then (if path_dir name == "" then misc_dir else top_segment (path_dir name))
    else misc_dir

unfoldable pub dir_key_of : Z4Entity → String
unfolding str_prop path_dir top_segment dir_of_name
dir_key_of e =
    let d = str_prop e.properties ("dir" ∷ []) in
    let f = str_prop e.properties ("file" ∷ "path" ∷ []) in
    let pkg = str_prop e.properties ("package" ∷ []) in
    if d == ""
    then (if f == ""
        then (if pkg == "" then dir_of_name e.canonical_name else top_segment pkg)
        else (if path_dir f == "" then "root" else top_segment (path_dir f)))
    else top_segment d

-- r >= 'a' && r <= 'z', r >= '0' && r <= '9'
unfoldable pub is_alnum : ℕ → Bool
is_alnum c = leb 0x61 c && leb c 0x7a || leb 0x30 c && leb c 0x39

-- '-', '_', ' ', '/' and '.'
unfoldable pub is_separator : ℕ → Bool
is_separator c = nat_eq c 0x2d || nat_eq c 0x5f || nat_eq c 0x20 || nat_eq c 0x2f || nat_eq c 0x2e

unfoldable pub slug_text : String → String
unfolding lower_ascii is_alnum is_separator
slug_text String.[] = ""
slug_text (String.◌∷◌ c s) =
    let rest = slug_text s in
    let r = lower_ascii c in
    if is_alnum (code r)
    then String.◌∷◌ r rest
    else (if is_separator (code r) then "-" <> rest else rest)

is_dashes : String → Bool
is_dashes String.[] = true
is_dashes (String.◌∷◌ c s) = nat_eq (code c) 0x2d && is_dashes s

dashes_off_start : String → String
dashes_off_start String.[] = ""
dashes_off_start (String.◌∷◌ c s) =
    let rest = dashes_off_start s in if nat_eq (code c) 0x2d then rest else String.◌∷◌ c s

dashes_off_end : String → String
unfolding is_dashes
dashes_off_end String.[] = ""
dashes_off_end (String.◌∷◌ c s) =
    let rest = dashes_off_end s in if is_dashes (String.◌∷◌ c s) then "" else String.◌∷◌ c rest

-- strings.Trim(s, "-")
unfoldable pub without_dashes : String → String
unfolding dashes_off_start dashes_off_end
without_dashes s = dashes_off_end (dashes_off_start s)

unfoldable pub slug : String → String
unfolding slug_text without_dashes
slug d = let s = without_dashes (slug_text d) in if s == "" then misc_dir else s

-- strings.NewReplacer("-", " ", "_", " ", "/", " ").Replace(d)
unfoldable pub with_spaces : String → String
with_spaces String.[] = ""
with_spaces (String.◌∷◌ c s) =
    let rest = with_spaces s in
    if nat_eq (code c) 0x2d || nat_eq (code c) 0x5f || nat_eq (code c) 0x2f
    then " " <> rest
    else String.◌∷◌ c rest

unfoldable pub upper_ascii : Char → Char
upper_ascii c =
    if leb 0x61 (code c) && leb (code c) 0x7a
    then char_at "ABCDEFGHIJKLMNOPQRSTUVWXYZ" (code c - 0x61)
    else c

unfoldable pub unreadable : ℕ → String
unreadable zero = ""
unreadable (suc n) = String.◌∷◌ (Char.char 0xfffd tt) (unreadable n)

-- strings.ToUpper(f[:1]) + f[1:]: f[:1] is a byte. Of a longer character it leaves bytes that are no text,
-- which are written here as the JSON encoder writes them, each as U+FFFD.
unfoldable pub upper_first : String → String
unfolding upper_ascii unreadable
upper_first String.[] = ""
upper_first (String.◌∷◌ c s) =
    if ltb (code c) 0x80 then String.◌∷◌ (upper_ascii c) s else unreadable (len_utf8 c) <> s

unfoldable pub title_of : List String → String
unfolding upper_first join_words
title_of [] = "Miscellaneous"
title_of (w ∷ ws) = join_words (map upper_first (w ∷ ws))

unfoldable pub humanize : String → String
unfolding with_spaces words title_of
humanize d = if d == misc_dir then "Miscellaneous" else title_of (words (with_spaces d))
