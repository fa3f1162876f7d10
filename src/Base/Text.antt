-- ===== src/Base/Text.antt =====
-- What the program uses of Go's `strings`, `fmt` and `path/filepath`, over whole characters. A
-- search for one text in another finds the same places there as over the bytes of the UTF-8.
use Prim.Native.Nat.{ℕ, ◌-◌, ◌/◌, ◌%◌}
use Prim.Native.Char.{Char, code}
use Prim.Native.String.{char_at}
use Prim.Native.String.{String, [], ◌∷◌, ◌++◌ as ◌<>◌}
use mathlib.Core.Bool.{Bool, ◌&&◌, ◌||◌}
use mathlib.Core.List.{List}
use mathlib.Core.Option
use mathlib.Core.Option.{Option, none, some}
use text.Mathlib.Text.{◌==◌}
use vm_to_quadlet.Base.Tests.{ltb, leb, eqb, if◌then◌else◌, is_some}

-- The text behind a prefix, if it has it.
unfoldable pub cut_prefix : String → String → Option String
cut_prefix s [] = some s
cut_prefix [] (d ∷ t) = none
cut_prefix (c ∷ s) (d ∷ t) =
    let rest = cut_prefix s t in if eqb (code c) (code d) then rest else none

-- strings.HasPrefix
unfoldable pub has_prefix : String → String → Bool
unfolding cut_prefix
has_prefix s prefix = is_some (cut_prefix s prefix)

-- strings.TrimPrefix
unfoldable pub trim_prefix : String → String → String
unfolding cut_prefix
trim_prefix s prefix = elim (cut_prefix s prefix) [ none ↦ s | some rest ↦ rest ]

-- The text in front of a suffix, if it has it.
unfoldable pub cut_suffix : String → String → Option String
cut_suffix [] suffix = if [] == suffix then some [] else none
cut_suffix (c ∷ s) suffix =
    let rest = Option.map (λ t. c ∷ t) (cut_suffix s suffix) in
    if (c ∷ s) == suffix then some [] else rest

-- strings.HasSuffix
unfoldable pub has_suffix : String → String → Bool
unfolding cut_suffix
has_suffix s suffix = is_some (cut_suffix s suffix)

-- `strings.Index(s, t)` with the two slices `s[:idx]` and `s[idx:]`; `none` where it answers -1.
unfoldable pub split_at : String → String → Option (String × String)
unfolding has_prefix
split_at [] t = if has_prefix [] t then some ([], []) else none
split_at (c ∷ s) t =
    let later = Option.map (λ (before, after). (c ∷ before, after)) (split_at s t) in
    if has_prefix (c ∷ s) t then some ([], c ∷ s) else later

-- strings.Contains
unfoldable pub contains : String → String → Bool
unfolding split_at
contains s t = is_some (split_at s t)

-- `strings.LastIndex(s, c)` for a text of one character, with the slice behind it.
unfoldable pub after_last : Char → String → Option String
after_last d [] = none
after_last d (c ∷ s) = elim (after_last d s) [
  | some rest ↦ some rest
  | none ↦ if eqb (code c) (code d) then some s else none
]

unfoldable pub map_chars : (Char → Char) → String → String
map_chars f [] = []
map_chars f (c ∷ s) = f c ∷ map_chars f s

-- Lower case of the ASCII letters, and of the only two other characters (U+0130, U+212A) whose
-- lower case is an ASCII letter. Other letters are left as they are.
unfoldable pub lower_char : Char → Char
lower_char c =
    if leb b'A' (code c) && leb (code c) b'Z'
    then char_at "abcdefghijklmnopqrstuvwxyz" (code c - b'A')
    else if eqb (code c) 0x130
    then "i"
    else if eqb (code c) 0x212a
    then "k"
    else c

-- strings.ToLower
unfoldable pub to_lower : String → String
unfolding map_chars lower_char
to_lower = map_chars lower_char

-- `strings.ReplaceAll(s, a, b)` for texts of one character.
unfoldable pub replace_char : Char → Char → String → String
unfolding map_chars
replace_char a b = map_chars (λ c. if eqb (code c) (code a) then b else c)

-- strings.Join
unfoldable pub join : String → List String → String
join sep List.[] = ""
join sep (List.◌∷◌ s List.[]) = s
join sep (List.◌∷◌ s (List.◌∷◌ t rest)) = s <> sep <> join sep (List.◌∷◌ t rest)

hex_digit : ℕ → Char
hex_digit n = char_at "0123456789abcdef" n

escape_char : Char → String
unfolding hex_digit
escape_char c =
    if eqb (code c) 34
    then "\\\""
    else if eqb (code c) 92
    then "\\\\"
    else if eqb (code c) 7
    then "\\a"
    else if eqb (code c) 8
    then "\\b"
    else if eqb (code c) 9
    then "\\t"
    else if eqb (code c) 10
    then "\\n"
    else if eqb (code c) 11
    then "\\v"
    else if eqb (code c) 12
    then "\\f"
    else if eqb (code c) 13
    then "\\r"
    else if ltb (code c) 32 || eqb (code c) 127
    then "\\x" <> (hex_digit (code c / 16) ∷ hex_digit (code c % 16) ∷ [])
    else c ∷ []

escape : String → String
unfolding escape_char
escape [] = ""
escape (c ∷ s) = escape_char c <> escape s

-- The verb %q on a text. Characters beyond ASCII are taken as printable.
unfoldable pub quote : String → String
unfolding escape
quote s = "\"" <> escape s <> "\""

-- The characters behind the last slash, if there is one.
strip_slashes : String → String
strip_slashes [] = []
strip_slashes (c ∷ s) =
    let rest = strip_slashes s in if eqb (code c) b'/' && rest == "" then [] else c ∷ rest

-- filepath.Base
unfoldable pub base : String → String
unfolding strip_slashes after_last
base path =
    if path == ""
    then "."
    else let trimmed = strip_slashes path in
      if trimmed == ""
      then "/"
      else elim (after_last "/" trimmed) [ none ↦ trimmed | some rest ↦ rest ]
