-- ===== src/Quadlet/Render/Parse.antt =====
-- The reader of a unit's text that the renderer is held to: the directives of the text in order,
-- each with the section that it stands in. A line in brackets opens a section; any other is cut at
-- its first equals sign, and says nothing if it has none.
use Prim.Native.Char.{Char, code}
use Prim.Native.String.{String, [], ◌∷◌}
use mathlib.Core.List.{List}
use mathlib.Core.Option
use mathlib.Core.Option.{Option, none, some}
use vm_to_quadlet.Base.{eqb, if◌then◌else◌}
use vm_to_quadlet.Base.Text.{cut_suffix}

abbrev pub push_head : Char → List String → List String
push_head c List.[] = List.◌∷◌ (c ∷ []) List.[]
push_head c (List.◌∷◌ l ls) = List.◌∷◌ (c ∷ l) ls

-- The lines between the line ends; what stands behind the last one is a line, too.
unfoldable pub split_lines : String → List String
split_lines [] = List.◌∷◌ "" List.[]
split_lines (c ∷ s) =
    let rest = split_lines s in if eqb (code c) 10 then List.◌∷◌ "" rest else push_head c rest

-- The key and the value around the first equals sign.
unfoldable pub split_eq : String → Option (String × String)
split_eq [] = none
split_eq (c ∷ s) =
    let later = Option.map (λ (key, value). (c ∷ key, value)) (split_eq s) in
    if eqb (code c) b'=' then some ("", s) else later

-- The name of a section that a line opens.
unfoldable pub section_name : String → Option String
unfolding cut_suffix
section_name [] = none
section_name (c ∷ s) = if eqb (code c) b'[' then cut_suffix s "]" else none

-- Section, key and value.
abbrev pub Placed : Type 0
Placed = String × String × String

unfoldable pub parse_lines : String → List String → List Placed
unfolding split_eq section_name
parse_lines section List.[] = List.[]
parse_lines section (List.◌∷◌ l ls) = elim (section_name l) [
  | some name ↦ parse_lines name ls
  | none ↦ elim (split_eq l) [
    | none ↦ parse_lines section ls
    | some (key, value) ↦ List.◌∷◌ (section, key, value) (parse_lines section ls)
  ]
]

-- The directives of a unit's text.
unfoldable pub parse_unit : String → List Placed
unfolding parse_lines split_lines
parse_unit text = parse_lines "" (split_lines text)
