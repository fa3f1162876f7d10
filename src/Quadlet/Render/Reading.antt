-- ===== src/Quadlet/Render/Reading.antt =====
-- How the reader of a unit's text goes over one line, one section and what follows them.
use Prim.Native.Char.{Char, code}
use Prim.Native.String.{String, [], ◌∷◌, ◌++◌ as ◌<>◌}
use mathlib.Core.List.{List, ◌++◌}
use mathlib.Core.Option
use mathlib.Core.Option.{Option, none, some}
use text.Mathlib.TextLemmas.{append_assoc, nil-append, cons-append}
use vm_to_quadlet.Base.{
  ◌≡◌, refl, ap, ◌∙◌, inl, inr, Bool, true, false, not, ◌&&◌, arith, eqb, Bool-cases, All, map,
}
use vm_to_quadlet.Quadlet.Render.{Directive, write_directives, write_header, write_section}
use vm_to_quadlet.Quadlet.Render.Parse.{
  push_head, split_lines, split_eq, section_name, Placed, parse_lines,
}

-- A text of one line.
unfoldable pub is_line : String → Bool
is_line [] = true
is_line (c ∷ s) = let rest = is_line s in not (eqb (code c) 10) && rest

-- A text of one line with no equals sign.
unfoldable pub is_word : String → Bool
is_word [] = true
is_word (c ∷ s) = let rest = is_word s in (not (eqb (code c) 10) && not (eqb (code c) b'=')) && rest

-- A key opens no section.
unfoldable pub is_key : String → Bool
unfolding is_word
is_key [] = false
is_key (c ∷ s) = not (eqb (code c) b'[') && is_word (c ∷ s)

-- A text of one character in front of another is that character and the other.
pub single-append : (c : Char) (s : String) → (c ∷ []) <> s ≡ c ∷ s
single-append c s = cons-append c [] s ∙ ap (λ t. c ∷ t) (nil-append s)

split_lines-line :
    (line rest : String)
    → is_line line ≡ true
    → split_lines (line <> "\n" <> rest) ≡ List.◌∷◌ line (split_lines rest)
unfolding split_lines is_line
split_lines-line [] rest h = rw (nil-append ("\n" <> rest), single-append "\n" rest) refl
split_lines-line (c ∷ s) rest h = elim (Bool-cases (eqb (code c) 10)) [
  | inl ends ↦ absurd (ground (arith, h, ends))
  | inr goes ↦
      rw (cons-append c s ("\n" <> rest), goes)
        (ap (push_head c) (split_lines-line s rest (ground (arith, h))))
]

is_line-pair :
    (key value : String)
    → is_word key ≡ true
    → is_line value ≡ true
    → is_line (key <> "=" <> value) ≡ true
unfolding is_line is_word
is_line-pair [] value h k = rw (nil-append ("=" <> value), single-append "=" value) k
is_line-pair (c ∷ s) value h k =
    rw (cons-append c s ("=" <> value)) (ground (arith, is_line-pair s value))

abbrev behind : Char → String × String → String × String
behind c (key, value) = (c ∷ key, value)

split_eq-pair :
    (key value : String) → is_word key ≡ true → split_eq (key <> "=" <> value) ≡ some (key, value)
unfolding split_eq is_word
split_eq-pair [] value h = rw (nil-append ("=" <> value), single-append "=" value) refl
split_eq-pair (c ∷ s) value h = elim (Bool-cases (eqb (code c) b'=')) [
  | inl ends ↦ absurd (ground (arith, h, ends))
  | inr goes ↦
      rw (cons-append c s ("=" <> value), goes)
        (ap (Option.map (behind c)) (split_eq-pair s value (ground (arith, h))))
]

section_name-pair :
    (key value : String) → is_key key ≡ true → section_name (key <> "=" <> value) ≡ none
unfolding section_name is_key
section_name-pair [] value h = cc
section_name-pair (c ∷ s) value h = elim (Bool-cases (eqb (code c) b'[')) [
  | inl opens ↦ absurd (ground (arith, h, opens))
  | inr other ↦ rw (cons-append c s ("=" <> value), other) refl
]

is_key-is_word : (key : String) → is_key key ≡ true → is_word key ≡ true
unfolding is_key
is_key-is_word [] h = cc
is_key-is_word (c ∷ s) h = ground (arith, h)

-- The directives of a section, with its name.
abbrev pub placed : String → List Directive → List Placed
placed section = map (λ (key, value). (section, key, value))

abbrev pub HasKey : Directive → Type 0
HasKey (key, value) = is_key key ≡ true

abbrev pub HasLine : Directive → Type 0
HasLine (key, value) = is_line value ≡ true

parse_lines-pair :
    (section key value : String) (ls : List String)
    → is_key key ≡ true
    → parse_lines section (List.◌∷◌ (key <> "=" <> value) ls)
      ≡ List.◌∷◌ (section, key, value) (parse_lines section ls)
unfolding parse_lines
parse_lines-pair section key value ls h =
    rw (section_name-pair key value h, split_eq-pair key value (is_key-is_word key h), parse_lines)
      refl

-- The lines of a section are read back one by one.
pub parse-directives :
    (section : String) (ds : List Directive) (rest : String)
    → All HasKey ds
    → All HasLine ds
    → parse_lines section (split_lines (write_directives ds <> rest))
      ≡ placed section ds ++ parse_lines section (split_lines rest)
unfolding write_directives
parse-directives section List.[] rest h k = rw (nil-append rest) refl
parse-directives section (List.◌∷◌ (key, value) ds) rest (h, hs) (k, ks) =
    rw
      (
        append_assoc (key <> "=" <> value) ("\n" <> write_directives ds) rest,
        append_assoc "\n" (write_directives ds) rest,
        split_lines-line (key <> "=" <> value) (write_directives ds <> rest)
            (is_line-pair key value (is_key-is_word key h) k),
        parse_lines-pair section key value (split_lines (write_directives ds <> rest)) h,
      )
      (ap (λ ps. List.◌∷◌ (section, key, value) ps) (parse-directives section ds rest hs ks))

-- A text that is read in the same way in every section.
abbrev pub ReadsAs : String → List Placed → Type 0
ReadsAs text ps = (section : String) → parse_lines section (split_lines text) ≡ ps

-- A text of one line that opens a section of the given name.
abbrev pub Opens : String → Type 0
Opens name = (is_line ("[" <> name <> "]") ≡ true) × (section_name ("[" <> name <> "]") ≡ some name)

pub parse-header :
    (name rest : String) (ps : List Placed)
    → Opens name
    → parse_lines name (split_lines rest) ≡ ps
    → ReadsAs (write_header name <> rest) ps
unfolding write_header parse_lines
parse-header name rest ps (line, opens) h section =
    rw
      (
        append_assoc ("[" <> name <> "]") "\n" rest,
        split_lines-line ("[" <> name <> "]") rest line,
        opens,
        parse_lines,
      )
      h

parse-blank :
    (section rest : String)
    → parse_lines section (split_lines (("" <> "\n") <> rest))
      ≡ parse_lines section (split_lines rest)
unfolding split_lines parse_lines section_name split_eq
parse-blank section rest = rw (nil-append "\n", single-append "\n" rest) refl

-- A whole section.
pub parse-section :
    (name : String) (ds : List Directive) (rest : String) (ps : List Placed)
    → Opens name
    → All HasKey ds
    → All HasLine ds
    → ReadsAs rest ps
    → ReadsAs (write_section name ds <> rest) (placed name ds ++ ps)
unfolding write_section
parse-section name ds rest ps opens keys lines h =
    rw
      (
        append_assoc (write_header name) (write_directives ds <> "" <> "\n") rest,
        append_assoc (write_directives ds) ("" <> "\n") rest,
      )
      (parse-header name (write_directives ds <> ("" <> "\n") <> rest) (placed name ds ++ ps) opens
        (parse-directives name ds (("" <> "\n") <> rest) keys lines
          ∙ ap (λ qs. placed name ds ++ qs) (parse-blank name rest ∙ h name)))
