-- ===== src/Quadlet/Render/Insertion.antt =====
-- Reading a text with lines put into it: they stand in the section that was open there.
use Prim.Native.Char.{Char, code}
use Prim.Native.String.{String, [], ◌∷◌, ◌++◌ as ◌<>◌}
use mathlib.Core.List.{List, ◌++◌}
use mathlib.Core.Option
use mathlib.Core.Option.{Option, none, some}
use text.Mathlib.TextLemmas.{nil-append, cons-append}
use vm_to_quadlet.Base.{
  ◌≡◌, refl, sym, ap, ◌∙◌, inl, inr, subst, true, arith, eqb, Bool-cases, Option-cases, All,
}
use vm_to_quadlet.Base.Text.{cut_prefix, has_prefix, split_at}
use text.Mathlib.TextEquality.{Char-path}
use vm_to_quadlet.Quadlet.Render.{Directive, write_directives}
use vm_to_quadlet.Quadlet.Render.Parse.{
  push_head, split_lines, split_eq, section_name, parse_lines, parse_unit,
}
use vm_to_quadlet.Quadlet.Render.Reading.{HasKey, HasLine, placed, parse-directives, single-append}

-- The section that is open behind the lines.
unfoldable pub section_after : String → List String → String
unfolding section_name
section_after section List.[] = section
section_after section (List.◌∷◌ l ls) = elim (section_name l) [
  | some name ↦ section_after name ls
  | none ↦ section_after section ls
]

-- The section that is open at the end of a text.
unfoldable pub last_section : String → String
unfolding section_after split_lines
last_section text = section_after "" (split_lines text)

parse_lines-append :
    (section : String) (ls ms : List String)
    → parse_lines section (ls ++ ms)
      ≡ parse_lines section ls ++ parse_lines (section_after section ls) ms
unfolding parse_lines section_after
parse_lines-append section List.[] ms = refl
parse_lines-append section (List.◌∷◌ l ls) ms = elim (Option-cases (section_name l)) [
  | inl text ↦ elim (Option-cases (split_eq l)) [
    | inl nothing ↦
        rw (text, nothing, parse_lines, section_after) (parse_lines-append section ls ms)
    | inr (pair, e) ↦
        rw (text, e, parse_lines, section_after)
          (ap (λ ps. List.◌∷◌ (section, pair.0, pair.1) ps) (parse_lines-append section ls ms))
  ]
  | inr (name, e) ↦ rw (e, parse_lines, section_after) (parse_lines-append name ls ms)
]

push_head-nonempty :
    (c : Char) (ls : List String)
    → (l : String) × (ms : List String) × (push_head c ls ≡ List.◌∷◌ l ms)
push_head-nonempty c List.[] = (c ∷ [], List.[], refl)
push_head-nonempty c (List.◌∷◌ l ls) = (c ∷ l, ls, refl)

split_lines-nonempty :
    (s : String) → (l : String) × (ls : List String) × (split_lines s ≡ List.◌∷◌ l ls)
unfolding split_lines
split_lines-nonempty [] = ("", List.[], refl)
split_lines-nonempty (c ∷ s) = elim (Bool-cases (eqb (code c) 10)) [
  | inl ends ↦ ("", split_lines s, rw (split_lines, ends) refl)
  | inr goes ↦
      let (l, ls, e) = push_head-nonempty c (split_lines s) in (l, ls, rw (split_lines, goes) e)
]

push_head-append :
    (c : Char) (s : String) (ms : List String)
    → push_head c (split_lines s ++ ms) ≡ push_head c (split_lines s) ++ ms
unfolding split_lines
push_head-append c s ms = let (l, ls, e) = split_lines-nonempty s in rw e refl

split_lines-append : (s t : String) → split_lines (s <> "\n" <> t) ≡ split_lines s ++ split_lines t
unfolding split_lines
split_lines-append [] t = rw (nil-append ("\n" <> t), single-append "\n" t) refl
split_lines-append (c ∷ s) t = elim (Bool-cases (eqb (code c) 10)) [
  | inl ends ↦
      rw (cons-append c s ("\n" <> t), ends) (ap (λ ls. List.◌∷◌ "" ls) (split_lines-append s t))
  | inr goes ↦
      rw (cons-append c s ("\n" <> t), goes)
        (ap (push_head c) (split_lines-append s t) ∙ push_head-append c s (split_lines t))
]

-- Two texts with a line end between them are read one after the other.
pub parse_unit-append :
    (s t : String)
    → parse_unit (s <> "\n" <> t) ≡ parse_unit s ++ parse_lines (last_section s) (split_lines t)
unfolding parse_unit last_section
parse_unit-append s t =
    ap (parse_lines "") (split_lines-append s t)
    ∙ parse_lines-append "" (split_lines s) (split_lines t)

-- A search that finds something cuts the text in two, the second part beginning with what is
-- searched for.
abbrev Cut : String → String → Option (String × String) → Type 0
Cut s t none = Unit
Cut s t (some (before, after)) = (s ≡ before <> after) × (has_prefix after t ≡ true)

abbrev behind : Char → String × String → String × String
behind c (before, after) = (c ∷ before, after)

Cut-later :
    (c : Char) (s t : String) (o : Option (String × String))
    → Cut s t o
    → Cut (c ∷ s) t (Option.map (behind c) o)
Cut-later c s t none h = tt
Cut-later c s t (some (before, after)) (e, p) =
    (ap (λ u. c ∷ u) e ∙ sym (cons-append c before after), p)

split_at-Cut : (s t : String) → Cut s t (split_at s t)
unfolding split_at
split_at-Cut [] t = elim (Bool-cases (has_prefix [] t)) [
  | inl found ↦ rw found (sym (nil-append ""), found)
  | inr other ↦ rw other tt
]
split_at-Cut (c ∷ s) t = elim (Bool-cases (has_prefix (c ∷ s) t)) [
  | inl found ↦ rw (split_at, found) (sym (nil-append (c ∷ s)), found)
  | inr other ↦ rw (split_at, other) (Cut-later c s t (split_at s t) (split_at-Cut s t))
]

begins_with :
    (text : String) (d : Char) (marker : String)
    → has_prefix text (d ∷ marker) ≡ true
    → (rest : String) × (text ≡ d ∷ rest)
unfolding has_prefix cut_prefix
begins_with [] d marker h = cc
begins_with (c ∷ s) d marker h = elim (Bool-cases (eqb (code c) (code d))) [
  | inl same ↦ (s, ap (λ e. e ∷ s) (Char-path c d (ground (arith, same))))
  | inr other ↦ absurd (ground (arith, rw other at h))
]

-- The text in front of a section that begins behind a line end, and the text behind that line end.
pub cut_before_section :
    (content marker before after : String)
    → split_at content ("\n" <> marker) ≡ some (before, after)
    → (rest : String) × (after ≡ "\n" <> rest) × (content ≡ before <> "\n" <> rest)
cut_before_section content marker before after h =
    let (e, p) : Cut content ("\n" <> marker) (some (before, after)) =
      subst (Cut content ("\n" <> marker)) h (split_at-Cut content ("\n" <> marker)) in
    let (rest, q) =
      begins_with after "\n" marker (ap (has_prefix after) (sym (single-append "\n" marker)) ∙ p) in
    let r = q ∙ sym (single-append "\n" rest) in (rest, r, e ∙ ap (λ a. before <> a) r)

-- Lines put behind a text stand in its last section, and what comes behind them is read as before.
pub parse_unit-inserted :
    (before rest : String) (ds : List Directive)
    → All HasKey ds
    → All HasLine ds
    → parse_unit (before <> "\n" <> write_directives ds <> "\n" <> rest)
      ≡ parse_unit before
        ++ (placed (last_section before) ds ++ parse_lines (last_section before) (split_lines rest))
unfolding parse_lines split_lines section_name split_eq
parse_unit-inserted before rest ds keys lines =
    parse_unit-append before (write_directives ds <> "\n" <> rest)
    ∙ ap (λ ps. parse_unit before ++ ps)
        (parse-directives (last_section before) ds ("\n" <> rest) keys lines
          ∙ ap
              (λ text.
                placed (last_section before) ds
                ++ parse_lines (last_section before) (split_lines text))
              (single-append "\n" rest))
