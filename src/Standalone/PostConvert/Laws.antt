-- ===== src/Standalone/PostConvert/Laws.antt =====
-- Where the lines of step 7 stand, and which files change.
use mathlib.Core.List.{append-nil}
use text.Mathlib.TextLemmas
use vm_to_quadlet.Base.{String, ◌<>◌, ◌≡◌, refl, sym, ap, ◌∙◌, none, some, List, ◌++◌, All}
use vm_to_quadlet.Base.Text.{split_at}
use vm_to_quadlet.Quadlet.Render.{Directive, write_directives}
use vm_to_quadlet.Quadlet.Render.Parse.{split_lines, parse_lines, parse_unit, Placed}
use vm_to_quadlet.Quadlet.Render.Reading.{HasKey, HasLine, placed, parse-directives}
use vm_to_quadlet.Quadlet.Render.Insertion.{
  last_section, parse_unit-append, cut_before_section, parse_unit-inserted,
}
use vm_to_quadlet.Standalone.PostConvert.{insert_before_section}

-- What stands behind the inserted lines, if the section is found.
abbrev pub Reads : String → String → String → List Directive → Type 0
Reads old new before ds =
    (later : List Placed) × (parse_unit old ≡ parse_unit before ++ later)
    × (parse_unit new ≡ parse_unit before ++ (placed (last_section before) ds ++ later))

insertion :
    (content section extra before after : String)
    → split_at content ("\n[" <> section <> "]") ≡ some (before, after)
    → insert_before_section content section extra ≡ before <> "\n" <> extra <> after
unfolding insert_before_section
insertion content section extra before after h = rw (insert_before_section, h) refl

-- When a unit's text has the section, and the lines are directives with one-word keys and
-- one-line values, insertBeforeSection keeps every directive that the text had, in order, and
-- adds the new ones. These stand in the section that is open just in front of the named one,
-- behind all that this section had there.
pub insert_before_section-found :
    (content section before after : String) (ds : List Directive)
    → split_at content ("\n[" <> section <> "]") ≡ some (before, after)
    → All HasKey ds
    → All HasLine ds
    → Reads content (insert_before_section content section (write_directives ds)) before ds
insert_before_section-found content section before after ds h keys lines =
    let marker = "[" <> section <> "]" in
    let split : ("\n[" <> section <> "]") ≡ ("\n" <> marker) =
      TextLemmas.append_assoc "\n" "[" (section <> "]") in
    let (rest, q, e) =
      cut_before_section content marker before after (ap (split_at content) (sym split) ∙ h) in
    (
      parse_lines (last_section before) (split_lines rest),
      ap parse_unit e ∙ parse_unit-append before rest,
      ap parse_unit (
            insertion content section (write_directives ds) before after h
            ∙ ap (λ a. before <> "\n" <> write_directives ds <> a) q)
          ∙ parse_unit-inserted before rest ds keys lines,
    )

-- When the text has no such section, directives with one-word keys and one-line values are added
-- behind all directives of the text, in the section that is open at its end.
pub insert_before_section-missing :
    (content section : String) (ds : List Directive)
    → split_at content ("\n[" <> section <> "]") ≡ none
    → All HasKey ds
    → All HasLine ds
    → parse_unit (insert_before_section content section (write_directives ds))
      ≡ parse_unit content ++ placed (last_section content) ds
unfolding insert_before_section parse_lines split_lines
insert_before_section-missing content section ds h keys lines =
    rw (insert_before_section, h)
      (parse_unit-append content (write_directives ds)
        ∙ ap (λ ps. parse_unit content ++ ps)
            (ap (λ text. parse_lines (last_section content) (split_lines text))
                (sym (TextLemmas.append-nil (write_directives ds)))
              ∙ (parse-directives (last_section content) ds "" keys lines
                  ∙ append-nil (placed (last_section content) ds))))
