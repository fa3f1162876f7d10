-- ===== src/Quadlet/Render/RoundTrip.antt =====
-- Reading back what render.go writes for a container unit and for a volume unit: first as the lists
-- of directives of the model, then by the tables of Lines.
use mathlib.Core.List.{append-nil}
use text.Mathlib.TextLemmas
use vm_to_quadlet.Base.{
  String, ◌<>◌, ◌≡◌, refl, sym, ap, subst, ◌∙◌, inl, inr, Bool, true, false, not, ◌&&◌, List, [],
  ◌∷◌, ◌++◌, arith, ◌==◌, if◌then◌else◌, is_empty, All, Bool-cases,
}
use vm_to_quadlet.Base.Text.{cut_suffix}
use vm_to_quadlet.Quadlet.{UnitSection, ServiceSection, InstallSection, ContainerUnit, VolumeUnit}
use vm_to_quadlet.Quadlet.Render.{
  Directive, entry?, entries, flag, unit_directives, container_directives, service_directives,
  install_directives, volume_directives, write_directives, write_section, write_unit_section,
  write_container_section, write_service_section, write_install_section, render_container_unit,
  render_volume_unit,
}
use vm_to_quadlet.Quadlet.Render.Lines.{
  lines_of, unit_rows, container_rows, service_rows, install_rows, volume_rows,
  unit_directives-eq-lines, container_directives-eq-lines, service_directives-eq-lines,
  install_directives-eq-lines, volume_directives-eq-lines,
}
use vm_to_quadlet.Quadlet.Render.Parse.{split_lines, section_name, Placed, parse_lines, parse_unit}
use vm_to_quadlet.Quadlet.Render.Reading.{
  is_line, HasKey, HasLine, placed, ReadsAs, Opens, parse-directives, parse-section, parse-header,
}
use vm_to_quadlet.Quadlet.Render.Keys.{
  HasKeys, unit_directives-HasKeys, service_directives-HasKeys, install_directives-HasKeys,
  volume_directives-HasKeys, container_directives-HasKeys,
}

-- A section that may be left out says the same then: nothing.
parse-optional :
    (name : String) (empty : Bool) (ds : List Directive) (rest : String) (ps : List Placed)
    → Opens name
    → HasKeys ds
    → All HasLine ds
    → (empty ≡ true → ds ≡ [])
    → ReadsAs rest ps
    → ReadsAs ((if empty then "" else write_section name ds) <> rest) (placed name ds ++ ps)
parse-optional name true ds rest ps opens keys lines none h section =
    rw (none refl, TextLemmas.nil-append rest) (h section)
parse-optional name false ds rest ps opens keys lines none h section =
    parse-section name ds rest ps opens keys.keys lines h section

is_empty-eq-nil : (xs : List String) → is_empty xs ≡ true → xs ≡ []
is_empty-eq-nil [] h = refl
is_empty-eq-nil (x ∷ xs) h = cc

abbrev unit_is_empty : UnitSection → Bool
unit_is_empty u = u.description == "" && is_empty u.after && is_empty u.requires

unit_directives-eq-nil : (u : UnitSection) → unit_is_empty u ≡ true → unit_directives u ≡ []
unfolding unit_directives entry? entries
unit_directives-eq-nil u h =
    let d : (u.description == "") ≡ true = ground arith in
    let a : is_empty u.after ≡ true = ground arith in
    let r : is_empty u.requires ≡ true = ground arith in
    rw (d, is_empty-eq-nil u.after a, is_empty-eq-nil u.requires r) refl

abbrev service_is_empty : ServiceSection → Bool
service_is_empty s = s.type == "" && not s.remain_after_exit && s.restart == ""

service_directives-eq-nil :
    (s : ServiceSection) → service_is_empty s ≡ true → service_directives s ≡ []
unfolding service_directives entry? flag
service_directives-eq-nil s h = ground arith

-- Lines that end the text.
read_to_end :
    (section : String) (ds : List Directive)
    → All HasKey ds
    → All HasLine ds
    → parse_lines section (split_lines (write_directives ds)) ≡ placed section ds
unfolding parse_lines split_lines
read_to_end section ds keys lines =
    ap (λ text. parse_lines section (split_lines text))
      (sym (TextLemmas.append-nil (write_directives ds)))
    ∙ (parse-directives section ds "" keys lines ∙ append-nil (placed section ds))

parse-install :
    (i : InstallSection)
    → All HasLine (install_directives i)
    → ReadsAs (write_install_section i) (placed "Install" (install_directives i))
unfolding write_install_section parse_lines split_lines is_line section_name cut_suffix
parse-install i lines = elim (Bool-cases (is_empty i.wanted_by)) [
  | inl none ↦ λ section. rw (is_empty-eq-nil i.wanted_by none) refl
  | inr some_targets ↦ rw some_targets (
      parse-header "Install" (write_directives (install_directives i))
        (placed "Install" (install_directives i)) (refl, refl)
        (read_to_end "Install" (install_directives i) (install_directives-HasKeys i).keys lines))
]

read_container_unit :
    (u : ContainerUnit)
    → All HasLine (unit_directives u.unit)
    → All HasLine (container_directives u.container)
    → All HasLine (service_directives u.service)
    → All HasLine (install_directives u.install)
    → parse_unit (render_container_unit u)
      ≡ placed "Unit" (unit_directives u.unit)
        ++ (placed "Container" (container_directives u.container)
            ++ (placed "Service" (service_directives u.service)
                ++ placed "Install" (install_directives u.install)))
unfolding parse_unit render_container_unit write_unit_section write_container_section
    write_service_section is_line section_name cut_suffix
read_container_unit u h1 h2 h3 h4 =
    let install = write_install_section u.install in
    let read4 = parse-install u.install h4 in
    let ps4 = placed "Install" (install_directives u.install) in
    let service = write_service_section u.service <> install in
    let ps3 = placed "Service" (service_directives u.service) ++ ps4 in
    let read3 =
      parse-optional "Service" (service_is_empty u.service) (service_directives u.service) install
        ps4 (refl, refl) (service_directives-HasKeys u.service) h3
        (service_directives-eq-nil u.service) read4 in
    let read2 =
      parse-section "Container" (container_directives u.container) service ps3 (refl, refl)
        (container_directives-HasKeys u.container).keys h2 read3 in
    parse-optional "Unit" (unit_is_empty u.unit) (unit_directives u.unit)
      (write_container_section u.container <> service)
      (placed "Container" (container_directives u.container) ++ ps3) (refl, refl)
      (unit_directives-HasKeys u.unit) h1 (unit_directives-eq-nil u.unit) read2 ""

read_volume_unit :
    (u : VolumeUnit)
    → All HasLine (unit_directives u.unit)
    → All HasLine (volume_directives u.volume)
    → parse_unit (render_volume_unit u)
      ≡ placed "Unit" (unit_directives u.unit) ++ placed "Volume" (volume_directives u.volume)
unfolding parse_unit render_volume_unit write_unit_section is_line section_name cut_suffix
    parse_lines split_lines
read_volume_unit u h1 h2 =
    let ds = volume_directives u.volume in
    let text = write_section "Volume" ds in
    let read2 =
      parse-section "Volume" ds "" [] (refl, refl) (volume_directives-HasKeys u.volume).keys h2
        (λ section. refl) in
    parse-optional "Unit" (unit_is_empty u.unit) (unit_directives u.unit) text (placed "Volume" ds)
      (refl, refl) (unit_directives-HasKeys u.unit) h1 (unit_directives-eq-nil u.unit)
      (λ section.
        ap (λ text. parse_lines section (split_lines text)) (sym (TextLemmas.append-nil text))
        ∙ (read2 section ∙ append-nil (placed "Volume" ds)))
      ""

-- Reading a rendered container unit gives exactly the lines of its four sections [Unit],
-- [Container], [Service] and [Install], in this order, each under its own section and with its whole
-- value, provided that no value holds a line end. The lines of a section are those of its table of
-- keys: a text that is empty, a flag that is false and a stop timeout that is not positive have no
-- line, and every element of a list has one.
pub parse_unit-render_container_unit :
    (u : ContainerUnit)
    → All HasLine (lines_of (unit_rows u.unit))
    → All HasLine (lines_of (container_rows u.container))
    → All HasLine (lines_of (service_rows u.service))
    → All HasLine (lines_of (install_rows u.install))
    → parse_unit (render_container_unit u)
      ≡ placed "Unit" (lines_of (unit_rows u.unit))
        ++ (placed "Container" (lines_of (container_rows u.container))
            ++ (placed "Service" (lines_of (service_rows u.service))
                ++ placed "Install" (lines_of (install_rows u.install))))
parse_unit-render_container_unit u h1 h2 h3 h4 =
    let unit = sym (unit_directives-eq-lines u.unit) in
    let container = sym (container_directives-eq-lines u.container) in
    let service = sym (service_directives-eq-lines u.service) in
    let install = sym (install_directives-eq-lines u.install) in
    rw (unit, container, service, install)
      (read_container_unit u (subst (All HasLine) unit h1) (subst (All HasLine) container h2)
        (subst (All HasLine) service h3) (subst (All HasLine) install h4))

-- Reading a rendered volume unit gives exactly the lines of its two sections [Unit] and [Volume], in
-- this order, each under its own section and with its whole value, provided that no value holds a
-- line end. The lines of [Volume] are the driver, the image and the volume's name, those that are
-- not empty.
pub parse_unit-render_volume_unit :
    (u : VolumeUnit)
    → All HasLine (lines_of (unit_rows u.unit))
    → All HasLine (lines_of (volume_rows u.volume))
    → parse_unit (render_volume_unit u)
      ≡ placed "Unit" (lines_of (unit_rows u.unit))
        ++ placed "Volume" (lines_of (volume_rows u.volume))
parse_unit-render_volume_unit u h1 h2 =
    let unit = sym (unit_directives-eq-lines u.unit) in
    let volume = sym (volume_directives-eq-lines u.volume) in
    rw (unit, volume)
      (read_volume_unit u (subst (All HasLine) unit h1) (subst (All HasLine) volume h2))
