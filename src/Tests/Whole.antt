-- ===== src/Tests/Whole.antt =====
-- Conversions from end to end, and the archive that they are written to.
use Prim.Native.String.{len}
use vm_to_quadlet.Base.{
  String, ◌≡◌, refl, sym, ap, ◌∙◌, Option, none, some, List, [], ◌∷◌, ◌++◌, map, ok,
}
use vm_to_quadlet.Base.Dict.{lookup}
use vm_to_quadlet.Kube.Machine.{VmiSpec, VirtualMachine}
use vm_to_quadlet.Quadlet.{UnitFile}
use vm_to_quadlet.Standalone.PreRender.Validate.Laws.{IsSupported}
use vm_to_quadlet.Standalone.PostRender.Cleanup.Standalone.{IsStandalone}
use vm_to_quadlet.Standalone.PostRender.Mounts.{MountsResolve}
use vm_to_quadlet.Base.{◌↔◌}
use vm_to_quadlet.Command.Input.{YamlResult, read_vm}
use vm_to_quadlet.Command.Input.Laws.{input_of, read_vm_iff}
use vm_to_quadlet.Command.Output.{TarHeader, Tar, write_files}
use vm_to_quadlet.Command.Output.Archive.{Archiving, write_files-entries}
use vm_to_quadlet.Command.Pipeline.{convert_vm}
use vm_to_quadlet.Command.Pipeline.Laws.{Steps}
use vm_to_quadlet.Command.Pipeline.Sound.{convert_vm_sound}
use vm_to_quadlet.Tests.Fixtures.{web_vm, options, conv_options}
use vm_to_quadlet.Tests.Outside.{outside, source, disk}
use vm_to_quadlet.Tests.Command.{web_files}

read_vm_iff_example : (read_vm source "-" ≡ ok web_vm) ↔ (
    (text : String) × (input_of source "-" ≡ ok text)
    × (source.unmarshal text ≡ YamlResult.parsed web_vm))
read_vm_iff_example = read_vm_iff source "-" web_vm

convert_vm_sound_example :
    ((vm : VirtualMachine) × (spec : VmiSpec) × (some web_vm ≡ some vm)
      × (vm.template ≡ some spec)
      × IsSupported spec)
    × (steps : Steps outside (some web_vm) options conv_options web_files) × IsStandalone
        steps.adapted
    × (MountsResolve steps.pod → MountsResolve steps.adapted)
unfolding convert_vm lookup
convert_vm_sound_example =
    convert_vm_sound outside (some web_vm) options conv_options web_files refl

-- The entries of an archive, and a header that waits for its text.
record Archive : Type 0 where
  entries : List (TarHeader × String)
  pending : Option TarHeader

abbrev finish_entry : String → Archive → Archive
finish_entry text a = elim a.pending [
  | none ↦ a
  | some header ↦ record { entries = a.entries ++ (header, text) ∷ []; pending = none }
]

abbrev archive : Tar
archive = record {
  State = Archive;
  write_header = λ header a. (record a { pending = some header }, none);
  write = λ text a. (finish_entry text a, none);
  close = λ a. (a, none);
}

archive-Archiving : Archiving archive
archive-Archiving = record {
  entries = λ a. a.entries;
  added = λ header text s t u size e e'.
      ap (λ (r : Archive × Option String). r.0.entries) (sym e')
      ∙ ap (λ (r : Archive × Option String). (finish_entry text r.0).entries) (sym e);
  closed = λ s t e. ap (λ (r : Archive × Option String). r.0.entries) (sym e);
}

abbrev empty_archive : Archive
empty_archive = record { entries = []; pending = none }

abbrev network_file : UnitFile
network_file = record { name = "web.network"; content = "[Network]\n" }

abbrev network_entry : TarHeader × String
network_entry =
    (record { name = "web.network"; mode = 0o644; size = len "[Network]\n" }, "[Network]\n")

write_files-entries_example :
    (Archiving.entries archive-Archiving (record { entries = network_entry ∷ []; pending = none })
      ≡ Archiving.entries archive-Archiving empty_archive
        ++ map
            (λ (f : UnitFile).
              (record { name = f.name; mode = 0o644; size = len f.content }, f.content))
            (network_file ∷ []))
    × (◌≡◌ {A = List (String × String)} [] [])
unfolding write_files
write_files-entries_example =
    write_files-entries archive archive-Archiving disk (network_file ∷ []) [] [] empty_archive
      (record { entries = network_entry ∷ []; pending = none }) refl
