-- ===== src/Command/Run/Laws.antt =====
-- When the program writes anything at all, and what an error before that looks like.
use vm_to_quadlet.Base.{String, ◌<>◌, ◌≡◌, refl, inl, inr, ◌⊎◌, some, List, ok, Result-cases}
use vm_to_quadlet.Kube.Machine.{VirtualMachine}
use vm_to_quadlet.Quadlet.{UnitFile}
use vm_to_quadlet.Command.Input.{Source, read_vm}
use vm_to_quadlet.Command.Output.{Disk, Tar, write_files}
use vm_to_quadlet.Command.Pipeline.{Outside, convert_vm}
use vm_to_quadlet.Command.Run.{
  Flags, input_file, convert_options, standalone_options, Outputs, write_converted, run,
  root_command,
}

module _ (X : Outside) (S : Source) (D : Disk) (T : Tar) where
  -- The machine that was read and the files that it was converted to.
  pub record Converted (flags : Flags) (args : List String) (vm : VirtualMachine)
      (files : List UnitFile) : Type 0 where
    pub read : read_vm S (input_file flags args) ≡ ok vm
    pub converted :
        (convert_vm X (some vm) (standalone_options flags) (convert_options flags)).value ≡ ok files

  -- Either the command fails and has written nothing, on disk or to the standard output; or it has
  -- read a machine and converted it, and what it does is writing all the files.
  pub root_command-outcome :
      (flags : Flags) (args : List String) (out : Outputs X S D T)
      → ((e : String) × (root_command X S D T flags args out ≡ (out, some e)))
        ⊎ ((vm : VirtualMachine) × (files : List UnitFile) × Converted flags args vm files
            × (root_command X S D T flags args out ≡ write_files D T files flags.output_dir out))
  unfolding root_command run write_converted
  root_command-outcome flags args out = elim (Result-cases (read_vm S (input_file flags args))) [
    | inr (e, h) ↦ inl (e, rw (run, h) refl)
    | inl (vm, h) ↦
        elim (Result-cases
          (convert_vm X (some vm) (standalone_options flags) (convert_options flags)).value) [
            | inr (e, k) ↦ inl ("failed to convert VM: " <> e, rw (run, h, k) refl)
            | inl (files, k) ↦
                inr (vm, files, record { read = h; converted = k }, rw (run, h, k) refl)
          ]
  ]
