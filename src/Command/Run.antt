-- ===== src/Command/Run.antt =====
-- `main`'s command, `run`, and pkg/version/version.go.
pub mod Laws
use vm_to_quadlet.Base.{
  String, ◌<>◌, Bool, false, Option, none, some, List, [], ◌∷◌, ◌++◌, Result, ok, err,
}
use vm_to_quadlet.Base.Int.{ℤ, pos}
use vm_to_quadlet.Kube.Machine.{VirtualMachine}
use vm_to_quadlet.Quadlet
use vm_to_quadlet.Quadlet.{UnitFile, default_options}
use vm_to_quadlet.Standalone.{Options}
use vm_to_quadlet.Command.Input.{Source, read_vm}
use vm_to_quadlet.Command.Output.{Disk, Tar, write_files}
use vm_to_quadlet.Command.Pipeline.{Outside, convert_vm}

-- The variables that the flags are parsed into.
pub record Flags : Type 0 where
  pub vm_file : String
  pub launcher_image : String
  pub vnc_proxy : Bool
  pub vnc_port : ℤ
  pub vnc_image : String
  pub serial_proxy : Bool
  pub console_port : ℤ
  pub serial_image : String
  pub output_dir : String
  pub passt_workarounds : Bool
  pub network : String

-- Their values where no flag is given.
abbrev pub default_flags : Flags
default_flags = record {
  vm_file = "";
  launcher_image = "quay.io/kubevirt/virt-launcher:v1.9.0";
  vnc_proxy = false;
  vnc_port = pos 5900;
  vnc_image = "docker.io/alpine/socat:latest";
  serial_proxy = false;
  console_port = pos 2222;
  serial_image = "docker.io/alpine/socat:latest";
  output_dir = "";
  passt_workarounds = false;
  network = "";
}

-- The file to read: the first argument, if there is one.
unfoldable pub input_file : Flags → List String → String
input_file flags [] = flags.vm_file
input_file flags (arg ∷ args) = arg

unfoldable pub convert_options : Flags → Quadlet.Options
unfolding default_options
convert_options flags = record default_options {
  passt_workarounds = flags.passt_workarounds;
  network = flags.network;
}

unfoldable pub standalone_options : Flags → Options
standalone_options flags = record {
  launcher_image = flags.launcher_image;
  add_vnc_proxy = flags.vnc_proxy;
  vnc_port = flags.vnc_port;
  vnc_image = flags.vnc_image;
  add_serial_proxy = flags.serial_proxy;
  serial_port = flags.console_port;
  serial_image = flags.serial_image;
  passt_workarounds = flags.passt_workarounds;
}

module _ (X : Outside) (S : Source) (D : Disk) (T : Tar) where
  abbrev pub Outputs : Type 0
  Outputs = D.State × T.State

  write_converted : Result (List UnitFile) → String → Outputs → Outputs × Option String
  unfolding write_files
  write_converted (err e) output_dir out = (out, some ("failed to convert VM: " <> e))
  write_converted (ok files) output_dir out = write_files D T files output_dir out

  unfoldable pub run :
      String → Options → Quadlet.Options → String → Outputs → Outputs × Option String
  unfolding read_vm convert_vm write_converted
  run vm_file opts conv_opts output_dir out = elim (read_vm S vm_file) [
    | err e ↦ (out, some e)
    | ok vm ↦ write_converted (convert_vm X (some vm) opts conv_opts).value output_dir out
  ]

  -- The `RunE` of the root command, with at most one argument.
  unfoldable pub root_command : Flags → List String → Outputs → Outputs × Option String
  unfolding input_file standalone_options convert_options run
  root_command flags args =
      run (input_file flags args) (standalone_options flags) (convert_options flags)
        flags.output_dir

-- version.Info. The first four fields are set when the program is linked; the Go version and the
-- platform are the runtime's.
pub record Info : Type 0 where
  pub version : String
  pub commit : String
  pub build_date : String
  pub git_tree_state : String
  pub go_version : String
  pub platform : String

-- version.Get
unfoldable pub get_info :
    (version commit build_date git_tree_state go_version goos goarch : String) → Info
get_info version commit build_date git_tree_state go_version goos goarch = record {
  version = version;
  commit = commit;
  build_date = build_date;
  git_tree_state = git_tree_state;
  go_version = go_version;
  platform = goos <> "/" <> goarch;
}

-- Info.String
unfoldable pub version_string : Info → String
version_string i =
    "vm-to-quadlet version " <> i.version <> " (commit " <> i.commit <> ", built " <> i.build_date
    <> ", " <> i.git_tree_state <> ")"
