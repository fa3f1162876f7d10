-- ===== src/Standalone/PostRender/State.antt =====
-- `injectPersistentStateVolumes` and `injectComputeReadinessProbe`.
pub mod Laws
use vm_to_quadlet.Base.{
  String, ◌<>◌, Bool, true, false, ◌&&◌, ◌||◌, none, some, List, [], ◌∷◌, ◌++◌, ◌==◌, if◌then◌else◌,
  is_some, update_first,
}
use vm_to_quadlet.Base.Text.{join}
use vm_to_quadlet.Kube.Pod.{VolumeMount, mount, Probe, Container, zero_source, Volume, Pod}
use vm_to_quadlet.Kube.Machine.{Vmi}
use vm_to_quadlet.Standalone.PostRender.Compute.{
  with_spec, add_volumes, on_compute, mount_in_compute, add_mounts,
}

unfoldable pub state_volumes : String → List Volume
state_volumes vmi_name =
    record {
      name = "vm-state";
      source = record zero_source { persistent_volume_claim = some (vmi_name <> "-vm-state") };
    }
    ∷ record { name = "private-libvirt"; source = record zero_source { empty_dir = true } }
    ∷ record { name = "private-libvirt-qemu"; source = record zero_source { empty_dir = true } }
    ∷ []

abbrev pub sub_mount : String → String → String → VolumeMount
sub_mount name path sub = record {
  name = name;
  mount_path = path;
  sub_path = sub;
  read_only = false;
}

abbrev pub state_mounts : List VolumeMount
state_mounts =
    mount "private-libvirt" "/var/run/kubevirt-private/libvirt"
    ∷ mount "private-libvirt-qemu" "/var/run/kubevirt-private/libvirt/qemu"
    ∷ sub_mount "vm-state" "/var/run/kubevirt-private/libvirt/qemu/nvram" "nvram"
    ∷ sub_mount "vm-state" "/var/run/kubevirt-private/libvirt/qemu/swtpm" "swtpm"
    ∷ sub_mount "vm-state" "/var/run/kubevirt-private/var/lib/swtpm-localca" "swtpm-localca"
    ∷ []

abbrev pub state_commands : List String
state_commands =
    "mkdir -p /vm-state-init/nvram" ∷ "mkdir -p /vm-state-init/swtpm"
    ∷ "mkdir -p /vm-state-init/swtpm-localca" ∷ []

-- A command of the form /bin/bash -c SCRIPT gets the commands appended to its script.
extend_command : List String → List String
unfolding join
extend_command (shell ∷ flag ∷ script ∷ []) =
    if shell == "/bin/bash" && flag == "-c"
    then shell ∷ flag ∷ (script <> " && " <> join " && " state_commands) ∷ []
    else shell ∷ flag ∷ script ∷ []
extend_command command = command

unfoldable pub extend_dir_init : Container → Container
unfolding extend_command
extend_dir_init c = record c {
  command = extend_command c.command;
  volume_mounts = c.volume_mounts ++ mount "vm-state" "/vm-state-init" ∷ [];
}

abbrev pub is_dir_init : Container → Bool
is_dir_init c = c.name == "virt-handler-dir-init"

-- The first init container of that name is changed.
unfoldable pub on_dir_init : Pod → Pod
unfolding extend_dir_init
on_dir_init pod = with_spec pod (record (pod.spec) {
  init_containers = update_first is_dir_init extend_dir_init pod.spec.init_containers;
})

unfoldable pub inject_persistent_state_volumes : Vmi → Pod → Pod
unfolding state_volumes add_volumes mount_in_compute on_dir_init
inject_persistent_state_volumes vmi pod =
    on_dir_init (mount_in_compute state_mounts (add_volumes (state_volumes vmi.name) pod))

unfoldable pub readiness_probe : Vmi → Probe
readiness_probe vmi = record {
  exec = some (
      "/bin/sh"
      ∷ "-c"
      ∷ ("test \"$(virsh domstate " <> (vmi.namespace <> "_" <> vmi.name) <> ")\" = \"running\"")
      ∷ []);
  initial_delay_seconds = 120;
  period_seconds = 30;
  timeout_seconds = 10;
  failure_threshold = 3;
}

-- A container with a probe of its own keeps it.
unfoldable pub set_probe : Vmi → Container → Container
unfolding readiness_probe
set_probe vmi c =
    if is_some c.liveness_probe || is_some c.readiness_probe
    then c
    else record c { readiness_probe = some (readiness_probe vmi) }

unfoldable pub inject_compute_readiness_probe : Vmi → Pod → Pod
unfolding set_probe on_compute
inject_compute_readiness_probe vmi = on_compute (set_probe vmi)
