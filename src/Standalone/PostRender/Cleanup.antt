-- ===== src/Standalone/PostRender/Cleanup.antt =====
-- `cleanupForStandalone` and `addPersistenceWarnings`.
pub mod Laws
pub mod Standalone
pub mod Whole
use vm_to_quadlet.Base.{
  String, ◌<>◌, Bool, true, false, not, Option, none, some, List, [], ◌∷◌, ◌++◌, map, ◌==◌,
  if◌then◌else◌, is_empty, is_some, any, keep, Logged,
}
use vm_to_quadlet.Base.Dict.{Dict, insert, erase}
use vm_to_quadlet.Base.Text.{contains, join}
use vm_to_quadlet.Kube.Pod.{ResourceList, Quantity, Container, Sysctl, PodSpec, Pod}
use vm_to_quadlet.Kube.Machine.{VmVolume, VmiSpec, Vmi, VirtualMachine}
use vm_to_quadlet.Standalone.PostRender.Compute.{with_spec}

-- The constants `virtv1.CPUManager` and `virtv1.DeprecatedCPUManager`, which are KubeVirt's.
pub record CpuLabels : Type 0 where
  pub cpu_manager : String
  pub deprecated_cpu_manager : String

add_sysctl : Option (List Sysctl) → Option (List Sysctl)
add_sysctl sysctls = some (
    elim sysctls [ none ↦ [] | some list ↦ list ]
    ++ record { name = "net.ipv4.ip_unprivileged_port_start"; value = "0" } ∷ [])

pub clean_selector : CpuLabels → Option (Dict String) → Option (Dict String)
unfolding erase
clean_selector labels none = none
clean_selector labels (some selector) =
    let rest = erase labels.deprecated_cpu_manager (erase labels.cpu_manager selector) in
    if is_empty rest then none else some rest

-- `c.RestartPolicy != nil && *c.RestartPolicy == ContainerRestartPolicyAlways`
abbrev pub always_restarts : Container → Bool
always_restarts c = elim c.restart_policy [ none ↦ false | some policy ↦ policy == "Always" ]

abbrev as_sidecar : Container → Container
as_sidecar c = record c { restart_policy = none }

-- The init containers that become regular ones, in order, and those that stay.
unfoldable pub moved_inits : List Container → List Container
moved_inits inits = map as_sidecar (keep always_restarts inits)

unfoldable pub kept_inits : List Container → List Container
kept_inits = keep (λ c. not (always_restarts c))

abbrev pub is_builtin : String × Quantity → Bool
is_builtin (name, qty) = not (contains name "/")

unfoldable pub strip_extended_resources : ResourceList → ResourceList
unfolding contains
strip_extended_resources none = none
strip_extended_resources (some list) =
    let out = keep is_builtin list in if is_empty out then none else some out

unfoldable pub strip_container : Container → Container
unfolding strip_extended_resources
strip_container c = record c {
  resources = record {
    limits = strip_extended_resources c.resources.limits;
    requests = strip_extended_resources c.resources.requests;
  };
}

unfoldable pub clean_spec : CpuLabels → PodSpec → PodSpec
unfolding add_sysctl clean_selector moved_inits kept_inits strip_container
clean_spec labels spec = record spec {
  containers = map strip_container (spec.containers ++ moved_inits spec.init_containers);
  init_containers = map strip_container (kept_inits spec.init_containers);
  sysctls = add_sysctl spec.sysctls;
  readiness_gates = [];
  node_selector = clean_selector labels spec.node_selector;
  restart_policy = "OnFailure";
}

cpu_warnings : VmiSpec → List String
cpu_warnings spec = elim spec.dedicated_cpu [
  | some true ↦
      "Warning: VM requests dedicatedCpuPlacement. For standalone execution, configure CPU pinning via the container runtime (e.g., podman run --cpuset-cpus=0-3)"
      ∷ []
  | _ ↦ []
]

unfoldable pub cleanup_for_standalone : CpuLabels → Vmi → Pod → Logged Pod
unfolding clean_spec cpu_warnings
cleanup_for_standalone labels vmi pod = record {
  stderr = cpu_warnings vmi.spec;
  value = record pod { owner_references = []; spec = clean_spec labels pod.spec };
}

abbrev pub pvc_warning : String
pvc_warning =
    "PVC volumes: In standalone mode, persistentVolumeClaim volumes become local Podman named volumes. They persist across pod restarts on THIS host only, but will NOT survive if you move the Pod to another machine or reinstall Podman."

abbrev pub host_disk_warning : String
host_disk_warning =
    "hostDisk volumes: The specified disk image files must exist on the host filesystem at the paths defined in the VM spec. For DiskOrCreate type, the file will be created if missing."

pub persistence_warnings : List VmVolume → List String
persistence_warnings volumes =
    (if any (λ vol. is_some vol.persistent_volume_claim) volumes then pvc_warning ∷ [] else [])
    ++ (if any (λ vol. vol.host_disk) volumes then host_disk_warning ∷ [] else [])

abbrev annotations_of : Pod → Dict String
annotations_of pod = elim pod.annotations [ none ↦ [] | some annotations ↦ annotations ]

annotate : List String → Dict String → Dict String
unfolding insert join
annotate [] annotations = annotations
annotate (w ∷ ws) annotations =
    insert "kubevirt-vm-to-pod/persistence-warning" (join " | " (w ∷ ws)) annotations

-- A machine whose template is nil does not come here: step 3 refuses it.
unfoldable pub add_persistence_warnings : VirtualMachine → Pod → Pod
unfolding persistence_warnings annotate
add_persistence_warnings vm pod =
    let volumes : List VmVolume = elim vm.template [ none ↦ [] | some spec ↦ spec.volumes ] in
    record pod { annotations = some (annotate (persistence_warnings volumes) (annotations_of pod)) }
