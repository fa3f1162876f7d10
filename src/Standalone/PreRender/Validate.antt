-- ===== src/Standalone/PreRender/Validate.antt =====
-- `validateForStandalone` and what it calls. A line for stderr is a warning; the error is one text.
pub mod Laws
use vm_to_quadlet.Base.{
  String, ◌<>◌, Bool, false, Option, none, some, List, [], ◌∷◌, ◌++◌, map, ◌==◌, if◌then◌else◌,
  is_empty, any, concat_map, Result, ok, err, Logged,
}
use vm_to_quadlet.Base.Text.{quote, join}
use vm_to_quadlet.Base.Sort.{sort}
use vm_to_quadlet.Base.Dict.{lookup}
use vm_to_quadlet.Kube.Pod.{Sign, Quantity, ResourceList}
use vm_to_quadlet.Kube.Machine.{VmVolume, Network, VmiSpec, DataVolumeTemplate, VirtualMachine}

-- `if cond { out = append(out, line) }`
abbrev when : Bool → String → List String
when test line = if test then line ∷ [] else []

-- What a round of the loop over the volumes appends to `errors`; a data volume continues.
volume_errors : VmVolume → List String
unfolding quote
volume_errors vol = elim vol.data_volume [
  | some _ ↦ []
  | none ↦
      when vol.config_map (
        "volume "
        <> quote vol.name
        <> " uses ConfigMap which requires the Kubernetes API. Use a cloudInitNoCloud or cloudInitConfigDrive volume with inline data instead")
      ++ (when vol.secret (
            "volume "
            <> quote vol.name
            <> " uses Secret which requires the Kubernetes API. Use a cloudInitNoCloud or cloudInitConfigDrive volume with inline data instead")
          ++ when vol.service_account (
              "volume "
              <> quote vol.name
              <> " uses ServiceAccount which requires the Kubernetes API"))
]

-- What it appends to `warnings`.
volume_warnings : List DataVolumeTemplate → VmVolume → List String
unfolding quote
volume_warnings templates vol = elim vol.data_volume [
  | some name ↦
      if any (λ t. t.name == name) templates
      then []
      else ("volume "
          <> quote vol.name
          <> " references DataVolume "
          <> quote name
          <> " with no dataVolumeTemplate — converter treats this as a reference to an existing named volume; the Podman volume must contain disk.img before the VM starts")
        ∷ []
  | none ↦ []
]

network_warnings : Network → List String
unfolding quote
network_warnings net = when net.multus (
    "network "
    <> quote net.name
    <> " uses Multus which requires CNI plugins configured for podman. Passt networking will be used by default (use --no-passt to keep Multus)")

volume_names : List VmVolume → List String
volume_names = map (λ vol. vol.name)

unknown_disk : VmiSpec → String → String
unfolding quote join sort volume_names
unknown_disk spec disk =
    "disk "
    <> quote disk
    <> " does not match any volume in spec.template.spec.volumes; available volumes: ["
    <> join " " (sort (volume_names spec.volumes))
    <> "]"

-- A round of the loop over the disks.
disk_errors : VmiSpec → String → List String
unfolding unknown_disk
disk_errors spec disk =
    if any (λ vol. vol.name == disk) spec.volumes then [] else unknown_disk spec disk ∷ []

validate_disk_volume_references : VmiSpec → List String
unfolding disk_errors
validate_disk_volume_references spec = concat_map (disk_errors spec) spec.disks

abbrev pub resource : ResourceList → String → Option Quantity
resource none name = none
resource (some list) name = lookup name list

abbrev is_positive : Sign → Bool
is_positive Sign.positive = Bool.true
is_positive _ = false

non_positive_resource_error : String → ResourceList → String → List String
unfolding quote
non_positive_resource_error path list name = elim (resource list name) [
  | none ↦ []
  | some qty ↦
      if is_positive qty.sign
      then []
      else (path <> "." <> name <> " must be a positive quantity, got " <> quote qty.text) ∷ []
]

non_positive_resource_errors : String → ResourceList → List String
unfolding non_positive_resource_error
non_positive_resource_errors path list =
    concat_map (non_positive_resource_error path list) ("cpu" ∷ "memory" ∷ [])

validate_resource_quantities : VmiSpec → List String
unfolding non_positive_resource_errors
validate_resource_quantities spec =
    non_positive_resource_errors "spec.domain.resources.requests" spec.requests
    ++ non_positive_resource_errors "spec.domain.resources.limits" spec.limits

-- All that `errors` holds at the end.
validation_errors : VmiSpec → List String
unfolding volume_errors validate_disk_volume_references validate_resource_quantities
validation_errors spec =
    concat_map volume_errors spec.volumes
    ++ (validate_disk_volume_references spec ++ validate_resource_quantities spec)

validation_warnings : List DataVolumeTemplate → VmiSpec → List String
unfolding volume_warnings network_warnings
validation_warnings templates spec =
    concat_map (volume_warnings templates) spec.volumes ++ concat_map network_warnings spec.networks

error_list : List String → String
error_list [] = ""
error_list (e ∷ es) = "  - " <> e <> "\n" <> error_list es

report : List String → Result (Unit {0})
unfolding error_list
report [] = ok tt
report (e ∷ es) =
    err ("VM definition contains features unsupported in standalone mode:\n" <> error_list (e ∷ es))

validate_template : List DataVolumeTemplate → Option VmiSpec → Logged (Result (Unit {0}))
unfolding validation_errors validation_warnings report
validate_template templates none = record { stderr = []; value = err "spec.template is required" }
validate_template templates (some spec) = record {
  stderr = map (λ w. "Warning: " <> w) (validation_warnings templates spec);
  value = report (validation_errors spec);
}

unfoldable pub validate_for_standalone : Option VirtualMachine → Logged (Result (Unit {0}))
unfolding validate_template
validate_for_standalone none = record { stderr = []; value = err "VirtualMachine is required" }
validate_for_standalone (some vm) = validate_template vm.data_volume_templates vm.template
