-- ===== src/Kube/Machine.antt =====
-- `kubevirt.io/api/core/v1`: virtual machines and their instances.
use vm_to_quadlet.Base.{String, Bool, false, Option, List}
use vm_to_quadlet.Kube.Pod.{ResourceList}

-- At most one source is set. `data_volume` and `persistent_volume_claim` are the names they refer to.
pub record VmVolume : Type 0 where
  pub name : String
  pub data_volume : Option String
  pub persistent_volume_claim : Option String
  pub config_map : Bool
  pub secret : Bool
  pub service_account : Bool
  pub host_disk : Bool

pub record Network : Type 0 where
  pub name : String
  pub pod : Bool
  pub multus : Bool

-- `InterfaceBindingMethod`, the pointers that are not nil.
pub record Binding : Type 0 where
  pub masquerade : Bool
  pub bridge : Bool
  pub slirp : Bool
  pub sriov : Bool
  pub passt : Bool

abbrev pub no_binding : Binding
no_binding = record {
  masquerade = false;
  bridge = false;
  slirp = false;
  sriov = false;
  passt = false;
}

pub record Interface : Type 0 where
  pub name : String
  pub binding : Binding

-- `gpus` holds device names and `host_devices` names; `none` is a nil slice. `dedicated_cpu` is
-- `DedicatedCPUPlacement`, `none` where the CPU is nil. `disks` holds the disks' names.
pub record VmiSpec : Type 0 where
  pub volumes : List VmVolume
  pub networks : List Network
  pub interfaces : List Interface
  pub disks : List String
  pub gpus : Option (List String)
  pub host_devices : Option (List String)
  pub dedicated_cpu : Option Bool
  pub requests : ResourceList
  pub limits : ResourceList

pub record InterfaceStatus : Type 0 where
  pub name : String
  pub pod_interface_name : String

pub record Vmi : Type 0 where
  pub name : String
  pub namespace : String
  pub uid : String
  pub spec : VmiSpec
  pub status_interfaces : List InterfaceStatus

-- `Source.Registry.URL`, each step a pointer.
pub record Registry : Type 0 where
  pub url : Option String

pub record DataVolumeSource : Type 0 where
  pub registry : Option Registry

-- `storage` is the storage's `Resources.Requests`, `none` where the storage is nil.
pub record DataVolumeTemplate : Type 0 where
  pub name : String
  pub storage : Option ResourceList
  pub source : Option DataVolumeSource

-- `template` is the spec of `spec.template`, `none` where the template is nil.
pub record VirtualMachine : Type 0 where
  pub name : String
  pub namespace : String
  pub data_volume_templates : List DataVolumeTemplate
  pub template : Option VmiSpec
