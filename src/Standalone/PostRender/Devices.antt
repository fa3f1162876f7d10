-- ===== src/Standalone/PostRender/Devices.antt =====
-- `mountHostDevices`, `mountDevice`, `resolveVFIOGroups` and `detectGPUVendor`.
pub mod Laws
pub mod Gpus
pub mod Names
pub mod Distinct
pub mod Volumes
pub mod Whole
use vm_to_quadlet.Base.{
  ℕ, ◌+◌, String, ◌<>◌, Bool, true, ◌||◌, Option, none, some, List, [], ◌∷◌, ◌++◌, map, ◌==◌, eqb,
  if◌then◌else◌, is_empty, concat_map, Result, ok, err, Logged,
}
use vm_to_quadlet.Base.Text.{contains, to_lower, quote, base}
use vm_to_quadlet.Base.Decimal.{decimal}
use vm_to_quadlet.Base.Sort.{sort, distinct}
use vm_to_quadlet.Kube.Pod.{mount, zero_source, Volume, Pod}
use vm_to_quadlet.Kube.Machine.{Vmi}
use vm_to_quadlet.Standalone.PostRender.Compute.{add_volumes, mount_in_compute}

-- A device node: the name of its volume and its path.
abbrev pub Device : Type 0
Device = String × String

abbrev pub host_volume : String → String → String → Volume
host_volume name path type = record {
  name = name;
  source = record zero_source { host_path = some (record { path = path; type = some type }) };
}

unfoldable pub mount_device : Device → Pod → Pod
unfolding add_volumes mount_in_compute
mount_device (name, path) pod =
    mount_in_compute (mount name path ∷ [])
      (add_volumes (host_volume name path "CharDevice" ∷ []) pod)

unfoldable pub mount_devices : List Device → Pod → Pod
unfolding mount_device
mount_devices [] pod = pod
mount_devices (dev ∷ devs) pod = mount_devices devs (mount_device dev pod)

abbrev pub kvm_devices : List Device
kvm_devices = ("kvm", "/dev/kvm") ∷ ("tun", "/dev/net/tun") ∷ ("vhost-net", "/dev/vhost-net") ∷ []

unfoldable pub mount_cgroup : Pod → Pod
unfolding add_volumes mount_in_compute
mount_cgroup pod =
    mount_in_compute
      (record { name = "cgroup"; mount_path = "/sys/fs/cgroup"; sub_path = ""; read_only = true }
        ∷ [])
      (add_volumes (host_volume "cgroup" "/sys/fs/cgroup" "Directory" ∷ []) pod)

pub data GpuVendor : Type 0 where
  nvidia amd intel unknown : GpuVendor

unfoldable pub detect_gpu_vendor : String → GpuVendor
unfolding contains to_lower
detect_gpu_vendor device_name =
    let device_lower = to_lower device_name in
    if contains device_lower "nvidia"
    then nvidia
    else if contains device_lower "amd" || contains device_lower "radeon"
    then amd
    else if contains device_lower "intel"
    then intel
    else unknown

abbrev dri_card : ℕ → Device
dri_card i = ("dri-card" <> decimal i, "/dev/dri/card" <> decimal i)

nvidia_control : List Device
nvidia_control =
    ("nvidiactl", "/dev/nvidiactl")
    ∷ ("nvidia-uvm", "/dev/nvidia-uvm")
    ∷ ("nvidia-uvm-tools", "/dev/nvidia-uvm-tools")
    ∷ ("nvidia-modeset", "/dev/nvidia-modeset")
    ∷ []

-- The devices that the switch mounts for the GPU at index `i`.
unfoldable pub gpu_devices : ℕ → GpuVendor → List Device
unfolding nvidia_control decimal
gpu_devices i nvidia =
    ("nvidia" <> decimal i, "/dev/nvidia" <> decimal i) ∷ (if eqb i 0 then nvidia_control else [])
gpu_devices i unknown = dri_card i ∷ []
gpu_devices i _ =
    dri_card i ∷ ("dri-render" <> decimal i, "/dev/dri/renderD" <> decimal (128 + i)) ∷ []

gpu_warnings : String → GpuVendor → List String
gpu_warnings name unknown =
    ("Warning: Unknown GPU vendor for device " <> name <> ", mounting generic DRI devices") ∷ []
gpu_warnings name _ = []

-- The loop over the GPUs, from index `i`: all devices in the order in which they are mounted.
unfoldable pub gpus_from : ℕ → List String → List Device
unfolding gpu_devices detect_gpu_vendor
gpus_from i [] = []
gpus_from i (name ∷ names) = gpu_devices i (detect_gpu_vendor name) ++ gpus_from (i + 1) names

-- A nil slice and an empty one give no round.
abbrev pub elements : Option (List String) → List String
elements none = []
elements (some names) = names

-- What the file system answers: `os.ReadDir` of /sys/bus/pci/drivers/vfio-pci, in order of file
-- name, and `os.Readlink` of the file "iommu_group" of an entry.
pub data DirResult : Type 0 where
  not_exist : DirResult
  failed : String → DirResult
  listed : List String → DirResult

pub record HostFiles : Type 0 where
  pub vfio_drivers : DirResult
  pub iommu_group : String → Option String

-- The group of a PCI device; other entries, and those with no link, are passed over.
unfoldable pub group_of : HostFiles → String → List String
unfolding contains base
group_of host entry =
    if contains entry ":"
    then elim (host.iommu_group entry) [ none ↦ [] | some target ↦ base target ∷ [] ]
    else []

unfoldable pub resolve_vfio_groups : HostFiles → Result (List String)
unfolding group_of sort distinct
resolve_vfio_groups host = elim host.vfio_drivers [
  | not_exist ↦ ok []
  | failed e ↦ err e
  | listed entries ↦ ok (sort (distinct (concat_map (group_of host) entries)))
]

-- The groups, none after an error.
abbrev pub groups_of : Result (List String) → List String
groups_of (ok groups) = groups
groups_of (err _) = []

unfoldable pub vfio_devices : List String → List Device
vfio_devices groups =
    ("vfio", "/dev/vfio/vfio") ∷ map (λ g. ("vfio-group-" <> g, "/dev/vfio/" <> g)) groups

vfio_warnings : Result (List String) → List String → List String
unfolding quote
vfio_warnings result names =
    elim result [ ok _ ↦ [] | err e ↦ ("Warning: could not scan VFIO devices: " <> e) ∷ [] ]
    ++ (if is_empty (groups_of result)
        then map
            (λ name.
              "Warning: PCI hostdevice "
              <> quote name
              <> " requested but no devices bound to vfio-pci found. Bind the device with \"echo <pci-addr> > /sys/bus/pci/drivers/vfio-pci/bind\" first.")
            names
        else [])

-- The devices for host devices: none where the slice is nil.
unfoldable pub host_devices : HostFiles → Option (List String) → List Device
unfolding vfio_devices resolve_vfio_groups
host_devices host none = []
host_devices host (some names) = vfio_devices (groups_of (resolve_vfio_groups host))

host_device_warnings : HostFiles → Option (List String) → List String
unfolding vfio_warnings resolve_vfio_groups
host_device_warnings host none = []
host_device_warnings host (some names) = vfio_warnings (resolve_vfio_groups host) names

unfoldable pub mount_host_devices : HostFiles → Vmi → Pod → Logged Pod
unfolding mount_devices mount_cgroup gpus_from host_devices gpu_warnings host_device_warnings
mount_host_devices host vmi pod = record {
  stderr =
      concat_map (λ name. gpu_warnings name (detect_gpu_vendor name)) (elements vmi.spec.gpus)
      ++ host_device_warnings host vmi.spec.host_devices;
  value = mount_devices (host_devices host vmi.spec.host_devices) (
      mount_devices (gpus_from 0 (elements vmi.spec.gpus))
        (mount_cgroup (mount_devices kvm_devices pod)));
}
