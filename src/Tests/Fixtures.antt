-- ===== src/Tests/Fixtures.antt =====
-- A virtual machine with one disk, its instance, and the pod that is rendered for it.
use vm_to_quadlet.Base.{true, false, none, some, [], ◌∷◌}
use vm_to_quadlet.Base.Int.{pos}
use vm_to_quadlet.Kube.Pod.{Sign, Quantity, mount, Container, zero_container, zero_source, Pod}
use vm_to_quadlet.Kube.Machine.{
  VmVolume, Network, no_binding, Interface, VmiSpec, Vmi, VirtualMachine,
}
use vm_to_quadlet.Quadlet
use vm_to_quadlet.Standalone.{Options}
use vm_to_quadlet.Standalone.PostRender.Devices.{DirResult, HostFiles}
use vm_to_quadlet.Standalone.PostRender.Cleanup.{CpuLabels}

abbrev pub gib : Quantity
gib = record { sign = Sign.positive; value = pos 1073741824; text = "1Gi" }

abbrev pub root_volume : VmVolume
root_volume = record {
  name = "root_disk";
  data_volume = some "web-disk";
  persistent_volume_claim = none;
  config_map = false;
  secret = false;
  service_account = false;
  host_disk = false;
}

abbrev pub pod_network : Network
pod_network = record { name = "default"; pod = true; multus = false }

abbrev pub bridged : Interface
bridged = record { name = "default"; binding = record no_binding { bridge = true } }

abbrev pub web_spec : VmiSpec
web_spec = record {
  volumes = root_volume ∷ [];
  networks = pod_network ∷ [];
  interfaces = bridged ∷ [];
  disks = "root_disk" ∷ [];
  gpus = some ("nvidia.com/TU104GL" ∷ []);
  host_devices = some ("vendor/nic" ∷ []);
  dedicated_cpu = none;
  requests = some (("memory", gib) ∷ []);
  limits = none;
}

abbrev pub web_vm : VirtualMachine
web_vm = record {
  name = "web";
  namespace = "";
  data_volume_templates =
      record { name = "web-disk"; storage = some (some (("storage", gib) ∷ [])); source = none }
      ∷ [];
  template = some web_spec;
}

abbrev pub web_vmi : Vmi
web_vmi = record {
  name = "web";
  namespace = "default";
  uid = "";
  spec = web_spec;
  status_interfaces = [];
}

abbrev pub guest : Container
guest = record zero_container {
  name = "compute";
  image = "launcher";
  volume_mounts = mount "private" "/var/run/kubevirt-private" ∷ mount "disk" "/disk" ∷ [];
  resources = record {
    limits = some (("devices.kubevirt.io/kvm", gib) ∷ ("memory", gib) ∷ []);
    requests = none;
  };
}

abbrev pub log_sidecar : Container
log_sidecar = record zero_container { name = "guest-console-log"; restart_policy = some "Always" }

abbrev pub rendered_pod : Pod
rendered_pod = record {
  kind = "";
  api_version = "";
  name = "";
  generate_name = "virt-launcher-web-";
  annotations = none;
  owner_references = "owner" ∷ [];
  spec = record {
    volumes =
        record { name = "private"; source = record zero_source { empty_dir = true } }
        ∷ record {
          name = "disk";
          source = record zero_source { persistent_volume_claim = some "web-disk" };
        }
        ∷ [];
    containers = guest ∷ [];
    init_containers = log_sidecar ∷ [];
    sysctls = none;
    readiness_gates = "gate" ∷ [];
    node_selector = some (("kubevirt.io/schedulable", "true") ∷ ("cpumanager", "true") ∷ []);
    restart_policy = "Never";
    termination_grace_period_seconds = some 60;
  };
}

abbrev pub options : Options
options = record {
  launcher_image = "launcher";
  add_vnc_proxy = true;
  vnc_port = pos 5900;
  vnc_image = "socat";
  add_serial_proxy = true;
  serial_port = pos 2222;
  serial_image = "socat";
  passt_workarounds = true;
}

abbrev pub conv_options : Quadlet.Options
conv_options = record { network = ""; passt_workarounds = true }

abbrev pub labels : CpuLabels
labels = record { cpu_manager = "cpumanager"; deprecated_cpu_manager = "kubevirt.io/cpumanager" }

-- One device is bound to vfio-pci; the directory has two more entries.
abbrev pub host : HostFiles
host = record {
  vfio_drivers = DirResult.listed ("0000:01:00.0" ∷ "bind" ∷ "0000:01:00.1" ∷ []);
  iommu_group = λ entry. some "../../../kernel/iommu_groups/12";
}
