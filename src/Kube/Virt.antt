-- ===== src/Kube/Virt.antt =====
-- The KubeVirt functions that the pipeline calls, which are not part of the repository, and
-- pkg/kubevirt/kubevirt.go, which calls them.
use vm_to_quadlet.Base.{ℕ, String, Bool, true, List, [], ◌∷◌, Result}
use vm_to_quadlet.Kube.Pod.{Pod}
use vm_to_quadlet.Kube.Machine.{VmiSpec, Vmi, VirtualMachine}

-- A `KubeVirt` object, as far as the program fills it in.
pub record KubeVirtObject : Type 0 where
  pub name : String
  pub namespace : String
  pub feature_gates : List String
  pub disable_serial_console_log : Bool
  pub phase : String

-- The arguments of `services.NewTemplateService`, without the two stores and the nil that it is
-- given, which hold nothing.
pub record TemplateArguments (ClusterConfig Cache : Type 0) : Type 0 where
  pub launcher_image : String
  pub launcher_qemu_timeout : ℕ
  pub virt_share_dir : String
  pub ephemeral_disk_dir : String
  pub container_disk_dir : String
  pub hotplug_disk_dir : String
  pub image_pull_secret : String
  pub persistent_volume_claim_cache : Cache
  pub cluster_config : ClusterConfig
  pub launcher_sub_gid : ℕ
  pub exporter_image : String

-- `hotplug_disk_dir` is the constant `virtv1.HotplugDiskDir`. A function that changes its argument
-- in place returns it.
pub record KubeVirt (Cache : Type 0) : Type 1 where
  pub ClusterConfig : Type 0
  pub new_fake_cluster_config_using_kv : KubeVirtObject → ClusterConfig
  pub set_virtual_machine_defaults : ClusterConfig → VirtualMachine → VirtualMachine
  pub setup_vmi_from_vm : VirtualMachine → Vmi
  pub set_default_virtual_machine_instance : ClusterConfig → Vmi → Result Vmi
  pub apply_new_vmi_mutations : ClusterConfig → Vmi → Result Vmi
  pub set_default_network_interface : ClusterConfig → VmiSpec → Result VmiSpec
  pub set_default_volume_disk : VmiSpec → VmiSpec
  pub auto_attach_input_device : Vmi → Vmi
  pub hotplug_disk_dir : String
  pub TemplateService : Type 0
  pub new_template_service : TemplateArguments ClusterConfig Cache → TemplateService
  pub render_launch_manifest : TemplateService → Vmi → Result Pod

-- The object that `NewTemplateService` builds.
abbrev pub template_kube_virt : KubeVirtObject
template_kube_virt = record {
  name = "kubevirt";
  namespace = "kubevirt";
  feature_gates = "ImageVolume" ∷ "HostDisk" ∷ [];
  disable_serial_console_log = true;
  phase = "Deploying";
}

-- kubevirt.NewTemplateService
unfoldable pub new_template_service :
    {Cache : Type 0} (K : KubeVirt Cache) → Cache → String → K.TemplateService
new_template_service K pvc_cache launcher_image = K.new_template_service (record {
  launcher_image = launcher_image;
  launcher_qemu_timeout = 240;
  virt_share_dir = "/var/run/kubevirt";
  ephemeral_disk_dir = "/var/run/kubevirt-ephemeral-disks";
  container_disk_dir = "/var/run/kubevirt/container-disks";
  hotplug_disk_dir = K.hotplug_disk_dir;
  image_pull_secret = "pull-secret-1";
  persistent_volume_claim_cache = pvc_cache;
  cluster_config = K.new_fake_cluster_config_using_kv template_kube_virt;
  launcher_sub_gid = 107;
  exporter_image = "quay.io/kubevirt/vm-export:latest";
})
