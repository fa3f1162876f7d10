-- ===== src/Standalone/PostRender/DataVolumes.antt =====
-- `injectDataVolumeInitContainers`.
mod Scripts
pub mod Laws
use vm_to_quadlet.Base.{
  String, ◌<>◌, Bool, true, false, ◌&&◌, Option, none, some, List, [], ◌∷◌, ◌++◌, ◌==◌,
  if◌then◌else◌, is_empty, find_first,
}
use vm_to_quadlet.Base.Int.{ℤ, pos, is_positive}
use vm_to_quadlet.Base.Dict.{Dict, lookup, insert}
use vm_to_quadlet.Base.Text.{trim_prefix, replace_char, to_lower}
use vm_to_quadlet.Kube.Pod.{
  ResourceList, VolumeMount, mount, SecurityContext, no_security, Container, zero_container,
  zero_source, Volume, Pod,
}
use vm_to_quadlet.Kube.Machine.{DataVolumeSource, DataVolumeTemplate, VmVolume, Vmi, VirtualMachine}
use vm_to_quadlet.Standalone.PostRender.Compute.{add_volumes, prepend_inits}
use Scripts.{import_script, init_script}

-- The local type `dvMeta`.
pub record DvMeta : Type 0 where
  pub size_bytes : ℤ
  pub registry_url : String

storage_request : ResourceList → ℤ
unfolding lookup
storage_request none = pos 0
storage_request (some list) = elim (lookup "storage" list) [ none ↦ pos 0 | some qty ↦ qty.value ]

registry_url : Option DataVolumeSource → String
registry_url none = ""
registry_url (some source) = elim source.registry [
  | none ↦ ""
  | some registry ↦ elim registry.url [ none ↦ "" | some url ↦ url ]
]

add_meta : DataVolumeTemplate → Dict DvMeta → Dict DvMeta
unfolding storage_request registry_url insert
add_meta dvt metas = elim dvt.storage [
  | none ↦ metas
  | some requests ↦
      insert dvt.name
        (record { size_bytes = storage_request requests; registry_url = registry_url dvt.source })
        metas
]

-- The loop over the templates; of two with one name the later counts.
unfoldable pub metas_from : List DataVolumeTemplate → Dict DvMeta → Dict DvMeta
unfolding add_meta
metas_from [] metas = metas
metas_from (dvt ∷ dvts) metas = metas_from dvts (add_meta dvt metas)

abbrev pub claims : String → Volume → Bool
claims name v = elim v.source.persistent_volume_claim [ none ↦ false | some claim ↦ claim == name ]

-- The name of the first volume of the pod that claims the data volume, "" if none does.
unfoldable pub pod_volume_name : String → Pod → String
pod_volume_name name pod = elim (find_first (claims name) pod.spec.volumes) [
  | none ↦ ""
  | some v ↦ v.name
]

unfoldable pub vol_slug : String → String
unfolding replace_char to_lower
vol_slug name = to_lower (replace_char "_" "-" name)

abbrev pub disk_dir : String → String
disk_dir name = "/var/run/kubevirt-private/vmi-disks/" <> name

abbrev unprivileged : SecurityContext
unprivileged = record no_security {
  allow_privilege_escalation = some false;
  drop_capabilities = "ALL" ∷ [];
}

disk_container : String → String → String → List VolumeMount → Container
disk_container name image script mounts = record zero_container {
  name = name;
  image = image;
  command = "/bin/sh" ∷ "-c" ∷ [];
  args = script ∷ [];
  volume_mounts = mounts;
  security_context = some unprivileged;
}

-- Both prefixes are stripped, the inner call first.
unfoldable pub image_ref : String → String
unfolding trim_prefix
image_ref url = trim_prefix (trim_prefix url "docker://") "oci://"

-- The image volume of a disk that is imported.
unfoldable pub source_volume : VmVolume → DvMeta → Volume
unfolding vol_slug image_ref
source_volume vol m = record {
  name = "import-src-" <> vol_slug vol.name;
  source = record zero_source {
    image = some (record { reference = image_ref m.registry_url; pull_policy = "IfNotPresent" });
  };
}

unfoldable pub import_container : String → VmVolume → DvMeta → String → Container
unfolding vol_slug disk_container import_script
import_container launcher_image vol m pod_volume =
    let source_mount = "/var/run/import-source/" <> vol.name in
    disk_container ("import-disk-" <> vol_slug vol.name) launcher_image
      (import_script (disk_dir vol.name <> "/disk.img") source_mount m.size_bytes)
      (mount pod_volume (disk_dir vol.name)
        ∷ record {
          name = "import-src-" <> vol_slug vol.name;
          mount_path = source_mount;
          sub_path = "";
          read_only = true;
        }
        ∷ [])

unfoldable pub init_container : String → VmVolume → DvMeta → String → Container
unfolding vol_slug disk_container init_script
init_container launcher_image vol m pod_volume =
    disk_container ("init-disk-" <> vol_slug vol.name) launcher_image
      (init_script (disk_dir vol.name <> "/disk.img") m.size_bytes)
      (mount pod_volume (disk_dir vol.name) ∷ [])

-- What a round adds for a volume whose claim is found: volumes of the pod, and an init container.
unfoldable pub provision : String → VmVolume → DvMeta → String → List Volume × Container
unfolding source_volume import_container init_container
provision launcher_image vol m pod_volume =
    if m.registry_url == ""
    then ([], init_container launcher_image vol m pod_volume)
    else (source_volume vol m ∷ [], import_container launcher_image vol m pod_volume)

-- The data volume of a round that does not `continue`, with what is known of it.
unfoldable pub wanted : Dict DvMeta → VmVolume → Option (String × DvMeta)
unfolding lookup
wanted metas vol = elim vol.data_volume [
  | none ↦ none
  | some name ↦ elim (lookup name metas) [
    | none ↦ none
    | some m ↦ if is_positive m.size_bytes then some (name, m) else none
  ]
]

-- A round of the loop, over the pod and the new containers.
unfoldable pub provision_volume :
    String → Dict DvMeta → VmVolume → Pod × List Container → Pod × List Container
unfolding wanted pod_volume_name provision add_volumes
provision_volume launcher_image metas vol (pod, inits) = elim (wanted metas vol) [
  | none ↦ (pod, inits)
  | some (name, m) ↦
      let pod_volume = pod_volume_name name pod in
      let (volumes, init) = provision launcher_image vol m pod_volume in
      if pod_volume == "" then (pod, inits) else (add_volumes volumes pod, inits ++ init ∷ [])
]

unfoldable pub provision_volumes :
    String → Dict DvMeta → List VmVolume → Pod × List Container → Pod × List Container
unfolding provision_volume
provision_volumes launcher_image metas [] s = s
provision_volumes launcher_image metas (vol ∷ vols) s =
    provision_volumes launcher_image metas vols (provision_volume launcher_image metas vol s)

unfoldable pub inject_data_volume_init_containers : Vmi → VirtualMachine → String → Pod → Pod
unfolding metas_from provision_volumes prepend_inits
inject_data_volume_init_containers vmi vm launcher_image pod =
    let metas = metas_from vm.data_volume_templates [] in
    let (pod', inits) = provision_volumes launcher_image metas vmi.spec.volumes (pod, []) in
    prepend_inits inits pod'
