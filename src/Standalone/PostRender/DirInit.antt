-- ===== src/Standalone/PostRender/DirInit.antt =====
-- `injectVirtHandlerDirInit` and `volumeKey`.
use vm_to_quadlet.Base.{
  String, ◌<>◌, Option, none, some, List, [], ◌∷◌, map, if◌then◌else◌, is_empty, concat_map,
}
use vm_to_quadlet.Base.Dict.{Dict, lookup}
use vm_to_quadlet.Base.Text.{cut_suffix, after_last, join}
use vm_to_quadlet.Kube.Pod.{VolumeMount, mount, no_security, Container, zero_container, Volume, Pod}
use vm_to_quadlet.Standalone.PostRender.Compute.{prepend_inits}

unfoldable pub volume_key : String → String
unfolding cut_suffix after_last
volume_key name = elim (cut_suffix name "-empty") [
  | none ↦ name
  | some trimmed ↦ elim (after_last "-" trimmed) [ none ↦ name | some key ↦ key ]
]

subdirs_for_vol : Dict (List String)
subdirs_for_vol = ("private", "libvirt/qemu" ∷ []) ∷ []

-- The subdirectories that a volume of the pod needs; `none` for a round that does `continue`.
unfoldable pub subdirs_of : Volume → Option (List String)
unfolding subdirs_for_vol volume_key lookup
subdirs_of v = if v.source.empty_dir then lookup (volume_key v.name) subdirs_for_vol else none

abbrev pub empty_dir_path : Volume → String
empty_dir_path v = "/emptydir/" <> v.name

unfoldable pub volume_mounts : Volume → List VolumeMount
unfolding subdirs_of
volume_mounts v = elim (subdirs_of v) [ none ↦ [] | some _ ↦ mount v.name (empty_dir_path v) ∷ [] ]

unfoldable pub volume_commands : Volume → List String
unfolding subdirs_of
volume_commands v = elim (subdirs_of v) [
  | none ↦ []
  | some subdirs ↦ map (λ sub. "mkdir -p " <> empty_dir_path v <> "/" <> sub) subdirs
]

unfoldable pub dir_init : String → List Volume → Container
unfolding volume_mounts volume_commands join
dir_init launcher_image volumes = record zero_container {
  name = "virt-handler-dir-init";
  image = launcher_image;
  command = "/bin/bash" ∷ "-c" ∷ join " && " (concat_map volume_commands volumes) ∷ [];
  volume_mounts = concat_map volume_mounts volumes;
  security_context = some (record no_security { run_as_user = some 107 });
}

unfoldable pub inject_virt_handler_dir_init : String → Pod → Pod
unfolding dir_init volume_commands prepend_inits
inject_virt_handler_dir_init launcher_image pod =
    if is_empty (concat_map volume_commands pod.spec.volumes)
    then pod
    else prepend_inits (dir_init launcher_image pod.spec.volumes ∷ []) pod
