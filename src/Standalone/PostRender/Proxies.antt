-- ===== src/Standalone/PostRender/Proxies.antt =====
-- `privateVolumeName`, `injectVNCProxy` and `addConsoleProxySidecar`.
pub mod Laws
use vm_to_quadlet.Base.{
  String, ◌<>◌, Option, none, some, List, [], ◌∷◌, ◌==◌, if◌then◌else◌, find_first,
}
use vm_to_quadlet.Base.Int.{ℤ, show}
use vm_to_quadlet.Kube.Pod.{VolumeMount, mount, Container, zero_container, Pod}
use vm_to_quadlet.Standalone.PostRender.Compute.{is_compute, add_containers}

unfoldable pub private_path : String
private_path = "/var/run/kubevirt-private"

-- The loops go through every container called "compute", up to the first mount of the path.
unfoldable pub private_mount_name : List VolumeMount → Option String
unfolding private_path
private_mount_name [] = none
private_mount_name (m ∷ ms) =
    let rest = private_mount_name ms in if m.mount_path == private_path then some m.name else rest

unfoldable pub private_name : List Container → String
unfolding private_mount_name
private_name [] = ""
private_name (c ∷ cs) =
    let rest = private_name cs in
    if is_compute c
    then elim (private_mount_name c.volume_mounts) [ some name ↦ name | none ↦ rest ]
    else rest

unfoldable pub private_volume_name : Pod → String
unfolding private_name
private_volume_name pod = private_name pod.spec.containers

-- The socat sidecar that forwards a socket of the private volume to a TCP port.
unfoldable pub proxy : String → String → String → ℤ → String → Container
unfolding show
proxy name socket volume port image = record zero_container {
  name = name;
  image = image;
  command =
      "socat"
      ∷ ("TCP-LISTEN:" <> show port <> ",fork,reuseaddr")
      ∷ ("UNIX:/var/run/kubevirt-private/default/" <> socket)
      ∷ [];
  volume_mounts = mount volume "/var/run/kubevirt-private" ∷ [];
}

unfoldable pub add_proxy : String → String → Pod → ℤ → String → Pod
unfolding private_volume_name proxy add_containers
add_proxy name socket pod port image =
    let volume = private_volume_name pod in
    if volume == "" then pod else add_containers (proxy name socket volume port image ∷ []) pod

unfoldable pub inject_vnc_proxy : Pod → ℤ → String → Pod
unfolding add_proxy
inject_vnc_proxy = add_proxy "vnc-proxy" "virt-vnc"

unfoldable pub add_console_proxy_sidecar : Pod → ℤ → String → Pod
unfolding add_proxy
add_console_proxy_sidecar = add_proxy "console-proxy" "virt-serial0"
