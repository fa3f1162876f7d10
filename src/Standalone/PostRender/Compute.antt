-- ===== src/Standalone/PostRender/Compute.antt =====
-- The changes that the steps of post_render.go have in common: volumes appended to the pod, and the
-- loop that changes the first container called "compute".
use vm_to_quadlet.Base.{Bool, Option, List, ◌++◌, ◌==◌, find_first, update_first}
use vm_to_quadlet.Kube.Pod.{VolumeMount, Container, Volume, PodSpec, Pod}

abbrev pub is_compute : Container → Bool
is_compute c = c.name == "compute"

abbrev pub compute : Pod → Option Container
compute pod = find_first is_compute pod.spec.containers

abbrev pub with_spec : Pod → PodSpec → Pod
with_spec pod spec = record pod { spec = spec }

-- `pod.Spec.Volumes = append(pod.Spec.Volumes, volumes...)`
unfoldable pub add_volumes : List Volume → Pod → Pod
add_volumes volumes pod =
    with_spec pod (record (pod.spec) { volumes = pod.spec.volumes ++ volumes })

-- `for i, c := range pod.Spec.Containers { if c.Name == "compute" { …; break } }`
unfoldable pub on_compute : (Container → Container) → Pod → Pod
on_compute f pod =
    with_spec pod (record (pod.spec) { containers = update_first is_compute f pod.spec.containers })

abbrev pub add_mounts : List VolumeMount → Container → Container
add_mounts mounts c = record c { volume_mounts = c.volume_mounts ++ mounts }

unfoldable pub mount_in_compute : List VolumeMount → Pod → Pod
unfolding on_compute
mount_in_compute mounts = on_compute (add_mounts mounts)

-- `pod.Spec.Containers = append(pod.Spec.Containers, containers...)`
unfoldable pub add_containers : List Container → Pod → Pod
add_containers containers pod =
    with_spec pod (record (pod.spec) { containers = pod.spec.containers ++ containers })

-- `pod.Spec.InitContainers = append(containers, pod.Spec.InitContainers...)`
unfoldable pub prepend_inits : List Container → Pod → Pod
prepend_inits containers pod =
    with_spec pod (record (pod.spec) { init_containers = containers ++ pod.spec.init_containers })
