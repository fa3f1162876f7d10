-- ===== src/Standalone/PostRender/Guest.antt =====
-- The container "compute", which runs the guest, through the steps of step 5.
pub mod Whole
pub mod Late
use mathlib.Core.List.{append-nil, append_assoc}
use vm_to_quadlet.Base.{
  ℕ, String, ◌≡◌, refl, sym, ap, subst, ◌∙◌, inl, inr, Bool, true, false, not, Option, none, some,
  List, [], ◌∷◌, ◌++◌, map, arith, ◌==◌, eq_iff, if◌then◌else◌, is_empty, find_first,
  find_first-update_first, find_first-true, concat_map, Bool-cases, Option-cases,
}
use vm_to_quadlet.Base.Int.{ℤ}
use vm_to_quadlet.Kube.Pod.{VolumeMount, mount, Container, Volume, Pod}
use vm_to_quadlet.Kube.Machine.{Vmi, VirtualMachine}
use vm_to_quadlet.Standalone.{Options}
use vm_to_quadlet.Standalone.PostRender.Compute.{
  is_compute, compute, add_volumes, on_compute, add_mounts, mount_in_compute, add_containers,
}
use vm_to_quadlet.Standalone.PostRender.Proxies.{private_volume_name, proxy, add_proxy}
use vm_to_quadlet.Standalone.PostRender.Devices.{
  Device, HostFiles, host_volume, mount_device, mount_devices, mount_cgroup, kvm_devices, gpus_from,
  elements, host_devices, mount_host_devices,
}
use vm_to_quadlet.Standalone.PostRender.DataVolumes.{
  DvMeta, provision, wanted, pod_volume_name, provision_volume, provision_volumes, metas_from,
  inject_data_volume_init_containers,
}
use vm_to_quadlet.Base.Dict.{Dict}
use vm_to_quadlet.Kube.Machine.{VmVolume}

abbrev pub HasCompute : Pod → Container → Type 0
HasCompute pod c = compute pod ≡ some c

pub find_first-append :
    {A : Type 0} (p : A → Bool) (xs ys : List A) (x : A)
    → find_first p xs ≡ some x
    → find_first p (xs ++ ys) ≡ some x
find_first-append p [] ys x h = cc
find_first-append p (y ∷ xs) ys x h = ground (arith, find_first-append p xs ys x)

pub HasCompute-on_compute :
    (f : Container → Container) (pod : Pod) (c : Container)
    → (f c).name ≡ c.name
    → HasCompute pod c
    → HasCompute (on_compute f pod) (f c)
unfolding on_compute
HasCompute-on_compute f pod c same h =
    find_first-update_first is_compute f pod.spec.containers c h
      (ap (λ name. name == "compute") same ∙ find_first-true is_compute pod.spec.containers c h)

pub HasCompute-add_volumes :
    (volumes : List Volume) (pod : Pod) (c : Container)
    → HasCompute pod c
    → HasCompute (add_volumes volumes pod) c
unfolding add_volumes
HasCompute-add_volumes volumes pod c h = h

pub HasCompute-add_containers :
    (cs : List Container) (pod : Pod) (c : Container)
    → HasCompute pod c
    → HasCompute (add_containers cs pod) c
unfolding add_containers
HasCompute-add_containers cs pod c h = find_first-append is_compute pod.spec.containers cs c h

-- The mounts that a list of devices brings.
abbrev pub device_mounts : List Device → List VolumeMount
device_mounts = map (λ (name, path). mount name path)

add_mounts_twice :
    (ms ns : List VolumeMount) (c : Container)
    → add_mounts ns (add_mounts ms c) ≡ add_mounts (ms ++ ns) c
add_mounts_twice ms ns c =
    ap (λ mounts. record c { volume_mounts = mounts }) (append_assoc c.volume_mounts ms ns)

-- Mounts are added behind those already added.
pub HasCompute-mount :
    (ms ns : List VolumeMount) (volumes : List Volume) (pod : Pod) (c : Container)
    → HasCompute pod (add_mounts ms c)
    → HasCompute (mount_in_compute ns (add_volumes volumes pod)) (add_mounts (ms ++ ns) c)
unfolding mount_in_compute
HasCompute-mount ms ns volumes pod c h =
    HasCompute-on_compute (add_mounts ns) (add_volumes volumes pod) (add_mounts ms c) refl
      (HasCompute-add_volumes volumes pod (add_mounts ms c) h)
    ∙ ap some (add_mounts_twice ms ns c)

HasCompute-mount_devices :
    (devs : List Device) (ms : List VolumeMount) (pod : Pod) (c : Container)
    → HasCompute pod (add_mounts ms c)
    → HasCompute (mount_devices devs pod) (add_mounts (ms ++ device_mounts devs) c)
unfolding mount_devices
HasCompute-mount_devices [] ms pod c h = rw append-nil h
HasCompute-mount_devices ((name, path) ∷ devs) ms pod c h =
    subst (λ all. HasCompute (mount_devices ((name, path) ∷ devs) pod) (add_mounts all c))
      (append_assoc ms (mount name path ∷ []) (device_mounts devs))
      (HasCompute-mount_devices devs (ms ++ mount name path ∷ []) (mount_device (name, path) pod) c
        (HasCompute-mount ms (mount name path ∷ []) (host_volume name path "CharDevice" ∷ []) pod c
          h))

abbrev cgroup_mount : VolumeMount
cgroup_mount = record {
  name = "cgroup";
  mount_path = "/sys/fs/cgroup";
  sub_path = "";
  read_only = true;
}

HasCompute-mount_cgroup :
    (ms : List VolumeMount) (pod : Pod) (c : Container)
    → HasCompute pod (add_mounts ms c)
    → HasCompute (mount_cgroup pod) (add_mounts (ms ++ cgroup_mount ∷ []) c)
unfolding mount_cgroup
HasCompute-mount_cgroup ms pod c h =
    HasCompute-mount ms (cgroup_mount ∷ []) (host_volume "cgroup" "/sys/fs/cgroup" "Directory" ∷ [])
      pod c h

-- What the guest's container mounts for the host's devices, in order.
pub host_mounts : HostFiles → Vmi → List VolumeMount
host_mounts host vmi =
    (((device_mounts kvm_devices ++ cgroup_mount ∷ [])
        ++ device_mounts (gpus_from 0 (elements vmi.spec.gpus)))
      ++ device_mounts (host_devices host vmi.spec.host_devices))

pub HasCompute-mount_host_devices :
    (host : HostFiles) (vmi : Vmi) (pod : Pod) (c : Container)
    → HasCompute pod c
    → HasCompute (mount_host_devices host vmi pod).value (add_mounts (host_mounts host vmi) c)
unfolding mount_host_devices host_mounts
HasCompute-mount_host_devices host vmi pod c h =
    let p1 = mount_devices kvm_devices pod in
    let p2 = mount_cgroup p1 in
    let p3 = mount_devices (gpus_from 0 (elements vmi.spec.gpus)) p2 in
    let ms1 = device_mounts kvm_devices in
    let ms2 = ms1 ++ cgroup_mount ∷ [] in
    let ms3 = ms2 ++ device_mounts (gpus_from 0 (elements vmi.spec.gpus)) in
    HasCompute-mount_devices (host_devices host vmi.spec.host_devices) ms3 p3 c (
      HasCompute-mount_devices (gpus_from 0 (elements vmi.spec.gpus)) ms2 p2 c (
        HasCompute-mount_cgroup ms1 p1 c (
          HasCompute-mount_devices kvm_devices [] pod c (
            subst (λ ms. HasCompute pod (record c { volume_mounts = ms }))
              (sym (append-nil c.volume_mounts)) h))))

pub HasCompute-add_proxy :
    (name socket : String) (pod : Pod) (port : ℤ) (image : String) (c : Container)
    → HasCompute pod c
    → HasCompute (add_proxy name socket pod port image) c
unfolding add_proxy
HasCompute-add_proxy name socket pod port image c h =
    elim (Bool-cases (private_volume_name pod == "")) [
      | inl missing ↦ rw missing h
      | inr found ↦ rw found (
          HasCompute-add_containers (proxy name socket (private_volume_name pod) port image ∷ [])
            pod c h)
    ]

provision_volume-containers :
    (image : String) (metas : Dict DvMeta) (vol : VmVolume) (pod : Pod) (inits : List Container)
    → (provision_volume image metas vol (pod, inits)).0.spec.containers ≡ pod.spec.containers
unfolding provision_volume add_volumes
provision_volume-containers image metas vol pod inits = elim (Option-cases (wanted metas vol)) [
  | inl skipped ↦ rw (skipped, provision_volume)
  | inr ((name, m), e) ↦ elim (Bool-cases (pod_volume_name name pod == "")) [
    | inl missing ↦ rw (e, missing, provision_volume)
    | inr found ↦ rw (e, found, provision_volume)
  ]
]

provision_volumes-containers :
    (image : String) (metas : Dict DvMeta) (vols : List VmVolume) (s : Pod × List Container)
    → (provision_volumes image metas vols s).0.spec.containers ≡ s.0.spec.containers
unfolding provision_volumes
provision_volumes-containers image metas [] s = refl
provision_volumes-containers image metas (vol ∷ vols) (pod, inits) =
    provision_volumes-containers image metas vols (provision_volume image metas vol (pod, inits))
    ∙ provision_volume-containers image metas vol pod inits

-- The init containers of data volumes leave the regular containers alone.
pub data_volumes-containers :
    (vmi : Vmi) (vm : VirtualMachine) (image : String) (pod : Pod)
    → (inject_data_volume_init_containers vmi vm image pod).spec.containers ≡ pod.spec.containers
unfolding inject_data_volume_init_containers
data_volumes-containers vmi vm image pod =
    provision_volumes-containers image (metas_from vm.data_volume_templates []) vmi.spec.volumes
      (pod, [])
