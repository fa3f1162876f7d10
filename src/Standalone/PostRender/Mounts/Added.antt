-- ===== src/Standalone/PostRender/Mounts/Added.antt =====
-- The devices and the proxies come with the volumes that they mount.
use mathlib.Core.Path.{subst}
use mathlib.Core.Option.{some-injective}
use vm_to_quadlet.Base.{
  String, ◌≡◌, ◌≢◌, refl, inl, inr, Bool, true, false, some, List, [], ◌∷◌, arith, ◌==◌, eq_iff,
  if◌then◌else◌, All, Bool-cases, Option-cases,
}
use vm_to_quadlet.Base.Int.{ℤ}
use vm_to_quadlet.Kube.Pod.{VolumeMount, mount, Container, Volume, Pod}
use vm_to_quadlet.Kube.Machine.{Vmi}
use vm_to_quadlet.Standalone.{Options}
use vm_to_quadlet.Standalone.PostRender.Compute.{is_compute}
use vm_to_quadlet.Standalone.PostRender.Proxies.{
  private_path, private_mount_name, private_name, private_volume_name, proxy, add_proxy,
}
use vm_to_quadlet.Standalone.PostRender.Devices.{
  Device, HostFiles, mount_device, mount_devices, mount_cgroup, mount_host_devices, kvm_devices,
  host_volume, host_devices, gpus_from, elements,
}
use vm_to_quadlet.Standalone.PostRender.Cleanup.{}
use vm_to_quadlet.Standalone.PostRender.DirInit.{}
use vm_to_quadlet.Standalone.PostRender.Patcher.{}
use vm_to_quadlet.Standalone.PostRender.Adapt.{add_proxies}
use vm_to_quadlet.Standalone.PostRender.State.{}
use vm_to_quadlet.Standalone.PostRender.Mounts.{
  IsDeclared, Resolves, MountsResolve, add_and_mount-MountsResolve, add_containers-MountsResolve,
}

pub mount_device-MountsResolve :
    (dev : Device) (pod : Pod) → MountsResolve pod → MountsResolve (mount_device dev pod)
unfolding mount_device
mount_device-MountsResolve (name, path) pod =
    add_and_mount-MountsResolve (host_volume name path "CharDevice" ∷ []) (mount name path ∷ []) pod
      (inl refl, tt)

pub mount_devices-MountsResolve :
    (devs : List Device) (pod : Pod) → MountsResolve pod → MountsResolve (mount_devices devs pod)
unfolding mount_devices
mount_devices-MountsResolve [] pod r = r
mount_devices-MountsResolve (dev ∷ devs) pod r =
    mount_devices-MountsResolve devs (mount_device dev pod) (mount_device-MountsResolve dev pod r)

pub mount_cgroup-MountsResolve : (pod : Pod) → MountsResolve pod → MountsResolve (mount_cgroup pod)
unfolding mount_cgroup
mount_cgroup-MountsResolve pod = add_and_mount-MountsResolve _ _ pod (inl refl, tt)

pub mount_host_devices-MountsResolve :
    (host : HostFiles) (vmi : Vmi) (pod : Pod)
    → MountsResolve pod
    → MountsResolve (mount_host_devices host vmi pod).value
unfolding mount_host_devices
mount_host_devices-MountsResolve host vmi pod r =
    mount_devices-MountsResolve (host_devices host vmi.spec.host_devices) _ (
      mount_devices-MountsResolve (gpus_from 0 (elements vmi.spec.gpus)) _
        (mount_cgroup-MountsResolve _ (mount_devices-MountsResolve kvm_devices pod r)))

pub private_mount_name-IsDeclared :
    (volumes : List Volume) (mounts : List VolumeMount) (name : String)
    → private_mount_name mounts ≡ some name
    → All (λ m. IsDeclared volumes m.name) mounts
    → IsDeclared volumes name
unfolding private_mount_name
private_mount_name-IsDeclared volumes [] name e h = cc
private_mount_name-IsDeclared volumes (m ∷ ms) name e (d, h) =
    elim (Bool-cases (m.mount_path == private_path)) [
      | inl here ↦ subst (IsDeclared volumes) (some-injective _ _ (rw here at e)) d
      | inr later ↦ private_mount_name-IsDeclared volumes ms name (rw later at e) h
    ]

pub private_name-IsDeclared :
    (volumes : List Volume) (cs : List Container)
    → private_name cs ≢ ""
    → All (Resolves volumes) cs
    → IsDeclared volumes (private_name cs)
unfolding private_name
private_name-IsDeclared volumes [] h r = absurd (h refl)
private_name-IsDeclared volumes (c ∷ cs) h (r, rs) = elim (Bool-cases (is_compute c)) [
  | inr other ↦ rw other (private_name-IsDeclared volumes cs (rw other at h) rs)
  | inl found ↦ elim (Option-cases (private_mount_name c.volume_mounts)) [
    | inl none_here ↦
        rw (found, none_here, private_name)
          (private_name-IsDeclared volumes cs (rw (found, none_here, private_name) at h) rs)
    | inr (name, e) ↦
        rw (found, e, private_name) (private_mount_name-IsDeclared volumes c.volume_mounts name e r)
  ]
]

pub add_proxy-MountsResolve :
    (name socket : String) (pod : Pod) (port : ℤ) (image : String)
    → MountsResolve pod
    → MountsResolve (add_proxy name socket pod port image)
unfolding add_proxy
add_proxy-MountsResolve name socket pod port image r =
    elim (Bool-cases (private_volume_name pod == "")) [
      | inl missing ↦ rw missing r
      | inr found ↦ rw found (
          add_containers-MountsResolve (proxy name socket (private_volume_name pod) port image ∷ [])
            pod
            (
              (
                private_name-IsDeclared pod.spec.volumes pod.spec.containers
                    (λ e. ground (arith, eq_iff (private_volume_name pod) "")) r.containers,
                tt,
              ),
              tt,
            )
            r)
    ]

pub if-MountsResolve :
    (b : Bool) (pod pod' : Pod)
    → MountsResolve pod
    → MountsResolve pod'
    → MountsResolve (if b then pod else pod')
if-MountsResolve true pod pod' r r' = r
if-MountsResolve false pod pod' r r' = r'

-- The proxies, the serial one first.
pub add_proxies-MountsResolve :
    (opts : Options) (pod : Pod) → MountsResolve pod → MountsResolve (add_proxies opts pod)
unfolding add_proxies
add_proxies-MountsResolve opts pod r =
    if-MountsResolve opts.add_vnc_proxy _ _
      (add_proxy-MountsResolve "vnc-proxy" "virt-vnc" _ opts.vnc_port opts.vnc_image serial) serial
  where
    serial : MountsResolve (
        if opts.add_serial_proxy
        then add_proxy "console-proxy" "virt-serial0" pod opts.serial_port opts.serial_image
        else pod)
    serial =
        if-MountsResolve opts.add_serial_proxy _ _
          (add_proxy-MountsResolve "console-proxy" "virt-serial0" pod opts.serial_port
            opts.serial_image r)
          r
