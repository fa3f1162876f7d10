-- ===== src/Standalone/PostRender/Guest/Late.antt =====
-- The guest's container through the steps around the cleanup.
use vm_to_quadlet.Base.{
  String, ◌≡◌, ap, inl, inr, Bool, true, false, not, ◌&&◌, Option, none, some, List, [], ◌∷◌, ◌++◌,
  map, arith, ◌==◌, if◌then◌else◌, is_empty, find_first, concat_map, Bool-cases,
}
use vm_to_quadlet.Kube.Pod.{VolumeMount, Container, Pod}
use vm_to_quadlet.Kube.Machine.{Vmi, VirtualMachine}
use vm_to_quadlet.Standalone.{Options}
use vm_to_quadlet.Standalone.PostRender.Compute.{is_compute, add_mounts}
use vm_to_quadlet.Standalone.PostRender.Devices.{HostFiles}
use vm_to_quadlet.Standalone.PostRender.Cleanup.{
  CpuLabels, strip_container, moved_inits, cleanup_for_standalone, add_persistence_warnings,
}
use vm_to_quadlet.Standalone.PostRender.DirInit.{volume_commands, inject_virt_handler_dir_init}
use vm_to_quadlet.Standalone.PostRender.Patcher.{passt_volume, inject_passt_binary_patcher}
use vm_to_quadlet.Standalone.PostRender.State.{
  state_volumes, state_mounts, set_probe, inject_persistent_state_volumes,
  inject_compute_readiness_probe,
}
use vm_to_quadlet.Standalone.PostRender.Adapt.{set_identity, add_proxies, after_cleanup}
use vm_to_quadlet.Standalone.PostRender.Proxies.{
  add_proxy, inject_vnc_proxy, add_console_proxy_sidecar,
}
use vm_to_quadlet.Standalone.PostRender.Guest.{
  HasCompute, HasCompute-on_compute, HasCompute-mount, HasCompute-add_proxy, find_first-append,
}

abbrev pub option_map : {A B : Type 0} → (A → B) → Option A → Option B
option_map f none = none
option_map f (some x) = some (f x)

pub find_first-map_strip :
    (cs : List Container) (c : Container)
    → find_first is_compute cs ≡ some c
    → find_first is_compute (map strip_container cs) ≡ some (strip_container c)
unfolding strip_container
find_first-map_strip [] c h = cc
find_first-map_strip (d ∷ cs) c h = elim (Bool-cases (is_compute d)) [
  | inl here ↦ rw here (ap (option_map strip_container) (rw here at h))
  | inr later ↦ rw later (find_first-map_strip cs c (rw later at h))
]

pub HasCompute-cleanup :
    (labels : CpuLabels) (vmi : Vmi) (pod : Pod) (c : Container)
    → HasCompute pod c
    → HasCompute (cleanup_for_standalone labels vmi pod).value (strip_container c)
unfolding cleanup_for_standalone
HasCompute-cleanup labels vmi pod c h =
    find_first-map_strip (pod.spec.containers ++ moved_inits pod.spec.init_containers) c
      (find_first-append is_compute pod.spec.containers (moved_inits pod.spec.init_containers) c h)

pub HasCompute-dir_init :
    (image : String) (pod : Pod) (c : Container)
    → HasCompute pod c
    → HasCompute (inject_virt_handler_dir_init image pod) c
unfolding inject_virt_handler_dir_init
HasCompute-dir_init image pod c h =
    elim (Bool-cases (is_empty (concat_map volume_commands pod.spec.volumes))) [
      | inl nothing ↦ rw nothing h
      | inr some_dirs ↦ rw some_dirs h
    ]

abbrev pub patcher_mount : VolumeMount
patcher_mount = record {
  name = "passt-bin";
  mount_path = "/passt-bin";
  sub_path = "";
  read_only = true;
}

pub HasCompute-patcher :
    (opts : Options) (ms : List VolumeMount) (pod : Pod) (c : Container)
    → HasCompute pod (add_mounts ms c)
    → HasCompute (inject_passt_binary_patcher opts pod) (add_mounts (ms ++ patcher_mount ∷ []) c)
unfolding inject_passt_binary_patcher
HasCompute-patcher opts ms pod c h =
    HasCompute-mount ms (patcher_mount ∷ []) (passt_volume ∷ []) pod c h

pub HasCompute-state :
    (vmi : Vmi) (ms : List VolumeMount) (pod : Pod) (c : Container)
    → HasCompute pod (add_mounts ms c)
    → HasCompute (inject_persistent_state_volumes vmi pod) (add_mounts (ms ++ state_mounts) c)
unfolding inject_persistent_state_volumes
HasCompute-state vmi ms pod c h = HasCompute-mount ms state_mounts (state_volumes vmi.name) pod c h

pub HasCompute-choice :
    (b : Bool) (pod pod' : Pod) (c : Container)
    → HasCompute pod c
    → HasCompute pod' c
    → HasCompute (if b then pod else pod') c
HasCompute-choice true pod pod' c h h' = h
HasCompute-choice false pod pod' c h h' = h'

pub HasCompute-set_identity :
    (pod : Pod) (c : Container) → HasCompute pod c → HasCompute (set_identity pod) c
unfolding set_identity
HasCompute-set_identity pod c h =
    elim (Bool-cases (not (pod.generate_name == "") && pod.name == "")) [
      | inl generated ↦ rw generated h
      | inr named ↦ rw named h
    ]

pub HasCompute-add_proxies :
    (opts : Options) (pod : Pod) (c : Container)
    → HasCompute pod c
    → HasCompute (add_proxies opts pod) c
unfolding add_proxies add_console_proxy_sidecar inject_vnc_proxy
HasCompute-add_proxies opts pod c h =
    let console = add_proxy "console-proxy" "virt-serial0" pod opts.serial_port opts.serial_image in
    let serial = if opts.add_serial_proxy then console else pod in
    let k =
      HasCompute-choice opts.add_serial_proxy console pod c
        (HasCompute-add_proxy "console-proxy" "virt-serial0" pod opts.serial_port opts.serial_image
          c h)
        h in
    HasCompute-choice opts.add_vnc_proxy
      (add_proxy "vnc-proxy" "virt-vnc" serial opts.vnc_port opts.vnc_image) serial c
      (HasCompute-add_proxy "vnc-proxy" "virt-vnc" serial opts.vnc_port opts.vnc_image c k) k

-- The mounts of the last steps, behind those of the devices.
abbrev pub late_mounts : Options → List VolumeMount → List VolumeMount
late_mounts opts ms =
    (if opts.passt_workarounds then ms ++ patcher_mount ∷ [] else ms) ++ state_mounts

pub HasCompute-patched :
    (on : Bool) (opts : Options) (ms : List VolumeMount) (pod : Pod) (c : Container)
    → HasCompute pod (add_mounts ms c)
    → HasCompute
        (if on then inject_passt_binary_patcher opts pod else pod)
        (add_mounts (if on then ms ++ patcher_mount ∷ [] else ms) c)
HasCompute-patched true opts ms pod c h = HasCompute-patcher opts ms pod c h
HasCompute-patched false opts ms pod c h = h

pub HasCompute-late_mounts :
    (opts : Options) (vmi : Vmi) (ms : List VolumeMount) (pod : Pod) (c : Container)
    → HasCompute pod (add_mounts ms c)
    → HasCompute
        (inject_persistent_state_volumes vmi
          (if opts.passt_workarounds then inject_passt_binary_patcher opts pod else pod))
        (add_mounts (late_mounts opts ms) c)
HasCompute-late_mounts opts vmi ms pod c h =
    HasCompute-state vmi (if opts.passt_workarounds then ms ++ patcher_mount ∷ [] else ms)
      (if opts.passt_workarounds then inject_passt_binary_patcher opts pod else pod) c
      (HasCompute-patched opts.passt_workarounds opts ms pod c h)

pub set_probe-name : (vmi : Vmi) (c : Container) → (set_probe vmi c).name ≡ c.name
unfolding set_probe
set_probe-name vmi c = ground arith

pub HasCompute-after_cleanup :
    (labels : CpuLabels) (host : HostFiles) (opts : Options) (vm : VirtualMachine) (vmi : Vmi)
    (ms : List VolumeMount) (pod : Pod) (c : Container)
    → HasCompute pod (add_mounts ms c)
    → HasCompute
        (after_cleanup labels host opts vm vmi pod)
        (set_probe vmi (add_mounts (late_mounts opts ms) c))
unfolding after_cleanup inject_compute_readiness_probe add_persistence_warnings
HasCompute-after_cleanup labels host opts vm vmi ms pod c h =
    let dirs = inject_virt_handler_dir_init opts.launcher_image pod in
    let patched = if opts.passt_workarounds then inject_passt_binary_patcher opts dirs else dirs in
    let guest = add_mounts (late_mounts opts ms) c in
    HasCompute-on_compute (set_probe vmi)
      (add_persistence_warnings vm (inject_persistent_state_volumes vmi patched)) guest
      (set_probe-name vmi guest)
      (HasCompute-late_mounts opts vmi ms dirs c
        (HasCompute-dir_init opts.launcher_image pod (add_mounts ms c) h))
