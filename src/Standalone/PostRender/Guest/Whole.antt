-- ===== src/Standalone/PostRender/Guest/Whole.antt =====
-- The guest's container after the whole of step 5.
use vm_to_quadlet.Kube.Pod.{Probe}
use vm_to_quadlet.Standalone.PostRender.State.{readiness_probe}
use vm_to_quadlet.Base.{◌||◌, is_some, subst}
use vm_to_quadlet.Base.{
  String, ◌≡◌, refl, ap, ◌∙◌, inl, inr, some, if◌then◌else◌, find_first, Bool-cases, Result, ok,
  Yields,
}
use vm_to_quadlet.Kube.Pod.{Container, Pod}
use vm_to_quadlet.Kube.Machine.{Vmi, VirtualMachine}
use vm_to_quadlet.Standalone.{Options, PreparedVm}
use vm_to_quadlet.Standalone.PostRender.Compute.{is_compute, add_mounts}
use vm_to_quadlet.Standalone.PostRender.Devices.{HostFiles, mount_host_devices}
use vm_to_quadlet.Standalone.PostRender.DataVolumes.{inject_data_volume_init_containers}
use vm_to_quadlet.Standalone.PostRender.Cleanup.{CpuLabels, strip_container, cleanup_for_standalone}
use vm_to_quadlet.Standalone.PostRender.State.{set_probe}
use vm_to_quadlet.Standalone.PostRender.Adapt.{
  set_identity, add_env, standalone_env, before_devices, adapt_steps, adapt_for_standalone,
}
use vm_to_quadlet.Standalone.PostRender.Proxies.{}
use vm_to_quadlet.Standalone.PostRender.Guest.{
  HasCompute, HasCompute-on_compute, HasCompute-mount_host_devices, host_mounts,
  data_volumes-containers,
}
use vm_to_quadlet.Standalone.PostRender.Guest.Late.{
  HasCompute-cleanup, HasCompute-set_identity, HasCompute-add_proxies, late_mounts,
  HasCompute-after_cleanup,
}

-- The guest's container after all steps but the last.
HasCompute-adapt_steps :
    (labels : CpuLabels) (host : HostFiles) (opts : Options) (vm : VirtualMachine) (vmi : Vmi)
    (pod : Pod) (c : Container)
    → HasCompute pod c
    → HasCompute
        (adapt_steps labels host opts vm vmi pod).value
        (set_probe vmi (add_mounts (late_mounts opts (host_mounts host vmi)) (strip_container c)))
unfolding adapt_steps before_devices strip_container
HasCompute-adapt_steps labels host opts vm vmi pod c h =
    let before = before_devices labels host opts vm vmi pod in
    let devices = (mount_host_devices host vmi before).value in
    let ms = host_mounts host vmi in
    let disks = inject_data_volume_init_containers vmi vm opts.launcher_image devices in
    HasCompute-after_cleanup labels host opts vm vmi ms
      (cleanup_for_standalone labels vmi disks).value (strip_container c)
      (HasCompute-cleanup labels vmi disks (add_mounts ms c) (
        ap (find_first is_compute) (data_volumes-containers vmi vm opts.launcher_image devices)
        ∙ HasCompute-mount_host_devices host vmi before c
            (HasCompute-add_proxies opts (set_identity pod) c (HasCompute-set_identity pod c h))))

-- The probe of the VM's state, unless the container has a probe of its own.
abbrev pub with_probe : Probe → Container → Container
with_probe probe c = record c {
  readiness_probe =
      if is_some c.liveness_probe || is_some c.readiness_probe
      then c.readiness_probe
      else some probe;
}

set_probe_lem : (vmi : Vmi) (c : Container) → set_probe vmi c ≡ with_probe (readiness_probe vmi) c
unfolding set_probe
set_probe_lem vmi c = elim (Bool-cases (is_some c.liveness_probe || is_some c.readiness_probe)) [
  | inl probed ↦ rw probed refl
  | inr unprobed ↦ rw unprobed refl
]

HasCompute-probed :
    (labels : CpuLabels) (host : HostFiles) (opts : Options) (vm : VirtualMachine) (vmi : Vmi)
    (pod : Pod) (c : Container)
    → HasCompute pod c
    → HasCompute (adapt_steps labels host opts vm vmi pod).value (
        with_probe
          (readiness_probe vmi)
          (add_mounts (late_mounts opts (host_mounts host vmi)) (strip_container c)))
HasCompute-probed labels host opts vm vmi pod c h =
    subst (HasCompute (adapt_steps labels host opts vm vmi pod).value)
      (set_probe_lem vmi (add_mounts (late_mounts opts (host_mounts host vmi)) (strip_container c)))
      (HasCompute-adapt_steps labels host opts vm vmi pod c h)

-- When the rendered pod has a container called "compute" and the instance can be serialised, step
-- 5 returns a pod whose first container of that name is the rendered pod's first one, changed in
-- these ways only: the host's device mounts, the mount of the patched passt when its workarounds
-- are on, and the mounts of the persistent state are appended to its mounts in that order; the
-- serialised instance and the virsh URI are appended to its environment; its extended resources
-- are gone; and it has the probe of the VM's state, unless it has a liveness or readiness probe
-- of its own.
pub adapt_for_standalone-compute :
    {Cache : Type 0} (marshal : Vmi → Result String) (labels : CpuLabels) (host : HostFiles)
    (pod : Pod) (prepared : PreparedVm Cache) (opts : Options) (c : Container) (json : String)
    → HasCompute pod c
    → marshal prepared.vmi ≡ ok json
    → Yields
        (λ out. HasCompute out (
          add_env (standalone_env json) (
            with_probe
              (readiness_probe prepared.vmi)
              (add_mounts (late_mounts opts (host_mounts host prepared.vmi)) (strip_container c)))))
        (adapt_for_standalone marshal labels host pod prepared opts).value
unfolding adapt_for_standalone
adapt_for_standalone-compute marshal labels host pod prepared opts c json h m =
    let steps = (adapt_steps labels host opts prepared.vm prepared.vmi pod).value in
    let guest =
      with_probe (readiness_probe prepared.vmi)
        (add_mounts (late_mounts opts (host_mounts host prepared.vmi)) (strip_container c)) in
    rw m (
      HasCompute-on_compute (add_env (standalone_env json)) steps guest refl
        (HasCompute-probed labels host opts prepared.vm prepared.vmi pod c h))
