-- ===== src/Standalone/PostRender/Mounts/Whole.antt =====
-- The whole of step 5 keeps the mounts resolved.
use vm_to_quadlet.Base.{String, ◌≡◌, Result, ok, Yields, inl, inr, not, ◌&&◌, ◌==◌, Bool-cases}
use vm_to_quadlet.Kube.Pod.{Pod}
use vm_to_quadlet.Kube.Machine.{Vmi, VirtualMachine}
use vm_to_quadlet.Standalone.{Options, PreparedVm}
use vm_to_quadlet.Standalone.PostRender.Devices.{HostFiles}
use vm_to_quadlet.Standalone.PostRender.Cleanup.{CpuLabels}
use vm_to_quadlet.Standalone.PostRender.Adapt.{
  set_identity, add_env, standalone_env, before_devices, after_cleanup, adapt_steps,
  adapt_for_standalone,
}
use vm_to_quadlet.Standalone.PostRender.Mounts.{MountsResolve, on_compute-MountsResolve}
use vm_to_quadlet.Standalone.PostRender.Mounts.Added.{
  add_proxies-MountsResolve, mount_host_devices-MountsResolve, if-MountsResolve,
}
use vm_to_quadlet.Standalone.PostRender.Mounts.Steps.{
  cleanup-MountsResolve, dir_init-MountsResolve, patcher-MountsResolve, state-MountsResolve,
  warnings-MountsResolve, probe-MountsResolve,
}
use vm_to_quadlet.Standalone.PostRender.Mounts.Disks.{data_volumes-MountsResolve}

set_identity-MountsResolve : (pod : Pod) → MountsResolve pod → MountsResolve (set_identity pod)
unfolding set_identity
set_identity-MountsResolve pod r =
    elim (Bool-cases (not (pod.generate_name == "") && pod.name == "")) [
      | inl renamed ↦ rw renamed (record { containers = r.containers; inits = r.inits })
      | inr kept ↦ rw kept (record { containers = r.containers; inits = r.inits })
    ]

module _ (labels : CpuLabels) (host : HostFiles) (opts : Options) (vm : VirtualMachine)
    (vmi : Vmi) where
  after_cleanup-MountsResolve :
      (pod : Pod) → MountsResolve pod → MountsResolve (after_cleanup labels host opts vm vmi pod)
  unfolding after_cleanup
  after_cleanup-MountsResolve pod r =
      let dirs = dir_init-MountsResolve opts.launcher_image pod r in
      let patched =
        if-MountsResolve opts.passt_workarounds _ _ (patcher-MountsResolve opts _ dirs) dirs in
      probe-MountsResolve vmi _ (warnings-MountsResolve vm _ (state-MountsResolve vmi _ patched))

  adapt_steps-MountsResolve :
      (pod : Pod)
      → MountsResolve pod
      → MountsResolve (adapt_steps labels host opts vm vmi pod).value
  unfolding adapt_steps before_devices
  adapt_steps-MountsResolve pod r = after_cleanup-MountsResolve _ (
      cleanup-MountsResolve labels vmi _ (
        data_volumes-MountsResolve vmi vm opts.launcher_image _ (
          mount_host_devices-MountsResolve host vmi _
            (add_proxies-MountsResolve opts _ (set_identity-MountsResolve pod r)))))

-- Where every volume mount of the rendered pod names one of its volumes and the instance can be
-- serialised, step 5 returns a pod, and every mount of every container and init container of that pod
-- names one of its volumes, whatever the options, the devices of the host and the machine's data
-- volumes.
pub adapt-MountsResolve :
    {Cache : Type 0} (marshal : Vmi → Result String) (labels : CpuLabels) (host : HostFiles)
    (pod : Pod) (prepared : PreparedVm Cache) (opts : Options) (json : String)
    → MountsResolve pod
    → marshal prepared.vmi ≡ ok json
    → Yields MountsResolve (adapt_for_standalone marshal labels host pod prepared opts).value
unfolding adapt_for_standalone
adapt-MountsResolve marshal labels host pod prepared opts json r m =
    let vmi = prepared.vmi in
    let steps = (adapt_steps labels host opts prepared.vm vmi pod).value in
    rw m (
      on_compute-MountsResolve (add_env (standalone_env json)) steps (λ c h. h)
        (adapt_steps-MountsResolve labels host opts prepared.vm vmi pod r))
