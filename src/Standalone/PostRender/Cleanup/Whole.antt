-- ===== src/Standalone/PostRender/Cleanup/Whole.antt =====
-- The steps after cleanupForStandalone add nothing that a standalone host cannot run.
use vm_to_quadlet.Base.{
  String, ◌≡◌, refl, inl, inr, Bool, true, false, List, [], ◌∷◌, ◌++◌, ◌||◌, if◌then◌else◌,
  is_empty, is_some, All, All-append, All-update_first, Bool-cases, concat_map, Result, ok, Yields,
  update_first,
}
use vm_to_quadlet.Kube.Pod.{VolumeMount, Volume, Container, Pod}
use vm_to_quadlet.Kube.Machine.{Vmi}
use vm_to_quadlet.Standalone.{Options, PreparedVm}
use vm_to_quadlet.Standalone.PostRender.Compute.{
  add_volumes, add_mounts, mount_in_compute, prepend_inits,
}
use vm_to_quadlet.Standalone.PostRender.Devices.{HostFiles, mount_host_devices}
use vm_to_quadlet.Standalone.PostRender.DataVolumes.{inject_data_volume_init_containers}
use vm_to_quadlet.Standalone.PostRender.Cleanup.{
  CpuLabels, cleanup_for_standalone, add_persistence_warnings,
}
use vm_to_quadlet.Standalone.PostRender.Cleanup.Standalone.{
  HasBuiltinResources, IsOneShot, IsStandalone, cleanup-IsStandalone, on_compute-IsStandalone,
}
use vm_to_quadlet.Standalone.PostRender.DirInit.{
  dir_init, volume_commands, inject_virt_handler_dir_init,
}
use vm_to_quadlet.Standalone.PostRender.Patcher.{
  append_init, patcher, passt_volume, inject_passt_binary_patcher,
}
use vm_to_quadlet.Standalone.PostRender.State.{
  state_volumes, state_mounts, set_probe, is_dir_init, extend_dir_init, on_dir_init,
  inject_persistent_state_volumes, inject_compute_readiness_probe,
}
use vm_to_quadlet.Standalone.PostRender.Adapt.{
  add_env, standalone_env, before_devices, after_cleanup, adapt_steps, adapt_for_standalone,
}

mount-IsStandalone :
    (ms : List VolumeMount) (volumes : List Volume) (pod : Pod)
    → IsStandalone pod
    → IsStandalone (mount_in_compute ms (add_volumes volumes pod))
unfolding mount_in_compute add_volumes
mount-IsStandalone ms volumes pod s =
    on_compute-IsStandalone (add_mounts ms) (add_volumes volumes pod)
      (λ c h. record { limits = h.limits; requests = h.requests })
      (record {
        owners = s.owners;
        gates = s.gates;
        restarts = s.restarts;
        containers = s.containers;
        inits = s.inits;
        one_shot = s.one_shot;
      })

-- The init containers become others that ask for no extended resource and end.
with_inits-IsStandalone :
    (inits : List Container) (pod : Pod)
    → All HasBuiltinResources inits
    → All IsOneShot inits
    → IsStandalone pod
    → IsStandalone (record pod { spec = record (pod.spec) { init_containers = inits } })
with_inits-IsStandalone inits pod builtin ends s = record {
  owners = s.owners;
  gates = s.gates;
  restarts = s.restarts;
  containers = s.containers;
  inits = builtin;
  one_shot = ends;
}

dir_init-IsStandalone :
    (image : String) (pod : Pod)
    → IsStandalone pod
    → IsStandalone (inject_virt_handler_dir_init image pod)
unfolding inject_virt_handler_dir_init prepend_inits dir_init
dir_init-IsStandalone image pod s =
    elim (Bool-cases (is_empty (concat_map volume_commands pod.spec.volumes))) [
      | inl nothing ↦ rw nothing s
      | inr some_dirs ↦ rw some_dirs (
          with_inits-IsStandalone (dir_init image pod.spec.volumes ∷ pod.spec.init_containers) pod
            (record { limits = tt; requests = tt }, s.inits) (refl, s.one_shot) s)
    ]

patcher-IsStandalone :
    (on : Bool) (opts : Options) (pod : Pod)
    → IsStandalone pod
    → IsStandalone (if on then inject_passt_binary_patcher opts pod else pod)
unfolding inject_passt_binary_patcher append_init patcher add_volumes
patcher-IsStandalone false opts pod s = s
patcher-IsStandalone true opts pod s =
    on_compute-IsStandalone
      (add_mounts (
        record { name = "passt-bin"; mount_path = "/passt-bin"; sub_path = ""; read_only = true }
        ∷ []))
      (append_init (patcher opts) (add_volumes (passt_volume ∷ []) pod))
      (λ c h. record { limits = h.limits; requests = h.requests })
      (with_inits-IsStandalone (pod.spec.init_containers ++ patcher opts ∷ [])
        (add_volumes (passt_volume ∷ []) pod)
        (All-append HasBuiltinResources pod.spec.init_containers (patcher opts ∷ []) s.inits
          (record { limits = tt; requests = tt }, tt))
        (All-append IsOneShot pod.spec.init_containers (patcher opts ∷ []) s.one_shot (refl, tt))
        (record {
          owners = s.owners;
          gates = s.gates;
          restarts = s.restarts;
          containers = s.containers;
          inits = s.inits;
          one_shot = s.one_shot;
        }))

state-IsStandalone :
    (vmi : Vmi) (pod : Pod)
    → IsStandalone pod
    → IsStandalone (inject_persistent_state_volumes vmi pod)
unfolding inject_persistent_state_volumes on_dir_init extend_dir_init
state-IsStandalone vmi pod s =
    let mounted = mount_in_compute state_mounts (add_volumes (state_volumes vmi.name) pod) in
    let t = mount-IsStandalone state_mounts (state_volumes vmi.name) pod s in
    with_inits-IsStandalone (update_first is_dir_init extend_dir_init mounted.spec.init_containers)
      mounted
      (All-update_first HasBuiltinResources is_dir_init extend_dir_init mounted.spec.init_containers
        (λ c h. record { limits = h.limits; requests = h.requests }) t.inits)
      (All-update_first IsOneShot is_dir_init extend_dir_init mounted.spec.init_containers
        (λ c h. h) t.one_shot)
      t

set_probe-HasBuiltinResources :
    (vmi : Vmi) (c : Container) → HasBuiltinResources c → HasBuiltinResources (set_probe vmi c)
unfolding set_probe
set_probe-HasBuiltinResources vmi c h =
    elim (Bool-cases (is_some c.liveness_probe || is_some c.readiness_probe)) [
      | inl probed ↦ rw probed h
      | inr unprobed ↦ rw unprobed (record { limits = h.limits; requests = h.requests })
    ]

-- The pod that step 5 returns has no owner references, no readiness gates and the restart policy
-- OnFailure; all its init containers end (none has the restart policy Always); and no container or
-- init container of it asks for an extended resource. A pod is returned whenever the instance can be
-- serialised.
pub adapt_for_standalone-IsStandalone :
    {Cache : Type 0} (marshal : Vmi → Result String) (labels : CpuLabels) (host : HostFiles)
    (pod : Pod) (prepared : PreparedVm Cache) (opts : Options) (json : String)
    → marshal prepared.vmi ≡ ok json
    → Yields IsStandalone (adapt_for_standalone marshal labels host pod prepared opts).value
unfolding adapt_for_standalone adapt_steps after_cleanup inject_compute_readiness_probe
    add_persistence_warnings
adapt_for_standalone-IsStandalone marshal labels host pod prepared opts json m =
    let vmi = prepared.vmi in
    let vm = prepared.vm in
    let devices =
      (mount_host_devices host vmi (before_devices labels host opts vm vmi pod)).value in
    let clean =
      (cleanup_for_standalone labels vmi
        (inject_data_volume_init_containers vmi vm opts.launcher_image devices)).value in
    let dirs = inject_virt_handler_dir_init opts.launcher_image clean in
    let patched = if opts.passt_workarounds then inject_passt_binary_patcher opts dirs else dirs in
    let s = state-IsStandalone vmi patched (
      patcher-IsStandalone opts.passt_workarounds opts dirs (
        dir_init-IsStandalone opts.launcher_image clean (
          cleanup-IsStandalone labels vmi
            (inject_data_volume_init_containers vmi vm opts.launcher_image devices)))) in
    rw m (
      on_compute-IsStandalone (add_env (standalone_env json))
        (inject_compute_readiness_probe vmi
          (add_persistence_warnings vm (inject_persistent_state_volumes vmi patched)))
        (λ c h. record { limits = h.limits; requests = h.requests })
        (on_compute-IsStandalone (set_probe vmi)
          (add_persistence_warnings vm (inject_persistent_state_volumes vmi patched))
          (set_probe-HasBuiltinResources vmi)
          (record {
            owners = s.owners;
            gates = s.gates;
            restarts = s.restarts;
            containers = s.containers;
            inits = s.inits;
            one_shot = s.one_shot;
          })))
