-- ===== src/Standalone/PostRender/Mounts/Steps.antt =====
-- The steps from the cleanup on keep the mounts resolved: directories, patcher, state and probe.
use mathlib.Core.Path.{subst}
use mathlib.Core.List.{append_assoc}
use vm_to_quadlet.Base.{
  String, ◌≡◌, refl, sym, inl, inr, not, List, [], ◌∷◌, ◌++◌, map, arith, is_empty, concat_map, All,
  All-append, All-keep, All-update_first, Bool-cases, Option-cases,
}
use vm_to_quadlet.Kube.Pod.{VolumeMount, Container, Volume, Pod}
use vm_to_quadlet.Kube.Machine.{Vmi, VirtualMachine}
use vm_to_quadlet.Standalone.{Options}
use vm_to_quadlet.Standalone.PostRender.Compute.{add_volumes}
use vm_to_quadlet.Standalone.PostRender.Proxies.{}
use vm_to_quadlet.Standalone.PostRender.Devices.{}
use vm_to_quadlet.Standalone.PostRender.Cleanup.{
  CpuLabels, always_restarts, strip_container, moved_inits, cleanup_for_standalone,
  add_persistence_warnings,
}
use vm_to_quadlet.Standalone.PostRender.DirInit.{
  inject_virt_handler_dir_init, subdirs_of, volume_mounts, volume_commands, dir_init,
}
use vm_to_quadlet.Standalone.PostRender.Patcher.{
  append_init, patcher, passt_volume, inject_passt_binary_patcher,
}
use vm_to_quadlet.Standalone.PostRender.State.{
  state_volumes, state_mounts, is_dir_init, extend_dir_init, on_dir_init, set_probe,
  inject_persistent_state_volumes, inject_compute_readiness_probe,
}
use vm_to_quadlet.Standalone.PostRender.Mounts.{
  IsDeclared, IsDeclared-append_right, Resolves, MountsResolve, add_volumes-MountsResolve,
  mount_in_compute-MountsResolve, add_and_mount-MountsResolve, prepend_inits-MountsResolve,
  on_compute-MountsResolve,
}

strip_containers-Resolves :
    (volumes : List Volume) (cs : List Container)
    → All (Resolves volumes) cs
    → All (Resolves volumes) (map strip_container cs)
unfolding strip_container
strip_containers-Resolves volumes [] h = tt
strip_containers-Resolves volumes (c ∷ cs) (r, h) = (r, strip_containers-Resolves volumes cs h)

moved_inits-Resolves :
    (volumes : List Volume) (cs : List Container)
    → All (Resolves volumes) cs
    → All (Resolves volumes) (moved_inits cs)
unfolding moved_inits
moved_inits-Resolves volumes [] h = tt
moved_inits-Resolves volumes (c ∷ cs) (r, h) = elim (Bool-cases (always_restarts c)) [
  | inl moved ↦ rw moved (r, moved_inits-Resolves volumes cs h)
  | inr kept ↦ rw kept (moved_inits-Resolves volumes cs h)
]

pub cleanup-MountsResolve :
    (labels : CpuLabels) (vmi : Vmi) (pod : Pod)
    → MountsResolve pod
    → MountsResolve (cleanup_for_standalone labels vmi pod).value
unfolding cleanup_for_standalone
cleanup-MountsResolve labels vmi pod r = record {
  containers = strip_containers-Resolves _ _ (
      All-append (Resolves pod.spec.volumes) pod.spec.containers _ r.containers
        (moved_inits-Resolves pod.spec.volumes pod.spec.init_containers r.inits));
  inits = strip_containers-Resolves _ _ (
      All-keep (Resolves pod.spec.volumes) (λ c. not (always_restarts c)) pod.spec.init_containers
        r.inits);
}

volume_mounts-Resolves :
    (all volumes : List Volume)
    → All (λ v. IsDeclared all v.name) volumes
    → All (λ m. IsDeclared all m.name) (concat_map volume_mounts volumes)
unfolding volume_mounts
volume_mounts-Resolves all [] h = tt
volume_mounts-Resolves all (v ∷ vs) (d, h) = elim (Option-cases (subdirs_of v)) [
  | inl e ↦ rw (e, volume_mounts) (volume_mounts-Resolves all vs h)
  | inr (subdirs, e) ↦ rw (e, volume_mounts) (d, volume_mounts-Resolves all vs h)
]

All-IsDeclared :
    (before volumes : List Volume) → All (λ v. IsDeclared (before ++ volumes) v.name) volumes
All-IsDeclared before [] = tt
All-IsDeclared before (v ∷ vs) = (
  IsDeclared-append_right before (v ∷ vs) v.name (inl refl),
  subst (λ all. All (λ w. IsDeclared all w.name) vs) (append_assoc before (v ∷ []) vs)
      (All-IsDeclared (before ++ v ∷ []) vs),
)

pub dir_init-MountsResolve :
    (image : String) (pod : Pod)
    → MountsResolve pod
    → MountsResolve (inject_virt_handler_dir_init image pod)
unfolding inject_virt_handler_dir_init
dir_init-MountsResolve image pod r =
    elim (Bool-cases (is_empty (concat_map volume_commands pod.spec.volumes))) [
      | inl nothing ↦ rw nothing r
      | inr some_dirs ↦ rw some_dirs (
          prepend_inits-MountsResolve (dir_init image pod.spec.volumes ∷ []) pod
            (
              volume_mounts-Resolves pod.spec.volumes pod.spec.volumes
                  (All-IsDeclared [] pod.spec.volumes),
              tt,
            )
            r)
    ]

append_init-MountsResolve :
    (c : Container) (pod : Pod)
    → Resolves pod.spec.volumes c
    → MountsResolve pod
    → MountsResolve (append_init c pod)
unfolding append_init
append_init-MountsResolve c pod h r = record {
  containers = r.containers;
  inits = All-append (Resolves pod.spec.volumes) pod.spec.init_containers (c ∷ []) r.inits (h, tt);
}

pub patcher-MountsResolve :
    (opts : Options) (pod : Pod)
    → MountsResolve pod
    → MountsResolve (inject_passt_binary_patcher opts pod)
unfolding inject_passt_binary_patcher
patcher-MountsResolve opts pod r =
    let declared =
      IsDeclared-append_right pod.spec.volumes (passt_volume ∷ []) "passt-bin" (inl refl) in
    mount_in_compute-MountsResolve _
      (append_init (patcher opts) (add_volumes (passt_volume ∷ []) pod)) (declared, tt)
      (append_init-MountsResolve (patcher opts) (add_volumes (passt_volume ∷ []) pod) (declared, tt)
        (add_volumes-MountsResolve (passt_volume ∷ []) pod r))

on_dir_init-MountsResolve :
    (pod : Pod)
    → IsDeclared pod.spec.volumes "vm-state"
    → MountsResolve pod
    → MountsResolve (on_dir_init pod)
unfolding on_dir_init
on_dir_init-MountsResolve pod declared r = record {
  containers = r.containers;
  inits =
      All-update_first (Resolves pod.spec.volumes) is_dir_init extend_dir_init
        pod.spec.init_containers
        (λ c h.
          All-append (λ (m : VolumeMount). IsDeclared pod.spec.volumes m.name) c.volume_mounts _ h
            (declared, tt))
        r.inits;
}

pub state-MountsResolve :
    (vmi : Vmi) (pod : Pod)
    → MountsResolve pod
    → MountsResolve (inject_persistent_state_volumes vmi pod)
unfolding inject_persistent_state_volumes
state-MountsResolve vmi pod r =
    on_dir_init-MountsResolve _
      (IsDeclared-append_right pod.spec.volumes (state_volumes vmi.name) "vm-state" (inl refl))
      (add_and_mount-MountsResolve (state_volumes vmi.name) state_mounts pod
        (inr (inl refl), (inr (inr (inl refl)), (inl refl, (inl refl, (inl refl, tt))))) r)

pub warnings-MountsResolve :
    (vm : VirtualMachine) (pod : Pod)
    → MountsResolve pod
    → MountsResolve (add_persistence_warnings vm pod)
unfolding add_persistence_warnings
warnings-MountsResolve vm pod r = record { containers = r.containers; inits = r.inits }

set_probe-mounts : (vmi : Vmi) (c : Container) → (set_probe vmi c).volume_mounts ≡ c.volume_mounts
unfolding set_probe
set_probe-mounts vmi c = ground arith

pub probe-MountsResolve :
    (vmi : Vmi) (pod : Pod)
    → MountsResolve pod
    → MountsResolve (inject_compute_readiness_probe vmi pod)
unfolding inject_compute_readiness_probe
probe-MountsResolve vmi pod r =
    on_compute-MountsResolve (set_probe vmi) pod
      (λ c h.
        subst (λ ms. All (λ (m : VolumeMount). IsDeclared pod.spec.volumes m.name) ms)
          (sym (set_probe-mounts vmi c)) h)
      r
