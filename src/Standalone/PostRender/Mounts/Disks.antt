-- ===== src/Standalone/PostRender/Mounts/Disks.antt =====
-- The init containers of the data volumes mount volumes of the pod alone.
use mathlib.Core.Option.{some-injective}
use vm_to_quadlet.Base.{
  String, ◌≡◌, ◌≢◌, refl, ap, inl, inr, Bool, some, List, [], ◌∷◌, ◌++◌, arith, ◌==◌, eq_iff,
  find_first, All, All-append, All-mono, Bool-cases, Option-cases,
}
use vm_to_quadlet.Base.Dict.{Dict}
use vm_to_quadlet.Kube.Pod.{Container, Volume, Pod}
use vm_to_quadlet.Kube.Machine.{VmVolume, Vmi, VirtualMachine}
use vm_to_quadlet.Standalone.PostRender.Compute.{add_volumes}
use vm_to_quadlet.Standalone.PostRender.DataVolumes.{
  DvMeta, claims, pod_volume_name, source_volume, provision, wanted, provision_volume,
  provision_volumes, metas_from, inject_data_volume_init_containers,
}
use vm_to_quadlet.Standalone.PostRender.Mounts.{
  IsDeclared, IsDeclared-append_left, IsDeclared-append_right, Resolves, Resolves-append,
  MountsResolve, add_volumes-MountsResolve, prepend_inits-MountsResolve,
}

find_first-IsDeclared :
    (p : Volume → Bool) (volumes : List Volume) (v : Volume)
    → find_first p volumes ≡ some v
    → IsDeclared volumes v.name
find_first-IsDeclared p [] v e = cc
find_first-IsDeclared p (w ∷ ws) v e = elim (Bool-cases (p w)) [
  | inl here ↦ inl (ap (λ x. x.name) (some-injective _ _ (rw here at e)))
  | inr later ↦ inr (find_first-IsDeclared p ws v (rw later at e))
]

pod_volume_name-IsDeclared :
    (name : String) (pod : Pod)
    → pod_volume_name name pod ≢ ""
    → IsDeclared pod.spec.volumes (pod_volume_name name pod)
unfolding pod_volume_name
pod_volume_name-IsDeclared name pod h =
    elim (Option-cases (find_first (claims name) pod.spec.volumes)) [
      | inl missing ↦ absurd (h (rw (missing, pod_volume_name)))
      | inr (v, e) ↦
          rw (e, pod_volume_name) (find_first-IsDeclared (claims name) pod.spec.volumes v e)
    ]

provision-Resolves :
    (image : String) (vol : VmVolume) (m : DvMeta) (name : String) (volumes : List Volume)
    → IsDeclared volumes name
    → let r = provision image vol m name in Resolves (volumes ++ r.0) r.1
unfolding provision
provision-Resolves image vol m name volumes d = elim (Bool-cases (m.registry_url == "")) [
  | inl plain ↦ rw plain (IsDeclared-append_left volumes [] name d, tt)
  | inr registry ↦ rw registry (
    IsDeclared-append_left volumes _ name d,
    (IsDeclared-append_right volumes (source_volume vol m ∷ []) _ (inl refl), tt),
  )
]

-- The state of the loop: a pod whose mounts resolve, and containers that can be added to it.
abbrev IsReady : Pod × List Container → Type 0
IsReady s = MountsResolve s.0 × All (Resolves s.0.spec.volumes) s.1

provision_volume-IsReady :
    (image : String) (metas : Dict DvMeta) (vol : VmVolume) (pod : Pod) (inits : List Container)
    → IsReady (pod, inits)
    → IsReady (provision_volume image metas vol (pod, inits))
unfolding provision_volume add_volumes
provision_volume-IsReady image metas vol pod inits (r, h) = elim (Option-cases (wanted metas vol)) [
  | inl skipped ↦ rw (skipped, provision_volume) (r, h)
  | inr ((name, m), e) ↦ elim (Bool-cases (pod_volume_name name pod == "")) [
    | inl missing ↦ rw (e, missing, provision_volume) (r, h)
    | inr found ↦
        rw (e, found, provision_volume)
          (provide-IsReady name m (
            pod_volume_name-IsDeclared name pod
              (λ same. ground (arith, eq_iff (pod_volume_name name pod) ""))))
  ]
]
  where
    provide-IsReady :
        (name : String) (m : DvMeta)
        → IsDeclared pod.spec.volumes (pod_volume_name name pod)
        → let p = provision image vol m (pod_volume_name name pod) in
          MountsResolve (add_volumes p.0 pod)
          × All (Resolves (pod.spec.volumes ++ p.0)) (inits ++ p.1 ∷ [])
    provide-IsReady name m d =
        let p = provision image vol m (pod_volume_name name pod) in
        (
          add_volumes-MountsResolve p.0 pod r,
          All-append (Resolves (pod.spec.volumes ++ p.0)) inits (p.1 ∷ [])
              (All-mono inits (Resolves-append pod.spec.volumes p.0) h)
              (provision-Resolves image vol m (pod_volume_name name pod) pod.spec.volumes d, tt),
        )

provision_volumes-IsReady :
    (image : String) (metas : Dict DvMeta) (vols : List VmVolume) (s : Pod × List Container)
    → IsReady s
    → IsReady (provision_volumes image metas vols s)
unfolding provision_volumes
provision_volumes-IsReady image metas [] s r = r
provision_volumes-IsReady image metas (vol ∷ vols) (pod, inits) r =
    provision_volumes-IsReady image metas vols (provision_volume image metas vol (pod, inits))
      (provision_volume-IsReady image metas vol pod inits r)

pub data_volumes-MountsResolve :
    (vmi : Vmi) (vm : VirtualMachine) (image : String) (pod : Pod)
    → MountsResolve pod
    → MountsResolve (inject_data_volume_init_containers vmi vm image pod)
unfolding inject_data_volume_init_containers
data_volumes-MountsResolve vmi vm image pod r =
    let metas = metas_from vm.data_volume_templates [] in
    let (r', h) = provision_volumes-IsReady image metas vmi.spec.volumes (pod, []) (r, tt) in
    let s = provision_volumes image metas vmi.spec.volumes (pod, []) in
    prepend_inits-MountsResolve s.1 s.0 h r'
