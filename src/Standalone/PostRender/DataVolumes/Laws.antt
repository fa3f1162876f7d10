-- ===== src/Standalone/PostRender/DataVolumes/Laws.antt =====
-- The loop of injectDataVolumeInitContainers as a whole.
use mathlib.Core.List.{append-nil, append_assoc}
use vm_to_quadlet.Base.{
  String, ◌≡◌, refl, ap, ◌∙◌, inl, inr, false, none, some, List, [], ◌∷◌, ◌++◌, ◌==◌, if◌then◌else◌,
  find_first, concat_map, All, Bool-cases, Option-cases,
}
use vm_to_quadlet.Base.Dict.{Dict}
use vm_to_quadlet.Kube.Pod.{Container, Volume, Pod}
use vm_to_quadlet.Kube.Machine.{VmVolume, Vmi, VirtualMachine}
use vm_to_quadlet.Standalone.PostRender.Compute.{add_volumes, prepend_inits}
use vm_to_quadlet.Standalone.PostRender.DataVolumes.{
  DvMeta, metas_from, claims, pod_volume_name, source_volume, provision, wanted, provision_volume,
  provision_volumes, inject_data_volume_init_containers,
}

module _ (image : String) (metas : Dict DvMeta) where
  -- What one volume of the instance brings, given the pod that was rendered: nothing if it is no
  -- data volume, if that has no size, or if no volume of the pod claims it.
  unfoldable pub brought : Pod → VmVolume → List Volume × List Container
  unfolding wanted pod_volume_name provision
  brought pod vol = elim (wanted metas vol) [
    | none ↦ ([], [])
    | some (name, m) ↦
        let pod_volume = pod_volume_name name pod in
        let (volumes, init) = provision image vol m pod_volume in
        if pod_volume == "" then ([], []) else (volumes, init ∷ [])
  ]

  -- A volume that claims nothing changes no answer.
  ClaimsNothing : Volume → Type 0
  ClaimsNothing v = (name : String) → claims name v ≡ false

  provision-ClaimsNothing :
      (vol : VmVolume) (m : DvMeta) (pod_volume : String)
      → All ClaimsNothing (provision image vol m pod_volume).0
  unfolding provision source_volume ClaimsNothing
  provision-ClaimsNothing vol m pod_volume = elim (Bool-cases (m.registry_url == "")) [
    | inl blank ↦ rw blank tt
    | inr imported ↦ rw imported (λ name. refl, tt)
  ]

  brought-ClaimsNothing : (pod : Pod) (vol : VmVolume) → All ClaimsNothing (brought pod vol).0
  unfolding brought
  brought-ClaimsNothing pod vol = elim (Option-cases (wanted metas vol)) [
    | inl skipped ↦ rw (brought, skipped) tt
    | inr ((name, m), e) ↦ elim (Bool-cases (pod_volume_name name pod == "")) [
      | inl missing ↦ rw (brought, e, missing) tt
      | inr found ↦
          rw (brought, e, found) (provision-ClaimsNothing vol m (pod_volume_name name pod))
    ]
  ]

  find_first-claims :
      (name : String) (vs ws : List Volume)
      → All ClaimsNothing ws
      → find_first (claims name) (vs ++ ws) ≡ find_first (claims name) vs
  unfolding ClaimsNothing
  find_first-claims name [] [] h = refl
  find_first-claims name [] (w ∷ ws) (h, hs) = rw (h name) (find_first-claims name [] ws hs)
  find_first-claims name (v ∷ vs) ws h = rw (find_first-claims name vs ws h) refl

  pod_volume_name-add_volumes :
      (name : String) (pod : Pod) (ws : List Volume)
      → All ClaimsNothing ws
      → pod_volume_name name (add_volumes ws pod) ≡ pod_volume_name name pod
  unfolding pod_volume_name add_volumes
  pod_volume_name-add_volumes name pod ws h =
      rw (pod_volume_name, find_first-claims name pod.spec.volumes ws h) refl

  brought-add_volumes :
      (pod : Pod) (ws : List Volume) (vol : VmVolume)
      → All ClaimsNothing ws
      → brought (add_volumes ws pod) vol ≡ brought pod vol
  unfolding brought
  brought-add_volumes pod ws vol h = elim (Option-cases (wanted metas vol)) [
    | inl skipped ↦ rw (brought, skipped) refl
    | inr ((name, m), e) ↦ rw (brought, e, pod_volume_name-add_volumes name pod ws h) refl
  ]

  round :
      (vol : VmVolume) (pod : Pod) (inits : List Container)
      → provision_volume image metas vol (pod, inits)
        ≡ (add_volumes (brought pod vol).0 pod, inits ++ (brought pod vol).1)
  unfolding provision_volume brought add_volumes
  round vol pod inits = elim (Option-cases (wanted metas vol)) [
    | inl skipped ↦
        rw (provision_volume, brought, skipped, append-nil pod.spec.volumes, append-nil inits) refl
    | inr ((name, m), e) ↦ elim (Bool-cases (pod_volume_name name pod == "")) [
      | inl missing ↦
          rw (provision_volume, brought, e, missing, append-nil pod.spec.volumes, append-nil inits)
            refl
      | inr found ↦ rw (provision_volume, brought, e, found) refl
    ]
  ]

  add_volumes_twice :
      (vs ws : List Volume) (pod : Pod)
      → add_volumes ws (add_volumes vs pod) ≡ add_volumes (vs ++ ws) pod
  unfolding add_volumes
  add_volumes_twice vs ws pod = rw (append_assoc pod.spec.volumes vs ws) refl

  brought_later :
      (pod : Pod) (ws : List Volume) (vols : List VmVolume)
      → All ClaimsNothing ws
      → (concat_map (λ v. (brought (add_volumes ws pod) v).0) vols
          ≡ concat_map (λ v. (brought pod v).0) vols)
        × (concat_map (λ v. (brought (add_volumes ws pod) v).1) vols
            ≡ concat_map (λ v. (brought pod v).1) vols)
  brought_later pod ws [] h = (refl, refl)
  brought_later pod ws (v ∷ vs) h =
      let (e, e') = brought_later pod ws vs h in
      rw (brought-add_volumes pod ws v h, e, e') (refl, refl)

  rounds :
      (vols : List VmVolume) (pod : Pod) (inits : List Container)
      → provision_volumes image metas vols (pod, inits) ≡ (
        add_volumes (concat_map (λ v. (brought pod v).0) vols) pod,
        inits ++ concat_map (λ v. (brought pod v).1) vols,
      )
  unfolding provision_volumes add_volumes
  rounds [] pod inits = rw (append-nil pod.spec.volumes, append-nil inits) refl
  rounds (v ∷ vs) pod inits =
      let ws = (brought pod v).0 in
      let (e, e') = brought_later pod ws vs (brought-ClaimsNothing pod v) in
      ap (provision_volumes image metas vs) (round v pod inits)
      ∙ (rounds vs (add_volumes ws pod) (inits ++ (brought pod v).1)
          ∙ rw
              (
                e,
                e',
                add_volumes_twice ws (concat_map (λ v. (brought pod v).0) vs) pod,
                append_assoc inits (brought pod v).1 (concat_map (λ v. (brought pod v).1) vs),
              )
              refl)

-- The data volumes are provided for one by one and independently: the init containers put in front
-- of the pod's own, and the image volumes put behind the pod's own, are those that each volume of
-- the instance brings for the pod as it was rendered, in the order of the instance's volumes.
pub inject_data_volume_init_containers-brought :
    (vmi : Vmi) (vm : VirtualMachine) (image : String) (pod : Pod)
    → inject_data_volume_init_containers vmi vm image pod
      ≡ prepend_inits
          (concat_map
            (λ v. (brought image (metas_from vm.data_volume_templates []) pod v).1)
            vmi.spec.volumes)
          (add_volumes
            (concat_map
              (λ v. (brought image (metas_from vm.data_volume_templates []) pod v).0)
              vmi.spec.volumes)
            pod)
unfolding inject_data_volume_init_containers
inject_data_volume_init_containers-brought vmi vm image pod =
    let metas = metas_from vm.data_volume_templates [] in
    rw (inject_data_volume_init_containers, rounds image metas vmi.spec.volumes pod []) refl
