-- ===== src/Standalone/PostRender/Cleanup/Laws.antt =====
-- What cleanupForStandalone leaves of the resources, the node selector and the init containers.
use vm_to_quadlet.Base.{true, false, any, is_some, Bool}
use vm_to_quadlet.Base.{
  ◌+◌, String, ◌≡◌, refl, ap, ◌∙◌, inl, inr, not, Option, none, some, List, [], ◌∷◌, arith, ◌==◌,
  ◌||◌, eq_iff, if◌then◌else◌, is_empty, keep, Bool-cases, Option-cases, ◌&&◌, length,
}
use vm_to_quadlet.Base.Dict.{Dict, lookup, erase, lookup-erase, lookup-insert}
use vm_to_quadlet.Base.Text.{contains, join}
use vm_to_quadlet.Kube.Pod.{ResourceList, Quantity, Container, Pod}
use vm_to_quadlet.Kube.Machine.{VmVolume, VirtualMachine}
use vm_to_quadlet.Standalone.PostRender.Cleanup.{
  CpuLabels, clean_selector, moved_inits, kept_inits, is_builtin, strip_extended_resources,
  persistence_warnings, annotations_of, annotate, add_persistence_warnings,
}

-- A look-up in a map that may be nil.
abbrev pub lookup_in {ℓ} : {V : Type ℓ} → String → Option (Dict V) → Option V
lookup_in k none = none
lookup_in k (some d) = lookup k d

nil_if_empty-lookup_in {ℓ} :
    {V : Type ℓ} (k : String) (d : Dict V)
    → lookup_in k (if is_empty d then none else some d) ≡ lookup k d
unfolding lookup
nil_if_empty-lookup_in k [] = refl
nil_if_empty-lookup_in k (e ∷ d) = refl

lookup-keep :
    (k : String) (d : Dict Quantity)
    → lookup k (keep is_builtin d) ≡ (if contains k "/" then none else lookup k d)
unfolding lookup
lookup-keep k [] = ground arith
lookup-keep k ((j, q) ∷ d) = elim (Bool-cases (j == k)) [
  | inl same ↦ ground (arith, lookup-keep k d, ap (λ s. contains s "/") ((eq_iff j k).0 same))
  | inr other ↦ ground (arith, lookup-keep k d)
]

-- Of a container's limits or requests, cleanupForStandalone leaves the entries whose name has no
-- slash, with their quantities, and no others.
pub strip_extended_resources-lookup :
    (k : String) (list : ResourceList)
    → lookup_in k (strip_extended_resources list)
      ≡ (if contains k "/" then none else lookup_in k list)
unfolding strip_extended_resources
strip_extended_resources-lookup k none = ground arith
strip_extended_resources-lookup k (some d) =
    nil_if_empty-lookup_in k (keep is_builtin d) ∙ lookup-keep k d

-- The node selector loses the two labels of KubeVirt's CPU manager and keeps every other label.
pub clean_selector-lookup :
    (labels : CpuLabels) (k : String) (selector : Option (Dict String))
    → lookup_in k (clean_selector labels selector) ≡ (
        if labels.cpu_manager == k || labels.deprecated_cpu_manager == k
        then none
        else lookup_in k selector)
unfolding clean_selector
clean_selector-lookup labels k none = ground arith
clean_selector-lookup labels k (some d) =
    nil_if_empty-lookup_in k (erase labels.deprecated_cpu_manager (erase labels.cpu_manager d))
    ∙ ground (
      arith,
      lookup-erase labels.deprecated_cpu_manager k (erase labels.cpu_manager d),
      lookup-erase labels.cpu_manager k d,
    )

-- Every init container of the pod goes to one of the two lists.
pub length-kept_inits :
    (inits : List Container) → length (kept_inits inits) + length (moved_inits inits) ≡ length inits
unfolding kept_inits moved_inits
length-kept_inits [] = refl
length-kept_inits (c ∷ cs) = ground (arith, length-kept_inits cs)

abbrev pub template_volumes : VirtualMachine → List VmVolume
template_volumes vm = elim vm.template [ none ↦ [] | some spec ↦ spec.volumes ]

annotate-lookup :
    (ws : List String) (k : String) (d : Dict String)
    → lookup k (annotate ws d) ≡ (
        if not (is_empty ws) && "kubevirt-vm-to-pod/persistence-warning" == k
        then some (join " | " ws)
        else lookup k d)
unfolding annotate
annotate-lookup [] k d = refl
annotate-lookup (w ∷ ws) k d =
    lookup-insert "kubevirt-vm-to-pod/persistence-warning" k (join " | " (w ∷ ws)) d

lookup_in-annotations :
    (k : String) (pod : Pod) → lookup k (annotations_of pod) ≡ lookup_in k pod.annotations
unfolding lookup
lookup_in-annotations k pod = elim (Option-cases pod.annotations) [
  | inl nothing ↦ rw nothing refl
  | inr (d, e) ↦ rw e refl
]

-- What the note says of a machine that has a claim, and of one that has a host disk.
abbrev pub persistence_note : Bool → Bool → Option String
persistence_note false false = none
persistence_note true false =
    some
      "PVC volumes: In standalone mode, persistentVolumeClaim volumes become local Podman named volumes. They persist across pod restarts on THIS host only, but will NOT survive if you move the Pod to another machine or reinstall Podman."
persistence_note false true =
    some
      "hostDisk volumes: The specified disk image files must exist on the host filesystem at the paths defined in the VM spec. For DiskOrCreate type, the file will be created if missing."
persistence_note true true =
    some
      "PVC volumes: In standalone mode, persistentVolumeClaim volumes become local Podman named volumes. They persist across pod restarts on THIS host only, but will NOT survive if you move the Pod to another machine or reinstall Podman. | hostDisk volumes: The specified disk image files must exist on the host filesystem at the paths defined in the VM spec. For DiskOrCreate type, the file will be created if missing."

abbrev pub has_claim : List VmVolume → Bool
has_claim = any (λ vol. is_some vol.persistent_volume_claim)

abbrev pub has_host_disk : List VmVolume → Bool
has_host_disk = any (λ vol. vol.host_disk)

-- One annotation of the pod after the note, if there is one, is set.
abbrev pub noted : String → Option String → Option String → Option String
noted k note before = elim note [
  | none ↦ before
  | some text ↦ if "kubevirt-vm-to-pod/persistence-warning" == k then some text else before
]

annotate_note :
    (volumes : List VmVolume) (k : String) (d : Dict String)
    → lookup k (annotate (persistence_warnings volumes) d)
      ≡ noted k (persistence_note (has_claim volumes) (has_host_disk volumes)) (lookup k d)
unfolding persistence_warnings join
annotate_note volumes k d =
    annotate-lookup (persistence_warnings volumes) k d ∙ elim (Bool-cases (has_claim volumes)) [
      | inl claims ↦ elim (Bool-cases (has_host_disk volumes)) [
        | inl disks ↦ rw (persistence_warnings, claims, disks) refl
        | inr no_disks ↦ rw (persistence_warnings, claims, no_disks) refl
      ]
      | inr no_claims ↦ elim (Bool-cases (has_host_disk volumes)) [
        | inl disks ↦ rw (persistence_warnings, no_claims, disks) refl
        | inr no_disks ↦ rw (persistence_warnings, no_claims, no_disks) refl
      ]
    ]

-- The note on persistence is set exactly when the machine has a volume that is a claim or a host
-- disk. It is the text on claims, the text on host disks, or both in this order with " | " between
-- them. Every other annotation is kept, and so is the note where there is none to set.
pub add_persistence_warnings-lookup :
    (vm : VirtualMachine) (pod : Pod) (k : String)
    → let volumes = template_volumes vm in
      lookup_in k (add_persistence_warnings vm pod).annotations
      ≡ noted k
          (persistence_note (has_claim volumes) (has_host_disk volumes))
          (lookup_in k pod.annotations)
unfolding add_persistence_warnings
add_persistence_warnings-lookup vm pod k =
    let volumes = template_volumes vm in
    annotate_note volumes k (annotations_of pod)
    ∙ ap (noted k (persistence_note (has_claim volumes) (has_host_disk volumes)))
        (lookup_in-annotations k pod)
