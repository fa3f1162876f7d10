-- ===== src/Standalone/PreRender/Validate/Laws.antt =====
-- When `validateForStandalone` accepts a virtual machine.
use mathlib.Core.List.{append-eq-nil_iff}
use mathlib.Core.Option.{some-injective}
use mathlib.Core.Path.{subst}
use vm_to_quadlet.Base.{
  String, ◌≡◌, refl, sym, ap, ◌∙◌, ◌↔◌, ◌⊎◌, true, false, Option, none, some, List, [], ◌∷◌, arith,
  ◌==◌, eq_iff, any, All, Any, concat_map-eq-nil_iff, ok, is_some, Option-cases, inl, inr,
}
use vm_to_quadlet.Kube.Pod.{Sign, Quantity, ResourceList}
use vm_to_quadlet.Kube.Machine.{VmVolume, VmiSpec, DataVolumeTemplate, VirtualMachine}
use vm_to_quadlet.Standalone.PreRender.Validate.{
  volume_errors, disk_errors, validate_disk_volume_references, resource,
  non_positive_resource_error, non_positive_resource_errors, validate_resource_quantities,
  validation_errors, report, validate_template, validate_for_standalone,
}

-- A volume whose content can be had without the Kubernetes API.
abbrev pub IsReadable : VmVolume → Type 0
IsReadable vol =
    (is_some vol.data_volume ≡ true)
    ⊎ ((vol.config_map ≡ false) × (vol.secret ≡ false) × (vol.service_account ≡ false))

abbrev pub IsPositiveIfSet : ResourceList → String → Type 0
IsPositiveIfSet list name =
    (resource list name ≡ none)
    ⊎ ((q : Quantity) × (resource list name ≡ some q) × (q.sign ≡ Sign.positive))

pub record IsSupported (spec : VmiSpec) : Type 0 where
  pub readable : All IsReadable spec.volumes
  pub disks_known : All (λ disk. Any (λ vol. vol.name ≡ disk) spec.volumes) spec.disks
  pub requests_cpu : IsPositiveIfSet spec.requests "cpu"
  pub requests_memory : IsPositiveIfSet spec.requests "memory"
  pub limits_cpu : IsPositiveIfSet spec.limits "cpu"
  pub limits_memory : IsPositiveIfSet spec.limits "memory"

All-iff {ℓ κ μ} :
    {A : Type ℓ} {P : A → Type κ} {Q : A → Type μ} (xs : List A)
    → ((x : A) → P x ↔ Q x)
    → All P xs ↔ All Q xs
All-iff [] f = (λ h. tt, λ h. tt)
All-iff (x ∷ xs) f =
    (λ (p, h). ((f x).0 p, (All-iff xs f).0 h), λ (q, h). ((f x).1 q, (All-iff xs f).1 h))

any_named_iff :
    (name : String) (vols : List VmVolume)
    → (any (λ vol. vol.name == name) vols ≡ true) ↔ Any (λ vol. vol.name ≡ name) vols
any_named_iff name [] = (λ h. cc, λ h. absurd h)
any_named_iff name (vol ∷ vols) = grind (arith, any_named_iff name vols, eq_iff vol.name name)

volume_errors-eq-nil_iff : (vol : VmVolume) → (volume_errors vol ≡ []) ↔ IsReadable vol
unfolding volume_errors
volume_errors-eq-nil_iff vol = (λ h. ground arith, λ h. ground arith)

resource_error-eq-nil_iff :
    (path : String) (list : ResourceList) (name : String)
    → (non_positive_resource_error path list name ≡ []) ↔ IsPositiveIfSet list name
unfolding non_positive_resource_error
resource_error-eq-nil_iff path list name = (
  λ h. elim (Option-cases (resource list name)) [
    | inl e ↦ inl e
    | inr (q, e) ↦ inr (q, e, ground arith)
  ],
  elim [
    | inl e ↦ rw (e, non_positive_resource_error)
    | inr (q, e, positive) ↦ rw (e, positive, non_positive_resource_error)
  ],
)

disk_errors-eq-nil_iff :
    (spec : VmiSpec) (disk : String)
    → (disk_errors spec disk ≡ []) ↔ Any (λ vol. vol.name ≡ disk) spec.volumes
unfolding disk_errors
disk_errors-eq-nil_iff spec disk =
    let (to, from) = any_named_iff disk spec.volumes in (λ h. to (ground arith), λ h. rw (from h))

disks-eq-nil_iff :
    (spec : VmiSpec)
    → (validate_disk_volume_references spec ≡ [])
      ↔ All (λ disk. Any (λ vol. vol.name ≡ disk) spec.volumes) spec.disks
unfolding validate_disk_volume_references
disks-eq-nil_iff spec =
    let a = concat_map-eq-nil_iff (disk_errors spec) spec.disks in
    let b = All-iff spec.disks (disk_errors-eq-nil_iff spec) in (λ h. b.0 (a.0 h), λ h. a.1 (b.1 h))

resource_errors-eq-nil_iff :
    (path : String) (list : ResourceList)
    → (non_positive_resource_errors path list ≡ [])
      ↔ (IsPositiveIfSet list "cpu" × IsPositiveIfSet list "memory")
unfolding non_positive_resource_errors
resource_errors-eq-nil_iff path list =
    let cpu = resource_error-eq-nil_iff path list "cpu" in
    let memory = resource_error-eq-nil_iff path list "memory" in
    (
      λ h.
          let (h_cpu, h_memory) =
            (concat_map-eq-nil_iff (non_positive_resource_error path list)
                ("cpu" ∷ "memory" ∷ [])).0
              h in
          (cpu.0 h_cpu, memory.0 h_memory.0),
      λ h.
          (concat_map-eq-nil_iff (non_positive_resource_error path list) ("cpu" ∷ "memory" ∷ [])).1
            (cpu.1 h.0, (memory.1 h.1, tt)),
    )

validation_errors-eq-nil_iff : (spec : VmiSpec) → (validation_errors spec ≡ []) ↔ IsSupported spec
unfolding validation_errors validate_resource_quantities
validation_errors-eq-nil_iff spec =
    let volumes = concat_map-eq-nil_iff volume_errors spec.volumes in
    let readable = All-iff spec.volumes volume_errors-eq-nil_iff in
    let disks = disks-eq-nil_iff spec in
    let requests = resource_errors-eq-nil_iff "spec.domain.resources.requests" spec.requests in
    let limits = resource_errors-eq-nil_iff "spec.domain.resources.limits" spec.limits in
    (
      λ h.
          let (h_volumes, h_rest) = append-eq-nil_iff.0 h in
          let (h_disks, h_resources) = append-eq-nil_iff.0 h_rest in
          let (h_requests, h_limits) = append-eq-nil_iff.0 h_resources in
          record {
            readable = readable.0 (volumes.0 h_volumes);
            disks_known = disks.0 h_disks;
            requests_cpu = (requests.0 h_requests).0;
            requests_memory = (requests.0 h_requests).1;
            limits_cpu = (limits.0 h_limits).0;
            limits_memory = (limits.0 h_limits).1;
          },
      λ s. append-eq-nil_iff.1 (
        volumes.1 (readable.1 s.readable),
        append-eq-nil_iff.1 (
          disks.1 s.disks_known,
          append-eq-nil_iff.1 (
            requests.1 (s.requests_cpu, s.requests_memory),
            limits.1 (s.limits_cpu, s.limits_memory),
          ),
        ),
      ),
    )

report-eq-ok_iff : (errors : List String) → (report errors ≡ ok tt) ↔ (errors ≡ [])
unfolding report
report-eq-ok_iff [] = (λ h. refl, λ h. refl)
report-eq-ok_iff (e ∷ es) = (λ h. cc, λ h. cc)

validate_template_iff :
    (templates : List DataVolumeTemplate) (template : Option VmiSpec)
    → ((validate_template templates template).value ≡ ok tt)
      ↔ ((spec : VmiSpec) × (template ≡ some spec) × IsSupported spec)
unfolding validate_template
validate_template_iff templates none = (λ h. cc, λ (spec, e, _). cc)
validate_template_iff templates (some spec) =
    let errors = report-eq-ok_iff (validation_errors spec) in
    let supported = validation_errors-eq-nil_iff spec in
    (
      λ h. (spec, refl, supported.0 (errors.0 h)),
      λ (other, e, s). errors.1 (supported.1 (subst IsSupported (sym (some-injective _ _ e)) s)),
    )

-- A machine is accepted exactly when it is given, has a template, reads no config map, secret or
-- service account (except under a data volume, where the code looks no further), each of its disks
-- names one of its volumes, and the CPU and memory that it requests or limits are positive.
pub validate_iff :
    (vm? : Option VirtualMachine)
    → ((validate_for_standalone vm?).value ≡ ok tt) ↔ (
        (vm : VirtualMachine) × (spec : VmiSpec) × (vm? ≡ some vm)
        × (vm.template ≡ some spec)
        × IsSupported spec)
unfolding validate_for_standalone
validate_iff none = (λ h. cc, λ (vm, spec, e, _, _). cc)
validate_iff (some vm) =
    let inner = validate_template_iff vm.data_volume_templates vm.template in
    (
      λ h. let (spec, t, s) = inner.0 h in (vm, spec, refl, t, s),
      λ (other, spec, e, t, s). inner.1 (spec, ap (λ v. v.template) (some-injective _ _ e) ∙ t, s),
    )
