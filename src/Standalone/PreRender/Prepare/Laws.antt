-- ===== src/Standalone/PreRender/Prepare/Laws.antt =====
-- What step 3 hands to the steps behind it.
use vm_to_quadlet.Base.{
  ◌≡◌, ◌≢◌, refl, sym, ap, ◌∙◌, some, Result, ok, err, >>=-eq-ok, wrap-eq-ok, arith, ◌==◌, eq_iff,
  if◌then◌else◌,
}
use mathlib.Core.Path.{subst}
use vm_to_quadlet.Kube.Machine.{VmiSpec, Vmi, VirtualMachine}
use vm_to_quadlet.Kube.Virt.{KubeVirt}
use vm_to_quadlet.Standalone.{PreparedVm}
use vm_to_quadlet.Standalone.PreRender.Validate.{validate_for_standalone}
use vm_to_quadlet.Standalone.PreRender.Stubs.{Indexer}
use vm_to_quadlet.Standalone.PreRender.Networks.{populate_interface_status}
use vm_to_quadlet.Standalone.PreRender.Prepare.{
  with_namespace, new_cluster_config, add_network, mutate, derive_vmi, finish_vmi, bundle,
  prepare_valid, prepare_checked, prepare_for_rendering,
}

-- What is used of KubeVirt: its defaults and mutations leave the namespace alone.
pub record IsNamespaceKept {Cache : Type 0} (K : KubeVirt Cache) : Type 0 where
  pub vm_defaults :
      (c : K.ClusterConfig) (vm : VirtualMachine)
      → (K.set_virtual_machine_defaults c vm).namespace ≡ vm.namespace
  pub setup : (vm : VirtualMachine) → (K.setup_vmi_from_vm vm).namespace ≡ vm.namespace
  pub vmi_defaults :
      (c : K.ClusterConfig) (vmi out : Vmi)
      → K.set_default_virtual_machine_instance c vmi ≡ ok out
      → out.namespace ≡ vmi.namespace
  pub mutations :
      (c : K.ClusterConfig) (vmi out : Vmi)
      → K.apply_new_vmi_mutations c vmi ≡ ok out
      → out.namespace ≡ vmi.namespace
  pub input_device : (vmi : Vmi) → (K.auto_attach_input_device vmi).namespace ≡ vmi.namespace

with_namespace_lem :
    (vm : VirtualMachine)
    → ((with_namespace vm).namespace ≢ "")
      × ((with_namespace vm).namespace ≡ (if vm.namespace == "" then "default" else vm.namespace))
unfolding with_namespace
with_namespace_lem vm = (ground (arith, eq_iff vm.namespace "", eq_iff "default" ""), ground arith)

module _ (I : Indexer) (K : KubeVirt I.Cache) where
  module _ (kept : IsNamespaceKept K) where
    add_network-namespace :
        (vmi out : Vmi) → add_network I K vmi ≡ ok out → out.namespace ≡ vmi.namespace
    unfolding add_network
    add_network-namespace vmi out e =
        let (spec, _, last) = >>=-eq-ok _ (λ (spec : VmiSpec). ok (attached spec)) e in
        ground
          (arith, last, kept.input_device (record vmi { spec = K.set_default_volume_disk spec }))
      where
        attached : VmiSpec → Vmi
        attached spec =
            K.auto_attach_input_device (record vmi { spec = K.set_default_volume_disk spec })

    mutate-namespace : (vmi out : Vmi) → mutate I K vmi ≡ ok out → out.namespace ≡ vmi.namespace
    unfolding mutate
    mutate-namespace vmi out e =
        let (mutated, first, last) = >>=-eq-ok _ (add_network I K) e in
        add_network-namespace mutated out last ∙ kept.mutations _ vmi mutated (wrap-eq-ok _ _ first)

    derive_vmi-namespace :
        (vm : VirtualMachine) (vmi : Vmi)
        → derive_vmi I K vm ≡ ok vmi
        → vmi.namespace ≡ vm.namespace
    unfolding derive_vmi
    derive_vmi-namespace vm vmi e =
        let (first, e_first, rest) = >>=-eq-ok _ (mutate I K) e in
        mutate-namespace first vmi rest
        ∙ (kept.vmi_defaults _ (K.setup_vmi_from_vm vm) first (wrap-eq-ok _ _ e_first)
            ∙ kept.setup vm)

  finish_vmi-namespace : (vmi : Vmi) → (finish_vmi I K vmi).namespace ≡ vmi.namespace
  unfolding finish_vmi populate_interface_status
  finish_vmi-namespace vmi = ground arith

  finish_vmi-uid : (vmi : Vmi) → vmi.namespace ≢ "" → (finish_vmi I K vmi).uid ≢ ""
  unfolding finish_vmi populate_interface_status
  finish_vmi-uid vmi h = ground (arith, eq_iff vmi.uid "")

  prepare_valid_inv :
      (vm : VirtualMachine) (p : PreparedVm I.Cache)
      → prepare_valid I K vm ≡ ok p
      → (vmi : Vmi) × (derive_vmi I K
            (K.set_virtual_machine_defaults (new_cluster_config I K) (with_namespace vm))
          ≡ ok vmi)
        × (bundle I K (with_namespace vm) vmi ≡ p)
  unfolding prepare_valid
  prepare_valid_inv vm p e =
      let (vmi, derived, last) =
        >>=-eq-ok _ (λ (vmi : Vmi). ok (bundle I K (with_namespace vm) vmi)) e in
      (vmi, derived, ground (arith, last))

  -- What lies behind a successful step 3: the machine was accepted, and KubeVirt derived an
  -- instance from it, which was then finished.
  prepare_checked_inv :
      (vm : VirtualMachine) (checked : Result (Unit {0})) (p : PreparedVm I.Cache)
      → prepare_checked I K (some vm) checked ≡ ok p
      → (checked ≡ ok tt) × (prepare_valid I K vm ≡ ok p)
  unfolding prepare_checked
  prepare_checked_inv vm (err e) p h = cc
  prepare_checked_inv vm (ok tt) p h = (refl, h)

  prepare_inv :
      (vm : VirtualMachine) (p : PreparedVm I.Cache)
      → (prepare_for_rendering I K (some vm)).value ≡ ok p
      → (vmi : Vmi) × ((validate_for_standalone (some vm)).value ≡ ok tt)
        × (derive_vmi I K
              (K.set_virtual_machine_defaults (new_cluster_config I K) (with_namespace vm))
            ≡ ok vmi)
        × (bundle I K (with_namespace vm) vmi ≡ p)
  unfolding prepare_for_rendering
  prepare_inv vm p e =
      let (accepted, valid) =
        prepare_checked_inv vm (validate_for_standalone (some vm)).value p e in
      let (vmi, derived, bundled) = prepare_valid_inv vm p valid in
      (vmi, accepted, derived, bundled)

  bundle-namespace :
      IsNamespaceKept K
      → (vm : VirtualMachine) (vmi : Vmi)
      → derive_vmi I K (K.set_virtual_machine_defaults (new_cluster_config I K) vm) ≡ ok vmi
      → (bundle I K vm vmi).vmi.namespace ≡ vm.namespace
  unfolding bundle
  bundle-namespace kept vm vmi e =
      finish_vmi-namespace vmi
      ∙ (derive_vmi-namespace kept _ vmi e ∙ kept.vm_defaults (new_cluster_config I K) vm)

  bundle-vmi_namespace :
      (vm : VirtualMachine) (vmi : Vmi) → (bundle I K vm vmi).vmi.namespace ≡ vmi.namespace
  unfolding bundle
  bundle-vmi_namespace vm vmi = finish_vmi-namespace vmi

  bundle-uid :
      (vm : VirtualMachine) (vmi : Vmi) → vmi.namespace ≢ "" → (bundle I K vm vmi).vmi.uid ≢ ""
  unfolding bundle
  bundle-uid vm vmi h = finish_vmi-uid vmi h

-- When step 3 succeeds, with KubeVirt functions that keep the namespace (IsNamespaceKept), the
-- instance that it hands on lies in the machine's namespace, "default" if it has none, and has a
-- UID.
pub prepare-identity :
    (I : Indexer) (K : KubeVirt I.Cache) (vm : VirtualMachine) (p : PreparedVm I.Cache)
    → IsNamespaceKept K
    → (prepare_for_rendering I K (some vm)).value ≡ ok p
    → (p.vmi.namespace ≡ (if vm.namespace == "" then "default" else vm.namespace))
      × (p.vmi.uid ≢ "")
prepare-identity I K vm p kept e =
    let (vmi, _, derived, bundled) = prepare_inv I K vm p e in
    let same = bundle-namespace I K kept (with_namespace vm) vmi derived in
    let (nonempty, value) = with_namespace_lem vm in
    (
      ap (λ q. q.vmi.namespace) (sym bundled) ∙ (same ∙ value),
      subst (λ q. q.vmi.uid ≢ "") bundled
          (bundle-uid I K (with_namespace vm) vmi
            (λ h. nonempty (sym same ∙ (bundle-vmi_namespace I K (with_namespace vm) vmi ∙ h)))),
    )
