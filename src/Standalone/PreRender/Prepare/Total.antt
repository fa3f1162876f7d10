-- ===== src/Standalone/PreRender/Prepare/Total.antt =====
-- When step 3 succeeds.
use vm_to_quadlet.Base.{◌≡◌, refl, some, ok, Succeeds}
use vm_to_quadlet.Kube.Machine.{VmiSpec, Vmi, VirtualMachine}
use vm_to_quadlet.Kube.Virt.{KubeVirt}
use vm_to_quadlet.Standalone.PreRender.Validate.{validate_for_standalone}
use vm_to_quadlet.Standalone.PreRender.Stubs.{Indexer}
use vm_to_quadlet.Standalone.PreRender.Prepare.{
  new_cluster_config, add_network, mutate, derive_vmi, with_namespace, bundle, prepare_valid,
  prepare_checked, prepare_for_rendering,
}

-- The functions of KubeVirt that step 3 calls answer with no error.
pub record Derives {Cache : Type 0} (K : KubeVirt Cache) : Type 0 where
  pub defaults :
      (c : K.ClusterConfig) (vmi : Vmi) → Succeeds (K.set_default_virtual_machine_instance c vmi)
  pub mutations : (c : K.ClusterConfig) (vmi : Vmi) → Succeeds (K.apply_new_vmi_mutations c vmi)
  pub network :
      (c : K.ClusterConfig) (spec : VmiSpec) → Succeeds (K.set_default_network_interface c spec)

module _ (I : Indexer) (K : KubeVirt I.Cache) (D : Derives K) where
  mutate-Succeeds : (vmi : Vmi) → Succeeds (mutate I K vmi)
  unfolding mutate add_network
  mutate-Succeeds vmi =
      let (mutated, e) = D.mutations (new_cluster_config I K) vmi in
      let (spec, f) = D.network (new_cluster_config I K) mutated.spec in
      (
        K.auto_attach_input_device (record mutated { spec = K.set_default_volume_disk spec }),
        rw (mutate, e, add_network, f) refl,
      )

  derive_vmi-Succeeds : (vm : VirtualMachine) → Succeeds (derive_vmi I K vm)
  unfolding derive_vmi
  derive_vmi-Succeeds vm =
      let (vmi, e) = D.defaults (new_cluster_config I K) (K.setup_vmi_from_vm vm) in
      let (out, f) = mutate-Succeeds vmi in (out, rw (derive_vmi, e) f)

  pub prepare-Succeeds :
      (vm : VirtualMachine)
      → (validate_for_standalone (some vm)).value ≡ ok tt
      → Succeeds (prepare_for_rendering I K (some vm)).value
  unfolding prepare_for_rendering prepare_checked prepare_valid
  prepare-Succeeds vm h =
      let named = with_namespace vm in
      let (vmi, e) =
        derive_vmi-Succeeds (K.set_virtual_machine_defaults (new_cluster_config I K) named) in
      (bundle I K named vmi, rw (h, prepare_checked, prepare_valid, e) refl)
