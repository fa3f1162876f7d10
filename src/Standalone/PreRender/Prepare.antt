-- ===== src/Standalone/PreRender/Prepare.antt =====
-- `PrepareForRendering` and `newClusterConfig`.
pub mod Laws
pub mod Valid
pub mod Total
use vm_to_quadlet.Base.{
  String, ◌<>◌, Bool, true, Option, none, some, List, [], ◌∷◌, Result, ok, err, ◌>>=◌, wrap, Logged,
  ◌==◌, if◌then◌else◌,
}
use vm_to_quadlet.Kube.Machine.{VmVolume, VmiSpec, Vmi, VirtualMachine}
use vm_to_quadlet.Kube.Virt.{KubeVirtObject, KubeVirt}
use vm_to_quadlet.Standalone.{PreparedVm}
use vm_to_quadlet.Standalone.PreRender.Validate.{validate_for_standalone}
use vm_to_quadlet.Standalone.PreRender.Stubs.{Indexer, stub_pvcs_for_vm}
use vm_to_quadlet.Standalone.PreRender.Networks.{force_passt_binding, populate_interface_status}

-- The object that `newClusterConfig` builds.
abbrev pub cluster_kube_virt : KubeVirtObject
cluster_kube_virt = record {
  name = "kubevirt";
  namespace = "kubevirt";
  feature_gates = "ImageVolume" ∷ "HostDisk" ∷ [];
  disable_serial_console_log = true;
  phase = "Deploying";
}

abbrev template_volumes : VirtualMachine → List VmVolume
template_volumes vm = elim vm.template [ none ↦ [] | some spec ↦ spec.volumes ]

-- The default namespace.
with_namespace : VirtualMachine → VirtualMachine
with_namespace vm = if vm.namespace == "" then record vm { namespace = "default" } else vm

-- `if vmi.UID == "" { vmi.UID = types.UID(vmi.Namespace) }`
with_uid : Vmi → Vmi
with_uid vmi = if vmi.uid == "" then record vmi { uid = vmi.namespace } else vmi

module _ (I : Indexer) (K : KubeVirt I.Cache) where
  new_cluster_config : K.ClusterConfig
  new_cluster_config = K.new_fake_cluster_config_using_kv cluster_kube_virt

  -- KubeVirt's own defaults, from the machine to its instance, in three stages.
  add_network : Vmi → Result Vmi
  unfolding new_cluster_config
  add_network vmi = do
    spec ←
        wrap "failed to set default network: "
          (K.set_default_network_interface new_cluster_config vmi.spec)
    ok (K.auto_attach_input_device (record vmi { spec = K.set_default_volume_disk spec }))

  mutate : Vmi → Result Vmi
  unfolding add_network
  mutate vmi = do
    mutated ←
        wrap "failed to apply VMI mutations: " (K.apply_new_vmi_mutations new_cluster_config vmi)
    add_network mutated

  derive_vmi : VirtualMachine → Result Vmi
  unfolding mutate
  derive_vmi vm = do
    vmi ←
        wrap "failed to set VMI defaults: "
          (K.set_default_virtual_machine_instance new_cluster_config (K.setup_vmi_from_vm vm))
    mutate vmi

  -- The fixups of the program itself, on the instance.
  finish_vmi : Vmi → Vmi
  unfolding with_uid force_passt_binding populate_interface_status
  finish_vmi vmi =
      populate_interface_status (with_uid (record vmi { spec = force_passt_binding vmi.spec }))

  -- The machine with KubeVirt's defaults, its finished instance and the stubs, which were made
  -- before the defaults were set.
  bundle : VirtualMachine → Vmi → PreparedVm I.Cache
  unfolding stub_pvcs_for_vm finish_vmi
  bundle vm vmi = record {
    vm = K.set_virtual_machine_defaults new_cluster_config vm;
    vmi = finish_vmi vmi;
    pvc_cache = stub_pvcs_for_vm I vm.namespace (template_volumes vm) I.empty;
  }

  prepare_valid : VirtualMachine → Result (PreparedVm I.Cache)
  unfolding with_namespace derive_vmi bundle
  prepare_valid vm = do
    let named = with_namespace vm
    vmi ← derive_vmi (K.set_virtual_machine_defaults new_cluster_config named)
    ok (bundle named vmi)

  -- An accepted machine is not nil, so the second clause is never reached.
  prepare_checked : Option VirtualMachine → Result (Unit {0}) → Result (PreparedVm I.Cache)
  unfolding prepare_valid
  prepare_checked vm? (err e) = err e
  prepare_checked none (ok _) = err "VirtualMachine is required"
  prepare_checked (some vm) (ok _) = prepare_valid vm

  unfoldable pub prepare_for_rendering :
      Option VirtualMachine → Logged (Result (PreparedVm I.Cache))
  unfolding validate_for_standalone prepare_checked
  prepare_for_rendering vm? =
      let checked = validate_for_standalone vm? in
      record { stderr = checked.stderr; value = prepare_checked vm? checked.value }
