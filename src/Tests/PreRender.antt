-- ===== src/Tests/PreRender.antt =====
-- Steps 1 to 3 for one machine.
use vm_to_quadlet.Base.{
  keep, ◌<>◌, ◌≡◌, ◌≢◌, ◌↔◌, refl, inl, true, false, some, List, [], ◌∷◌, map, All, ok,
  if◌then◌else◌, ◌==◌, get_elem?,
}
use vm_to_quadlet.Base.Dict.{lookup}
use vm_to_quadlet.Base.Decimal.{decimal}
use vm_to_quadlet.Kube.Machine.{no_binding, Interface, VmiSpec, VirtualMachine}
use vm_to_quadlet.Standalone.{PreparedVm}
use vm_to_quadlet.Standalone.PreRender.Validate.{validate_for_standalone}
use vm_to_quadlet.Standalone.PreRender.Validate.Laws.{IsSupported, validate_iff}
use vm_to_quadlet.Standalone.PreRender.Stubs.{PvcStub, pvc_stub}
use vm_to_quadlet.Standalone.PreRender.Networks.{
  named, force_passt_binding, populate_interface_status,
}
use vm_to_quadlet.Standalone.PreRender.Networks.Links.{IsPasstLinked}
use vm_to_quadlet.Standalone.PreRender.Networks.Laws.{
  force_passt_binding-IsPasstLinked, force_passt_binding_fallback,
}
use vm_to_quadlet.Standalone.PreRender.Networks.Status.{populate_interface_status-get_elem?}
use vm_to_quadlet.Standalone.PreRender.Prepare.{prepare_for_rendering}
use vm_to_quadlet.Standalone.PreRender.Prepare.Laws.{prepare-identity}
use vm_to_quadlet.Tests.Fixtures.{web_spec, web_vm, web_vmi}
use vm_to_quadlet.Tests.Outside.{indexer, kube_virt, kube_virt-IsNamespaceKept}

validate_iff_example : ((validate_for_standalone (some web_vm)).value ≡ ok tt) ↔ (
    (vm : VirtualMachine) × (spec : VmiSpec) × (some web_vm ≡ some vm)
    × (vm.template ≡ some spec)
    × IsSupported spec)
validate_iff_example = validate_iff (some web_vm)

force_passt_binding-IsPasstLinked_example :
    All
      (IsPasstLinked (force_passt_binding web_spec).networks)
      (force_passt_binding web_spec).interfaces
force_passt_binding-IsPasstLinked_example =
    force_passt_binding-IsPasstLinked web_spec ((inl refl), tt)

-- A pod network "blue", and a Multus network that is called "default".
abbrev mixed_spec : VmiSpec
mixed_spec = record web_spec {
  networks =
      record { name = "blue"; pod = true; multus = false }
      ∷ record { name = "default"; pod = false; multus = true }
      ∷ [];
  interfaces =
      record { name = "red"; binding = no_binding }
      ∷ record { name = "blue"; binding = no_binding }
      ∷ [];
}

force_passt_binding_fallback_example :
    (map (λ (i : Interface). i.name) (force_passt_binding mixed_spec).interfaces
      ≡ "default" ∷ "blue" ∷ [])
    × (keep (named "default") (force_passt_binding mixed_spec).networks
        ≡ keep (named "default") mixed_spec.networks)
force_passt_binding_fallback_example = force_passt_binding_fallback mixed_spec refl refl refl

populate_interface_status-get_elem?_example :
    get_elem? (populate_interface_status web_vmi).status_interfaces 0
    ≡ some (record { name = "default"; pod_interface_name = "eth" <> decimal 0 })
populate_interface_status-get_elem?_example = populate_interface_status-get_elem? web_vmi 0 refl

-- What step 3 makes of the machine.
abbrev prepared : PreparedVm (List PvcStub)
prepared = record {
  vm = record web_vm { namespace = "default" };
  vmi = record web_vmi {
    uid = "default";
    spec = record web_spec {
      interfaces = record { name = "default"; binding = record no_binding { passt = true } } ∷ [];
    };
    status_interfaces = record { name = "default"; pod_interface_name = "eth0" } ∷ [];
  };
  pvc_cache = pvc_stub "default" "web-disk" ∷ [];
}

prepared_lem : (prepare_for_rendering indexer kube_virt (some web_vm)).value ≡ ok prepared
unfolding prepare_for_rendering lookup
prepared_lem = refl

prepare-identity_example :
    ("default" ≡ (if web_vm.namespace == "" then "default" else web_vm.namespace))
    × (prepared.vmi.uid ≢ "")
prepare-identity_example =
    prepare-identity indexer kube_virt web_vm prepared kube_virt-IsNamespaceKept prepared_lem
