-- ===== src/Standalone/PreRender/Networks.antt =====
-- `forcePasstBinding` and `populateInterfaceStatus`.
pub mod Laws
pub mod Links
pub mod Status
use vm_to_quadlet.Base.{
  ℕ, ◌+◌, String, ◌<>◌, Bool, true, false, List, [], ◌∷◌, ◌++◌, map, ◌==◌, if◌then◌else◌, any,
  update_first,
}
use vm_to_quadlet.Base.Decimal.{decimal}
use vm_to_quadlet.Kube.Machine.{
  Network, Binding, no_binding, Interface, InterfaceStatus, VmiSpec, Vmi,
}

abbrev pub named : String → Network → Bool
named name net = net.name == name

-- A network named "default" with a pod source.
abbrev pub default_network : Network
default_network = record { name = "default"; pod = true; multus = false }

-- `net.Pod = &virtv1.PodNetwork{}; net.Multus = nil`
abbrev pub to_pod : Network → Network
to_pod net = record net { pod = true; multus = false }

with_pod_network : List Network → List Network
with_pod_network nets = if any (λ net. net.pod) nets then nets else default_network ∷ nets

-- The binding method is replaced as a whole, and then four of its fields are set to nil.
abbrev pub passt_binding : Binding
passt_binding = record no_binding { passt = true }

abbrev pub rebind : Interface → Interface
rebind iface = record iface {
  binding = record passt_binding {
    masquerade = false;
    bridge = false;
    slirp = false;
    sriov = false;
  };
}

-- A round of the last loop: the interface and the networks after it.
pub link_interface : Interface → List Network → Interface × List Network
link_interface iface nets =
    if any (named iface.name) nets then (iface, update_first (named iface.name) to_pod nets) else (
      record iface { name = "default" },
      if any (named "default") nets then nets else nets ++ default_network ∷ [],
    )

pub link_interfaces : List Interface → List Network → List Interface × List Network
unfolding link_interface
link_interfaces [] nets = ([], nets)
link_interfaces (iface ∷ ifaces) nets =
    let (iface', nets') = link_interface iface nets in
    let (ifaces', nets'') = link_interfaces ifaces nets' in (iface' ∷ ifaces', nets'')

unfoldable pub force_passt_binding : VmiSpec → VmiSpec
unfolding with_pod_network link_interfaces
force_passt_binding spec =
    let (ifaces, nets) =
      link_interfaces (map rebind spec.interfaces) (with_pod_network spec.networks) in
    record spec { interfaces = ifaces; networks = nets }

-- The loop of `populateInterfaceStatus`, at index `i`.
statuses_from : ℕ → List Interface → List InterfaceStatus
statuses_from i [] = []
statuses_from i (iface ∷ ifaces) =
    record { name = iface.name; pod_interface_name = "eth" <> decimal i }
    ∷ statuses_from (i + 1) ifaces

unfoldable pub populate_interface_status : Vmi → Vmi
unfolding statuses_from decimal
populate_interface_status vmi = record vmi {
  status_interfaces = vmi.status_interfaces ++ statuses_from 0 vmi.spec.interfaces;
}
