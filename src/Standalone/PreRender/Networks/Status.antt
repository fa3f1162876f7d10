-- ===== src/Standalone/PreRender/Networks/Status.antt =====
-- The names of the pod's interfaces in the status.
use vm_to_quadlet.Base.{
  ℕ, zero, suc, ◌+◌, ◌<>◌, ◌≡◌, refl, ◌∙◌, ap, some, List, [], ◌∷◌, arith, get_elem?,
}
use mathlib.Core.Option
use vm_to_quadlet.Base.Decimal.{decimal}
use vm_to_quadlet.Kube.Machine.{Interface, InterfaceStatus, Vmi}
use vm_to_quadlet.Standalone.PreRender.Networks.{statuses_from, populate_interface_status}

abbrev status : ℕ → Interface → InterfaceStatus
status i iface = record { name = iface.name; pod_interface_name = "eth" <> decimal i }

get_elem?-statuses_from :
    (k i : ℕ) (ifaces : List Interface)
    → get_elem? (statuses_from k ifaces) i ≡ Option.map (status (k + i)) (get_elem? ifaces i)
unfolding statuses_from
get_elem?-statuses_from k i [] = refl
get_elem?-statuses_from k zero (iface ∷ ifaces) = ap (λ n. some (status n iface)) (omega arith)
get_elem?-statuses_from k (suc i) (iface ∷ ifaces) =
    get_elem?-statuses_from (k + 1) i ifaces
    ∙ ap (λ n. Option.map (status n) (get_elem? ifaces i)) (omega arith)

-- Of a machine with no status yet, the status at position i is that of the interface at position i,
-- with the pod's name "eth" and the number i, and there is one exactly where there is an interface.
pub populate_interface_status-get_elem? :
    (vmi : Vmi) (i : ℕ)
    → vmi.status_interfaces ≡ []
    → get_elem? (populate_interface_status vmi).status_interfaces i
      ≡ Option.map
          (λ iface. record { name = iface.name; pod_interface_name = "eth" <> decimal i })
          (get_elem? vmi.spec.interfaces i)
unfolding populate_interface_status
populate_interface_status-get_elem? vmi i e = rw e (
    get_elem?-statuses_from 0 i vmi.spec.interfaces
    ∙ ap (λ n. Option.map (status n) (get_elem? vmi.spec.interfaces i)) {x = 0 + i} {y = i}
        (omega arith))
