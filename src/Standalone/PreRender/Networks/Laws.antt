-- ===== src/Standalone/PreRender/Networks/Laws.antt =====
-- What forcePasstBinding makes of the interfaces and the networks.
use vm_to_quadlet.Base.{
  String, ◌≡◌, refl, ◌∙◌, inl, inr, true, false, List, [], ◌∷◌, map, eq_refl, any, All, All-mono,
  ap, sym, keep, update_first, arith, eq_iff, ◌||◌, ◌==◌, if◌then◌else◌, Bool-cases,
}
use vm_to_quadlet.Kube.Machine.{Network, Interface, VmiSpec}
use vm_to_quadlet.Standalone.PreRender.Networks.{
  named, default_network, to_pod, with_pod_network, passt_binding, rebind, link_interface,
  link_interfaces, force_passt_binding,
}
use vm_to_quadlet.Standalone.PreRender.Networks.Links.{
  IsLinkable-link, link-IsPodLinked, link-binding, IsLinkable, link_interfaces-keep, IsPasstLinked,
  any-named-update,
}

link_interfaces-IsPasstLinked :
    (ifaces : List Interface) (nets : List Network)
    → All (λ iface. iface.binding ≡ passt_binding) ifaces
    → All (λ iface. IsLinkable nets iface.name) ifaces
    → let r = link_interfaces ifaces nets in All (IsPasstLinked r.1) r.0
unfolding link_interfaces
link_interfaces-IsPasstLinked [] nets b h = tt
link_interfaces-IsPasstLinked (iface ∷ ifaces) nets (b, bs) (h, hs) =
    let nets' = (link_interface iface nets).1 in
    (
      (
        link-binding iface nets ∙ b,
        link_interfaces-keep ifaces nets' _ (link-IsPodLinked iface nets h),
      ),
      link_interfaces-IsPasstLinked ifaces nets' bs
          (All-mono ifaces (λ i. IsLinkable-link iface nets i.name) hs),
    )

IsLinkable-with_pod_network :
    (nets : List Network) (name : String)
    → IsLinkable nets name
    → IsLinkable (with_pod_network nets) name
unfolding with_pod_network
IsLinkable-with_pod_network nets name h = elim (Bool-cases (any (λ net. net.pod) nets)) [
  | inl present ↦ rw present h
  | inr absent ↦ rw absent (inr (inr (default_network, rw (eq_refl "default"), refl, refl)))
]

-- The name under which an interface ends.
abbrev pub linked_name : List Network → String → String
linked_name nets name = if any (named name) nets then name else "default"

keep-update :
    (name : String) (nets : List Network)
    → (name == "default") ≡ false
    → keep (named "default") (update_first (named name) to_pod nets) ≡ keep (named "default") nets
keep-update name [] h = refl
keep-update name (net ∷ nets) h = ground (
  arith,
  keep-update name nets h,
  eq_iff net.name name,
  eq_iff net.name "default",
  eq_iff name "default",
)

any-map-rebind :
    (ifaces : List Interface)
    → any (λ i. i.name == "default") (map rebind ifaces) ≡ any (λ i. i.name == "default") ifaces
any-map-rebind [] = refl
any-map-rebind (iface ∷ ifaces) = ap (λ b. iface.name == "default" || b) (any-map-rebind ifaces)

map-map-rebind :
    (f : String → String) (ifaces : List Interface)
    → map (λ i. f i.name) (map rebind ifaces) ≡ map (λ i. f i.name) ifaces
map-map-rebind f [] = refl
map-map-rebind f (iface ∷ ifaces) = ap (λ ns. f iface.name ∷ ns) (map-map-rebind f ifaces)

All-map-rebind :
    (P : Interface → Type 0) (Q : Interface → Type 0) (ifaces : List Interface)
    → ((iface : Interface) → P iface → Q (rebind iface))
    → All P ifaces
    → All Q (map rebind ifaces)
All-map-rebind P Q [] f h = tt
All-map-rebind P Q (iface ∷ ifaces) f (p, h) = (f iface p, All-map-rebind P Q ifaces f h)

All-of_All :
    (P : Interface → Type 0) (ifaces : List Interface) → ((i : Interface) → P i) → All P ifaces
All-of_All P [] f = tt
All-of_All P (iface ∷ ifaces) f = (f iface, All-of_All P ifaces f)

-- Let every interface name one of the machine's networks, or let the first network called
-- "default", if there is one, be a pod network with no Multus part. Then every interface ends with
-- the passt binding and no other, and with a name whose first network has a pod source and no
-- Multus part.
pub force_passt_binding-IsPasstLinked :
    (spec : VmiSpec)
    → All (λ iface. IsLinkable spec.networks iface.name) spec.interfaces
    → let out = force_passt_binding spec in All (IsPasstLinked out.networks) out.interfaces
unfolding force_passt_binding
force_passt_binding-IsPasstLinked spec h =
    link_interfaces-IsPasstLinked (map rebind spec.interfaces) (with_pod_network spec.networks)
      (All-map-rebind (λ _. Unit) _ spec.interfaces (λ _ _. refl)
        (All-of_All (λ _. Unit) spec.interfaces (λ _. tt)))
      (All-map-rebind _ _ spec.interfaces
        (λ iface. IsLinkable-with_pod_network spec.networks iface.name) h)

-- The rounds of the last loop where there is a network called "default" and no interface has that
-- name: nothing becomes of the networks called "default".
link_interfaces_fallback :
    (ifaces : List Interface) (nets start : List Network)
    → ((name : String) → any (named name) nets ≡ any (named name) start)
    → any (named "default") start ≡ true
    → any (λ i. i.name == "default") ifaces ≡ false
    → let r = link_interfaces ifaces nets in
      (map (λ i. i.name) r.0 ≡ map (λ i. linked_name start i.name) ifaces)
      × (keep (named "default") r.1 ≡ keep (named "default") nets)
unfolding link_interfaces
link_interfaces_fallback [] nets start same default names = (refl, refl)
link_interfaces_fallback (iface ∷ ifaces) nets start same default names =
    let later : any (λ i. i.name == "default") ifaces ≡ false = ground arith in
    let other : (iface.name == "default") ≡ false = ground arith in
    elim (Bool-cases (any (named iface.name) nets)) [
      | inl known ↦
          let nets' = update_first (named iface.name) to_pod nets in
          let (names', kept) =
            link_interfaces_fallback ifaces nets' start
              (λ name. any-named-update name iface.name nets ∙ same name) default later in
          (
            rw (link_interface, known, sym (same iface.name) ∙ known)
                (ap (λ ns. iface.name ∷ ns) names'),
            rw (link_interface, known) (kept ∙ keep-update iface.name nets other),
          )
      | inr unknown ↦
          let (names', kept) = link_interfaces_fallback ifaces nets start same default later in
          (
            rw (link_interface, unknown, same "default" ∙ default, sym (same iface.name) ∙ unknown)
                (ap (λ ns. "default" ∷ ns) names'),
            rw (link_interface, unknown, same "default" ∙ default) kept,
          )
    ]

-- Where a machine has some pod network and a network called "default", and no interface has the
-- name "default": each interface keeps its name if a network has it, and is named "default"
-- otherwise, while the networks called "default", Multus networks too, stay as they were.
pub force_passt_binding_fallback :
    (spec : VmiSpec)
    → any (λ n. n.pod) spec.networks ≡ true
    → any (named "default") spec.networks ≡ true
    → any (λ i. i.name == "default") spec.interfaces ≡ false
    → let out = force_passt_binding spec in
      (map (λ i. i.name) out.interfaces
        ≡ map (λ i. linked_name spec.networks i.name) spec.interfaces)
      × (keep (named "default") out.networks ≡ keep (named "default") spec.networks)
unfolding force_passt_binding
force_passt_binding_fallback spec pod default names =
    let (names', kept) =
      link_interfaces_fallback (map rebind spec.interfaces) spec.networks spec.networks
        (λ name. refl) default (any-map-rebind spec.interfaces ∙ names) in
    (rw pod (names' ∙ map-map-rebind (linked_name spec.networks) spec.interfaces), rw pod kept)
