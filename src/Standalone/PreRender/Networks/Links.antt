-- ===== src/Standalone/PreRender/Networks/Links.antt =====
-- One round of the loop that links interfaces to networks.
use vm_to_quadlet.Base.{
  String, ◌≡◌, refl, ◌∙◌, ◌⊎◌, inl, inr, Bool, true, false, some, List, [], ◌∷◌, ◌++◌, arith, any,
  any-append, find_first, update_first, Bool-cases,
}
use vm_to_quadlet.Kube.Machine.{Network, Interface}
use vm_to_quadlet.Standalone.PreRender.Networks.{
  named, default_network, to_pod, passt_binding, link_interface, link_interfaces,
}

-- The first network of that name, which is the one that an interface means, is a pod network.
abbrev pub IsPodLinked : String → List Network → Type 0
IsPodLinked name nets =
    (net : Network) × (find_first (named name) nets ≡ some net)
    × (net.pod ≡ true)
    × (net.multus ≡ false)

-- The name is that of a network, or the "default" that it falls back to is none but a pod network.
abbrev pub IsLinkable : List Network → String → Type 0
IsLinkable nets name =
    (any (named name) nets ≡ true)
    ⊎ ((any (named "default") nets ≡ false) ⊎ IsPodLinked "default" nets)

pub find_named-any :
    (name : String) (nets : List Network)
    → any (named name) nets ≡ true
    → (net : Network) × (find_first (named name) nets ≡ some net)
find_named-any name [] h = cc
find_named-any name (net ∷ nets) h = elim (Bool-cases (named name net)) [
  | inl here ↦ (net, rw here)
  | inr later ↦ let (found, e) = find_named-any name nets (ground arith) in (found, rw (later, e))
]

-- Rewriting the first network of some name to a pod network keeps every link.
pub IsPodLinked-update :
    (name other : String) (nets : List Network)
    → IsPodLinked name nets
    → IsPodLinked name (update_first (named other) to_pod nets)
IsPodLinked-update name other [] h = h
IsPodLinked-update name other (net ∷ nets) (found, e, pod, multus) =
    elim (Bool-cases (named other net)) [
      | inl changed ↦ elim (Bool-cases (named name net)) [
        | inl here ↦ (to_pod net, rw (changed, here), refl, refl)
        | inr later ↦ (found, rw (changed, later) (rw later at e), pod, multus)
      ]
      | inr same ↦ elim (Bool-cases (named name net)) [
        | inl here ↦ (found, rw (same, here) (rw here at e), pod, multus)
        | inr later ↦
            let (found', e', pod', multus') =
              IsPodLinked-update name other nets (found, rw later at e, pod, multus) in
            (found', rw (same, later, e'), pod', multus')
      ]
    ]

-- An interface whose name is a network's is linked by the rewrite.
pub update-IsPodLinked :
    (name : String) (nets : List Network)
    → any (named name) nets ≡ true
    → IsPodLinked name (update_first (named name) to_pod nets)
update-IsPodLinked name [] h = cc
update-IsPodLinked name (net ∷ nets) h = elim (Bool-cases (named name net)) [
  | inl here ↦ (to_pod net, rw (here, here), refl, refl)
  | inr later ↦
      let (found, e, pod, multus) = update-IsPodLinked name nets (ground arith) in
      (found, rw (later, later, e), pod, multus)
]

pub any-named-update :
    (name other : String) (nets : List Network)
    → any (named name) (update_first (named other) to_pod nets) ≡ any (named name) nets
any-named-update name other [] = refl
any-named-update name other (net ∷ nets) = ground (arith, any-named-update name other nets)

pub find_first-append :
    (p : Network → Bool) (xs ys : List Network) (net : Network)
    → find_first p xs ≡ some net
    → find_first p (xs ++ ys) ≡ some net
find_first-append p [] ys net h = cc
find_first-append p (x ∷ xs) ys net h = ground (arith, find_first-append p xs ys net)

pub append-default-IsPodLinked :
    (nets : List Network)
    → any (named "default") nets ≡ false
    → IsPodLinked "default" (nets ++ default_network ∷ [])
append-default-IsPodLinked [] h = (default_network, refl, refl, refl)
append-default-IsPodLinked (net ∷ nets) h = elim (Bool-cases (named "default" net)) [
  | inl here ↦ absurd (ground arith)
  | inr later ↦
      let (found, e, pod, multus) = append-default-IsPodLinked nets (ground arith) in
      (found, rw (later, e), pod, multus)
]

module _ (iface : Interface) (nets : List Network) where
  -- No round of the loop undoes what an earlier one did.
  pub IsPodLinked-link :
      (name : String) → IsPodLinked name nets → IsPodLinked name (link_interface iface nets).1
  unfolding link_interface
  IsPodLinked-link name (found, e, pod, multus) = elim (Bool-cases (any (named iface.name) nets)) [
    | inl known ↦ rw known (IsPodLinked-update name iface.name nets (found, e, pod, multus))
    | inr unknown ↦ elim (Bool-cases (any (named "default") nets)) [
      | inl default ↦ rw (unknown, default) (found, e, pod, multus)
      | inr none_yet ↦
          rw (unknown, none_yet) (found, find_first-append _ nets _ found e, pod, multus)
    ]
  ]

  pub any-named-link :
      (name : String)
      → any (named name) nets ≡ true
      → any (named name) (link_interface iface nets).1 ≡ true
  unfolding link_interface
  any-named-link name h = ground (
    arith,
    any-named-update name iface.name nets,
    any-append (named name) nets (default_network ∷ []),
  )

  pub IsLinkable-link :
      (name : String) → IsLinkable nets name → IsLinkable (link_interface iface nets).1 name
  unfolding link_interface
  IsLinkable-link name (inl known) = inl (any-named-link name known)
  IsLinkable-link name (inr (inr linked)) = inr (inr (IsPodLinked-link "default" linked))
  IsLinkable-link name (inr (inl none_yet)) = elim (Bool-cases (any (named iface.name) nets)) [
    | inl known ↦ inr (inl (rw known (any-named-update "default" iface.name nets ∙ none_yet)))
    | inr unknown ↦ inr (inr (rw (unknown, none_yet) (append-default-IsPodLinked nets none_yet)))
  ]

  -- An interface that names no network falls back to "default".
  pub fallback-IsPodLinked :
      any (named iface.name) nets ≡ false
      → (any (named "default") nets ≡ false) ⊎ IsPodLinked "default" nets
      → let r = link_interface iface nets in IsPodLinked r.0.name r.1
  unfolding link_interface
  fallback-IsPodLinked unknown (inl none_yet) =
      rw (unknown, none_yet) (append-default-IsPodLinked nets none_yet)
  fallback-IsPodLinked unknown (inr linked) = elim (Bool-cases (any (named "default") nets)) [
    | inl default ↦ rw (unknown, default) linked
    | inr none_yet ↦ rw (unknown, none_yet) (append-default-IsPodLinked nets none_yet)
  ]

  pub link-IsPodLinked :
      IsLinkable nets iface.name → let r = link_interface iface nets in IsPodLinked r.0.name r.1
  unfolding link_interface
  link-IsPodLinked h = elim (Bool-cases (any (named iface.name) nets)) [
    | inl known ↦ rw known (update-IsPodLinked iface.name nets known)
    | inr unknown ↦ elim h [
      | inl known ↦ absurd (ground arith)
      | inr default ↦ fallback-IsPodLinked unknown default
    ]
  ]

  pub link-binding : (link_interface iface nets).0.binding ≡ iface.binding
  unfolding link_interface
  link-binding = ground arith

pub link_interfaces-keep :
    (ifaces : List Interface) (nets : List Network) (name : String)
    → IsPodLinked name nets
    → IsPodLinked name (link_interfaces ifaces nets).1
unfolding link_interfaces
link_interfaces-keep [] nets name h = h
link_interfaces-keep (iface ∷ ifaces) nets name h =
    link_interfaces-keep ifaces (link_interface iface nets).1 name
      (IsPodLinked-link iface nets name h)

-- What is promised of each interface, in a specification's list of networks.
abbrev pub IsPasstLinked : List Network → Interface → Type 0
IsPasstLinked nets iface = (iface.binding ≡ passt_binding) × IsPodLinked iface.name nets
