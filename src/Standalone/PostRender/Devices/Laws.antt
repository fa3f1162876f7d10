-- ===== src/Standalone/PostRender/Devices/Laws.antt =====
-- Which VFIO groups resolveVFIOGroups finds.
use vm_to_quadlet.Base.{
  String, ◌≡◌, refl, ap, ◌∙◌, ◌||◌, List, [], ◌∷◌, ◌==◌, any, any-append, concat_map, Yields, Bool,
  false, ◌&&◌, none, some, inl, inr, arith, Option-cases,
}
use vm_to_quadlet.Base.Text.{contains, base}
use vm_to_quadlet.Base.Sort.{
  mem, distinct, mem-sort, NoRepeats, sort-NoRepeats, mem-distinct, distinct-NoRepeats,
}
use vm_to_quadlet.Base.Sort.Sorted.{IsSorted, sort-IsSorted}
use vm_to_quadlet.Standalone.PostRender.Devices.{HostFiles, listed, group_of, resolve_vfio_groups}

mem-concat_map :
    {A : Type 0} (j : String) (f : A → List String) (xs : List A)
    → mem j (concat_map f xs) ≡ any (λ x. mem j (f x)) xs
mem-concat_map j f [] = refl
mem-concat_map j f (x ∷ xs) =
    any-append (λ s. s == j) (f x) (concat_map f xs)
    ∙ ap (λ b. mem j (f x) || b) (mem-concat_map j f xs)

-- The entry stands for a device of that group: its name has a colon, and its link "iommu_group" can
-- be read and ends in the group's name.
abbrev pub is_in_group : HostFiles → String → String → Bool
is_in_group host g entry =
    contains entry ":"
    && elim (host.iommu_group entry) [ none ↦ false | some target ↦ base target == g ]

mem-group_of :
    (host : HostFiles) (g entry : String) → mem g (group_of host entry) ≡ is_in_group host g entry
unfolding group_of
mem-group_of host g entry = elim (Option-cases (host.iommu_group entry)) [
  | inl nothing ↦ rw (group_of, nothing) (ground arith)
  | inr (target, e) ↦ rw (group_of, e) (ground arith)
]

any-ext : {A : Type 0} (p q : A → Bool) (xs : List A) → ((x : A) → p x ≡ q x) → any p xs ≡ any q xs
any-ext p q [] h = refl
any-ext p q (x ∷ xs) h = rw (h x, any-ext p q xs h) refl

-- When the directory of the driver vfio-pci can be listed, resolveVFIOGroups succeeds; a text is
-- one of its groups exactly when some entry with a colon in its name has a link "iommu_group" whose
-- last path element is that text; no group is repeated, and they are in the order of their text.
pub resolve_vfio_groups-mem :
    (host : HostFiles) (entries : List String)
    → host.vfio_drivers ≡ listed entries
    → Yields
        (λ groups.
          ((g : String) → mem g groups ≡ any (is_in_group host g) entries)
          × NoRepeats groups
          × IsSorted groups)
        (resolve_vfio_groups host)
unfolding resolve_vfio_groups
resolve_vfio_groups-mem host entries h = rw h (
  λ g.
      mem-sort g (distinct (concat_map (group_of host) entries))
      ∙ mem-distinct g (concat_map (group_of host) entries)
      ∙ mem-concat_map g (group_of host) entries
      ∙ any-ext (λ entry. mem g (group_of host entry)) (is_in_group host g) entries
          (mem-group_of host g),
  sort-NoRepeats (distinct (concat_map (group_of host) entries))
      (distinct-NoRepeats (concat_map (group_of host) entries)),
  sort-IsSorted (distinct (concat_map (group_of host) entries)),
)
