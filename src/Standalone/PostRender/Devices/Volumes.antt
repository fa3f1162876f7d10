-- ===== src/Standalone/PostRender/Devices/Volumes.antt =====
-- The volumes that mountHostDevices adds to the pod.
use text.Mathlib.TextLemmas.{append_cancel_left}
use mathlib.Core.List.{append-nil, append_assoc}
use vm_to_quadlet.Base.{
  String, ◌<>◌, ◌≡◌, refl, sym, ap, ◌∙◌, inl, inr, true, false, Option, none, some, List, [], ◌∷◌,
  ◌++◌, map, arith, ◌==◌, eq_iff, Bool-cases, All, All-mono, concat_map,
}
use vm_to_quadlet.Base.Sort.{mem, NoRepeats, distinct, sort-NoRepeats, distinct-NoRepeats}
use vm_to_quadlet.Kube.Pod.{Pod, Volume}
use vm_to_quadlet.Kube.Machine.{Vmi}
use vm_to_quadlet.Standalone.PostRender.Compute.{add_volumes, mount_in_compute, on_compute}
use vm_to_quadlet.Standalone.PostRender.Devices.{
  Device, gpus_from, elements, mount_device, mount_devices, mount_cgroup, group_of, HostFiles,
  DirResult, not_exist, failed, listed, groups_of, resolve_vfio_groups, vfio_devices, host_devices,
}
use vm_to_quadlet.Standalone.PostRender.Devices.Names.{code_at, begin_longer, names_of, mem-append}
use vm_to_quadlet.Standalone.PostRender.Devices.Distinct.{mem-gpus_zero}

abbrev pub volume_names : Pod → List String
volume_names pod = map (λ v. v.name) pod.spec.volumes

map_name-append :
    (xs ys : List Volume)
    → map (λ v. v.name) (xs ++ ys) ≡ map (λ v. v.name) xs ++ map (λ v. v.name) ys
map_name-append [] ys = refl
map_name-append (x ∷ xs) ys = ap (λ ns. x.name ∷ ns) (map_name-append xs ys)

volume_names-mount_device :
    (dev : Device) (pod : Pod)
    → volume_names (mount_device dev pod) ≡ volume_names pod ++ dev.0 ∷ []
unfolding mount_device add_volumes mount_in_compute on_compute
volume_names-mount_device dev pod = map_name-append pod.spec.volumes _

pub volume_names-mount_cgroup :
    (pod : Pod) → volume_names (mount_cgroup pod) ≡ volume_names pod ++ "cgroup" ∷ []
unfolding mount_cgroup add_volumes mount_in_compute on_compute
volume_names-mount_cgroup pod = map_name-append pod.spec.volumes _

pub volume_names-mount_devices :
    (devs : List Device) (pod : Pod)
    → volume_names (mount_devices devs pod) ≡ volume_names pod ++ names_of devs
unfolding mount_devices
volume_names-mount_devices [] pod = sym (append-nil (volume_names pod))
volume_names-mount_devices (dev ∷ devs) pod =
    volume_names-mount_devices devs (mount_device dev pod)
    ∙ ap (λ ns. ns ++ names_of devs) (volume_names-mount_device dev pod)
    ∙ append_assoc (volume_names pod) (dev.0 ∷ []) (names_of devs)

abbrev group_devices : List String → List Device
group_devices = map (λ g. ("vfio-group-" <> g, "/dev/vfio/" <> g))

mem-groups :
    (g : String) (groups : List String)
    → mem ("vfio-group-" <> g) (names_of (group_devices groups)) ≡ mem g groups
mem-groups g [] = refl
mem-groups g (h ∷ groups) = elim (Bool-cases (("vfio-group-" <> h) == ("vfio-group-" <> g))) [
  | inl same ↦
      let e : h ≡ g = append_cancel_left "vfio-group-" h g ((eq_iff _ _).0 same) in
      rw (same, (eq_iff h g).1 e) refl
  | inr differs ↦ elim (Bool-cases (h == g)) [
    | inl same ↦
        let e : (("vfio-group-" <> h) == ("vfio-group-" <> g)) ≡ true =
          (eq_iff _ _).1 (ap (λ s. "vfio-group-" <> s) ((eq_iff h g).0 same)) in
        cc
    | inr other ↦ rw (differs, other) (mem-groups g groups)
  ]
]

group_devices-NoRepeats :
    (groups : List String) → NoRepeats groups → NoRepeats (names_of (group_devices groups))
group_devices-NoRepeats [] h = tt
group_devices-NoRepeats (g ∷ groups) (n, h) =
    (mem-groups g groups ∙ n, group_devices-NoRepeats groups h)

mem-group_devices :
    (s : String) (groups : List String)
    → ((g : String) → (("vfio-group-" <> g) == s) ≡ false)
    → mem s (names_of (group_devices groups)) ≡ false
mem-group_devices s [] h = refl
mem-group_devices s (g ∷ groups) h = rw (h g, mem-group_devices s groups h) refl

resolved-NoRepeats :
    (host : HostFiles) (found : DirResult)
    → host.vfio_drivers ≡ found
    → NoRepeats (groups_of (resolve_vfio_groups host))
unfolding resolve_vfio_groups
resolved-NoRepeats host not_exist e = rw (resolve_vfio_groups, e) tt
resolved-NoRepeats host (failed reason) e = rw (resolve_vfio_groups, e) tt
resolved-NoRepeats host (listed entries) e =
    rw (resolve_vfio_groups, e)
      (sort-NoRepeats (distinct (concat_map (group_of host) entries))
        (distinct-NoRepeats (concat_map (group_of host) entries)))

pub host_devices-NoRepeats :
    (host : HostFiles) (asked : Option (List String))
    → NoRepeats (names_of (host_devices host asked))
unfolding host_devices vfio_devices code_at
host_devices-NoRepeats host none = tt
host_devices-NoRepeats host (some names) =
    let groups = groups_of (resolve_vfio_groups host) in
    (
      mem-group_devices "vfio" groups (λ g. begin_longer 4 "vfio-group-" g "vfio" 45 refl refl),
      group_devices-NoRepeats groups (resolved-NoRepeats host host.vfio_drivers refl),
    )

pub mem-host_devices :
    (s : String) (host : HostFiles) (asked : Option (List String))
    → ("vfio" == s) ≡ false
    → ((g : String) → (("vfio-group-" <> g) == s) ≡ false)
    → mem s (names_of (host_devices host asked)) ≡ false
unfolding host_devices vfio_devices
mem-host_devices s host none h k = refl
mem-host_devices s host (some names) h k =
    rw (h, mem-group_devices s (groups_of (resolve_vfio_groups host)) k) refl

groups_other :
    (groups gpus : List String)
    → All (λ s. mem s (names_of (gpus_from 0 gpus)) ≡ false) (names_of (group_devices groups))
unfolding code_at
groups_other [] gpus = tt
groups_other (g ∷ groups) gpus =
    (mem-gpus_zero gpus "vfio-group-" g 118 refl refl refl refl, groups_other groups gpus)

-- No name of a host device is that of a GPU's volume.
pub host_devices-other :
    (host : HostFiles) (asked : Option (List String)) (gpus : List String)
    → All (λ s. mem s (names_of (gpus_from 0 gpus)) ≡ false) (names_of (host_devices host asked))
unfolding host_devices vfio_devices code_at
host_devices-other host none gpus = tt
host_devices-other host (some names) gpus = (
  mem-gpus_zero gpus "vfio" "" 118 refl refl refl refl,
  groups_other (groups_of (resolve_vfio_groups host)) gpus,
)

mem_of_other : (s : String) (ts : List String) → All (λ t. (s == t) ≡ false) ts → mem s ts ≡ false
mem_of_other s [] h = refl
mem_of_other s (t ∷ ts) (d, h) = ground (arith, mem_of_other s ts h, eq_iff s t, eq_iff t s)

pub join-NoRepeats :
    (xs ys : List String)
    → NoRepeats xs
    → NoRepeats ys
    → All (λ y. mem y xs ≡ false) ys
    → NoRepeats (xs ++ ys)
join-NoRepeats [] ys h k apart = k
join-NoRepeats (x ∷ xs) ys (n, h) k apart = (
  mem-append x xs ys ∙ rw (n, mem_of_other x ys (All-mono ys (λ y a. ground arith) apart)) refl,
  join-NoRepeats xs ys h k (All-mono ys (λ y a. ground arith) apart),
)

-- The names of all devices, in the order in which they are mounted.
abbrev pub mounted_names : HostFiles → Vmi → List String
mounted_names host vmi =
    "kvm" ∷ "tun" ∷ "vhost-net" ∷ "cgroup" ∷ names_of (gpus_from 0 (elements vmi.spec.gpus))
    ++ names_of (host_devices host vmi.spec.host_devices)
