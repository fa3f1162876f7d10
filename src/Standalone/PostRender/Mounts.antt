-- ===== src/Standalone/PostRender/Mounts.antt =====
-- Volume mounts that name no volume of the pod make the conversion of step 6 fail. Here: what it
-- means that there are none, and that the changes all steps are made of keep it so.
pub mod Steps
pub mod Added
pub mod Disks
pub mod Whole
use vm_to_quadlet.Base.{
  String, ◌≡◌, inl, inr, List, [], ◌∷◌, ◌++◌, All, Any, All-append, All-mono, All-update_first,
}
use vm_to_quadlet.Kube.Pod.{VolumeMount, Container, Volume, Pod}
use vm_to_quadlet.Standalone.PostRender.Compute.{
  is_compute, add_volumes, on_compute, add_mounts, mount_in_compute, add_containers, prepend_inits,
}

abbrev pub IsDeclared : List Volume → String → Type 0
IsDeclared volumes name = Any (λ v. v.name ≡ name) volumes

abbrev pub Resolves : List Volume → Container → Type 0
Resolves volumes c = All (λ m. IsDeclared volumes m.name) c.volume_mounts

-- Every mount of every container names a volume of the pod.
pub record MountsResolve (pod : Pod) : Type 0 where
  pub containers : All (Resolves pod.spec.volumes) pod.spec.containers
  pub inits : All (Resolves pod.spec.volumes) pod.spec.init_containers

pub IsDeclared-append_left :
    (xs ys : List Volume) (name : String) → IsDeclared xs name → IsDeclared (xs ++ ys) name
IsDeclared-append_left [] ys name h = absurd h
IsDeclared-append_left (x ∷ xs) ys name (inl e) = inl e
IsDeclared-append_left (x ∷ xs) ys name (inr h) = inr (IsDeclared-append_left xs ys name h)

pub IsDeclared-append_right :
    (xs ys : List Volume) (name : String) → IsDeclared ys name → IsDeclared (xs ++ ys) name
IsDeclared-append_right [] ys name h = h
IsDeclared-append_right (x ∷ xs) ys name h = inr (IsDeclared-append_right xs ys name h)

pub Resolves-append : (xs ys : List Volume) (c : Container) → Resolves xs c → Resolves (xs ++ ys) c
Resolves-append xs ys c h = All-mono c.volume_mounts (λ m. IsDeclared-append_left xs ys m.name) h

pub add_volumes-MountsResolve :
    (volumes : List Volume) (pod : Pod)
    → MountsResolve pod
    → MountsResolve (add_volumes volumes pod)
unfolding add_volumes
add_volumes-MountsResolve volumes pod r = record {
  containers = All-mono pod.spec.containers (Resolves-append pod.spec.volumes volumes) r.containers;
  inits = All-mono pod.spec.init_containers (Resolves-append pod.spec.volumes volumes) r.inits;
}

pub on_compute-MountsResolve :
    (f : Container → Container) (pod : Pod)
    → ((c : Container) → Resolves pod.spec.volumes c → Resolves pod.spec.volumes (f c))
    → MountsResolve pod
    → MountsResolve (on_compute f pod)
unfolding on_compute
on_compute-MountsResolve f pod keeps r = record {
  containers =
      All-update_first (Resolves pod.spec.volumes) is_compute f pod.spec.containers keeps
        r.containers;
  inits = r.inits;
}

pub mount_in_compute-MountsResolve :
    (mounts : List VolumeMount) (pod : Pod)
    → All (λ m. IsDeclared pod.spec.volumes m.name) mounts
    → MountsResolve pod
    → MountsResolve (mount_in_compute mounts pod)
unfolding mount_in_compute
mount_in_compute-MountsResolve mounts pod declared r =
    on_compute-MountsResolve (add_mounts mounts) pod
      (λ c h.
        All-append (λ (m : VolumeMount). IsDeclared pod.spec.volumes m.name) c.volume_mounts mounts
          h declared)
      r

-- Volumes added together with mounts of them.
pub add_and_mount-MountsResolve :
    (volumes : List Volume) (mounts : List VolumeMount) (pod : Pod)
    → All (λ m. IsDeclared volumes m.name) mounts
    → MountsResolve pod
    → MountsResolve (mount_in_compute mounts (add_volumes volumes pod))
unfolding add_volumes
add_and_mount-MountsResolve volumes mounts pod declared r =
    mount_in_compute-MountsResolve mounts (add_volumes volumes pod)
      (All-mono mounts (λ m. IsDeclared-append_right pod.spec.volumes volumes m.name) declared)
      (add_volumes-MountsResolve volumes pod r)

pub add_containers-MountsResolve :
    (containers : List Container) (pod : Pod)
    → All (Resolves pod.spec.volumes) containers
    → MountsResolve pod
    → MountsResolve (add_containers containers pod)
unfolding add_containers
add_containers-MountsResolve containers pod h r = record {
  containers = All-append (Resolves pod.spec.volumes) pod.spec.containers containers r.containers h;
  inits = r.inits;
}

pub prepend_inits-MountsResolve :
    (containers : List Container) (pod : Pod)
    → All (Resolves pod.spec.volumes) containers
    → MountsResolve pod
    → MountsResolve (prepend_inits containers pod)
unfolding prepend_inits
prepend_inits-MountsResolve containers pod h r = record {
  containers = r.containers;
  inits = All-append (Resolves pod.spec.volumes) containers pod.spec.init_containers h r.inits;
}
