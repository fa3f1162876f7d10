-- ===== src/Standalone/PostRender/Proxies/Laws.antt =====
-- Where a proxy finds the socket that it forwards.
use vm_to_quadlet.Base.{
  String, ◌≡◌, refl, ap, ◌∙◌, inl, inr, true, false, some, List, [], ◌∷◌, ◌++◌, ◌==◌, Any,
  Bool-cases, Option-cases,
}
use vm_to_quadlet.Base.Int.{ℤ}
use vm_to_quadlet.Kube.Pod.{VolumeMount, mount, Container, Pod}
use vm_to_quadlet.Standalone.PostRender.Compute.{is_compute, add_containers}
use vm_to_quadlet.Standalone.PostRender.Proxies.{
  private_path, private_mount_name, private_name, private_volume_name, proxy, add_proxy,
}

-- The container mounts the volume at the directory of the sockets.
abbrev pub MountsPrivate : String → Container → Type 0
MountsPrivate name c =
    (is_compute c ≡ true)
    × Any (λ m. ((m.mount_path == private_path) ≡ true) × (m.name ≡ name)) c.volume_mounts

some-injective : {A : Type 0} {x y : A} → some x ≡ some y → x ≡ y
some-injective e = cc

true-ne-false : true ≡ false → ⊥
true-ne-false e = cc

private_mount_name-found :
    (ms : List VolumeMount) (name : String)
    → private_mount_name ms ≡ some name
    → Any (λ m. ((m.mount_path == private_path) ≡ true) × (m.name ≡ name)) ms
unfolding private_mount_name
private_mount_name-found [] name h = cc
private_mount_name-found (m ∷ ms) name h = elim (Bool-cases (m.mount_path == private_path)) [
  | inl here ↦ inl (here, some-injective (rw (private_mount_name, here) at h))
  | inr later ↦ inr (private_mount_name-found ms name (rw (private_mount_name, later) at h))
]

private_name-found :
    (cs : List Container) (name : String)
    → private_name cs ≡ name
    → (name == "") ≡ false
    → Any (MountsPrivate name) cs
unfolding private_name
private_name-found [] name e h = absurd (true-ne-false (ap (λ n. n == "") e ∙ h))
private_name-found (c ∷ cs) name e h = elim (Bool-cases (is_compute c)) [
  | inl guest ↦ elim (Option-cases (private_mount_name c.volume_mounts)) [
    | inl nothing ↦ inr (private_name-found cs name (rw (private_name, guest, nothing) at e) h)
    | inr (found, k) ↦ inl (
      guest,
      private_mount_name-found c.volume_mounts name
          (k ∙ ap some (rw (private_name, guest, k) at e)),
    )
  ]
  | inr other ↦ inr (private_name-found cs name (rw (private_name, other) at e) h)
]

-- When a private volume is found, some container called "compute" mounts it at
-- /var/run/kubevirt-private. The proxy is then the one container that is added, behind those
-- already there, and it mounts the same volume, and no other, at the same path.
pub add_proxy-shares_socket :
    (name socket : String) (pod : Pod) (port : ℤ) (image : String)
    → (private_volume_name pod == "") ≡ false
    → Any (MountsPrivate (private_volume_name pod)) pod.spec.containers
      × ((add_proxy name socket pod port image).spec.containers
          ≡ pod.spec.containers ++ proxy name socket (private_volume_name pod) port image ∷ [])
      × ((proxy name socket (private_volume_name pod) port image).volume_mounts
          ≡ mount (private_volume_name pod) private_path ∷ [])
unfolding add_proxy private_volume_name add_containers proxy
add_proxy-shares_socket name socket pod port image h = (
  private_name-found pod.spec.containers (private_volume_name pod) refl h,
  rw (add_proxy, h) refl,
  refl,
)
