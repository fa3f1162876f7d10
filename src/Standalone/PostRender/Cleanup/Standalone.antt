-- ===== src/Standalone/PostRender/Cleanup/Standalone.antt =====
-- A pod that a standalone host can run, and that every step from cleanupForStandalone on leaves one.
use vm_to_quadlet.Base.{
  ◌≡◌, refl, inl, inr, false, none, some, List, [], ◌∷◌, ◌++◌, map, is_empty, keep, All,
  All-update_first, Bool-cases,
}
use vm_to_quadlet.Base.Dict.{Dict}
use vm_to_quadlet.Base.Text.{contains}
use vm_to_quadlet.Kube.Pod.{ResourceList, Quantity, Container, Pod}
use vm_to_quadlet.Kube.Machine.{Vmi}
use vm_to_quadlet.Standalone.PostRender.Compute.{is_compute, on_compute}
use vm_to_quadlet.Standalone.PostRender.Cleanup.{
  CpuLabels, always_restarts, moved_inits, kept_inits, is_builtin, strip_extended_resources,
  strip_container, clean_spec, cleanup_for_standalone,
}

abbrev IsBuiltin : ResourceList → Type 0
IsBuiltin none = Unit
IsBuiltin (some list) = All (λ (k, q). contains k "/" ≡ false) list

-- No extended resource is asked for.
pub record HasBuiltinResources (c : Container) : Type 0 where
  pub limits : IsBuiltin c.resources.limits
  pub requests : IsBuiltin c.resources.requests

-- An init container that ends.
abbrev pub IsOneShot : Container → Type 0
IsOneShot c = always_restarts c ≡ false

pub record IsStandalone (pod : Pod) : Type 0 where
  pub owners : pod.owner_references ≡ []
  pub gates : pod.spec.readiness_gates ≡ []
  pub restarts : pod.spec.restart_policy ≡ "OnFailure"
  pub containers : All HasBuiltinResources pod.spec.containers
  pub inits : All HasBuiltinResources pod.spec.init_containers
  pub one_shot : All IsOneShot pod.spec.init_containers

keep-is_builtin : (d : Dict Quantity) → All (λ (k, q). contains k "/" ≡ false) (keep is_builtin d)
keep-is_builtin [] = tt
keep-is_builtin ((k, q) ∷ d) = elim (Bool-cases (contains k "/")) [
  | inl extended ↦ rw extended (keep-is_builtin d)
  | inr builtin ↦ rw builtin (builtin, keep-is_builtin d)
]

strip_extended_resources-IsBuiltin :
    (list : ResourceList) → IsBuiltin (strip_extended_resources list)
unfolding strip_extended_resources
strip_extended_resources-IsBuiltin none = tt
strip_extended_resources-IsBuiltin (some d) = elim (Bool-cases (is_empty (keep is_builtin d))) [
  | inl empty ↦ rw empty tt
  | inr full ↦ rw full (keep-is_builtin d)
]

strip_container-HasBuiltinResources :
    (cs : List Container) → All HasBuiltinResources (map strip_container cs)
unfolding strip_container
strip_container-HasBuiltinResources [] = tt
strip_container-HasBuiltinResources (c ∷ cs) = (
  record {
    limits = strip_extended_resources-IsBuiltin c.resources.limits;
    requests = strip_extended_resources-IsBuiltin c.resources.requests;
  },
  strip_container-HasBuiltinResources cs,
)

kept_inits-IsOneShot : (cs : List Container) → All IsOneShot (map strip_container (kept_inits cs))
unfolding kept_inits strip_container
kept_inits-IsOneShot [] = tt
kept_inits-IsOneShot (c ∷ cs) = elim (Bool-cases (always_restarts c)) [
  | inl always ↦ rw always (kept_inits-IsOneShot cs)
  | inr ends ↦ rw ends (ends, kept_inits-IsOneShot cs)
]

pub cleanup-IsStandalone :
    (labels : CpuLabels) (vmi : Vmi) (pod : Pod)
    → IsStandalone (cleanup_for_standalone labels vmi pod).value
unfolding cleanup_for_standalone clean_spec
cleanup-IsStandalone labels vmi pod = record {
  owners = refl;
  gates = refl;
  restarts = refl;
  containers =
      strip_container-HasBuiltinResources
        (pod.spec.containers ++ moved_inits pod.spec.init_containers);
  inits = strip_container-HasBuiltinResources (kept_inits pod.spec.init_containers);
  one_shot = kept_inits-IsOneShot pod.spec.init_containers;
}

-- A change of the guest's container that leaves its resources alone.
pub on_compute-IsStandalone :
    (f : Container → Container) (pod : Pod)
    → ((c : Container) → HasBuiltinResources c → HasBuiltinResources (f c))
    → IsStandalone pod
    → IsStandalone (on_compute f pod)
unfolding on_compute
on_compute-IsStandalone f pod keeps s = record {
  owners = s.owners;
  gates = s.gates;
  restarts = s.restarts;
  containers =
      All-update_first HasBuiltinResources is_compute f pod.spec.containers keeps s.containers;
  inits = s.inits;
  one_shot = s.one_shot;
}
