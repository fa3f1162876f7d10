-- ===== src/Quadlet/Converter.antt =====
-- pkg/quadlet/converter.go: step 6, around the vendored converter of Podman, which is a parameter.
pub mod Laws
pub mod Total
use vm_to_quadlet.Base.{
  ℕ, String, ◌<>◌, Option, none, some, List, [], ◌∷◌, ◌++◌, Result, ok, err, ◌>>=◌, wrap, ◌==◌,
  if◌then◌else◌,
}
use vm_to_quadlet.Kube.Pod.{Pod}
use vm_to_quadlet.Quadlet.{UnitFile, Options}

-- A generated file: its name, and what its `Write` writes or answers.
pub record GeneratedFile : Type 0 where
  pub name : String
  pub written : Result String

-- `podmanquadlet.Options`, as far as it is filled in.
pub record PodmanOptions : Type 0 where
  pub name_prefix : String
  pub network : String

-- `marshal` and `unmarshal` are `json.Marshal` of a pod and `json.Unmarshal` into Podman's type.
pub record Podman : Type 1 where
  pub PodmanPod : Type 0
  pub marshal : Pod → Result String
  pub unmarshal : String → Result PodmanPod
  pub convert : PodmanPod → PodmanOptions → Result (List GeneratedFile)

unfoldable pub pre_convert_fixups : Pod → Pod
pre_convert_fixups pod =
    let spec = record (pod.spec) { termination_grace_period_seconds = some 120 } in
    record pod { kind = "Pod"; api_version = "v1"; spec = spec }

-- The loop over the generated files.
unfoldable pub render_files : List GeneratedFile → Result (List UnitFile)
render_files [] = ok []
render_files (f ∷ fs) = do
  content ← wrap ("render " <> f.name <> ": ") f.written
  files ← render_files fs
  ok (record { name = f.name; content = content } ∷ files)

module _ (P : Podman) where
  unfoldable pub run_in_process : String → Pod → String → Result (List UnitFile)
  unfolding render_files
  run_in_process vm_name pod network = do
    text ← wrap "marshal pod: " (P.marshal pod)
    podman_pod ← wrap "unmarshal into podman pod: " (P.unmarshal text)
    generated ←
        wrap "convert: "
          (P.convert podman_pod (record { name_prefix = vm_name; network = network }))
    render_files generated

  -- The units of the pod, and that of a network of its own if the options name none.
  unfoldable pub convert : Pod → Options → Result (List UnitFile)
  unfolding pre_convert_fixups run_in_process
  convert pod opts =
      let fixed = pre_convert_fixups pod in
      let network = fixed.name <> ".network" in
      let own = run_in_process fixed.name fixed network >>= λ files.
      ok (files ++ record { name = network; content = "[Network]\n" } ∷ []) in
      if opts.network == "" then own else run_in_process fixed.name fixed opts.network
