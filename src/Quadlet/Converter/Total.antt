-- ===== src/Quadlet/Converter/Total.antt =====
-- When Convert succeeds.
use vm_to_quadlet.Base.{
  String, ◌<>◌, ◌≡◌, inl, inr, List, [], ◌∷◌, ◌++◌, ok, ◌==◌, All, Succeeds, refl, Bool-cases,
}
use vm_to_quadlet.Kube.Pod.{Pod}
use vm_to_quadlet.Quadlet.{Options}
use vm_to_quadlet.Quadlet.Converter.{
  GeneratedFile, PodmanOptions, Podman, pre_convert_fixups, render_files, run_in_process, convert,
}

-- The two JSON steps and Podman's converter answer with no error, and every file that it generates
-- can be written.
pub record Converts (P : Podman) : Type 0 where
  pub marshals : (pod : Pod) → Succeeds (P.marshal pod)
  pub unmarshals : (text : String) → Succeeds (P.unmarshal text)
  pub converts :
      (pod : P.PodmanPod) (opts : PodmanOptions)
      → (fs : List GeneratedFile) × (P.convert pod opts ≡ ok fs) × All (λ f. Succeeds f.written) fs

render_files-Succeeds :
    (fs : List GeneratedFile) → All (λ f. Succeeds f.written) fs → Succeeds (render_files fs)
unfolding render_files
render_files-Succeeds [] h = ([], refl)
render_files-Succeeds (f ∷ fs) ((content, e), h) =
    let (files, k) = render_files-Succeeds fs h in
    (record { name = f.name; content = content } ∷ files, rw (e, k) refl)

module _ (P : Podman) (C : Converts P) where
  run_in_process-Succeeds :
      (vm_name : String) (pod : Pod) (network : String)
      → Succeeds (run_in_process P vm_name pod network)
  unfolding run_in_process
  run_in_process-Succeeds vm_name pod network =
      let (text, e) = C.marshals pod in
      let (podman_pod, f) = C.unmarshals text in
      let opts : PodmanOptions = record { name_prefix = vm_name; network = network } in
      let (generated, g, written) = C.converts podman_pod opts in
      let (files, k) = render_files-Succeeds generated written in (files, rw (e, f, g) k)

  pub convert-Succeeds : (pod : Pod) (opts : Options) → Succeeds (convert P pod opts)
  unfolding convert
  convert-Succeeds pod opts =
      let fixed = pre_convert_fixups pod in
      let network = fixed.name <> ".network" in
      elim (Bool-cases (opts.network == "")) [
        | inl none ↦
            let (files, e) = run_in_process-Succeeds fixed.name fixed network in
            (files ++ record { name = network; content = "[Network]\n" } ∷ [], rw (none, e) refl)
        | inr named ↦
            let (files, e) = run_in_process-Succeeds fixed.name fixed opts.network in
            (files, rw named e)
      ]
