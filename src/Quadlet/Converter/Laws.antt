-- ===== src/Quadlet/Converter/Laws.antt =====
-- What a successful conversion of step 6 has asked Podman for, and the units that it returns.
use mathlib.Core.List.{append-nil}
use vm_to_quadlet.Base.{
  String, ◌<>◌, ◌≡◌, refl, sym, subst, inl, inr, some, List, [], ◌∷◌, ◌++◌, ok, wrap, >>=-eq-ok,
  wrap-eq-ok, ok-injective, ◌==◌, if◌then◌else◌, Bool-cases,
}
use vm_to_quadlet.Kube.Pod.{Pod}
use vm_to_quadlet.Quadlet.{UnitFile, Options}
use vm_to_quadlet.Quadlet.Converter.{
  GeneratedFile, Podman, pre_convert_fixups, render_files, run_in_process, convert,
}

-- The units are the generated files, in order, each with the text that it writes.
pub data Rendered : List GeneratedFile → List UnitFile → Type 0 where
  rendered_nil : Rendered [] []
  rendered_cons :
      (f : GeneratedFile) (fs : List GeneratedFile) (content : String) (units : List UnitFile)
      → f.written ≡ ok content
      → Rendered fs units
      → Rendered (f ∷ fs) (record { name = f.name; content = content } ∷ units)

render_files-Rendered :
    (fs : List GeneratedFile) (units : List UnitFile)
    → render_files fs ≡ ok units
    → Rendered fs units
unfolding render_files
render_files-Rendered [] units h = subst (Rendered []) (ok-injective h) rendered_nil
render_files-Rendered (f ∷ fs) units h =
    let (content, e, k) = >>=-eq-ok (wrap ("render " <> f.name <> ": ") f.written) _ h in
    let (files, e', k') = >>=-eq-ok (render_files fs) _ k in
    subst (Rendered (f ∷ fs)) (ok-injective k') (
      rendered_cons f fs content files (wrap-eq-ok ("render " <> f.name <> ": ") f.written e)
        (render_files-Rendered fs files e'))

module _ (P : Podman) where
  -- What Podman was asked for and what came of it.
  pub record Asked (vm_name : String) (pod : Pod) (network : String) (units : List UnitFile)
      : Type 0 where
    pub text : String
    pub podman_pod : P.PodmanPod
    pub generated : List GeneratedFile
    pub marshalled : P.marshal pod ≡ ok text
    pub unmarshalled : P.unmarshal text ≡ ok podman_pod
    pub converted :
        P.convert podman_pod (record { name_prefix = vm_name; network = network }) ≡ ok generated
    pub rendered : Rendered generated units

  run_in_process-Asked :
      (vm_name : String) (pod : Pod) (network : String) (units : List UnitFile)
      → run_in_process P vm_name pod network ≡ ok units
      → Asked vm_name pod network units
  unfolding run_in_process
  run_in_process-Asked vm_name pod network units h =
      let (text, e1, k1) = >>=-eq-ok (wrap "marshal pod: " (P.marshal pod)) _ h in
      let (podman_pod, e2, k2) =
        >>=-eq-ok (wrap "unmarshal into podman pod: " (P.unmarshal text)) _ k1 in
      let (generated, e3, k3) =
        >>=-eq-ok
          (wrap "convert: "
            (P.convert podman_pod (record { name_prefix = vm_name; network = network })))
          _ k2 in
      record {
        text = text;
        podman_pod = podman_pod;
        generated = generated;
        marshalled = wrap-eq-ok "marshal pod: " (P.marshal pod) e1;
        unmarshalled = wrap-eq-ok "unmarshal into podman pod: " (P.unmarshal text) e2;
        converted =
            wrap-eq-ok "convert: "
              (P.convert podman_pod (record { name_prefix = vm_name; network = network })) e3;
        rendered = render_files-Rendered generated units k3;
      }

  -- The network that Podman is told of.
  abbrev pub network_of : Pod → Options → String
  network_of pod opts = if opts.network == "" then pod.name <> ".network" else opts.network

  -- The unit of the pod's own network, if none is named.
  abbrev pub own_network : Pod → Options → List UnitFile
  own_network pod opts =
      if opts.network == ""
      then record { name = pod.name <> ".network"; content = "[Network]\n" } ∷ []
      else []

  -- When Convert succeeds, Podman has converted the pod with a grace period of 120 seconds, with the
  -- pod's name as prefix, into the network of the options or else into "<pod>.network". The units
  -- are those that Podman generated, in order and with the text that they write, and behind them
  -- the unit of that network exactly when the options name none.
  pub convert-Asked :
      (pod : Pod) (opts : Options) (files : List UnitFile)
      → convert P pod opts ≡ ok files
      → (units : List UnitFile) × (files ≡ units ++ own_network pod opts)
        × Asked pod.name (pre_convert_fixups pod) (network_of pod opts) units
        × ((pre_convert_fixups pod).spec.termination_grace_period_seconds ≡ some 120)
  unfolding convert pre_convert_fixups
  convert-Asked pod opts files h =
      let fixed = pre_convert_fixups pod in
      elim (Bool-cases (opts.network == "")) [
        | inl own ↦
            let (units, e, k) =
              >>=-eq-ok (run_in_process P pod.name fixed (pod.name <> ".network")) _
                (rw own at h) in
            (
              units,
              rw own (sym (ok-injective k)),
              rw own (run_in_process-Asked pod.name fixed (pod.name <> ".network") units e),
              refl,
            )
        | inr named ↦ (
          files,
          rw named (sym (append-nil files)),
          rw named (run_in_process-Asked pod.name fixed opts.network files (rw named at h)),
          refl,
        )
      ]
