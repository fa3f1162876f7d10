-- ===== src/Command/Pipeline/Sound.antt =====
-- What convertVM promises from end to end.
use vm_to_quadlet.Base.{
  String, ◌≡◌, subst, Option, some, List, Result, ok, wrap, >>=-eq-ok, wrap-eq-ok, Yields,
}
use vm_to_quadlet.Kube.Machine.{VmiSpec, Vmi, VirtualMachine}
use vm_to_quadlet.Kube.Pod.{Pod}
use vm_to_quadlet.Quadlet
use vm_to_quadlet.Quadlet.{UnitFile}
use vm_to_quadlet.Standalone.{Options, PreparedVm}
use vm_to_quadlet.Standalone.PreRender.Validate.Laws.{IsSupported, validate_iff}
use vm_to_quadlet.Standalone.PreRender.Prepare.Valid.{prepare-valid}
use vm_to_quadlet.Standalone.PostRender.Devices.{HostFiles}
use vm_to_quadlet.Standalone.PostRender.Cleanup.{CpuLabels}
use vm_to_quadlet.Standalone.PostRender.Cleanup.Standalone.{IsStandalone}
use vm_to_quadlet.Standalone.PostRender.Cleanup.Whole.{adapt_for_standalone-IsStandalone}
use vm_to_quadlet.Standalone.PostRender.Mounts.{MountsResolve}
use vm_to_quadlet.Standalone.PostRender.Mounts.Whole.{adapt-MountsResolve}
use vm_to_quadlet.Standalone.PostRender.Adapt.{adapt_for_standalone}
use vm_to_quadlet.Command.Pipeline.{Outside, convert_vm}
use vm_to_quadlet.Command.Pipeline.Laws.{Steps, convert_vm-Steps}

-- Step 5 succeeds only where the instance can be serialised.
adapted-marshal :
    {Cache : Type 0} (marshal : Vmi → Result String) (labels : CpuLabels) (host : HostFiles)
    (pod out : Pod) (prepared : PreparedVm Cache) (opts : Options)
    → (adapt_for_standalone marshal labels host pod prepared opts).value ≡ ok out
    → (json : String) × (marshal prepared.vmi ≡ ok json)
unfolding adapt_for_standalone
adapted-marshal marshal labels host pod out prepared opts h =
    let (json, e, _) = >>=-eq-ok (wrap "failed to marshal VMI: " (marshal prepared.vmi)) _ h in
    (json, wrap-eq-ok "failed to marshal VMI: " (marshal prepared.vmi) e)

Yields-ok : {A : Type 0} (P : A → Type 0) (r : Result A) (a : A) → r ≡ ok a → Yields P r → P a
Yields-ok P r a e y = subst (Yields P) e y

module _ (X : Outside) where
  -- A conversion that succeeds was given a machine that passes the validation, with all that
  -- IsSupported says of its template. The pod that was converted is standalone in the sense of
  -- IsStandalone: no owner references or readiness gates, the restart policy OnFailure, init
  -- containers that end, and no extended resources. Where the mounts of the pod that KubeVirt
  -- rendered all name its volumes, so do those of the pod that was converted.
  pub convert_vm_sound :
      (vm? : Option VirtualMachine) (opts : Options) (conv_opts : Quadlet.Options)
      (files : List UnitFile)
      → (convert_vm X vm? opts conv_opts).value ≡ ok files
      → ((vm : VirtualMachine) × (spec : VmiSpec) × (vm? ≡ some vm)
          × (vm.template ≡ some spec)
          × IsSupported spec)
        × (steps : Steps X vm? opts conv_opts files) × IsStandalone steps.adapted
        × (MountsResolve steps.pod → MountsResolve steps.adapted)
  convert_vm_sound vm? opts conv_opts files h =
      let s = convert_vm-Steps X vm? opts conv_opts files h in
      let (json, m) =
        adapted-marshal X.marshal_vmi X.labels X.host s.pod s.adapted s.prepared opts s.step5 in
      let result =
        (adapt_for_standalone X.marshal_vmi X.labels X.host s.pod s.prepared opts).value in
      (
        (validate_iff vm?).0 (prepare-valid X.indexer X.kube_virt vm? s.prepared s.step3),
        s,
        Yields-ok IsStandalone result s.adapted s.step5 (
            adapt_for_standalone-IsStandalone X.marshal_vmi X.labels X.host s.pod s.prepared opts
              json m),
        λ r.
            Yields-ok MountsResolve result s.adapted s.step5
              (adapt-MountsResolve X.marshal_vmi X.labels X.host s.pod s.prepared opts json r m),
      )
