-- ===== src/Command/Pipeline/Laws.antt =====
-- What a successful run of convertVM has gone through.
use vm_to_quadlet.Base.{
  ◌≡◌, refl, sym, Option, List, Result, ok, err, wrap, >>=-eq-ok, wrap-eq-ok, inl, inr,
  Result-cases, ok-ne-err,
}
use vm_to_quadlet.Kube.Machine.{VirtualMachine}
use vm_to_quadlet.Kube.Pod.{Pod}
use vm_to_quadlet.Quadlet
use vm_to_quadlet.Quadlet.{UnitFile}
use vm_to_quadlet.Quadlet.Converter.{convert}
use vm_to_quadlet.Standalone.{Options}
use vm_to_quadlet.Standalone.PreRender.Prepare.{prepare_for_rendering}
use vm_to_quadlet.Standalone.PostRender.Adapt.{adapt_for_standalone}
use vm_to_quadlet.Standalone.PostConvert.{apply_post_convert_fixups}
use vm_to_quadlet.Command.Pipeline.{
  Outside, Prepared, render_pod, finish, adapt_and_finish, after_prepare, convert_vm,
}

module _ (X : Outside) where
  -- The results of the steps, from the prepared machine to the files.
  pub record Steps (vm? : Option VirtualMachine) (opts : Options) (conv_opts : Quadlet.Options)
      (files : List UnitFile) : Type 0 where
    pub prepared : Prepared X
    pub pod : Pod
    pub adapted : Pod
    pub units : List UnitFile
    pub step3 : (prepare_for_rendering X.indexer X.kube_virt vm?).value ≡ ok prepared
    pub step4 : render_pod X opts prepared ≡ ok pod
    pub step5 :
        (adapt_for_standalone X.marshal_vmi X.labels X.host pod prepared opts).value ≡ ok adapted
    pub step6 : convert X.podman adapted conv_opts ≡ ok units
    pub step7 : apply_post_convert_fixups units adapted.name opts conv_opts ≡ ok files

  finished :
      (opts : Options) (conv_opts : Quadlet.Options) (prepared : Prepared X) (pod : Pod)
      (files : List UnitFile)
      → (adapt_and_finish X opts conv_opts prepared pod).value ≡ ok files
      → (adapted : Pod) × ((adapt_for_standalone X.marshal_vmi X.labels X.host pod prepared
            opts).value
          ≡ ok adapted)
        × (units : List UnitFile) × (convert X.podman adapted conv_opts ≡ ok units)
        × (apply_post_convert_fixups units adapted.name opts conv_opts ≡ ok files)
  unfolding adapt_and_finish finish
  finished opts conv_opts prepared pod files h =
      let result = (adapt_for_standalone X.marshal_vmi X.labels X.host pod prepared opts).value in
      let (adapted, e5, k5) =
        >>=-eq-ok (wrap "step 5 (post-render): " result) (finish X opts conv_opts) h in
      let (units, e6, k6) =
        >>=-eq-ok (wrap "step 6 (quadlet convert): " (convert X.podman adapted conv_opts)) _ k5 in
      (
        adapted,
        wrap-eq-ok "step 5 (post-render): " result e5,
        units,
        wrap-eq-ok "step 6 (quadlet convert): " (convert X.podman adapted conv_opts) e6,
        wrap-eq-ok "step 7 (post-convert): "
            (apply_post_convert_fixups units adapted.name opts conv_opts) k6,
      )

  rendered :
      (opts : Options) (conv_opts : Quadlet.Options) (prepared : Prepared X) (files : List UnitFile)
      → (after_prepare X opts conv_opts (ok prepared)).value ≡ ok files
      → (pod : Pod) × (render_pod X opts prepared ≡ ok pod)
        × ((adapt_and_finish X opts conv_opts prepared pod).value ≡ ok files)
  unfolding after_prepare
  rendered opts conv_opts prepared files h = elim (Result-cases (render_pod X opts prepared)) [
    | inl (pod, e) ↦ (pod, e, rw (after_prepare, e) at h)
    | inr (message, e) ↦ absurd (ok-ne-err (sym (rw (after_prepare, e) at h)))
  ]

  after_prepare-ok :
      (opts : Options) (conv_opts : Quadlet.Options) (r : Result (Prepared X))
      (files : List UnitFile)
      → (after_prepare X opts conv_opts r).value ≡ ok files
      → (prepared : Prepared X) × (r ≡ ok prepared)
        × (pod : Pod) × (render_pod X opts prepared ≡ ok pod)
        × ((adapt_and_finish X opts conv_opts prepared pod).value ≡ ok files)
  unfolding after_prepare
  after_prepare-ok opts conv_opts (err e) files h = cc
  after_prepare-ok opts conv_opts (ok prepared) files h =
      let (pod, e, k) = rendered opts conv_opts prepared files h in (prepared, refl, pod, e, k)

  -- The pipeline convertVM succeeds only when every step does: each step has its result, which the next one is
  -- given, and the files are those of the last.
  pub convert_vm-Steps :
      (vm? : Option VirtualMachine) (opts : Options) (conv_opts : Quadlet.Options)
      (files : List UnitFile)
      → (convert_vm X vm? opts conv_opts).value ≡ ok files
      → Steps vm? opts conv_opts files
  unfolding convert_vm
  convert_vm-Steps vm? opts conv_opts files h =
      let result = (prepare_for_rendering X.indexer X.kube_virt vm?).value in
      let (prepared, e3, pod, e4, k4) =
        after_prepare-ok opts conv_opts (wrap "step 3 (pre-render): " result) files h in
      let (adapted, e5, units, e6, e7) = finished opts conv_opts prepared pod files k4 in
      record {
        prepared = prepared;
        pod = pod;
        adapted = adapted;
        units = units;
        step3 =
            wrap-eq-ok "step 3 (pre-render): "
              (prepare_for_rendering X.indexer X.kube_virt vm?).value e3;
        step4 = e4;
        step5 = e5;
        step6 = e6;
        step7 = e7;
      }
