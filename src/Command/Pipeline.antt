-- ===== src/Command/Pipeline.antt =====
-- `convertVM`: the steps of the pipeline in their order, each error with the step's name.
pub mod Total
pub mod Laws
pub mod Sound
use vm_to_quadlet.Base.{String, Option, List, [], ◌++◌, Result, ok, err, ◌>>=◌, wrap, Logged}
use vm_to_quadlet.Kube.Machine.{Vmi, VirtualMachine}
use vm_to_quadlet.Kube.Pod.{Pod}
use vm_to_quadlet.Kube.Virt.{KubeVirt, new_template_service}
use vm_to_quadlet.Quadlet
use vm_to_quadlet.Quadlet.{UnitFile}
use vm_to_quadlet.Quadlet.Converter.{Podman, convert}
use vm_to_quadlet.Standalone.{Options, PreparedVm}
use vm_to_quadlet.Standalone.PreRender.Stubs.{Indexer}
use vm_to_quadlet.Standalone.PreRender.Prepare.{prepare_for_rendering}
use vm_to_quadlet.Standalone.PostRender.Devices.{HostFiles}
use vm_to_quadlet.Standalone.PostRender.Cleanup.{CpuLabels}
use vm_to_quadlet.Standalone.PostRender.Adapt.{adapt_for_standalone}
use vm_to_quadlet.Standalone.PostConvert.{apply_post_convert_fixups}

-- What the pipeline takes from outside the repository.
pub record Outside : Type 1 where
  pub indexer : Indexer
  pub kube_virt : KubeVirt (Indexer.Cache indexer)
  pub podman : Podman
  pub marshal_vmi : Vmi → Result String
  pub labels : CpuLabels
  pub host : HostFiles

module _ (X : Outside) where
  abbrev pub Prepared : Type 0
  Prepared = PreparedVm (Indexer.Cache X.indexer)

  -- Step 4.
  unfoldable pub render_pod : Options → Prepared → Result Pod
  unfolding new_template_service
  render_pod opts prepared =
      KubeVirt.render_launch_manifest X.kube_virt
        (new_template_service X.kube_virt prepared.pvc_cache opts.launcher_image) prepared.vmi

  -- Steps 6 and 7.
  unfoldable pub finish : Options → Quadlet.Options → Pod → Result (List UnitFile)
  unfolding convert apply_post_convert_fixups
  finish opts conv_opts pod = do
    files ← wrap "step 6 (quadlet convert): " (convert X.podman pod conv_opts)
    wrap "step 7 (post-convert): " (apply_post_convert_fixups files pod.name opts conv_opts)

  -- Steps 5 to 7.
  adapt_and_finish : Options → Quadlet.Options → Prepared → Pod → Logged (Result (List UnitFile))
  unfolding finish adapt_for_standalone
  adapt_and_finish opts conv_opts prepared pod =
      let adapted = adapt_for_standalone X.marshal_vmi X.labels X.host pod prepared opts in
      record {
        stderr = adapted.stderr;
        value = do
          pod' ← wrap "step 5 (post-render): " adapted.value
          finish opts conv_opts pod';
      }

  -- Steps 4 to 7.
  after_prepare : Options → Quadlet.Options → Result Prepared → Logged (Result (List UnitFile))
  unfolding render_pod adapt_and_finish
  after_prepare opts conv_opts (err e) = record { stderr = []; value = err e }
  after_prepare opts conv_opts (ok prepared) =
      elim (wrap "step 4 (RenderLaunchManifest): " (render_pod opts prepared)) [
        | err e ↦ record { stderr = []; value = err e }
        | ok pod ↦ adapt_and_finish opts conv_opts prepared pod
      ]

  unfoldable pub convert_vm :
      Option VirtualMachine → Options → Quadlet.Options → Logged (Result (List UnitFile))
  unfolding prepare_for_rendering after_prepare
  convert_vm vm? opts conv_opts =
      let prepared = prepare_for_rendering X.indexer X.kube_virt vm? in
      let rest = after_prepare opts conv_opts (wrap "step 3 (pre-render): " prepared.value) in
      record { stderr = prepared.stderr ++ rest.stderr; value = rest.value }
