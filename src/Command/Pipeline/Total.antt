-- ===== src/Command/Pipeline/Total.antt =====
-- When convertVM succeeds.
use vm_to_quadlet.Base.{Succeeds}
use vm_to_quadlet.Kube.Machine.{Vmi}
use vm_to_quadlet.Kube.Pod.{Pod}
use vm_to_quadlet.Kube.Virt.{KubeVirt}
use vm_to_quadlet.Quadlet
use vm_to_quadlet.Quadlet.Converter.Total.{Converts}
use vm_to_quadlet.Standalone.PreRender.Prepare.Total.{Derives}
use vm_to_quadlet.Command.Pipeline.{Outside}

-- The code outside the repository answers with no error: KubeVirt's defaults and its renderer,
-- json.Marshal, and Podman's converter.
pub record Answers (X : Outside) : Type 0 where
  pub derives : Derives X.kube_virt
  pub renders :
      (service : KubeVirt.TemplateService X.kube_virt) (vmi : Vmi)
      → Succeeds (KubeVirt.render_launch_manifest X.kube_virt service vmi)
  pub marshals : (vmi : Vmi) → Succeeds (X.marshal_vmi vmi)
  pub converts : Converts X.podman
