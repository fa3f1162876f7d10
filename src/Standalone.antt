-- ===== src/Standalone.antt =====
-- pkg/standalone/standalone.go: what the steps of the pipeline are told and hand on.
pub mod PreRender
pub mod PostRender
pub mod PostConvert
use vm_to_quadlet.Base.{String, Bool}
use vm_to_quadlet.Base.Int.{ℤ}
use vm_to_quadlet.Kube.Machine.{VirtualMachine, Vmi}

pub record Options : Type 0 where
  pub launcher_image : String
  pub add_vnc_proxy : Bool
  pub vnc_port : ℤ
  pub vnc_image : String
  pub add_serial_proxy : Bool
  pub serial_port : ℤ
  pub serial_image : String
  pub passt_workarounds : Bool

-- The result of step 3; `Cache` is the type of the claim cache.
pub record PreparedVm (Cache : Type 0) : Type 0 where
  pub vm : VirtualMachine
  pub vmi : Vmi
  pub pvc_cache : Cache
