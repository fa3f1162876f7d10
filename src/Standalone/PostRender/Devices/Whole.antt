-- ===== src/Standalone/PostRender/Devices/Whole.antt =====
-- What mountHostDevices adds to the volumes of the pod.
use vm_to_quadlet.Base.{String, List}
use vm_to_quadlet.Kube.Pod.{Pod}
use vm_to_quadlet.Kube.Machine.{Vmi}
use vm_to_quadlet.Standalone.PostRender.Devices.{HostFiles, gpus_from, elements, host_devices}
use vm_to_quadlet.Standalone.PostRender.Devices.Names.{names_of}

module _ (host : HostFiles) (vmi : Vmi) where
  abbrev gpu_names : List String
  gpu_names = names_of (gpus_from 0 (elements vmi.spec.gpus))

  abbrev host_names : List String
  host_names = names_of (host_devices host vmi.spec.host_devices)
