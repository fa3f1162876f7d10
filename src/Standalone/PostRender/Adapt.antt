-- ===== src/Standalone/PostRender/Adapt.antt =====
-- `AdaptForStandalone`: the steps in their order.
use vm_to_quadlet.Base.{
  String, ◌&&◌, not, List, [], ◌∷◌, ◌++◌, ◌==◌, if◌then◌else◌, Result, ok, ◌>>=◌, wrap, Logged,
}
use vm_to_quadlet.Kube.Pod.{Container, EnvVar, Pod}
use vm_to_quadlet.Kube.Machine.{Vmi, VirtualMachine}
use vm_to_quadlet.Standalone.{Options, PreparedVm}
use vm_to_quadlet.Standalone.PostRender.Compute.{on_compute}
use vm_to_quadlet.Standalone.PostRender.Proxies.{inject_vnc_proxy, add_console_proxy_sidecar}
use vm_to_quadlet.Standalone.PostRender.Devices.{HostFiles, mount_host_devices}
use vm_to_quadlet.Standalone.PostRender.DataVolumes.{inject_data_volume_init_containers}
use vm_to_quadlet.Standalone.PostRender.Cleanup.{
  CpuLabels, cleanup_for_standalone, add_persistence_warnings,
}
use vm_to_quadlet.Standalone.PostRender.DirInit.{inject_virt_handler_dir_init}
use vm_to_quadlet.Standalone.PostRender.Patcher.{inject_passt_binary_patcher}
use vm_to_quadlet.Standalone.PostRender.State.{
  inject_persistent_state_volumes, inject_compute_readiness_probe,
}

-- `s[:len(s)-1]` of a text that is not empty and ends in an ASCII character.
unfoldable pub drop_last : String → String
drop_last String.[] = ""
drop_last (String.◌∷◌ c String.[]) = ""
drop_last (String.◌∷◌ c (String.◌∷◌ d s)) = String.◌∷◌ c (drop_last (String.◌∷◌ d s))

-- The type, and the name in place of `generateName`.
unfoldable pub set_identity : Pod → Pod
unfolding drop_last
set_identity pod =
    let typed = record pod { kind = "Pod"; api_version = "v1" } in
    if not (pod.generate_name == "") && pod.name == ""
    then record typed { name = drop_last pod.generate_name; generate_name = "" }
    else typed

unfoldable pub add_proxies : Options → Pod → Pod
unfolding add_console_proxy_sidecar inject_vnc_proxy
add_proxies opts pod =
    let serial =
      if opts.add_serial_proxy
      then add_console_proxy_sidecar pod opts.serial_port opts.serial_image
      else pod in
    if opts.add_vnc_proxy then inject_vnc_proxy serial opts.vnc_port opts.vnc_image else serial

-- The two variables of the compute container.
abbrev pub standalone_env : String → List EnvVar
standalone_env json =
    record { name = "STANDALONE_VMI"; value = json }
    ∷ record {
      name = "VIRSH_DEFAULT_CONNECT_URI";
      value = "qemu+unix:///session?socket=/var/run/libvirt/virtqemud-sock";
    }
    ∷ []

abbrev pub add_env : List EnvVar → Container → Container
add_env vars c = record c { env = c.env ++ vars }

-- All steps but the last, which may fail.
module _ (labels : CpuLabels) (host : HostFiles) (opts : Options) (vm : VirtualMachine)
    (vmi : Vmi) where
  -- Up to the host devices.
  unfoldable pub before_devices : Pod → Pod
  unfolding set_identity add_proxies
  before_devices pod = add_proxies opts (set_identity pod)

  -- From the clean pod on.
  unfoldable pub after_cleanup : Pod → Pod
  unfolding inject_virt_handler_dir_init inject_passt_binary_patcher inject_persistent_state_volumes
      add_persistence_warnings inject_compute_readiness_probe
  after_cleanup pod =
      let dirs = inject_virt_handler_dir_init opts.launcher_image pod in
      let patched =
        if opts.passt_workarounds then inject_passt_binary_patcher opts dirs else dirs in
      inject_compute_readiness_probe vmi
        (add_persistence_warnings vm (inject_persistent_state_volumes vmi patched))

  unfoldable pub adapt_steps : Pod → Logged Pod
  unfolding before_devices mount_host_devices inject_data_volume_init_containers
      cleanup_for_standalone after_cleanup
  adapt_steps pod =
      let devices = mount_host_devices host vmi (before_devices pod) in
      let disks = inject_data_volume_init_containers vmi vm opts.launcher_image devices.value in
      let clean = cleanup_for_standalone labels vmi disks in
      record { stderr = devices.stderr ++ clean.stderr; value = after_cleanup clean.value }

-- `marshal` is `json.Marshal` of an instance.
unfoldable pub adapt_for_standalone :
    {Cache : Type 0} (marshal : Vmi → Result String) (labels : CpuLabels) (host : HostFiles)
    → Pod
    → PreparedVm Cache
    → Options
    → Logged (Result Pod)
unfolding adapt_steps on_compute
adapt_for_standalone marshal labels host pod prepared opts =
    let steps = adapt_steps labels host opts prepared.vm prepared.vmi pod in
    record {
      stderr = steps.stderr;
      value = do
        json ← wrap "failed to marshal VMI: " (marshal prepared.vmi)
        ok (on_compute (add_env (standalone_env json)) steps.value);
    }
