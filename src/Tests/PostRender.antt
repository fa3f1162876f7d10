-- ===== src/Tests/PostRender.antt =====
-- Step 5 for one pod.
use vm_to_quadlet.Base.{
  true, some, String, ◌≡◌, false, refl, inl, inr, ◌||◌, none, List, [], ◌∷◌, ◌++◌, Any, any, ok,
  Yields, if◌then◌else◌, ◌==◌, concat_map,
}
use vm_to_quadlet.Base.Text.{contains, to_lower}
use vm_to_quadlet.Base.Int.{pos}
use vm_to_quadlet.Base.Sort.Sorted.{IsSorted}
use vm_to_quadlet.Base.Sort.{mem, NoRepeats}
use vm_to_quadlet.Kube.Pod.{mount, Container}
use vm_to_quadlet.Kube.Machine.{VirtualMachine, Vmi}
use vm_to_quadlet.Standalone.{PreparedVm}
use vm_to_quadlet.Standalone.PostRender.Compute.{add_mounts, add_volumes, prepend_inits}
use vm_to_quadlet.Standalone.PostRender.Devices.{resolve_vfio_groups, detect_gpu_vendor, gpus_from}
use vm_to_quadlet.Standalone.PostRender.Devices.Gpus.{is_control, gpus_from-control}
use vm_to_quadlet.Standalone.PostRender.Devices.Laws.{is_in_group, resolve_vfio_groups-mem}
use vm_to_quadlet.Standalone.PostRender.DataVolumes.{metas_from, inject_data_volume_init_containers}
use vm_to_quadlet.Standalone.PostRender.DataVolumes.Laws.{
  brought, inject_data_volume_init_containers-brought,
}
use vm_to_quadlet.Standalone.PostRender.Cleanup.{
  strip_extended_resources, strip_container, clean_selector, add_persistence_warnings,
}
use vm_to_quadlet.Standalone.PostRender.Cleanup.Laws.{
  persistence_note, lookup_in, strip_extended_resources-lookup, clean_selector-lookup,
  add_persistence_warnings-lookup,
}
use vm_to_quadlet.Standalone.PostRender.Cleanup.Standalone.{IsStandalone}
use vm_to_quadlet.Standalone.PostRender.Cleanup.Whole.{adapt_for_standalone-IsStandalone}
use vm_to_quadlet.Standalone.PostRender.DirInit.{volume_commands, inject_virt_handler_dir_init}
use vm_to_quadlet.Standalone.PostRender.Patcher.{inject_passt_binary_patcher}
use vm_to_quadlet.Standalone.PostRender.Proxies.{
  private_volume_name, private_path, proxy, add_proxy,
}
use vm_to_quadlet.Standalone.PostRender.Proxies.Laws.{MountsPrivate, add_proxy-shares_socket}
use vm_to_quadlet.Standalone.PostRender.State.{readiness_probe, inject_persistent_state_volumes}
use vm_to_quadlet.Standalone.PostRender.State.Laws.{state_init, state-dir_init}
use vm_to_quadlet.Standalone.PostRender.Adapt.{add_env, standalone_env, adapt_for_standalone}
use vm_to_quadlet.Standalone.PostRender.Mounts.{MountsResolve}
use vm_to_quadlet.Standalone.PostRender.Mounts.Whole.{adapt-MountsResolve}
use vm_to_quadlet.Standalone.PostRender.Guest.{HasCompute, host_mounts}
use vm_to_quadlet.Standalone.PostRender.Guest.Late.{late_mounts}
use vm_to_quadlet.Standalone.PostRender.Guest.Whole.{with_probe, adapt_for_standalone-compute}
use vm_to_quadlet.Tests.Fixtures.{
  web_spec, root_volume, web_vm, web_vmi, guest, rendered_pod, options, labels, host,
}

abbrev prepared : PreparedVm (Unit {0})
prepared = record { vm = web_vm; vmi = web_vmi; pvc_cache = tt }

rendered_pod-MountsResolve : MountsResolve rendered_pod
rendered_pod-MountsResolve = record {
  containers = ((inl refl, (inr (inl refl), tt)), tt);
  inits = (tt, tt);
}

adapt-MountsResolve_example :
    Yields MountsResolve
      (adapt_for_standalone (λ vmi. ok "{}") labels host rendered_pod prepared options).value
adapt-MountsResolve_example =
    adapt-MountsResolve (λ vmi. ok "{}") labels host rendered_pod prepared options "{}"
      rendered_pod-MountsResolve refl

adapt_for_standalone-compute_example :
    Yields
      (λ out. HasCompute out (
        add_env (standalone_env "{}") (
          with_probe
            (readiness_probe web_vmi)
            (add_mounts (late_mounts options (host_mounts host web_vmi)) (strip_container guest)))))
      (adapt_for_standalone (λ vmi. ok "{}") labels host rendered_pod prepared options).value
adapt_for_standalone-compute_example =
    adapt_for_standalone-compute (λ vmi. ok "{}") labels host rendered_pod prepared options guest
      "{}" refl refl

adapt_for_standalone-IsStandalone_example :
    Yields IsStandalone
      (adapt_for_standalone (λ vmi. ok "{}") labels host rendered_pod prepared options).value
adapt_for_standalone-IsStandalone_example =
    adapt_for_standalone-IsStandalone (λ vmi. ok "{}") labels host rendered_pod prepared options
      "{}" refl

inject_data_volume_init_containers-brought_example :
    inject_data_volume_init_containers web_vmi web_vm "launcher" rendered_pod
    ≡ prepend_inits
        (concat_map
          (λ v. (brought "launcher" (metas_from web_vm.data_volume_templates []) rendered_pod v).1)
          web_vmi.spec.volumes)
        (add_volumes
          (concat_map
            (λ v.
              (brought "launcher" (metas_from web_vm.data_volume_templates []) rendered_pod v).0)
            web_vmi.spec.volumes)
          rendered_pod)
inject_data_volume_init_containers-brought_example =
    inject_data_volume_init_containers-brought web_vmi web_vm "launcher" rendered_pod

state-dir_init_example :
    (inits : List Container) × ((inject_persistent_state_volumes web_vmi (
        inject_passt_binary_patcher options
          (inject_virt_handler_dir_init "launcher" rendered_pod))).spec.init_containers
      ≡ state_init "launcher" rendered_pod ∷ inits)
unfolding volume_commands
state-dir_init_example = state-dir_init web_vmi options rendered_pod refl

add_proxy-shares_socket_example :
    Any (MountsPrivate (private_volume_name rendered_pod)) rendered_pod.spec.containers
    × ((add_proxy "vnc-proxy" "virt-vnc" rendered_pod (pos 5900) "socat").spec.containers
        ≡ rendered_pod.spec.containers
          ++ proxy "vnc-proxy" "virt-vnc" (private_volume_name rendered_pod) (pos 5900) "socat"
            ∷ [])
    × ((proxy "vnc-proxy" "virt-vnc"
          (private_volume_name rendered_pod)
          (pos 5900)
          "socat").volume_mounts
        ≡ mount (private_volume_name rendered_pod) private_path ∷ [])
unfolding private_volume_name
add_proxy-shares_socket_example =
    add_proxy-shares_socket "vnc-proxy" "virt-vnc" rendered_pod (pos 5900) "socat" refl

resolve_vfio_groups-mem_example :
    Yields
      (λ groups.
        ((g : String)
          → mem g groups ≡ any (is_in_group host g) ("0000:01:00.0" ∷ "bind" ∷ "0000:01:00.1" ∷ []))
        × NoRepeats groups
        × IsSorted groups)
      (resolve_vfio_groups host)
resolve_vfio_groups-mem_example =
    resolve_vfio_groups-mem host ("0000:01:00.0" ∷ "bind" ∷ "0000:01:00.1" ∷ []) refl

strip_extended_resources-lookup_example :
    lookup_in "memory" (strip_extended_resources guest.resources.limits)
    ≡ (if contains "memory" "/" then none else lookup_in "memory" guest.resources.limits)
strip_extended_resources-lookup_example =
    strip_extended_resources-lookup "memory" guest.resources.limits

clean_selector-lookup_example :
    lookup_in "cpumanager" (clean_selector labels rendered_pod.spec.node_selector) ≡ (
      if labels.cpu_manager == "cpumanager" || labels.deprecated_cpu_manager == "cpumanager"
      then none
      else lookup_in "cpumanager" rendered_pod.spec.node_selector)
clean_selector-lookup_example =
    clean_selector-lookup labels "cpumanager" rendered_pod.spec.node_selector

-- A claim beside a host disk.
abbrev stored_vm : VirtualMachine
stored_vm = record web_vm {
  template = some (record web_spec {
    volumes =
        record root_volume { persistent_volume_claim = some "web-disk"; data_volume = none }
        ∷ record root_volume { host_disk = true; data_volume = none }
        ∷ [];
  });
}

add_persistence_warnings-lookup_example :
    lookup_in "kubevirt-vm-to-pod/persistence-warning"
      (add_persistence_warnings stored_vm rendered_pod).annotations
    ≡ persistence_note true true
unfolding add_persistence_warnings
add_persistence_warnings-lookup_example =
    add_persistence_warnings-lookup stored_vm rendered_pod "kubevirt-vm-to-pod/persistence-warning"

gpus_from-control_example :
    any is_control (gpus_from 0 ("amd.com/navi" ∷ "nvidia.com/tu104" ∷ [])) ≡ false
unfolding detect_gpu_vendor contains to_lower
gpus_from-control_example = gpus_from-control ("amd.com/navi" ∷ "nvidia.com/tu104" ∷ [])

-- A GPU of each vendor, and a host device.
abbrev gpu_vmi : Vmi
gpu_vmi = record web_vmi {
  spec = record web_spec {
    gpus = some ("nvidia.com/tu104" ∷ "amd.com/navi" ∷ "intel.com/arc" ∷ "other" ∷ []);
  };
}
