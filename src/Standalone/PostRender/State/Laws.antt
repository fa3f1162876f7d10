-- ===== src/Standalone/PostRender/State/Laws.antt =====
-- The directories that are made before the guest starts.
use vm_to_quadlet.Base.{
  String, ◌<>◌, ◌≡◌, refl, Bool, true, false, some, List, [], ◌∷◌, ◌++◌, if◌then◌else◌, is_empty,
  concat_map,
}
use vm_to_quadlet.Base.Text.{join}
use vm_to_quadlet.Kube.Pod.{mount, no_security, zero_container, Container, Pod}
use vm_to_quadlet.Kube.Machine.{Vmi}
use vm_to_quadlet.Standalone.{Options}
use vm_to_quadlet.Standalone.PostRender.Compute.{add_volumes, mount_in_compute, prepend_inits}
use vm_to_quadlet.Standalone.PostRender.DirInit.{
  volume_commands, volume_mounts, dir_init, inject_virt_handler_dir_init,
}
use vm_to_quadlet.Standalone.PostRender.Patcher.{append_init, patcher, inject_passt_binary_patcher}
use vm_to_quadlet.Standalone.PostRender.State.{
  state_commands, extend_command, extend_dir_init, on_dir_init, inject_persistent_state_volumes,
}

-- The script of the container that makes the directories.
pub dirs_script : Pod → String
unfolding volume_commands join
dirs_script pod =
    join " && " (concat_map volume_commands pod.spec.volumes)
    <> " && "
    <> join " && " state_commands

-- The init container with all directories: those of the emptyDirs, then those of the state.
pub state_init : String → Pod → Container
unfolding dirs_script volume_mounts
state_init image pod = record zero_container {
  name = "virt-handler-dir-init";
  image = image;
  command = "/bin/bash" ∷ "-c" ∷ dirs_script pod ∷ [];
  volume_mounts =
      concat_map volume_mounts pod.spec.volumes ++ mount "vm-state" "/vm-state-init" ∷ [];
  security_context = some (record no_security { run_as_user = some 107 });
}

-- When a volume of the pod needs directories, the steps for the directories, the patched passt
-- (if it is asked for) and the persistent state leave as first init container one that makes all
-- of them in one script: those of the volumes, and then those of the state, whose volume it
-- mounts.
pub state-dir_init :
    (vmi : Vmi) (opts : Options) (pod : Pod)
    → is_empty (concat_map volume_commands pod.spec.volumes) ≡ false
    → (inits : List Container) × ((inject_persistent_state_volumes vmi (
          if opts.passt_workarounds
          then inject_passt_binary_patcher opts
              (inject_virt_handler_dir_init opts.launcher_image pod)
          else inject_virt_handler_dir_init opts.launcher_image pod)).spec.init_containers
        ≡ state_init opts.launcher_image pod ∷ inits)
unfolding inject_persistent_state_volumes inject_virt_handler_dir_init dir_init on_dir_init
    extend_dir_init extend_command state_init prepend_inits add_volumes mount_in_compute dirs_script
    inject_passt_binary_patcher append_init
state-dir_init vmi opts pod h = with_patcher opts.passt_workarounds
  where
    with_patcher :
        (on : Bool)
        → (inits : List Container) × ((inject_persistent_state_volumes vmi (
              if on
              then inject_passt_binary_patcher opts
                  (inject_virt_handler_dir_init opts.launcher_image pod)
              else inject_virt_handler_dir_init opts.launcher_image pod)).spec.init_containers
            ≡ state_init opts.launcher_image pod ∷ inits)
    with_patcher true =
        (pod.spec.init_containers ++ patcher opts ∷ [], rw (inject_virt_handler_dir_init, h) refl)
    with_patcher false = (pod.spec.init_containers, rw (inject_virt_handler_dir_init, h) refl)
