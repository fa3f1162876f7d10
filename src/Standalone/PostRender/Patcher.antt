-- ===== src/Standalone/PostRender/Patcher.antt =====
-- `injectPasstBinaryPatcher`.
use vm_to_quadlet.Base.{String, ◌<>◌, true, some, [], ◌∷◌, ◌++◌}
use vm_to_quadlet.Kube.Pod.{mount, no_security, Container, zero_container, zero_source, Volume, Pod}
use vm_to_quadlet.Standalone.{Options}
use vm_to_quadlet.Standalone.PostRender.Compute.{with_spec, add_volumes, mount_in_compute}

patch_script : String
patch_script =
    "set -e\n" <> "SRC=/usr/bin/passt.avx2\n" <> "OUT=/passt-bin/passt.avx2.patched\n"
    <> "cp \"$SRC\" \"$OUT\"\n" <> "chmod +x \"$OUT\"\n" <> "EXPECTED=0f83d2000000\n"
    <> "ACTUAL=$(dd if=\"$SRC\" bs=1 skip=164189 count=6 2>/dev/null | od -A n -t x1 | tr -d ' \\n')\n"
    <> "if [ \"$ACTUAL\" = \"$EXPECTED\" ]; then\n"
    <> "    printf '\\x58\\x00\\x00\\x00' | dd of=\"$OUT\" bs=1 seek=164191 conv=notrunc 2>/dev/null\n"
    <> "    echo 'Patched passt.avx2 OK'\n" <> "else\n"
    <> "    echo \"Warning: passt.avx2 version not recognized (got $ACTUAL); using unpatched binary\" >&2\n"
    <> "fi\n"
    <> "printf '#!/bin/sh\\nexec /passt-bin/passt.avx2.patched \"$@\"\\n' > /passt-bin/passt\n"
    <> "chmod +x /passt-bin/passt\n"

abbrev pub passt_volume : Volume
passt_volume = record { name = "passt-bin"; source = record zero_source { empty_dir = true } }

unfoldable pub patcher : Options → Container
unfolding patch_script
patcher opts = record zero_container {
  name = "passt-binary-patcher";
  image = opts.launcher_image;
  command = "/bin/sh" ∷ "-c" ∷ patch_script ∷ [];
  volume_mounts = mount "passt-bin" "/passt-bin" ∷ [];
  security_context = some (record no_security { run_as_user = some 0 });
}

-- `pod.Spec.InitContainers = append(pod.Spec.InitContainers, container)`
unfoldable pub append_init : Container → Pod → Pod
append_init c pod =
    with_spec pod (record (pod.spec) { init_containers = pod.spec.init_containers ++ c ∷ [] })

unfoldable pub inject_passt_binary_patcher : Options → Pod → Pod
unfolding add_volumes append_init patcher mount_in_compute
inject_passt_binary_patcher opts pod =
    mount_in_compute
      (record { name = "passt-bin"; mount_path = "/passt-bin"; sub_path = ""; read_only = true }
        ∷ [])
      (append_init (patcher opts) (add_volumes (passt_volume ∷ []) pod))
