-- ===== src/Tests/Command.antt =====
-- The whole program for one machine.
use vm_to_quadlet.Base.FilePath.{join_path}
use vm_to_quadlet.Base.{String, ◌≡◌, refl, ◌⊎◌, some, List, [], ◌∷◌, All, arith, eq_iff}
use vm_to_quadlet.Base.Dict.{lookup}
use vm_to_quadlet.Kube.Machine.{VirtualMachine}
use vm_to_quadlet.Quadlet.{UnitFile}
use vm_to_quadlet.Command.Output.{write_files}
use vm_to_quadlet.Command.Output.Laws.{Reading, write_files-read}
use vm_to_quadlet.Command.Pipeline.{convert_vm}
use vm_to_quadlet.Command.Pipeline.Laws.{Steps, convert_vm-Steps}
use vm_to_quadlet.Command.Run.{default_flags, root_command}
use vm_to_quadlet.Command.Run.Laws.{Converted, root_command-outcome}
use vm_to_quadlet.Tests.Fixtures.{web_vm, options, conv_options}
use vm_to_quadlet.Tests.Outside.{pod_text, compute_text, outside, source, disk, tar, disk-Reading}

abbrev pod_file : UnitFile
pod_file = record { name = "web.pod"; content = pod_text }

abbrev compute_file : UnitFile
compute_file = record { name = "web-compute.container"; content = compute_text }

write_files-read_example :
    All
      (λ (f : UnitFile).
        Reading.read disk-Reading
          (("out/web-compute.container", compute_text) ∷ ("out/web.pod", pod_text) ∷ [])
          (join_path "./out/" f.name)
        ≡ some f.content)
      (pod_file ∷ compute_file ∷ [])
    × (◌≡◌ {A = List String} [] [])
unfolding write_files join_path
write_files-read_example =
    write_files-read disk disk-Reading tar (pod_file ∷ compute_file ∷ []) "./out/" []
      (("out/web-compute.container", compute_text) ∷ ("out/web.pod", pod_text) ∷ []) [] [] refl
      (
        record { no_slash = refl; nonempty = refl; no_dot = refl; no_dots = refl },
        (record { no_slash = refl; nonempty = refl; no_dot = refl; no_dots = refl }, tt),
      )
      ((ground (arith, eq_iff "web-compute.container" "web.pod"), tt), (tt, tt)) refl

-- The units of the machine: the ports of the proxies stand in front of [Install], and the path of the
-- patched passt in front of [Service].
abbrev pub web_files : List UnitFile
web_files =
    record {
      name = "virt-launcher-web.pod";
      content =
          "[Pod]\nPodName=virt-launcher-web\n\n[Service]\nTimeoutStopSec=120\n\nPublishPort=5900:5900\nPublishPort=2222:2222\n\n[Install]\nWantedBy=default.target\n";
    }
    ∷ record {
      name = "virt-launcher-web-compute.container";
      content =
          "[Container]\nImage=launcher\n\nEnvironment=PATH=/passt-bin:/usr/local/sbin:/usr/local/bin:/usr/sbin:/usr/bin:/sbin:/bin\n\n[Service]\nRestart=on-failure\n";
    }
    ∷ record { name = "virt-launcher-web.network"; content = "[Network]\n" }
    ∷ []

convert_vm-Steps_example : Steps outside (some web_vm) options conv_options web_files
unfolding convert_vm lookup
convert_vm-Steps_example =
    convert_vm-Steps outside (some web_vm) options conv_options web_files refl

root_command-outcome_example :
    ((e : String) × (root_command outside source disk tar default_flags [] ([], [])
        ≡ (([], []), some e)))
    ⊎ ((vm : VirtualMachine) × (files : List UnitFile) × Converted outside source disk tar
          default_flags [] vm files
        × (root_command outside source disk tar default_flags [] ([], [])
            ≡ write_files disk tar files "" ([], [])))
root_command-outcome_example =
    root_command-outcome outside source disk tar default_flags [] ([], [])
