-- ===== src/Standalone/PostConvert.antt =====
-- pkg/standalone/post_convert.go: step 7, on the text of the generated units.
pub mod Laws
pub mod Files
use vm_to_quadlet.Base.{
  String, ◌<>◌, Bool, Option, none, some, List, [], ◌∷◌, ◌++◌, ◌==◌, if◌then◌else◌, is_empty,
  update_first, Result, ok,
}
use vm_to_quadlet.Base.Int.{ℤ, show}
use vm_to_quadlet.Base.Text.{split_at}
use vm_to_quadlet.Quadlet
use vm_to_quadlet.Quadlet.{UnitFile}
use vm_to_quadlet.Standalone.{Options}

unfoldable pub insert_before_section : String → String → String → String
unfolding split_at
insert_before_section content section extra = elim (split_at content ("\n[" <> section <> "]")) [
  | none ↦ content <> "\n" <> extra
  | some (before, after) ↦ before <> "\n" <> extra <> after
]

-- The first file of a name gets lines in front of a section.
insert_in_file : String → String → String → List UnitFile → List UnitFile
unfolding insert_before_section
insert_in_file name section extra =
    update_first (λ f. f.name == name)
      (λ f. record f { content = insert_before_section f.content section extra })

abbrev pub passt_path_line : String
passt_path_line =
    "Environment=PATH=/passt-bin:/usr/local/sbin:/usr/local/bin:/usr/sbin:/usr/bin:/sbin:/bin\n"

unfoldable pub inject_passt_binary_path : List UnitFile → String → List UnitFile
unfolding insert_in_file
inject_passt_binary_path files vm_name =
    insert_in_file (vm_name <> "-compute.container") "Service" passt_path_line files

-- `fmt.Sprintf("%d:%d", port, port)`
unfoldable pub port_pair : ℤ → String
unfolding show
port_pair port = show port <> ":" <> show port

unfoldable pub proxy_ports : Options → List String
unfolding port_pair
proxy_ports opts =
    (if opts.add_vnc_proxy then port_pair opts.vnc_port ∷ [] else [])
    ++ (if opts.add_serial_proxy then port_pair opts.serial_port ∷ [] else [])

publish_lines : List String → String
publish_lines [] = ""
publish_lines (p ∷ ps) = ("PublishPort=" <> p) <> "\n" <> publish_lines ps

unfoldable pub inject_pod_publish_ports : List UnitFile → String → Options → List UnitFile
unfolding proxy_ports publish_lines insert_in_file
inject_pod_publish_ports files vm_name opts =
    if is_empty (proxy_ports opts)
    then files
    else insert_in_file (vm_name <> ".pod") "Install" (publish_lines (proxy_ports opts)) files

unfoldable pub apply_post_convert_fixups :
    List UnitFile → String → Options → Quadlet.Options → Result (List UnitFile)
unfolding inject_pod_publish_ports inject_passt_binary_path
apply_post_convert_fixups files vm_name standalone_opts conv_opts =
    let published = inject_pod_publish_ports files vm_name standalone_opts in
    ok (
      if conv_opts.passt_workarounds then inject_passt_binary_path published vm_name else published)
