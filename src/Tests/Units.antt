-- ===== src/Tests/Units.antt =====
-- Steps 6 and 7 for the units of one pod, and the renderer.
use vm_to_quadlet.Base.{
  String, ◌<>◌, ◌≡◌, refl, true, false, some, List, [], ◌∷◌, ◌++◌, map, Yields, ◌==◌, find_first,
}
use vm_to_quadlet.Base.Int.{pos, show}
use vm_to_quadlet.Base.Text.{split_at}
use vm_to_quadlet.Quadlet.{UnitFile, ContainerUnit, VolumeUnit}
use vm_to_quadlet.Quadlet.Render.{write_directives, render_container_unit, render_volume_unit}
use vm_to_quadlet.Quadlet.Render.Parse.{parse_unit}
use vm_to_quadlet.Quadlet.Render.Reading.{is_line, is_word, is_key, placed}
use vm_to_quadlet.Quadlet.Render.Lines.{
  lines_of, unit_rows, container_rows, service_rows, install_rows, volume_rows,
}
use vm_to_quadlet.Quadlet.Render.RoundTrip.{
  parse_unit-render_container_unit, parse_unit-render_volume_unit,
}
use vm_to_quadlet.Quadlet.Render.Insertion.{last_section}
use vm_to_quadlet.Quadlet.Converter.{pre_convert_fixups, convert}
use vm_to_quadlet.Quadlet.Converter.Laws.{network_of, own_network, Asked, convert-Asked}
use vm_to_quadlet.Standalone.PostConvert.{
  insert_before_section, proxy_ports, inject_pod_publish_ports, apply_post_convert_fixups,
}
use vm_to_quadlet.Standalone.PostConvert.Laws.{
  Reads, insert_before_section-found, insert_before_section-missing,
}
use vm_to_quadlet.Standalone.PostConvert.Files.{
  asked_directives, inject_pod_publish_ports-section, apply_post_convert_fixups-names,
}
use vm_to_quadlet.Tests.Fixtures.{rendered_pod, options, conv_options}
use vm_to_quadlet.Tests.Outside.{pod_text, compute_text, podman}

abbrev guest_unit : ContainerUnit
guest_unit = record {
  unit = record { description = "the guest"; after = "web-init.service" ∷ []; requires = [] };
  container = record {
    image = "launcher";
    entrypoint = "";
    exec = "run --flag=1";
    environments = "A=1" ∷ [];
    environment_files = [];
    volumes = [];
    mounts = [];
    add_devices = "/dev/kvm" ∷ [];
    add_capabilities = [];
    drop_capabilities = [];
    no_new_privileges = true;
    user = "107";
    publish_ports = [];
    memory_limit = "";
    network = "";
    volumes_from = "web" ∷ [];
    sysctls = [];
    stop_timeout = pos 120;
  };
  service = record { type = ""; remain_after_exit = false; restart = "" };
  install = record { wanted_by = "default.target" ∷ [] };
}

abbrev state_unit : VolumeUnit
state_unit = record {
  unit = record { description = ""; after = []; requires = [] };
  volume = record { driver = ""; image = ""; volume_name = "web-vm-state" };
}

parse_unit-render_container_unit_example :
    parse_unit (render_container_unit guest_unit)
    ≡ placed "Unit" ((lines_of (unit_rows guest_unit.unit)))
      ++ (placed "Container" ((lines_of (container_rows guest_unit.container)))
          ++ (placed "Service" ((lines_of (service_rows guest_unit.service)))
              ++ placed "Install" ((lines_of (install_rows guest_unit.install)))))
unfolding is_line show
parse_unit-render_container_unit_example =
    parse_unit-render_container_unit guest_unit (refl, (refl, tt))
      (refl, (refl, (refl, (refl, (refl, (refl, (refl, (refl, tt)))))))) tt (refl, tt)

parse_unit-render_volume_unit_example :
    parse_unit (render_volume_unit state_unit)
    ≡ placed "Unit" ((lines_of (unit_rows state_unit.unit)))
      ++ placed "Volume" ((lines_of (volume_rows state_unit.volume)))
unfolding is_line
parse_unit-render_volume_unit_example = parse_unit-render_volume_unit state_unit tt (refl, tt)

abbrev units : List UnitFile
units =
    record { name = "web.pod"; content = pod_text }
    ∷ record { name = "web-compute.container"; content = compute_text }
    ∷ []

convert-Asked_example :
    (fs : List UnitFile) × ((record { name = ".pod"; content = pod_text }
        ∷ record { name = "-compute.container"; content = compute_text }
        ∷ record { name = ".network"; content = "[Network]\n" }
        ∷ [])
      ≡ fs ++ own_network podman rendered_pod conv_options)
    × Asked podman rendered_pod.name
        (pre_convert_fixups rendered_pod)
        (network_of podman rendered_pod conv_options)
        fs
    × ((pre_convert_fixups rendered_pod).spec.termination_grace_period_seconds ≡ some 120)
unfolding convert
convert-Asked_example =
    convert-Asked podman rendered_pod conv_options
      (record { name = ".pod"; content = pod_text }
        ∷ record { name = "-compute.container"; content = compute_text }
        ∷ record { name = ".network"; content = "[Network]\n" }
        ∷ [])
      refl

-- The text in front of the section [Install], and the rest.
abbrev before_install : String
before_install = "[Pod]\nPodName=virt-launcher-web\n\n[Service]\nTimeoutStopSec=120\n"

abbrev from_install : String
from_install = "\n[Install]\nWantedBy=default.target\n"

insert_before_section-found_example :
    Reads pod_text
      (insert_before_section pod_text "Install"
        (write_directives (("PublishPort", "5900:5900") ∷ [])))
      before_install
      (("PublishPort", "5900:5900") ∷ [])
unfolding split_at is_line is_word is_key
insert_before_section-found_example =
    insert_before_section-found pod_text "Install" before_install from_install
      (("PublishPort", "5900:5900") ∷ []) refl (refl, tt) (refl, tt)

insert_before_section-missing_example :
    parse_unit
      (insert_before_section compute_text "Install" (write_directives (("WantedBy", "x") ∷ [])))
    ≡ parse_unit compute_text ++ placed (last_section compute_text) (("WantedBy", "x") ∷ [])
unfolding split_at is_line is_word is_key
insert_before_section-missing_example =
    insert_before_section-missing compute_text "Install" (("WantedBy", "x") ∷ []) refl (refl, tt)
      (refl, tt)

inject_pod_publish_ports-section_example :
    (content : String) × (find_first
        (λ (f : UnitFile). f.name == ("web" <> ".pod"))
        (inject_pod_publish_ports units "web" options)
      ≡ some (record { name = "web.pod"; content = content }))
    × Reads pod_text content before_install (asked_directives options)
unfolding split_at proxy_ports
inject_pod_publish_ports-section_example =
    inject_pod_publish_ports-section units "web" options
      (record { name = "web.pod"; content = pod_text }) before_install from_install refl refl refl

-- The section that the ports of the pod land in is not that of the pod.
ports_section : last_section before_install ≡ "Service"
unfolding last_section
ports_section = refl

apply_post_convert_fixups-names_example :
    Yields
      (λ out.
        (map (λ (f : UnitFile). f.name) out ≡ map (λ (f : UnitFile). f.name) units)
        × (find_first (λ (f : UnitFile). f.name == "web.volume") out
            ≡ find_first (λ (f : UnitFile). f.name == "web.volume") units))
      (apply_post_convert_fixups units "web" options conv_options)
apply_post_convert_fixups-names_example =
    apply_post_convert_fixups-names units "web" options conv_options "web.volume" refl refl
