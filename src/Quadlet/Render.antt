-- ===== src/Quadlet/Render.antt =====
-- pkg/quadlet/render.go. A section is the list of its directives, a pair of key and value for each
-- `Fprintf` that writes one; the functions return the text that the source writes to the buffer.
pub mod Lines
pub mod Parse
pub mod Reading
pub mod RoundTrip
pub mod Keys
pub mod Insertion
use vm_to_quadlet.Base.{
  String, ◌<>◌, Bool, true, false, ◌&&◌, not, List, [], ◌∷◌, ◌++◌, map, ◌==◌, if◌then◌else◌,
  is_empty,
}
use vm_to_quadlet.Base.Int.{show, is_positive}
use vm_to_quadlet.Quadlet.{
  UnitSection, ContainerSection, ServiceSection, InstallSection, ContainerUnit, VolumeSection,
  VolumeUnit,
}

abbrev pub Directive : Type 0
Directive = String × String

-- `if value != "" { fmt.Fprintf(b, key + "=%s\n", value) }`
pub entry? : String → String → List Directive
entry? key value = if value == "" then [] else (key, value) ∷ []

-- `for _, value := range values { fmt.Fprintf(b, key + "=%s\n", value) }`
pub entries : String → List String → List Directive
entries key = map (λ value. (key, value))

pub flag : Bool → String → String → List Directive
flag on key value = if on then (key, value) ∷ [] else []

unfoldable pub unit_directives : UnitSection → List Directive
unfolding entry? entries
unit_directives u =
    entry? "Description" u.description ++ (entries "After" u.after ++ entries "Requires" u.requires)

unfoldable pub container_directives : ContainerSection → List Directive
unfolding entry? entries flag show
container_directives c =
    entry? "Image" c.image
    ++ (entry? "Entrypoint" c.entrypoint
        ++ (entry? "Exec" c.exec
            ++ (entries "EnvironmentFile" c.environment_files
                ++ (entries "Environment" c.environments
                    ++ (entries "Volume" c.volumes
                        ++ (entries "Mount" c.mounts
                            ++ (entries "AddDevice" c.add_devices
                                ++ (entries "AddCapability" c.add_capabilities
                                    ++ (entries "DropCapability" c.drop_capabilities
                                        ++ (flag c.no_new_privileges "NoNewPrivileges" "true"
                                            ++ (entry? "User" c.user
                                                ++ (entries "PublishPort" c.publish_ports
                                                    ++ (entry? "MemoryLimit" c.memory_limit
                                                        ++ (entry? "Network" c.network
                                                            ++ (entries "PodmanArgs" (
                                                            map (λ vf. "--volumes-from " <> vf)
                                                            c.volumes_from)
                                                            ++ (flag (is_positive c.stop_timeout)
                                                            "StopTimeout" (show c.stop_timeout)
                                                            ++ entries "Sysctl"
                                                            c.sysctls))))))))))))))))

unfoldable pub service_directives : ServiceSection → List Directive
unfolding entry? flag
service_directives s =
    entry? "Type" s.type
    ++ (flag s.remain_after_exit "RemainAfterExit" "yes" ++ entry? "Restart" s.restart)

unfoldable pub install_directives : InstallSection → List Directive
unfolding entries
install_directives i = entries "WantedBy" i.wanted_by

unfoldable pub volume_directives : VolumeSection → List Directive
unfolding entry?
volume_directives v =
    entry? "Driver" v.driver ++ (entry? "Image" v.image ++ entry? "VolumeName" v.volume_name)

unfoldable pub write_directives : List Directive → String
write_directives [] = ""
write_directives ((key, value) ∷ ds) = (key <> "=" <> value) <> "\n" <> write_directives ds

pub write_header : String → String
write_header name = ("[" <> name <> "]") <> "\n"

-- A section of which nothing is left out: its header, its lines and an empty line.
pub write_section : String → List Directive → String
unfolding write_directives write_header
write_section name ds = write_header name <> write_directives ds <> "" <> "\n"

write_unit_section : UnitSection → String
unfolding write_section unit_directives
write_unit_section u =
    if u.description == "" && is_empty u.after && is_empty u.requires
    then ""
    else write_section "Unit" (unit_directives u)

write_container_section : ContainerSection → String
unfolding write_section container_directives
write_container_section c = write_section "Container" (container_directives c)

write_service_section : ServiceSection → String
unfolding write_section service_directives
write_service_section s =
    if s.type == "" && not s.remain_after_exit && s.restart == ""
    then ""
    else write_section "Service" (service_directives s)

-- The last section ends with no empty line.
write_install_section : InstallSection → String
unfolding write_directives write_header install_directives
write_install_section i =
    if is_empty i.wanted_by
    then ""
    else write_header "Install" <> write_directives (install_directives i)

unfoldable pub render_container_unit : ContainerUnit → String
unfolding write_unit_section write_container_section write_service_section write_install_section
render_container_unit u =
    write_unit_section u.unit
    <> write_container_section u.container
    <> write_service_section u.service
    <> write_install_section u.install

unfoldable pub render_volume_unit : VolumeUnit → String
unfolding write_unit_section write_section volume_directives
render_volume_unit u =
    write_unit_section u.unit <> write_section "Volume" (volume_directives u.volume)
