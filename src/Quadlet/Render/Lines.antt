-- ===== src/Quadlet/Render/Lines.antt =====
-- What each section of a unit of render.go says, as a table from keys to values.
use mathlib.Core.List.{append-nil}
use vm_to_quadlet.Base.{
  String, ◌<>◌, ◌≡◌, refl, sym, ◌∙◌, Bool, true, false, not, List, [], ◌∷◌, ◌++◌, map, arith, ◌==◌,
  keep, concat_map,
}
use vm_to_quadlet.Base.Int.{show, is_positive}
use vm_to_quadlet.Quadlet.{
  UnitSection, ContainerSection, ServiceSection, InstallSection, VolumeSection,
}
use vm_to_quadlet.Quadlet.Render.{
  Directive, entry?, entries, flag, unit_directives, container_directives, service_directives,
  install_directives, volume_directives,
}

-- A key with its values, in order; no line is written for a key with none.
abbrev pub Row : Type 0
Row = String × List String

-- The lines of a table.
abbrev pub lines_of : List Row → List Directive
lines_of = concat_map (λ row. map (λ value. (row.0, value)) row.1)

-- A value that is left out when it is empty.
abbrev pub unless_empty : String → List String
unless_empty value = keep (λ v. not (v == "")) (value ∷ [])

abbrev pub only_if : Bool → String → List String
only_if true value = value ∷ []
only_if false value = []

abbrev pub unit_rows : UnitSection → List Row
unit_rows u =
    ("Description", unless_empty u.description) ∷ ("After", u.after) ∷ ("Requires", u.requires) ∷ []

abbrev pub container_rows : ContainerSection → List Row
container_rows c =
    ("Image", unless_empty c.image)
    ∷ ("Entrypoint", unless_empty c.entrypoint)
    ∷ ("Exec", unless_empty c.exec)
    ∷ ("EnvironmentFile", c.environment_files)
    ∷ ("Environment", c.environments)
    ∷ ("Volume", c.volumes)
    ∷ ("Mount", c.mounts)
    ∷ ("AddDevice", c.add_devices)
    ∷ ("AddCapability", c.add_capabilities)
    ∷ ("DropCapability", c.drop_capabilities)
    ∷ ("NoNewPrivileges", only_if c.no_new_privileges "true")
    ∷ ("User", unless_empty c.user)
    ∷ ("PublishPort", c.publish_ports)
    ∷ ("MemoryLimit", unless_empty c.memory_limit)
    ∷ ("Network", unless_empty c.network)
    ∷ ("PodmanArgs", map (λ vf. "--volumes-from " <> vf) c.volumes_from)
    ∷ ("StopTimeout", only_if (is_positive c.stop_timeout) (show c.stop_timeout))
    ∷ ("Sysctl", c.sysctls)
    ∷ []

abbrev pub service_rows : ServiceSection → List Row
service_rows s =
    ("Type", unless_empty s.type)
    ∷ ("RemainAfterExit", only_if s.remain_after_exit "yes")
    ∷ ("Restart", unless_empty s.restart)
    ∷ []

abbrev pub install_rows : InstallSection → List Row
install_rows i = ("WantedBy", i.wanted_by) ∷ []

abbrev pub volume_rows : VolumeSection → List Row
volume_rows v =
    ("Driver", unless_empty v.driver)
    ∷ ("Image", unless_empty v.image)
    ∷ ("VolumeName", unless_empty v.volume_name)
    ∷ []

entry?-eq-row : (key value : String) → entry? key value ≡ map (λ v. (key, v)) (unless_empty value)
unfolding entry?
entry?-eq-row key value = ground arith

flag-eq-row :
    (on : Bool) (key value : String) → flag on key value ≡ map (λ v. (key, v)) (only_if on value)
unfolding flag
flag-eq-row true key value = refl
flag-eq-row false key value = refl

entry?-eq-last :
    (key value : String) → entry? key value ≡ map (λ v. (key, v)) (unless_empty value) ++ []
entry?-eq-last key value = entry?-eq-row key value ∙ sym (append-nil _)

entries-eq-last :
    (key : String) (values : List String) → entries key values ≡ map (λ v. (key, v)) values ++ []
unfolding entries
entries-eq-last key values = sym (append-nil _)

pub unit_directives-eq-lines : (u : UnitSection) → unit_directives u ≡ lines_of (unit_rows u)
unfolding unit_directives entries
unit_directives-eq-lines u =
    rw
      (
        entry?-eq-row "Description" u.description,
        append-nil (map {B = Directive} (λ v. ("Requires", v)) u.requires),
      )
      refl

pub service_directives-eq-lines :
    (s : ServiceSection) → service_directives s ≡ lines_of (service_rows s)
unfolding service_directives
service_directives-eq-lines s =
    rw
      (
        entry?-eq-row "Type" s.type,
        flag-eq-row s.remain_after_exit "RemainAfterExit" "yes",
        entry?-eq-last "Restart" s.restart,
      )
      refl

pub install_directives-eq-lines :
    (i : InstallSection) → install_directives i ≡ lines_of (install_rows i)
unfolding install_directives
install_directives-eq-lines i = entries-eq-last "WantedBy" i.wanted_by

pub volume_directives-eq-lines :
    (v : VolumeSection) → volume_directives v ≡ lines_of (volume_rows v)
unfolding volume_directives
volume_directives-eq-lines v =
    rw
      (
        entry?-eq-row "Driver" v.driver,
        entry?-eq-row "Image" v.image,
        entry?-eq-last "VolumeName" v.volume_name,
      )
      refl

pub container_directives-eq-lines :
    (c : ContainerSection) → container_directives c ≡ lines_of (container_rows c)
unfolding container_directives entries
container_directives-eq-lines c =
    rw
      (
        entry?-eq-row "Image" c.image,
        entry?-eq-row "Entrypoint" c.entrypoint,
        entry?-eq-row "Exec" c.exec,
        flag-eq-row c.no_new_privileges "NoNewPrivileges" "true",
        entry?-eq-row "User" c.user,
        entry?-eq-row "MemoryLimit" c.memory_limit,
        entry?-eq-row "Network" c.network,
        flag-eq-row (is_positive c.stop_timeout) "StopTimeout" (show c.stop_timeout),
        append-nil (map {B = Directive} (λ v. ("Sysctl", v)) c.sysctls),
      )
      refl
