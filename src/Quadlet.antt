-- ===== src/Quadlet.antt =====
-- pkg/quadlet/types.go: the units of Quadlet and the options of the conversion.
pub mod Render
pub mod Converter
use vm_to_quadlet.Base.{String, Bool, false, List}
use vm_to_quadlet.Base.Int.{ℤ}

pub record UnitFile : Type 0 where
  pub name : String
  pub content : String

pub record UnitSection : Type 0 where
  pub description : String
  pub after : List String
  pub requires : List String

pub record ContainerSection : Type 0 where
  pub image : String
  pub entrypoint : String
  pub exec : String
  pub environments : List String
  pub environment_files : List String
  pub volumes : List String
  pub mounts : List String
  pub add_devices : List String
  pub add_capabilities : List String
  pub drop_capabilities : List String
  pub no_new_privileges : Bool
  pub user : String
  pub publish_ports : List String
  pub memory_limit : String
  pub network : String
  pub volumes_from : List String
  pub sysctls : List String
  pub stop_timeout : ℤ

pub record ServiceSection : Type 0 where
  pub type : String
  pub remain_after_exit : Bool
  pub restart : String

pub record InstallSection : Type 0 where
  pub wanted_by : List String

pub record ContainerUnit : Type 0 where
  pub unit : UnitSection
  pub container : ContainerSection
  pub service : ServiceSection
  pub install : InstallSection

pub record VolumeSection : Type 0 where
  pub driver : String
  pub image : String
  pub volume_name : String

pub record VolumeUnit : Type 0 where
  pub unit : UnitSection
  pub volume : VolumeSection

pub record Options : Type 0 where
  pub network : String
  pub passt_workarounds : Bool

unfoldable pub default_options : Options
default_options = record { network = ""; passt_workarounds = false }
