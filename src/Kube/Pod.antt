-- ===== src/Kube/Pod.antt =====
-- `k8s.io/api/core/v1`: the pod that the pipeline adapts.
use vm_to_quadlet.Base.{ℕ, String, Bool, false, Option, none, List, []}
use vm_to_quadlet.Base.Dict.{Dict}
use vm_to_quadlet.Base.Int.{ℤ}

-- A `resource.Quantity`, as its methods Sign, Value and String show it.
pub data Sign : Type 0 where
  negative zero positive : Sign

pub record Quantity : Type 0 where
  pub sign : Sign
  pub value : ℤ
  pub text : String

-- A nil map is `none`; both a nil and an empty map have no keys.
abbrev pub ResourceList : Type 0
ResourceList = Option (Dict Quantity)

pub record Resources : Type 0 where
  pub limits : ResourceList
  pub requests : ResourceList

pub record EnvVar : Type 0 where
  pub name : String
  pub value : String

pub record VolumeMount : Type 0 where
  pub name : String
  pub mount_path : String
  pub sub_path : String
  pub read_only : Bool

-- `{Name: name, MountPath: path}`
abbrev pub mount : String → String → VolumeMount
mount name path = record { name = name; mount_path = path; sub_path = ""; read_only = false }

-- `exec` is the command of an `ExecAction`.
pub record Probe : Type 0 where
  pub exec : Option (List String)
  pub initial_delay_seconds : ℕ
  pub period_seconds : ℕ
  pub timeout_seconds : ℕ
  pub failure_threshold : ℕ

pub record SecurityContext : Type 0 where
  pub run_as_user : Option ℕ
  pub allow_privilege_escalation : Option Bool
  pub drop_capabilities : List String

abbrev pub no_security : SecurityContext
no_security = record {
  run_as_user = none;
  allow_privilege_escalation = none;
  drop_capabilities = [];
}

pub record Container : Type 0 where
  pub name : String
  pub image : String
  pub command : List String
  pub args : List String
  pub env : List EnvVar
  pub volume_mounts : List VolumeMount
  pub security_context : Option SecurityContext
  pub resources : Resources
  pub restart_policy : Option String
  pub liveness_probe : Option Probe
  pub readiness_probe : Option Probe

-- The zero value of the struct, which composite literals start from.
abbrev pub zero_container : Container
zero_container = record {
  name = "";
  image = "";
  command = [];
  args = [];
  env = [];
  volume_mounts = [];
  security_context = none;
  resources = record { limits = none; requests = none };
  restart_policy = none;
  liveness_probe = none;
  readiness_probe = none;
}

pub record HostPath : Type 0 where
  pub path : String
  pub type : Option String

pub record ImageSource : Type 0 where
  pub reference : String
  pub pull_policy : String

-- `persistent_volume_claim` is the claim's name.
pub record VolumeSource : Type 0 where
  pub host_path : Option HostPath
  pub persistent_volume_claim : Option String
  pub empty_dir : Bool
  pub image : Option ImageSource

abbrev pub zero_source : VolumeSource
zero_source = record {
  host_path = none;
  persistent_volume_claim = none;
  empty_dir = false;
  image = none;
}

pub record Volume : Type 0 where
  pub name : String
  pub source : VolumeSource

pub record Sysctl : Type 0 where
  pub name : String
  pub value : String

-- `sysctls` are those of the pod's security context, which is `none` where that is nil.
pub record PodSpec : Type 0 where
  pub volumes : List Volume
  pub containers : List Container
  pub init_containers : List Container
  pub sysctls : Option (List Sysctl)
  pub readiness_gates : List String
  pub node_selector : Option (Dict String)
  pub restart_policy : String
  pub termination_grace_period_seconds : Option ℕ

pub record Pod : Type 0 where
  pub kind : String
  pub api_version : String
  pub name : String
  pub generate_name : String
  pub annotations : Option (Dict String)
  pub owner_references : List String
  pub spec : PodSpec
