-- ===== src/Command/Input.antt =====
-- `readVM` and the hints of its errors.
pub mod Laws
use vm_to_quadlet.Base.{
  String, ◌<>◌, Bool, ◌&&◌, ◌||◌, not, Option, none, some, Result, ok, err, ◌==◌, if◌then◌else◌,
}
use vm_to_quadlet.Kube.Machine.{VirtualMachine}

-- A `*json.UnmarshalTypeError`, and whether the kind of its type is `reflect.Uint32`.
pub record TypeError : Type 0 where
  pub is_uint32 : Bool
  pub field : String

-- An error of the YAML reader, as `Error`, `errors.Is` and `errors.As` show it.
pub record YamlError : Type 0 where
  pub message : String
  pub is_suffix : Bool
  pub is_numeric : Bool
  pub is_format_wrong : Bool
  pub type_error : Option TypeError

unfoldable pub quantity_error_hint : YamlError → String
quantity_error_hint e =
    if e.is_suffix || e.is_numeric || e.is_format_wrong
    then ". Hint: check memory/CPU/storage values for a valid unit suffix (e.g. domain.memory.guest, domain.resources.requests/limits) — valid examples: 512Mi, 2Gi, 1000m"
    else ""

unfoldable pub uint32_overflow_hint : YamlError → String
uint32_overflow_hint e = elim e.type_error [
  | none ↦ ""
  | some t ↦
      if t.is_uint32 then ". Hint: " <> t.field <> " must be a whole number of 0 or more" else ""
]

unfoldable pub unmarshal_error_hint : YamlError → String
unfolding quantity_error_hint uint32_overflow_hint
unmarshal_error_hint e =
    if quantity_error_hint e == "" then uint32_overflow_hint e else quantity_error_hint e

-- The reader of YAML, which is not part of the repository.
pub data YamlResult : Type 0 where
  parsed : VirtualMachine → YamlResult
  bad : YamlError → YamlResult

-- The files and the standard input of the process, and the reader of YAML.
pub record Source : Type 0 where
  pub read_file : String → Result String
  pub stdin : Result String
  pub unmarshal : String → YamlResult

read_input : Source → String → Result String
read_input s vm_file =
    if not (vm_file == "") && not (vm_file == "-")
    then elim (s.read_file vm_file) [
      | ok text ↦ ok text
      | err e ↦ err ("failed to read VM file: " <> e)
    ]
    else elim s.stdin [ ok text ↦ ok text | err e ↦ err ("failed to read VM from stdin: " <> e) ]

unfoldable pub read_vm : Source → String → Result VirtualMachine
unfolding read_input unmarshal_error_hint
read_vm s vm_file = elim (read_input s vm_file) [
  | err e ↦ err e
  | ok text ↦ elim (s.unmarshal text) [
    | parsed vm ↦ ok vm
    | bad e ↦ err ("failed to unmarshal VM: " <> e.message <> unmarshal_error_hint e)
  ]
]
