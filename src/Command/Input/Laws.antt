-- ===== src/Command/Input/Laws.antt =====
-- When readVM has a machine, and where it comes from.
use vm_to_quadlet.Base.{
  String, ◌≡◌, refl, sym, ap, ◌∙◌, ◌↔◌, inl, inr, ◌⊎◌, Bool, ◌||◌, Result, ok, ◌==◌, if◌then◌else◌,
  Bool-cases, Result-cases, ok-ne-err, ok-injective,
}
use vm_to_quadlet.Kube.Machine.{VirtualMachine}
use vm_to_quadlet.Command.Input.{YamlError, YamlResult, Source, read_input, read_vm}

-- The standard input is read where no file is named, or the file "-".
abbrev pub wants_stdin : String → Bool
wants_stdin vm_file = vm_file == "" || vm_file == "-"

-- The bytes that are asked for.
abbrev pub input_of : Source → String → Result String
input_of s vm_file = if wants_stdin vm_file then s.stdin else s.read_file vm_file

read_input_iff :
    (s : Source) (vm_file text : String)
    → (read_input s vm_file ≡ ok text) ↔ (input_of s vm_file ≡ ok text)
unfolding read_input
read_input_iff s vm_file text = elim (Bool-cases (vm_file == "")) [
  | inl blank ↦ elim (Result-cases s.stdin) [
    | inl (t, e) ↦ rw (read_input, blank, e) (λ h. h, λ h. h)
    | inr (m, e) ↦ rw (read_input, blank, e) (λ h. cc, λ h. cc)
  ]
  | inr named ↦ elim (Bool-cases (vm_file == "-")) [
    | inl dash ↦ elim (Result-cases s.stdin) [
      | inl (t, e) ↦ rw (read_input, named, dash, e) (λ h. h, λ h. h)
      | inr (m, e) ↦ rw (read_input, named, dash, e) (λ h. cc, λ h. cc)
    ]
    | inr file ↦ elim (Result-cases (s.read_file vm_file)) [
      | inl (t, e) ↦ rw (read_input, named, file, e) (λ h. h, λ h. h)
      | inr (m, e) ↦ rw (read_input, named, file, e) (λ h. cc, λ h. cc)
    ]
  ]
]

parsed-injective : {a b : VirtualMachine} → YamlResult.parsed a ≡ YamlResult.parsed b → a ≡ b
parsed-injective e = cc

YamlResult-cases :
    (r : YamlResult)
    → ((vm : VirtualMachine) × (r ≡ YamlResult.parsed vm))
      ⊎ ((e : YamlError) × (r ≡ YamlResult.bad e))
YamlResult-cases (YamlResult.parsed vm) = inl (vm, refl)
YamlResult-cases (YamlResult.bad e) = inr (e, refl)

read_vm-text :
    (s : Source) (vm_file text : String) (vm : VirtualMachine)
    → read_input s vm_file ≡ ok text
    → (read_vm s vm_file ≡ ok vm) ↔ (s.unmarshal text ≡ YamlResult.parsed vm)
unfolding read_vm
read_vm-text s vm_file text vm h = elim (YamlResult-cases (s.unmarshal text)) [
  | inl (other, e) ↦
      rw (read_vm, h, e)
        (λ k. ap YamlResult.parsed (ok-injective k), λ k. ap ok (parsed-injective k))
  | inr (bad, e) ↦ rw (read_vm, h, e) (λ k. cc, λ k. cc)
]

-- ReadVM has a machine exactly when the text that is asked for can be read and is parsed to that
-- machine. The text is that of the standard input where no file is named or the file "-", and that of
-- the file otherwise.
pub read_vm_iff :
    (s : Source) (vm_file : String) (vm : VirtualMachine)
    → (read_vm s vm_file ≡ ok vm) ↔ (
        (text : String) × (input_of s vm_file ≡ ok text)
        × (s.unmarshal text ≡ YamlResult.parsed vm))
unfolding read_vm
read_vm_iff s vm_file vm = elim (Result-cases (read_input s vm_file)) [
  | inl (text, e) ↦ (
    λ h. (text, (read_input_iff s vm_file text).0 e, (read_vm-text s vm_file text vm e).0 h),
    λ (other, k, p). (read_vm-text s vm_file other vm ((read_input_iff s vm_file other).1 k)).1 p,
  )
  | inr (message, e) ↦ (
    λ h. absurd (ok-ne-err (sym (rw (read_vm, e) at h))),
    λ (text, k, p). absurd (ok-ne-err (sym ((read_input_iff s vm_file text).1 k) ∙ e)),
  )
]
