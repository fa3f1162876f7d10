-- ===== src/Standalone/PostRender/Devices/Gpus.antt =====
-- Which GPUs bring NVIDIA's control devices.
use Prim.Native.Char.{code}
use text.Mathlib.TextLemmas.{cons-append, append_cancel_left}
use vm_to_quadlet.Base.{
  ℕ, zero, suc, ◌+◌, ◌/◌, ◌%◌, String, ◌<>◌, ◌≡◌, refl, sym, ap, ◌∙◌, inl, inr, Bool, true, false,
  ◌||◌, List, [], ◌∷◌, arith, ◌==◌, eq_iff, ltb, not, ◌&&◌, any, any-append, Bool-cases,
}
use vm_to_quadlet.Base.Decimal.{digit, decimal_from, decimal}
use vm_to_quadlet.Standalone.PostRender.Devices.{
  Device, GpuVendor, nvidia, amd, intel, unknown, detect_gpu_vendor, gpu_devices, gpus_from,
  nvidia_control,
}

unfoldable pub first_code : String → ℕ
first_code String.[] = 0
first_code (String.◌∷◌ c s) = code c

-- The code of a decimal digit.
abbrev pub is_digit : ℕ → Bool
is_digit c = not (ltb c 48) && ltb c 58

is_digit-digit : (d : ℕ) → is_digit (code (digit d)) ≡ true
unfolding digit
is_digit-digit zero = refl
is_digit-digit (suc zero) = refl
is_digit-digit (suc (suc zero)) = refl
is_digit-digit (suc (suc (suc zero))) = refl
is_digit-digit (suc (suc (suc (suc zero)))) = refl
is_digit-digit (suc (suc (suc (suc (suc zero))))) = refl
is_digit-digit (suc (suc (suc (suc (suc (suc zero)))))) = refl
is_digit-digit (suc (suc (suc (suc (suc (suc (suc zero))))))) = refl
is_digit-digit (suc (suc (suc (suc (suc (suc (suc (suc zero)))))))) = refl
is_digit-digit (suc (suc (suc (suc (suc (suc (suc (suc (suc d))))))))) = refl

is_digit-decimal_from :
    (fuel n : ℕ) (acc : String)
    → is_digit (first_code acc) ≡ true
    → is_digit (first_code (decimal_from fuel n acc)) ≡ true
unfolding decimal_from first_code
is_digit-decimal_from zero n acc h = h
is_digit-decimal_from (suc fuel) n acc h = elim (Bool-cases (ltb n 10)) [
  | inl small ↦ rw (decimal_from, small) (is_digit-digit n)
  | inr large ↦
      rw (decimal_from, large)
        (is_digit-decimal_from fuel (n / 10) (String.◌∷◌ (digit (n % 10)) acc)
          (is_digit-digit (n % 10)))
]

is_digit-decimal : (n : ℕ) → is_digit (first_code (decimal n)) ≡ true
unfolding decimal decimal_from first_code
is_digit-decimal n = elim (Bool-cases (ltb n 10)) [
  | inl small ↦ rw (decimal, decimal_from, small) (is_digit-digit n)
  | inr large ↦
      rw (decimal, decimal_from, large)
        (is_digit-decimal_from n (n / 10) (String.◌∷◌ (digit (n % 10)) "")
          (is_digit-digit (n % 10)))
]

true-ne-false : true ≡ false → ⊥
true-ne-false e = cc

-- A number is not what follows if that does not begin with a digit.
pub nvidia-ne :
    (i : ℕ) (rest : String)
    → is_digit (first_code rest) ≡ false
    → (("nvidia" <> decimal i) == ("nvidia" <> rest)) ≡ false
nvidia-ne i rest h = elim (Bool-cases (("nvidia" <> decimal i) == ("nvidia" <> rest))) [
  | inl same ↦
      let e : decimal i ≡ rest =
        append_cancel_left "nvidia" (decimal i) rest
          ((eq_iff ("nvidia" <> decimal i) ("nvidia" <> rest)).0 same) in
      absurd (true-ne-false (sym (is_digit-decimal i) ∙ ap (λ s. is_digit (first_code s)) e ∙ h))
  | inr differs ↦ differs
]

nvidia-ne-control : (i : ℕ) → (("nvidia" <> decimal i) == "nvidiactl") ≡ false
unfolding first_code
nvidia-ne-control i = nvidia-ne i "ctl" refl

-- A text that begins with the letter d.
dri-ne-control : (s t : String) → s ≡ String.◌∷◌ "d" t → (s == "nvidiactl") ≡ false
unfolding first_code
dri-ne-control s t e = elim (Bool-cases (s == "nvidiactl")) [
  | inl same ↦
      absurd
        (true-ne-false (ap (λ u. ltb (first_code u) 101) (sym e ∙ (eq_iff s "nvidiactl").0 same)))
  | inr differs ↦ differs
]

abbrev pub is_control : Device → Bool
is_control dev = dev.0 == "nvidiactl"

card-ne-control : (i : ℕ) → (("dri-card" <> decimal i) == "nvidiactl") ≡ false
card-ne-control i =
    dri-ne-control ("dri-card" <> decimal i) ("ri-card" <> decimal i)
      (cons-append "d" "ri-card" (decimal i))

render-ne-control : (i : ℕ) → (("dri-render" <> decimal i) == "nvidiactl") ≡ false
render-ne-control i =
    dri-ne-control ("dri-render" <> decimal i) ("ri-render" <> decimal i)
      (cons-append "d" "ri-render" (decimal i))

or_false : (b : Bool) → (b || false) ≡ b
or_false true = refl
or_false false = refl

later_gpu : (i : ℕ) (v : GpuVendor) → any is_control (gpu_devices (i + 1) v) ≡ false
unfolding gpu_devices
later_gpu i nvidia = ground (arith, nvidia-ne-control (i + 1))
later_gpu i amd = ground (arith, card-ne-control (i + 1), render-ne-control (i + 1))
later_gpu i intel = ground (arith, card-ne-control (i + 1), render-ne-control (i + 1))
later_gpu i unknown = ground (arith, card-ne-control (i + 1))

later_gpus : (i : ℕ) (names : List String) → any is_control (gpus_from (i + 1) names) ≡ false
unfolding gpus_from
later_gpus i [] = refl
later_gpus i (n ∷ names) =
    rw (any-append, later_gpu i (detect_gpu_vendor n), later_gpus (i + 1) names) refl

abbrev is_nvidia : GpuVendor → Bool
is_nvidia nvidia = true
is_nvidia _ = false

-- Whether the first GPU of the list is NVIDIA's.
abbrev pub nvidia_first : List String → Bool
nvidia_first [] = false
nvidia_first (n ∷ _) = is_nvidia (detect_gpu_vendor n)

first_gpu : (v : GpuVendor) → any is_control (gpu_devices 0 v) ≡ is_nvidia v
unfolding gpu_devices nvidia_control decimal
first_gpu nvidia = refl
first_gpu amd = refl
first_gpu intel = refl
first_gpu unknown = refl

-- NVIDIA's control device "nvidiactl" is among the devices that the loop over the GPUs mounts
-- exactly when the first GPU of the list is NVIDIA's. An NVIDIA GPU behind one of another vendor
-- gets no control device.
pub gpus_from-control :
    (names : List String) → any is_control (gpus_from 0 names) ≡ nvidia_first names
unfolding gpus_from
gpus_from-control [] = refl
gpus_from-control (n ∷ names) =
    rw (any-append, first_gpu (detect_gpu_vendor n), later_gpus 0 names) (or_false _)
