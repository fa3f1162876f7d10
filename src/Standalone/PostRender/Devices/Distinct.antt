-- ===== src/Standalone/PostRender/Devices/Distinct.antt =====
-- The names of the volumes of the GPUs' nodes.
use vm_to_quadlet.Base.{
  ℕ, ◌+◌, ◌≤◌, String, ◌<>◌, ◌≡◌, refl, ap, ◌∙◌, true, false, some, List, [], ◌∷◌, arith, eqb, All,
  All-mono,
}
use vm_to_quadlet.Base.Decimal.{decimal}
use vm_to_quadlet.Base.Sort.{mem, NoRepeats}
use vm_to_quadlet.Standalone.PostRender.Devices.{
  GpuVendor, nvidia, amd, intel, unknown, detect_gpu_vendor, gpu_devices, gpus_from, nvidia_control,
}
use vm_to_quadlet.Standalone.PostRender.Devices.Gpus.{first_code, is_digit, nvidia-ne}
use vm_to_quadlet.Standalone.PostRender.Devices.Names.{
  code_at, begin_apart, nvidia_node, card_node, render_node, Apart, names_of, names_of-append,
  mem-append, append-NoRepeats, mem-gpus_from, node-Apart, gpu_devices-NoRepeats, gpu_devices-Apart,
}

-- The loop from an index that is not 0.
later-NoRepeats : (j : ℕ) (gpus : List String) → 1 ≤ j → NoRepeats (names_of (gpus_from j gpus))
unfolding gpus_from
later-NoRepeats j [] h = tt
later-NoRepeats j (g ∷ gpus) h =
    let v = detect_gpu_vendor g in
    rw (names_of-append (gpu_devices j v) (gpus_from (j + 1) gpus)) (
      append-NoRepeats (names_of (gpu_devices j v)) (names_of (gpus_from (j + 1) gpus))
        (gpu_devices-NoRepeats j v h) (later-NoRepeats (j + 1) gpus (omega arith))
        (All-mono _ (λ s a. mem-gpus_from s (j + 1) gpus (omega arith) a)
          (gpu_devices-Apart j v h)))

-- A name whose first character is neither that of the GPU nodes' names.
foreign :
    (q y : String) (d : ℕ)
    → code_at 0 q ≡ some d
    → eqb 110 d ≡ false
    → eqb 100 d ≡ false
    → eqb d d ≡ true
    → Apart (q <> y) 0
unfolding code_at
foreign q y d h n' d' same nvidia_node k _ = begin_apart 0 "nvidia" q _ y 110 d refl h n' same
foreign q y d h n' d' same card_node k _ = begin_apart 0 "dri-card" q _ y 100 d refl h d' same
foreign q y d h n' d' same render_node k _ = begin_apart 0 "dri-render" q _ y 100 d refl h d' same

control-Apart : (rest : String) → is_digit (first_code rest) ≡ false → Apart ("nvidia" <> rest) 1
unfolding code_at
control-Apart rest h nvidia_node k _ = nvidia-ne k rest h
control-Apart rest h card_node k _ =
    begin_apart 0 "dri-card" "nvidia" _ rest 100 110 refl refl refl refl
control-Apart rest h render_node k _ =
    begin_apart 0 "dri-render" "nvidia" _ rest 100 110 refl refl refl refl

first-NoRepeats : (v : GpuVendor) → NoRepeats (names_of (gpu_devices 0 v))
unfolding gpu_devices nvidia_control decimal
first-NoRepeats nvidia = (refl, (refl, (refl, (refl, (refl, tt)))))
first-NoRepeats amd = (refl, (refl, tt))
first-NoRepeats intel = (refl, (refl, tt))
first-NoRepeats unknown = (refl, tt)

first-Apart : (v : GpuVendor) → All (λ s. Apart s 1) (names_of (gpu_devices 0 v))
unfolding gpu_devices nvidia_control first_code
first-Apart nvidia = (
  node-Apart nvidia_node 0,
  (
    control-Apart "ctl" refl,
    (
      control-Apart "-uvm" refl,
      (control-Apart "-uvm-tools" refl, (control-Apart "-modeset" refl, tt)),
    ),
  ),
)
first-Apart amd = (node-Apart card_node 0, (node-Apart render_node 0, tt))
first-Apart intel = (node-Apart card_node 0, (node-Apart render_node 0, tt))
first-Apart unknown = (node-Apart card_node 0, tt)

mem-first :
    (v : GpuVendor) (q y : String) (d : ℕ)
    → code_at 0 q ≡ some d
    → eqb 110 d ≡ false
    → eqb 100 d ≡ false
    → eqb d d ≡ true
    → mem (q <> y) (names_of (gpu_devices 0 v)) ≡ false
unfolding gpu_devices nvidia_control code_at
mem-first nvidia q y d h n c same =
    rw
      (
        begin_apart 0 "nvidia" q "0" y 110 d refl h n same,
        begin_apart 0 "nvidia" q "ctl" y 110 d refl h n same,
        begin_apart 0 "nvidia" q "-uvm" y 110 d refl h n same,
        begin_apart 0 "nvidia" q "-uvm-tools" y 110 d refl h n same,
        begin_apart 0 "nvidia" q "-modeset" y 110 d refl h n same,
      )
      refl
mem-first amd q y d h n c same =
    rw
      (
        begin_apart 0 "dri-card" q "0" y 100 d refl h c same,
        begin_apart 0 "dri-render" q "0" y 100 d refl h c same,
      )
      refl
mem-first intel q y d h n c same =
    rw
      (
        begin_apart 0 "dri-card" q "0" y 100 d refl h c same,
        begin_apart 0 "dri-render" q "0" y 100 d refl h c same,
      )
      refl
mem-first unknown q y d h n c same = rw (begin_apart 0 "dri-card" q "0" y 100 d refl h c same) refl

pub gpus_from-NoRepeats : (gpus : List String) → NoRepeats (names_of (gpus_from 0 gpus))
unfolding gpus_from
gpus_from-NoRepeats [] = tt
gpus_from-NoRepeats (g ∷ gpus) =
    let v = detect_gpu_vendor g in
    rw (names_of-append (gpu_devices 0 v) (gpus_from 1 gpus)) (
      append-NoRepeats (names_of (gpu_devices 0 v)) (names_of (gpus_from 1 gpus))
        (first-NoRepeats v) (later-NoRepeats 1 gpus (omega arith))
        (All-mono _ (λ s a. mem-gpus_from s 1 gpus (omega arith) a) (first-Apart v)))

-- A name whose first character is neither "n" nor "d" is not that of a GPU's volume.
pub mem-gpus_zero :
    (gpus : List String) (q y : String) (d : ℕ)
    → code_at 0 q ≡ some d
    → eqb 110 d ≡ false
    → eqb 100 d ≡ false
    → eqb d d ≡ true
    → mem (q <> y) (names_of (gpus_from 0 gpus)) ≡ false
unfolding gpus_from
mem-gpus_zero [] q y d h n c same = refl
mem-gpus_zero (g ∷ gpus) q y d h n c same =
    let v = detect_gpu_vendor g in
    let apart = foreign q y d h n c same in
    ap (mem (q <> y)) (names_of-append (gpu_devices 0 v) (gpus_from 1 gpus))
    ∙ mem-append (q <> y) (names_of (gpu_devices 0 v)) (names_of (gpus_from 1 gpus))
    ∙ rw
        (
          mem-first v q y d h n c same,
          mem-gpus_from (q <> y) 1 gpus (omega arith) (λ m k _. apart m k (omega arith)),
        )
        refl
