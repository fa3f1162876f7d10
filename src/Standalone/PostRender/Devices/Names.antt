-- ===== src/Standalone/PostRender/Devices/Names.antt =====
-- Which names of device nodes can be told apart.
use Prim.Native.Char.{code}
use text.Mathlib.TextLemmas.{cons-append, append_cancel_left}
use vm_to_quadlet.Base.{
  ℕ, zero, suc, ◌+◌, ◌≤◌, String, ◌<>◌, ◌≡◌, ◌≢◌, refl, sym, ap, ◌∙◌, inl, inr, Bool, true, false,
  ◌||◌, Option, none, some, List, [], ◌∷◌, ◌++◌, map, arith, ◌==◌, eq_iff, eqb, any-append,
  Bool-cases, All,
}
use vm_to_quadlet.Base.Decimal.{decimal, decimal-injective}
use vm_to_quadlet.Base.Sort.{mem, NoRepeats}
use vm_to_quadlet.Standalone.PostRender.Devices.{
  Device, GpuVendor, nvidia, amd, intel, unknown, detect_gpu_vendor, gpu_devices, gpus_from,
}

-- The code of a character.
unfoldable pub code_at : ℕ → String → Option ℕ
code_at n String.[] = none
code_at zero (String.◌∷◌ c s) = some (code c)
code_at (suc n) (String.◌∷◌ c s) = code_at n s

code_at-append : (n : ℕ) (p x : String) (c : ℕ) → code_at n p ≡ some c → code_at n (p <> x) ≡ some c
unfolding code_at
code_at-append n String.[] x c h = cc
code_at-append zero (String.◌∷◌ d p) x c h = rw (cons-append d p x) h
code_at-append (suc n) (String.◌∷◌ d p) x c h = rw (cons-append d p x) (code_at-append n p x c h)

is_code : ℕ → Option ℕ → Bool
is_code d none = false
is_code d (some c) = eqb c d

true-ne-false : true ≡ false → ⊥
true-ne-false e = cc

-- Two beginnings that differ at some place.
pub begin_apart :
    (n : ℕ) (p q x y : String) (c d : ℕ)
    → code_at n p ≡ some c
    → code_at n q ≡ some d
    → eqb c d ≡ false
    → eqb d d ≡ true
    → (p <> x == q <> y) ≡ false
unfolding is_code
begin_apart n p q x y c d h k differ same = elim (Bool-cases (p <> x == q <> y)) [
  | inl e ↦
      let codes : some c ≡ some d =
        sym (code_at-append n p x c h)
        ∙ ap (code_at n) ((eq_iff (p <> x) (q <> y)).0 e)
        ∙ code_at-append n q y d k in
      absurd (true-ne-false (sym same ∙ (sym (ap (is_code d) codes) ∙ differ)))
  | inr other ↦ other
]

-- A text that ends where the beginning of another goes on.
pub begin_longer :
    (n : ℕ) (p x s : String) (c : ℕ)
    → code_at n p ≡ some c
    → code_at n s ≡ none
    → (p <> x == s) ≡ false
begin_longer n p x s c h k = elim (Bool-cases (p <> x == s)) [
  | inl e ↦
      let codes : some c ≡ none =
        sym (code_at-append n p x c h) ∙ ap (code_at n) ((eq_iff (p <> x) s).0 e) ∙ k in
      cc
  | inr other ↦ other
]

-- The three kinds of nodes with a number.
pub data Node : Type 0 where
  nvidia_node card_node render_node : Node

abbrev pub label : Node → String
label nvidia_node = "nvidia"
label card_node = "dri-card"
label render_node = "dri-render"

abbrev pub node : Node → ℕ → String
node n i = label n <> decimal i

same_label : (p : String) (i k : ℕ) → i ≢ k → (p <> decimal i == p <> decimal k) ≡ false
same_label p i k h = elim (Bool-cases (p <> decimal i == p <> decimal k)) [
  | inl e ↦
      absurd (
        h (decimal-injective i k (append_cancel_left p (decimal i) (decimal k) ((eq_iff _ _).0 e))))
  | inr other ↦ other
]

kinds_apart : (m n : Node) (i k : ℕ) → (m ≡ n → i ≢ k) → (node m i == node n k) ≡ false
unfolding code_at
kinds_apart nvidia_node nvidia_node i k h = same_label "nvidia" i k (h refl)
kinds_apart card_node card_node i k h = same_label "dri-card" i k (h refl)
kinds_apart render_node render_node i k h = same_label "dri-render" i k (h refl)
kinds_apart nvidia_node card_node i k h =
    begin_apart 0 "nvidia" "dri-card" _ _ 110 100 refl refl refl refl
kinds_apart nvidia_node render_node i k h =
    begin_apart 0 "nvidia" "dri-render" _ _ 110 100 refl refl refl refl
kinds_apart card_node nvidia_node i k h =
    begin_apart 0 "dri-card" "nvidia" _ _ 100 110 refl refl refl refl
kinds_apart render_node nvidia_node i k h =
    begin_apart 0 "dri-render" "nvidia" _ _ 100 110 refl refl refl refl
kinds_apart card_node render_node i k h =
    begin_apart 4 "dri-card" "dri-render" _ _ 99 114 refl refl refl refl
kinds_apart render_node card_node i k h =
    begin_apart 4 "dri-render" "dri-card" _ _ 114 99 refl refl refl refl

abbrev pub names_of : List Device → List String
names_of = map (λ dev. dev.0)

pub names_of-append : (xs ys : List Device) → names_of (xs ++ ys) ≡ names_of xs ++ names_of ys
names_of-append [] ys = refl
names_of-append (x ∷ xs) ys = ap (λ ns. x.0 ∷ ns) (names_of-append xs ys)

pub mem-append : (s : String) (xs ys : List String) → mem s (xs ++ ys) ≡ (mem s xs || mem s ys)
mem-append s xs ys = any-append (λ t. t == s) xs ys

pub append-NoRepeats :
    (xs ys : List String)
    → NoRepeats xs
    → NoRepeats ys
    → All (λ x. mem x ys ≡ false) xs
    → NoRepeats (xs ++ ys)
append-NoRepeats [] ys h k apart = k
append-NoRepeats (x ∷ xs) ys (n, h) k (a, apart) =
    (rw (mem-append x xs ys, n) a, append-NoRepeats xs ys h k apart)

-- The text is not the name of a node with a number from `j` on.
abbrev pub Apart : String → ℕ → Type 0
Apart s j = (n : Node) (k : ℕ) → j ≤ k → (node n k == s) ≡ false

no_control : (j : ℕ) → 1 ≤ j → eqb j 0 ≡ false
no_control j h = ground arith

mem-gpu_devices :
    (s : String) (j : ℕ) (v : GpuVendor)
    → 1 ≤ j
    → Apart s j
    → mem s (names_of (gpu_devices j v)) ≡ false
unfolding gpu_devices
mem-gpu_devices s j nvidia h a = rw (no_control j h, a nvidia_node j (omega arith)) refl
mem-gpu_devices s j amd h a = rw (a card_node j (omega arith), a render_node j (omega arith)) refl
mem-gpu_devices s j intel h a = rw (a card_node j (omega arith), a render_node j (omega arith)) refl
mem-gpu_devices s j unknown h a = rw (a card_node j (omega arith)) refl

pub mem-gpus_from :
    (s : String) (j : ℕ) (gpus : List String)
    → 1 ≤ j
    → Apart s j
    → mem s (names_of (gpus_from j gpus)) ≡ false
unfolding gpus_from
mem-gpus_from s j [] h a = refl
mem-gpus_from s j (g ∷ gpus) h a =
    let devs = gpu_devices j (detect_gpu_vendor g) in
    let rest = gpus_from (j + 1) gpus in
    ap (mem s) (names_of-append devs rest)
    ∙ mem-append s (names_of devs) (names_of rest)
    ∙ rw
        (
          mem-gpu_devices s j (detect_gpu_vendor g) h a,
          mem-gpus_from s (j + 1) gpus (omega (arith, h))
              (λ n k later. a n k (omega (arith, later))),
        )
        refl

pub node-Apart : (m : Node) (j : ℕ) → Apart (node m j) (j + 1)
node-Apart m j n k h = kinds_apart n m k j (λ _ e. absurd (omega (arith, h, e)))

pub gpu_devices-NoRepeats : (j : ℕ) (v : GpuVendor) → 1 ≤ j → NoRepeats (names_of (gpu_devices j v))
unfolding gpu_devices
gpu_devices-NoRepeats j nvidia h = rw (no_control j h) (refl, tt)
gpu_devices-NoRepeats j amd h =
    (rw (kinds_apart render_node card_node j j (λ e. cc)) refl, (refl, tt))
gpu_devices-NoRepeats j intel h =
    (rw (kinds_apart render_node card_node j j (λ e. cc)) refl, (refl, tt))
gpu_devices-NoRepeats j unknown h = (refl, tt)

-- A GPU's nodes are not those of a later one.
pub gpu_devices-Apart :
    (j : ℕ) (v : GpuVendor) → 1 ≤ j → All (λ s. Apart s (j + 1)) (names_of (gpu_devices j v))
unfolding gpu_devices
gpu_devices-Apart j nvidia h = rw (no_control j h) (node-Apart nvidia_node j, tt)
gpu_devices-Apart j amd h = (node-Apart card_node j, (node-Apart render_node j, tt))
gpu_devices-Apart j intel h = (node-Apart card_node j, (node-Apart render_node j, tt))
gpu_devices-Apart j unknown h = (node-Apart card_node j, tt)
