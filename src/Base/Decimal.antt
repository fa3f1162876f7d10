-- ===== src/Base/Decimal.antt =====
-- The verb %d: decimal numbers, and the laws that tell two of them apart.
use Prim.Native.Nat.{ℕ, zero, suc, ◌+◌, ◌*◌, ◌-◌, ◌/◌, ◌%◌, ◌<◌}
use Prim.Native.Char.{Char, code}
use Prim.Native.String.{String, [], ◌∷◌}
use mathlib.Core.Path.{◌≡◌, refl, sym, ap, ◌∙◌}
use native.Mathlib.Omega.{arith}
use mathlib.Core.Logic.{inl, inr}
use vm_to_quadlet.Base.Tests.{ltb, ltb→lt, Bool-cases, if◌then◌else◌}

unfoldable pub digit : ℕ → Char
digit zero = "0"
digit (suc zero) = "1"
digit (suc (suc zero)) = "2"
digit (suc (suc (suc zero))) = "3"
digit (suc (suc (suc (suc zero)))) = "4"
digit (suc (suc (suc (suc (suc zero))))) = "5"
digit (suc (suc (suc (suc (suc (suc zero)))))) = "6"
digit (suc (suc (suc (suc (suc (suc (suc zero))))))) = "7"
digit (suc (suc (suc (suc (suc (suc (suc (suc zero)))))))) = "8"
digit _ = "9"

code-digit : (d : ℕ) → d < 10 → code (digit d) ≡ 48 + d
unfolding digit
code-digit zero h = refl
code-digit (suc zero) h = refl
code-digit (suc (suc zero)) h = refl
code-digit (suc (suc (suc zero))) h = refl
code-digit (suc (suc (suc (suc zero)))) h = refl
code-digit (suc (suc (suc (suc (suc zero))))) h = refl
code-digit (suc (suc (suc (suc (suc (suc zero)))))) h = refl
code-digit (suc (suc (suc (suc (suc (suc (suc zero))))))) h = refl
code-digit (suc (suc (suc (suc (suc (suc (suc (suc zero)))))))) h = refl
code-digit (suc (suc (suc (suc (suc (suc (suc (suc (suc zero))))))))) h = refl
code-digit (suc (suc (suc (suc (suc (suc (suc (suc (suc (suc n)))))))))) h = absurd (omega arith)

-- The last digit is written first, in front of those already there.
unfoldable pub decimal_from : ℕ → ℕ → String → String
unfolding digit
decimal_from zero n acc = acc
decimal_from (suc fuel) n acc =
    let rest = decimal_from fuel (n / 10) (digit (n % 10) ∷ acc) in
    if ltb n 10 then digit n ∷ acc else rest

unfoldable pub decimal : ℕ → String
unfolding decimal_from
decimal n = decimal_from (suc n) n []

-- The number that a text of digits stands for.
unfoldable pub parse_from : ℕ → String → ℕ
parse_from n [] = n
parse_from n (c ∷ s) = parse_from (n * 10 + (code c - 48)) s

parse_from-digit :
    (n d : ℕ) (s : String) → d < 10 → parse_from n (digit d ∷ s) ≡ parse_from (n * 10 + d) s
unfolding parse_from
parse_from-digit n d s h = rw (code-digit d h) (ap (λ k. parse_from k s) (omega arith))

-- `suc n` digits are fuel enough for `n`.
parse_from-decimal_from :
    (fuel n : ℕ) (acc : String)
    → n < fuel
    → parse_from 0 (decimal_from fuel n acc) ≡ parse_from n acc
unfolding decimal_from
parse_from-decimal_from zero n acc h = elim h [ ]
parse_from-decimal_from (suc fuel) n acc h = elim (Bool-cases (ltb n 10)) [
  | inl small ↦
      rw small
        (parse_from-digit 0 n acc (ltb→lt n 10 small) ∙ ap (λ k. parse_from k acc) (omega arith))
  | inr large ↦ rw large (
      parse_from-decimal_from fuel (n / 10) (digit (n % 10) ∷ acc) (ground arith)
      ∙ (parse_from-digit (n / 10) (n % 10) acc (omega arith)
          ∙ ap (λ k. parse_from k acc) (omega arith)))
]

-- Reading back what was written gives the number.
pub parse-decimal : (n : ℕ) → parse_from 0 (decimal n) ≡ n
unfolding decimal parse_from
parse-decimal n = parse_from-decimal_from (suc n) n [] (omega arith)

pub decimal-injective : (m n : ℕ) → decimal m ≡ decimal n → m ≡ n
decimal-injective m n e = sym (parse-decimal m) ∙ (ap (parse_from 0) e ∙ parse-decimal n)
