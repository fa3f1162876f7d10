-- ===== src/Base/Sort/Sorted.antt =====
-- The order of the list that sort.Strings leaves.
use Prim.Native.Nat.{Ordering, compare as compare_ℕ}
use Prim.Native.Nat.compare as compare_ℕ
use Prim.Native.String.compare
use Prim.Native.Char.{code}
use Prim.Native.String.{String, compare, then as compare_then}
use mathlib.Core.Path.{◌≡◌, refl, sym, ap, ◌∙◌}
use mathlib.Core.Bool.{true, false}
use mathlib.Core.List.{List, [], ◌∷◌}
use mathlib.Core.Logic.{inl, inr}
use Prim.Native.Nat.{ℕ, zero, suc}
use text.Mathlib.Text.{is_le}
use vm_to_quadlet.Base.Tests.{Bool-cases}
use vm_to_quadlet.Base.Sort.{insert, sort}

flip : Ordering → Ordering
flip Ordering.lt = Ordering.gt
flip Ordering.eq = Ordering.eq
flip Ordering.gt = Ordering.lt

compare_ℕ-flip : (m n : ℕ) → compare_ℕ n m ≡ flip (compare_ℕ m n)
unfolding flip
compare_ℕ-flip zero zero = refl
compare_ℕ-flip zero (suc n) = compare_ℕ.suc-zero n ∙ sym (ap flip (compare_ℕ.zero-suc n))
compare_ℕ-flip (suc m) zero = compare_ℕ.zero-suc m ∙ sym (ap flip (compare_ℕ.suc-zero m))
compare_ℕ-flip (suc m) (suc n) =
    compare_ℕ.suc-suc n m ∙ compare_ℕ-flip m n ∙ sym (ap flip (compare_ℕ.suc-suc m n))

then-flip : (a b : Ordering) → compare_then (flip a) (flip b) ≡ flip (compare_then a b)
unfolding flip
then-flip Ordering.lt b = refl
then-flip Ordering.eq b = refl
then-flip Ordering.gt b = refl

compare-flip : (s t : String) → compare t s ≡ flip (compare s t)
unfolding flip
compare-flip String.[] String.[] = refl
compare-flip String.[] (String.◌∷◌ d t) =
    compare.cons-nil d t ∙ sym (ap flip (compare.nil-cons d t))
compare-flip (String.◌∷◌ c s) String.[] =
    compare.nil-cons c s ∙ sym (ap flip (compare.cons-nil c s))
compare-flip (String.◌∷◌ c s) (String.◌∷◌ d t) =
    compare.cons-cons d c t s
    ∙ ap (λ o. compare_then o (compare t s)) (compare_ℕ-flip (code c) (code d))
    ∙ ap (λ o. compare_then (flip (compare_ℕ (code c) (code d))) o) (compare-flip s t)
    ∙ then-flip (compare_ℕ (code c) (code d)) (compare s t)
    ∙ sym (ap flip (compare.cons-cons c d s t))

is_le-flip : (o : Ordering) → is_le o ≡ false → is_le (flip o) ≡ true
unfolding flip
is_le-flip Ordering.lt h = cc
is_le-flip Ordering.eq h = cc
is_le-flip Ordering.gt h = refl

is_le-total : (s t : String) → is_le (compare s t) ≡ false → is_le (compare t s) ≡ true
is_le-total s t h = ap is_le (compare-flip s t) ∙ is_le-flip (compare s t) h

-- The first element, if there is one, does not come before the text.
abbrev IsBefore : String → List String → Type 0
IsBefore k [] = Unit
IsBefore k (s ∷ ss) = is_le (compare k s) ≡ true

-- Every element is followed by none that comes before it.
abbrev pub IsSorted : List String → Type 0
IsSorted [] = Unit
IsSorted (k ∷ ks) = IsBefore k ks × IsSorted ks

insert-IsBefore :
    (j k : String) (ks : List String)
    → is_le (compare j k) ≡ true
    → IsBefore j ks
    → IsBefore j (insert k ks)
unfolding insert
insert-IsBefore j k [] h b = h
insert-IsBefore j k (s ∷ ks) h b = elim (Bool-cases (is_le (compare k s))) [
  | inl first ↦ rw first h
  | inr later ↦ rw later b
]

insert-IsSorted : (k : String) (ks : List String) → IsSorted ks → IsSorted (insert k ks)
unfolding insert
insert-IsSorted k [] h = (tt, tt)
insert-IsSorted k (s ∷ ks) (b, h) = elim (Bool-cases (is_le (compare k s))) [
  | inl first ↦ rw first (first, (b, h))
  | inr later ↦ rw later (insert-IsBefore s k ks (is_le-total k s later) b, insert-IsSorted k ks h)
]

pub sort-IsSorted : (ks : List String) → IsSorted (sort ks)
unfolding sort
sort-IsSorted [] = tt
sort-IsSorted (k ∷ ks) = insert-IsSorted k (sort ks) (sort-IsSorted ks)
