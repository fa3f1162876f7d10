-- ===== src/Base/Sort.antt =====
-- `sort.Strings`, and the keys of a map used as a set.
pub mod Sorted
use Prim.Native.String.{String, compare}
use mathlib.Core.Path.{◌≡◌, refl, sym, ap, ◌∙◌}
use mathlib.Core.Bool.{Bool, false, ◌||◌}
use mathlib.Core.List.{List, [], ◌∷◌}
use native.Mathlib.Omega.{arith}
use text.Mathlib.Text.{◌==◌, is_le}
use text.Mathlib.TextEquality.{eq_iff}
use mathlib.Core.Logic.{inl, inr}
use vm_to_quadlet.Base.Tests.{if◌then◌else◌, Bool-cases}
use vm_to_quadlet.Base.Lists.{any}

abbrev pub mem : String → List String → Bool
mem k = any (λ s. s == k)

insert : String → List String → List String
insert k [] = k ∷ []
insert k (s ∷ rest) =
    let later = insert k rest in if is_le (compare k s) then k ∷ s ∷ rest else s ∷ later

unfoldable pub sort : List String → List String
unfolding insert
sort [] = []
sort (k ∷ ks) = insert k (sort ks)

-- The keys of `seen[k] = true` for every `k`, each once.
unfoldable pub distinct : List String → List String
distinct [] = []
distinct (k ∷ ks) = let rest = distinct ks in if mem k rest then rest else k ∷ rest

mem-insert : (j k : String) (ks : List String) → mem j (insert k ks) ≡ (k == j || mem j ks)
unfolding insert
mem-insert j k [] = refl
mem-insert j k (s ∷ ks) = ground (arith, mem-insert j k ks)

-- Sorting keeps the members.
pub mem-sort : (j : String) (ks : List String) → mem j (sort ks) ≡ mem j ks
unfolding sort
mem-sort j [] = refl
mem-sort j (k ∷ ks) = ground (arith, mem-insert j k (sort ks), mem-sort j ks)

-- No text stands twice in the list.
abbrev pub NoRepeats : List String → Type 0
NoRepeats [] = Unit
NoRepeats (k ∷ ks) = (mem k ks ≡ false) × NoRepeats ks

insert-NoRepeats :
    (k : String) (ks : List String) → mem k ks ≡ false → NoRepeats ks → NoRepeats (insert k ks)
unfolding insert
insert-NoRepeats k [] new h = (refl, tt)
insert-NoRepeats k (s ∷ ks) new (n, h) = elim (Bool-cases (is_le (compare k s))) [
  | inl first ↦ rw first (new, (n, h))
  | inr later ↦ rw later (
    ground (arith, mem-insert s k ks, new, n, eq_iff s k, eq_iff k s),
    insert-NoRepeats k ks (ground (arith, new)) h,
  )
]

pub sort-NoRepeats : (ks : List String) → NoRepeats ks → NoRepeats (sort ks)
unfolding sort
sort-NoRepeats [] h = tt
sort-NoRepeats (k ∷ ks) (n, h) =
    insert-NoRepeats k (sort ks) (mem-sort k ks ∙ n) (sort-NoRepeats ks h)

pub mem-distinct : (j : String) (ks : List String) → mem j (distinct ks) ≡ mem j ks
unfolding distinct
mem-distinct j [] = refl
mem-distinct j (k ∷ ks) = elim (Bool-cases (mem k (distinct ks))) [
  | inl seen ↦ elim (Bool-cases (k == j)) [
    | inl same ↦
        rw (seen, same)
          (mem-distinct j ks
            ∙ sym (ap (λ s. mem s ks) ((eq_iff k j).0 same))
            ∙ (sym (mem-distinct k ks) ∙ seen))
    | inr differs ↦ rw (seen, differs) (mem-distinct j ks)
  ]
  | inr new ↦ rw new (ap (λ b. k == j || b) (mem-distinct j ks))
]

pub distinct-NoRepeats : (ks : List String) → NoRepeats (distinct ks)
unfolding distinct
distinct-NoRepeats [] = tt
distinct-NoRepeats (k ∷ ks) = elim (Bool-cases (mem k (distinct ks))) [
  | inl seen ↦ rw seen (distinct-NoRepeats ks)
  | inr new ↦ rw new (new, distinct-NoRepeats ks)
]
