-- ===== src/Base/FilePath/Names.antt =====
-- Plain file names in a directory: the path is the cleaned directory and the name.
use Prim.Native.Char.{Char, code}
use text.Mathlib.TextLemmas
use text.Mathlib.TextLemmas.{cons-append, append_cancel_left, append_assoc}
use vm_to_quadlet.Base.Tests.{eqb, if◌then◌else◌, Bool-cases}
use Prim.Native.String.{String, ◌++◌ as ◌<>◌}
use mathlib.Core.Bool.{Bool, true, false, ◌||◌}
use mathlib.Core.Path.{◌≡◌, refl, sym, ap, ◌∙◌}
use mathlib.Core.Logic.{inl, inr}
use mathlib.Core.List.{List, [], ◌∷◌, ◌++◌}
use native.Mathlib.Omega.{arith}
use text.Mathlib.Text.{◌==◌}
use text.Mathlib.TextEquality.{eq_iff}
use vm_to_quadlet.Base.FilePath.{
  prepend, split_path, has_root, push_part, push_parts, text_of, clean, join_path,
}

abbrev has_slash : String → Bool
has_slash String.[] = false
has_slash (String.◌∷◌ c s) = eqb (code c) b'/' || has_slash s

-- A name with no slash that is not empty and not one or two dots.
pub record IsPlain (name : String) : Type 0 where
  pub no_slash : has_slash name ≡ false
  pub nonempty : (name == "") ≡ false
  pub no_dot : (name == ".") ≡ false
  pub no_dots : (name == "..") ≡ false

split_path-plain : (name : String) → has_slash name ≡ false → split_path name ≡ name ∷ []
unfolding split_path prepend
split_path-plain String.[] h = refl
split_path-plain (String.◌∷◌ c s) h =
    let here : eqb (code c) b'/' ≡ false = ground arith in
    rw (here, split_path-plain s (ground arith)) refl

prepend-prepend :
    (c d : Char) (xs ys : List String)
    → prepend c (prepend d xs ++ ys) ≡ prepend c (prepend d xs) ++ ys
unfolding prepend
prepend-prepend c d [] ys = refl
prepend-prepend c d (x ∷ xs) ys = refl

prepend-append :
    (c : Char) (s : String) (ys : List String)
    → prepend c (split_path s ++ ys) ≡ prepend c (split_path s) ++ ys
unfolding split_path prepend
prepend-append c String.[] ys = refl
prepend-append c (String.◌∷◌ d s) ys = elim (Bool-cases (eqb (code d) b'/')) [
  | inl slash ↦ rw slash refl
  | inr other ↦ rw (other, prepend) (prepend-prepend c d (split_path s) ys)
]

split_path-slash : (name : String) → split_path ("/" <> name) ≡ "" ∷ split_path name
unfolding split_path
split_path-slash name = rw (cons-append "/" "" name, TextLemmas.nil-append name) refl

split_path-join :
    (dir name : String) → split_path (dir <> ("/" <> name)) ≡ split_path dir ++ split_path name
unfolding split_path prepend
split_path-join String.[] name =
    ap split_path (TextLemmas.nil-append ("/" <> name)) ∙ split_path-slash name
split_path-join (String.◌∷◌ c s) name = elim (Bool-cases (eqb (code c) b'/')) [
  | inl slash ↦ rw (cons-append c s ("/" <> name), slash, split_path-join s name) refl
  | inr other ↦
      rw (cons-append c s ("/" <> name), other, split_path-join s name)
        (prepend-append c s (split_path name))
]

push_parts-append :
    (rooted : Bool) (kept xs ys : List String)
    → push_parts rooted kept (xs ++ ys) ≡ push_parts rooted (push_parts rooted kept xs) ys
unfolding push_parts
push_parts-append rooted kept [] ys = refl
push_parts-append rooted kept (x ∷ xs) ys = push_parts-append rooted (push_part rooted kept x) xs ys

abbrev front : List String → String
front [] = ""
front (q ∷ ps) = text_of (q ∷ ps) <> "/"

text_of_cons : (name : String) (kept : List String) → text_of (name ∷ kept) ≡ front kept <> name
unfolding text_of
text_of_cons name [] = sym (TextLemmas.nil-append name)
text_of_cons name (q ∷ ps) = refl

true-ne-false : true ≡ false → ⊥
true-ne-false e = cc

push_part-plain :
    (rooted : Bool) (kept : List String) (name : String)
    → IsPlain name
    → push_part rooted kept name ≡ name ∷ kept
unfolding push_part
push_part-plain rooted kept name p = rw (p.nonempty, p.no_dot, p.no_dots) refl

append_ne : (s t : String) → (t == "") ≡ false → (s <> t == "") ≡ false
append_ne String.[] t h = rw (TextLemmas.nil-append t) h
append_ne (String.◌∷◌ c s) t h = elim (Bool-cases (String.◌∷◌ c s <> t == "")) [
  | inl empty ↦
      absurd
        (TextLemmas.cons≢nil (sym (cons-append c s t) ∙ (eq_iff (String.◌∷◌ c s <> t) "").0 empty))
  | inr full ↦ full
]

has_root-append : (s t : String) → (s == "") ≡ false → has_root (s <> t) ≡ has_root s
unfolding has_root
has_root-append String.[] t h = absurd (true-ne-false h)
has_root-append (String.◌∷◌ c s) t h = rw (cons-append c s t) refl

-- What stands before the name in the path.
directory : String → String
directory dir =
    let kept = push_parts (has_root dir) [] (split_path dir) in
    if has_root dir then "/" <> front kept else front kept

join_path-plain :
    (dir name : String)
    → (dir == "") ≡ false
    → IsPlain name
    → join_path dir name ≡ directory dir <> name
unfolding join_path clean directory
join_path-plain dir name h p =
    let kept = push_parts (has_root dir) [] (split_path dir) in
    let slash : ("/" <> name == "") ≡ false = append_ne "/" name p.nonempty in
    let parts : push_parts (has_root dir) [] (split_path (dir <> ("/" <> name))) ≡ name ∷ kept =
      ap (push_parts (has_root dir) []) (
        split_path-join dir name ∙ ap (λ n. split_path dir ++ n) (split_path-plain name p.no_slash))
      ∙ push_parts-append (has_root dir) [] (split_path dir) (name ∷ [])
      ∙ push_part-plain (has_root dir) kept name p in
    rw
      (
        h,
        clean,
        append_ne dir ("/" <> name) slash,
        has_root-append dir ("/" <> name) h,
        parts,
        text_of_cons name kept,
        append_ne (front kept) name p.nonempty,
      )
      (elim (Bool-cases (has_root dir)) [
        | inl rooted ↦
            rw (directory, rooted)
              (sym (append_assoc "/" (front (push_parts true [] (split_path dir))) name))
        | inr relative ↦ rw (directory, relative) refl
      ])

-- Two plain names that differ give two paths.
pub join_path-injective :
    (dir a b : String)
    → (dir == "") ≡ false
    → IsPlain a
    → IsPlain b
    → join_path dir a ≡ join_path dir b
    → a ≡ b
join_path-injective dir a b h p q e =
    append_cancel_left (directory dir) a b
      (sym (join_path-plain dir a h p) ∙ e ∙ join_path-plain dir b h q)
