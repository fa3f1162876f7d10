-- ===== src/Base/FilePath.antt =====
-- filepath.Join and filepath.Clean of Go's library, on a system whose paths have slashes.
pub mod Names
use Prim.Native.Char.{Char, code}
use Prim.Native.String
use Prim.Native.String.{String, ◌++◌ as ◌<>◌}
use mathlib.Core.Bool.{Bool, false, ◌||◌}
use mathlib.Core.List.{List, [], ◌∷◌}
use text.Mathlib.Text.{◌==◌}
use vm_to_quadlet.Base.Tests.{eqb, if◌then◌else◌}

-- A character in front of the first element.
prepend : Char → List String → List String
prepend c [] = String.◌∷◌ c "" ∷ []
prepend c (p ∷ ps) = String.◌∷◌ c p ∷ ps

-- The elements between the slashes.
split_path : String → List String
unfolding prepend
split_path String.[] = "" ∷ []
split_path (String.◌∷◌ c s) =
    let rest = split_path s in if eqb (code c) b'/' then "" ∷ rest else prepend c rest

has_root : String → Bool
has_root String.[] = false
has_root (String.◌∷◌ c s) = eqb (code c) b'/'

-- Two dots: they take the element before them away, are dropped at the root, and stay at the front of
-- a path that does not start there. The elements that are kept stand in reverse.
step_up : Bool → List String → List String
step_up rooted [] = if rooted then [] else ".." ∷ []
step_up rooted (p ∷ ps) = if p == ".." then ".." ∷ p ∷ ps else ps

-- One element of a path: an empty one and a single dot are dropped.
push_part : Bool → List String → String → List String
unfolding step_up
push_part rooted kept p =
    if p == "" || p == "." then kept else if p == ".." then step_up rooted kept else p ∷ kept

push_parts : Bool → List String → List String → List String
unfolding push_part
push_parts rooted kept [] = kept
push_parts rooted kept (p ∷ ps) = push_parts rooted (push_part rooted kept p) ps

-- The elements kept, the last one first, with slashes between them.
text_of : List String → String
text_of [] = ""
text_of (p ∷ []) = p
text_of (p ∷ q ∷ ps) = (text_of (q ∷ ps) <> "/") <> p

-- filepath.Clean
unfoldable pub clean : String → String
unfolding push_parts split_path text_of has_root
clean path =
    let text = text_of (push_parts (has_root path) [] (split_path path)) in
    if path == ""
    then "."
    else if has_root path
    then "/" <> text
    else if text == ""
    then "."
    else text

-- filepath.Join of a directory and a name; an empty one of the two is passed over.
unfoldable pub join_path : String → String → String
unfolding clean
join_path dir name =
    if dir == "" then (if name == "" then "" else clean name) else clean (dir <> ("/" <> name))
