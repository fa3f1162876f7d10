-- ===== src/Command/Output.antt =====
-- `writeFiles` and `writeTAR`: the state written to is a parameter, and each operation may fail.
pub mod Laws
pub mod Archive
use Prim.Native.String.{len}
use vm_to_quadlet.Base.FilePath.{join_path}
use vm_to_quadlet.Base.{ℕ, String, ◌<>◌, Option, none, some, List, [], ◌∷◌, ◌==◌, if◌then◌else◌}
use vm_to_quadlet.Base.Text.{quote, has_suffix}
use vm_to_quadlet.Quadlet.{UnitFile}

-- An operation's new state and its error; a failed operation may have changed the state.
abbrev pub Effect : Type 0 → Type 0
Effect State = State → State × Option String

-- `if err != nil { return fmt.Errorf(prefix + "%v", err) }`, and what follows.
abbrev pub continue :
    {State : Type 0} → String → Effect State → State × Option String → State × Option String
continue prefix rest (s, none) = rest s
continue prefix rest (s, some e) = (s, some (prefix <> e))

-- `os.MkdirAll` and `os.WriteFile` with their permissions.
pub record Disk : Type 1 where
  pub State : Type 0
  pub mkdir_all : String → ℕ → Effect State
  pub write_file : String → String → ℕ → Effect State

-- `tar.Writer` over the standard output.
pub record TarHeader : Type 0 where
  pub name : String
  pub mode : ℕ
  pub size : ℕ

pub record Tar : Type 1 where
  pub State : Type 0
  pub write_header : TarHeader → Effect State
  pub write : String → Effect State
  pub close : Effect State

-- The file mode of a unit: a script can be executed.
unfoldable pub file_mode : String → ℕ
unfolding has_suffix
file_mode name = if has_suffix name ".sh" then 0o755 else 0o644

module _ (D : Disk) where
  -- The loop over the files.
  unfoldable pub write_each : List UnitFile → String → Effect D.State
  unfolding file_mode join_path quote
  write_each [] output_dir s = (s, none)
  write_each (f ∷ fs) output_dir s =
      let path = join_path output_dir f.name in
      continue ("failed to write " <> quote path <> ": ") (write_each fs output_dir)
        (D.write_file path f.content (file_mode f.name) s)

  -- Into a directory.
  unfoldable pub write_to_dir : List UnitFile → String → Effect D.State
  unfolding write_each
  write_to_dir files output_dir s =
      continue ("failed to create output directory " <> quote output_dir <> ": ")
        (write_each files output_dir) (D.mkdir_all output_dir 0o755 s)

module _ (T : Tar) where
  abbrev tar_header : UnitFile → TarHeader
  tar_header f = record { name = f.name; mode = 0o644; size = len f.content }

  -- `writeTAR`.
  unfoldable pub write_tar : List UnitFile → Effect T.State
  unfolding quote
  write_tar [] s = T.close s
  write_tar (f ∷ fs) s =
      continue ("writing TAR header for " <> quote f.name <> ": ")
        (λ s'.
          continue ("writing TAR content for " <> quote f.name <> ": ") (write_tar fs)
            (T.write f.content s'))
        (T.write_header (tar_header f) s)

-- The files go to a directory, or to the standard output if none is named.
unfoldable pub write_files :
    (D : Disk) (T : Tar)
    → List UnitFile
    → String
    → D.State × T.State
    → (D.State × T.State) × Option String
unfolding write_to_dir write_tar
write_files D T files output_dir (d, t) =
    if output_dir == ""
    then (let (t', e) = write_tar T files t in ((d, t'), e))
    else (let (d', e) = write_to_dir D files output_dir d in ((d', t), e))
