-- ===== src/Command/Output/Laws.antt =====
-- What stands on the disk after the files were written.
use vm_to_quadlet.Base.FilePath.{join_path}
use vm_to_quadlet.Base.FilePath.Names.{IsPlain, join_path-injective}
use vm_to_quadlet.Base.{
  String, ◌<>◌, ◌≡◌, ◌≢◌, refl, sym, ap, ◌∙◌, false, Option, none, some, List, [], ◌∷◌, ◌==◌, All,
  ℕ,
}
use vm_to_quadlet.Base.Text.{quote}
use vm_to_quadlet.Quadlet.{UnitFile}
use vm_to_quadlet.Command.Output.{
  Effect, continue, Disk, Tar, file_mode, write_each, write_to_dir, write_files,
}

-- What a file system promises: a file that was written can be read, and writing one, or making a
-- directory, leaves the files at other paths of its directory as they are. Only the paths that
-- filepath.Join gives are compared, which are clean; the directory has no links among its files.
pub record Reading (D : Disk) : Type 0 where
  pub read : D.State → String → Option String
  pub written :
      (path text : String) (mode : ℕ) (s s' : D.State)
      → D.write_file path text mode s ≡ (s', none)
      → read s' path ≡ some text
  pub others :
      (dir name text other : String) (mode : ℕ) (s s' : D.State)
      → D.write_file (join_path dir name) text mode s ≡ (s', none)
      → join_path dir name ≢ join_path dir other
      → read s' (join_path dir other) ≡ read s (join_path dir other)

-- No two files have one name.
abbrev pub DistinctNames : List UnitFile → Type 0
DistinctNames [] = Unit
DistinctNames (f ∷ fs) = All (λ g. g.name ≢ f.name) fs × DistinctNames fs

pub continue-none :
    {State : Type 0} (prefix : String) (rest : Effect State) (r : State × Option String) (s : State)
    → continue prefix rest r ≡ (s, none)
    → (t : State) × (r ≡ (t, none)) × (rest t ≡ (s, none))
continue-none prefix rest (t, none) s h = (t, refl, h)
continue-none prefix rest (t, some e) s h = cc

module _ (D : Disk) (R : Reading D) where
  -- A file of a plain name that is not among those written is left as it is.
  write_each-others :
      (fs : List UnitFile) (dir name : String) (s s' : D.State)
      → (dir == "") ≡ false
      → IsPlain name
      → All (λ g. IsPlain g.name) fs
      → write_each D fs dir s ≡ (s', none)
      → All (λ g. g.name ≢ name) fs
      → R.read s' (join_path dir name) ≡ R.read s (join_path dir name)
  unfolding write_each
  write_each-others [] dir name s s' n p ps h k = ap (λ r. R.read r.0 (join_path dir name)) (sym h)
  write_each-others (f ∷ fs) dir name s s' n p (q, ps) h (k, ks) =
      let path = join_path dir f.name in
      let (t, e, later) =
        continue-none ("failed to write " <> quote path <> ": ") (write_each D fs dir)
          (D.write_file path f.content (file_mode f.name) s) s' h in
      write_each-others fs dir name t s' n p ps later ks
      ∙ R.others dir f.name f.content name (file_mode f.name) s t e
          (λ same. k (join_path-injective dir f.name name n q p same))

  write_each-read :
      (fs : List UnitFile) (dir : String) (s s' : D.State)
      → (dir == "") ≡ false
      → All (λ g. IsPlain g.name) fs
      → DistinctNames fs
      → write_each D fs dir s ≡ (s', none)
      → All (λ f. R.read s' (join_path dir f.name) ≡ some f.content) fs
  unfolding write_each
  write_each-read [] dir s s' n p d h = tt
  write_each-read (f ∷ fs) dir s s' n (p, ps) (d, ds) h =
      let path = join_path dir f.name in
      let (t, e, later) =
        continue-none ("failed to write " <> quote path <> ": ") (write_each D fs dir)
          (D.write_file path f.content (file_mode f.name) s) s' h in
      (
        write_each-others fs dir f.name t s' n p ps later d
            ∙ R.written path f.content (file_mode f.name) s t e,
        write_each-read fs dir t s' n ps ds later,
      )

  -- On a disk where a file that was written can be read and the others of its directory stay
  -- (Reading): when files of different names, each a plain one (no slash, not empty, "." or ".."),
  -- have been written to a named directory with no error, every one of them can be read at the path
  -- that filepath.Join gives for the directory and its name, with its whole content, and the
  -- standard output is left alone.
  pub write_files-read :
      (T : Tar) (fs : List UnitFile) (dir : String) (d d' : D.State) (t t' : T.State)
      → (dir == "") ≡ false
      → All (λ f. IsPlain f.name) fs
      → DistinctNames fs
      → write_files D T fs dir (d, t) ≡ ((d', t'), none)
      → All (λ f. R.read d' (join_path dir f.name) ≡ some f.content) fs × (t' ≡ t)
  unfolding write_files write_to_dir
  write_files-read T fs dir d d' t t' named plain distinct h =
      let k = rw (write_files, named) at h in
      let (u, e, later) =
        continue-none ("failed to create output directory " <> quote dir <> ": ")
          (write_each D fs dir) (D.mkdir_all dir 0o755 d) d' (ap (λ p. (p.0.0, p.1)) k) in
      (write_each-read fs dir u d' named plain distinct later, sym (ap (λ p. p.0.1) k))
