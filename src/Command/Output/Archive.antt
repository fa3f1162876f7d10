-- ===== src/Command/Output/Archive.antt =====
-- What the archive on the standard output holds after writeTAR.
use mathlib.Core.List.{append-nil, append_assoc}
use Prim.Native.String.{len}
use vm_to_quadlet.Base.{String, ◌<>◌, ◌≡◌, refl, sym, ap, ◌∙◌, none, List, [], ◌∷◌, ◌++◌, map}
use vm_to_quadlet.Base.Text.{quote}
use vm_to_quadlet.Quadlet.{UnitFile}
use vm_to_quadlet.Command.Output.{
  continue, Disk, TarHeader, Tar, tar_header, write_tar, write_files,
}
use vm_to_quadlet.Command.Output.Laws.{continue-none}

-- What a writer of archives promises: a header that is followed by a text of its size makes an entry
-- behind those already there, and closing adds none.
pub record Archiving (T : Tar) : Type 0 where
  pub entries : T.State → List (TarHeader × String)
  pub added :
      (header : TarHeader) (text : String) (s t u : T.State)
      → header.size ≡ len text
      → T.write_header header s ≡ (t, none)
      → T.write text t ≡ (u, none)
      → entries u ≡ entries s ++ (header, text) ∷ []
  pub closed : (s t : T.State) → T.close s ≡ (t, none) → entries t ≡ entries s

module _ (T : Tar) (A : Archiving T) where
  write_tar-entries :
      (fs : List UnitFile) (s u : T.State)
      → write_tar T fs s ≡ (u, none)
      → A.entries u ≡ A.entries s ++ map (λ f. (tar_header T f, f.content)) fs
  unfolding write_tar
  write_tar-entries [] s u h = A.closed s u h ∙ sym (append-nil (A.entries s))
  write_tar-entries (f ∷ fs) s u h =
      let (t, e, later) =
        continue-none ("writing TAR header for " <> quote f.name <> ": ")
          (λ s'.
            continue ("writing TAR content for " <> quote f.name <> ": ") (write_tar T fs)
              (T.write f.content s'))
          (T.write_header (tar_header T f) s) u h in
      let (v, e', rest) =
        continue-none ("writing TAR content for " <> quote f.name <> ": ") (write_tar T fs)
          (T.write f.content t) u later in
      write_tar-entries fs v u rest
      ∙ (ap (λ es. es ++ map (λ (g : UnitFile). (tar_header T g, g.content)) fs)
            (A.added (tar_header T f) f.content s t v refl e e')
          ∙ append_assoc (A.entries s) ((tar_header T f, f.content) ∷ [])
              (map (λ (g : UnitFile). (tar_header T g, g.content)) fs))

  -- With a writer of archives that keeps Archiving: when no directory is named and no error is
  -- met, the archive on the standard output has gained one entry for each file, in the order of
  -- the files, under the file's name, with the mode 0644 and with the file's whole content. The
  -- disk is left alone.
  pub write_files-entries :
      (D : Disk) (fs : List UnitFile) (d d' : D.State) (t t' : T.State)
      → write_files D T fs "" (d, t) ≡ ((d', t'), none)
      → (A.entries t'
          ≡ A.entries t
            ++ map
                (λ f. (record { name = f.name; mode = 0o644; size = len f.content }, f.content))
                fs)
        × (d' ≡ d)
  unfolding write_files
  write_files-entries D fs d d' t t' h =
      (write_tar-entries fs t t' (ap (λ p. (p.0.1, p.1)) h), sym (ap (λ p. p.0.0) h))
