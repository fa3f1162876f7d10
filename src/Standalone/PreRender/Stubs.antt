-- ===== src/Standalone/PreRender/Stubs.antt =====
-- `stubPVCsForVM` and `addPVCStub`, over client-go's indexer, which is not part of the repository.
use vm_to_quadlet.Base.{
  String, ◌≡◌, ◌∙◌, inl, inr, ◌&&◌, Option, none, some, List, [], ◌∷◌, arith, ◌==◌, eq_iff,
  if◌then◌else◌, In, eq_refl, Option-cases,
}
use vm_to_quadlet.Kube.Machine.{VmVolume}

pub record PvcStub : Type 0 where
  pub namespace : String
  pub name : String
  pub access_modes : List String
  pub volume_mode : String

-- `cache.NewIndexer(cache.DeletionHandlingMetaNamespaceKeyFunc, nil)`: a store of objects by
-- namespace and name. `add` stands for `Add` with the error that `addPVCStub` drops.
pub record Indexer : Type 1 where
  pub Cache : Type 0
  pub empty : Cache
  pub add : PvcStub → Cache → Cache
  pub get : String → String → Cache → Option PvcStub

-- What the program relies on: the object last added under a key is the one found under it.
pub record IsIndexer (I : Indexer) : Type 0 where
  pub get-add :
      (ns name : String) (stub : PvcStub) (c : I.Cache)
      → I.get ns name (I.add stub c)
        ≡ (if stub.namespace == ns && stub.name == name then some stub else I.get ns name c)

-- The stub that `addPVCStub` builds.
abbrev pub pvc_stub : String → String → PvcStub
pvc_stub ns claim = record {
  namespace = ns;
  name = claim;
  access_modes = "ReadWriteOnce" ∷ [];
  volume_mode = "Filesystem";
}

-- The claim that a volume refers to: the cases of the `switch`, in order.
abbrev pub claim_of : VmVolume → Option String
claim_of vol = elim vol.persistent_volume_claim [ some claim ↦ some claim | none ↦ vol.data_volume ]

module _ (I : Indexer) where
  add_stub : String → VmVolume → I.Cache → I.Cache
  add_stub ns vol c = elim (claim_of vol) [ some claim ↦ I.add (pvc_stub ns claim) c | none ↦ c ]

  add_stubs : String → List VmVolume → I.Cache → I.Cache
  unfolding add_stub
  add_stubs ns [] c = c
  add_stubs ns (vol ∷ vols) c = add_stubs ns vols (add_stub ns vol c)

  unfoldable pub stub_pvcs_for_vm : String → List VmVolume → I.Cache → I.Cache
  unfolding add_stubs
  stub_pvcs_for_vm namespace volumes c =
      add_stubs (if namespace == "" then "default" else namespace) volumes c

module _ (I : Indexer) (L : IsIndexer I) (ns : String) where
  abbrev IsStubbed : I.Cache → String → Type 0
  IsStubbed c claim = I.get ns claim c ≡ some (pvc_stub ns claim)

  -- A stub once there stays: another stub of its key is the same stub.
  IsStubbed-add_stub :
      (vol : VmVolume) (c : I.Cache) (claim : String)
      → IsStubbed c claim
      → IsStubbed (add_stub I ns vol c) claim
  unfolding add_stub
  IsStubbed-add_stub vol c claim h = elim (Option-cases (claim_of vol)) [
    | inl e ↦ rw (e, add_stub) h
    | inr (other, e) ↦
        rw (e, add_stub)
          (L.get-add ns claim (pvc_stub ns other) c ∙ ground (arith, eq_iff other claim))
  ]

  add_stub-IsStubbed :
      (vol : VmVolume) (c : I.Cache) (claim : String)
      → claim_of vol ≡ some claim
      → IsStubbed (add_stub I ns vol c) claim
  unfolding add_stub
  add_stub-IsStubbed vol c claim h =
      rw (h, add_stub) (L.get-add ns claim (pvc_stub ns claim) c ∙ rw (eq_refl ns, eq_refl claim))

  add_stubs-keep :
      (vols : List VmVolume) (c : I.Cache) (claim : String)
      → IsStubbed c claim
      → IsStubbed (add_stubs I ns vols c) claim
  unfolding add_stubs
  add_stubs-keep [] c claim h = h
  add_stubs-keep (vol ∷ vols) c claim h =
      add_stubs-keep vols (add_stub I ns vol c) claim (IsStubbed-add_stub vol c claim h)

  add_stubs-IsStubbed :
      (vols : List VmVolume) (c : I.Cache) (vol : VmVolume) (claim : String)
      → In vol vols
      → claim_of vol ≡ some claim
      → IsStubbed (add_stubs I ns vols c) claim
  unfolding add_stubs
  add_stubs-IsStubbed [] c vol claim m e = absurd m
  add_stubs-IsStubbed (first ∷ vols) c vol claim (inl same) e =
      add_stubs-keep vols (add_stub I ns first c) claim
        (add_stub-IsStubbed first c claim (rw same e))
  add_stubs-IsStubbed (first ∷ vols) c vol claim (inr m) e =
      add_stubs-IsStubbed vols (add_stub I ns first c) vol claim m e

pub stub_pvcs_for_vm-finds :
    (I : Indexer)
    → IsIndexer I
    → (namespace : String) (volumes : List VmVolume) (c : I.Cache) (vol : VmVolume) (claim : String)
    → In vol volumes
    → claim_of vol ≡ some claim
    → let ns = if namespace == "" then "default" else namespace in
      I.get ns claim (stub_pvcs_for_vm I namespace volumes c) ≡ some (pvc_stub ns claim)
unfolding stub_pvcs_for_vm
stub_pvcs_for_vm-finds I L namespace volumes c vol claim m e =
    add_stubs-IsStubbed I L _ volumes c vol claim m e
