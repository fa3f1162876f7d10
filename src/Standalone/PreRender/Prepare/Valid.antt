-- ===== src/Standalone/PreRender/Prepare/Valid.antt =====
-- Step 3 goes on only with a machine that passed the validation.
use vm_to_quadlet.Base.{◌≡◌, refl, Option, Result, ok, err, ok-ne-err, sym}
use vm_to_quadlet.Kube.Machine.{VirtualMachine}
use vm_to_quadlet.Kube.Virt.{KubeVirt}
use vm_to_quadlet.Standalone.{PreparedVm}
use vm_to_quadlet.Standalone.PreRender.Validate.{validate_for_standalone}
use vm_to_quadlet.Standalone.PreRender.Stubs.{Indexer}
use vm_to_quadlet.Standalone.PreRender.Prepare.{prepare_checked, prepare_for_rendering}

checked-ok :
    (I : Indexer) (K : KubeVirt I.Cache) (vm? : Option VirtualMachine) (r : Result (Unit {0}))
    (p : PreparedVm I.Cache)
    → prepare_checked I K vm? r ≡ ok p
    → r ≡ ok tt
unfolding prepare_checked
checked-ok I K vm? (err e) p h = absurd (ok-ne-err (sym h))
checked-ok I K vm? (ok _) p h = refl

pub prepare-valid :
    (I : Indexer) (K : KubeVirt I.Cache) (vm? : Option VirtualMachine) (p : PreparedVm I.Cache)
    → (prepare_for_rendering I K vm?).value ≡ ok p
    → (validate_for_standalone vm?).value ≡ ok tt
unfolding prepare_for_rendering
prepare-valid I K vm? p h = checked-ok I K vm? (validate_for_standalone vm?).value p h
