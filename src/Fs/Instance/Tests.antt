-- ===== src/Fs/Instance/Tests.antt =====
-- Mounting a device of forty blocks.
use initra_os.Base.{◌≡◌, refl, arith, true, none, some}
use initra_os.Fs.Instance.{Instance, instance_init, instance_unmount}
use initra_os.Fs.Instance.Laws.{IsFresh, instance_init-IsFresh}

instance_init-IsFresh_example :
    (inst : Instance) × (instance_init true (some (512, 40)) ≡ some inst) × IsFresh 40 inst
instance_init-IsFresh_example = instance_init-IsFresh 40 (omega arith) (omega arith)

-- An instance that is mounted is cleared.
unmounted : (inst : Instance) → inst.mounted ≡ true → instance_unmount (some inst) ≡ (true, none)
unfolding instance_unmount
unmounted inst e = rw e refl

too_large : instance_init true (some (512, 32769)) ≡ none
unfolding instance_init
too_large = refl
