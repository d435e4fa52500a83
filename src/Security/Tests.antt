-- ===== src/Security/Tests.antt =====
-- Runs of the security core, and the theorems at concrete inputs.
use initra_os.Base.{
  get_elem?, filter, leb, if◌then◌else◌, none, ◌≡◌, refl, true, some, List, [], ◌∷◌, ◌++◌,
}
use initra_os.Security.Reads.{passes, audit_get_filtered_lem}
use initra_os.Security.{
  skipped, audit_record, resource_authorize, init, status, authorize, audit_get_filtered, store,
  blank_event,
}
use initra_os.Security.Log.{contents, newest, init-IsValid, contents-store}
use initra_os.Security.History.{
  Request, operation, resource, decide, run, history, run-init-contents,
}

abbrev script : List Request
script = operation 5 3 1 0 ∷ operation 6 0 1 0 ∷ resource 5 3 6 ∷ resource 5 3 5 ∷ []

status_mask : status ≡ 0x3f
unfolding status
status_mask = refl

-- The user's protected operation is denied, the kernel's allowed; the second denial is event 2.
second_denial :
    audit_get_filtered (run init script) 1 0 1 true
    ≡ some (record { sequence = 3; pid = 5; privilege = 3; operation = 2; result = 0 })
unfolding run decide audit_get_filtered init resource_authorize authorize audit_record skipped
second_denial = refl

contents-store_example :
    contents (store init blank_event) ≡ newest (contents init ++ blank_event ∷ [])
contents-store_example = contents-store init blank_event init-IsValid

run-init-contents_example : contents (run init script) ≡ newest (history 0 script)
run-init-contents_example = run-init-contents script

audit_get_filtered_lem_example :
    audit_get_filtered init 1 0 0 true
    ≡ (if leb 1 2 then get_elem? (filter (passes 1 0) (contents init)) 0 else none)
audit_get_filtered_lem_example = audit_get_filtered_lem init 1 0 0 init-IsValid
