-- ===== src/Security/History.antt =====
-- A run of authorization requests against the policy and the log that it should leave.
use mathlib.Core.List.{append_assoc, append-nil}
use initra_os.Base.{
  ℕ, ◌+◌, ◌≡◌, refl, sym, ap, ◌∙◌, ◌||◌, List, [], ◌∷◌, ◌++◌, arith, leb, ◌==◌, if◌then◌else◌, u32,
}
use initra_os.Security.{
  State, AuditEvent, init, store, audit_record, authorize, resource_authorize, allowed, denied,
  operation_resource_access,
}
use initra_os.Security.Log.{
  IsValid, contents, newest, store-IsValid, contents-store, newest-append, newest-contents,
  init-IsValid,
}

-- A caller's requests: an operation with the privilege that it requires, or access to a resource.
pub data Request : Type 0 where
  operation : ℕ → ℕ → ℕ → ℕ → Request
  resource : ℕ → ℕ → ℕ → Request

unfoldable pub decide : State → Request → ℕ × State
decide s (operation pid caller op required) = authorize s pid caller op required
decide s (resource pid caller owner) = resource_authorize s pid caller owner

unfoldable pub run : State → List Request → State
run s [] = s
run s (r ∷ rs) = run (decide s r).1 rs

-- The policy: a caller needs a privilege number no greater than the one required; a resource is for
-- the kernel and for its owner.
abbrev pub verdict : Request → ℕ
verdict (operation pid caller op required) = if leb caller required then allowed else denied
verdict (resource pid caller owner) = if caller == 0 || pid == owner then allowed else denied

-- The event that a request is logged as, under the given sequence number.
abbrev pub logged : ℕ → Request → AuditEvent
logged n (operation pid caller op required) = record {
  sequence = n;
  pid = pid;
  privilege = caller;
  operation = op;
  result = verdict (operation pid caller op required);
}
logged n (resource pid caller owner) = record {
  sequence = n;
  pid = pid;
  privilege = caller;
  operation = operation_resource_access;
  result = verdict (resource pid caller owner);
}

-- The whole history, numbered from `n + 1` on in 32 bits.
abbrev pub history : ℕ → List Request → List AuditEvent
history n [] = []
history n (r ∷ rs) = logged (u32 (n + 1)) r ∷ history (u32 (n + 1)) rs

decide-store :
    (s : State) (r : Request)
    → decide s r ≡ (verdict r, store s (logged (u32 (s.audit_sequence + 1)) r))
unfolding decide authorize resource_authorize audit_record
decide-store s (operation pid caller op required) = refl
decide-store s (resource pid caller owner) = ground arith

logged-sequence : (n : ℕ) (r : Request) → (logged n r).sequence ≡ n
logged-sequence n (operation pid caller op required) = refl
logged-sequence n (resource pid caller owner) = refl

store-sequence : (s : State) (e : AuditEvent) → (store s e).audit_sequence ≡ e.sequence
unfolding store
store-sequence s e = ground arith

-- On a log whose indices are in range, every authorization request is answered as the policy has
-- it, and its decision with the next sequence number is appended to the log.
pub decide_lem :
    (s : State) (r : Request)
    → IsValid s
    → ((decide s r).0 ≡ verdict r)
      × (contents (decide s r).1
          ≡ newest (contents s ++ logged (u32 (s.audit_sequence + 1)) r ∷ []))
decide_lem s r v = rw (decide-store s r) (refl, contents-store s _ v)

run-contents :
    (s : State) (rs : List Request)
    → IsValid s
    → contents (run s rs) ≡ newest (contents s ++ history s.audit_sequence rs)
unfolding run
run-contents s [] v = rw append-nil (sym (newest-contents s v))
run-contents s (r ∷ rs) v =
    let e = logged (u32 (s.audit_sequence + 1)) r in
    ap (λ d. contents (run d.1 rs)) (decide-store s r)
    ∙ run-contents (store s e) rs (store-IsValid s e v)
    ∙ rw (store-sequence s e, logged-sequence _ r, contents-store s e v)
        (newest-append (contents s ++ e ∷ []) (history (u32 (s.audit_sequence + 1)) rs)
          ∙ ap newest
              (append_assoc (contents s) (e ∷ []) (history (u32 (s.audit_sequence + 1)) rs)))

-- From a fresh start, any sequence of authorization requests leaves in the log exactly the newest
-- sixteen of its decisions, each as the policy has it, in order and numbered from 1 on in 32 bits.
pub run-init-contents : (rs : List Request) → contents (run init rs) ≡ newest (history 0 rs)
unfolding init
run-init-contents rs = run-contents init rs init-IsValid
