-- ===== src/Security/Reads.antt =====
-- Reading the log: `security_audit_get` and `security_audit_get_filtered`.
use native.Mathlib.Decide.{dec_lt}
use initra_os.Base.{
  ℕ, zero, suc, ◌+◌, ◌-◌, ◌%◌, ◌≤◌, ◌<◌, ◌≡◌, refl, ap, ◌∙◌, Bool, true, not, ◌||◌, ◌&&◌, none,
  some, List, arith, leb, ◌==◌, if◌then◌else◌, get_or, get_elem?, filter, get_elem?-out,
  get_elem?-cons,
}
use initra_os.Security.{
  State, AuditEvent, blank_event, skipped, filtered_loop, audit_get, audit_get_filtered,
}
use initra_os.Security.Log.{IsValid, window, contents, length-window}

-- An event passes filter 0 always, filter 1 by its result, filter 2 by its operation.
abbrev pub passes : ℕ → ℕ → AuditEvent → Bool
passes t v e = t == 0 || (t == 1 && e.result == v) || (t == 2 && e.operation == v)

skipped-passes : (t v : ℕ) (e : AuditEvent) → t ≤ 2 → skipped t v e ≡ not (passes t v e)
unfolding skipped
skipped-passes t v e h = ground arith

get_elem?-window :
    (events : List AuditEvent) (h n i : ℕ)
    → h < 16
    → i < n
    → get_elem? (window events h n) i ≡ some (get_or events ((h + i) % 16) blank_event)
get_elem?-window events h zero i hh hi = absurd (omega arith)
get_elem?-window events h (suc n) zero hh hi = let e : (h + 0) % 16 ≡ h = omega arith in rw e
get_elem?-window events h (suc n) (suc i) hh hi =
    get_elem?-window events ((h + 1) % 16) n i (omega arith) (omega arith)
    ∙ ap (λ k. some (get_or events k blank_event)) (omega arith)

-- On a log whose indices are in range, `security_audit_get` gives the event at the index in the
-- list of the held events, oldest first, and nothing past its end.
pub audit_get_lem : (s : State) (i : ℕ) → IsValid s → audit_get s i true ≡ get_elem? (contents s) i
unfolding audit_get
audit_get_lem s i v = elim (dec_lt i s.audit_count) [
  | yes h ↦
      rw (get_elem?-window s.audit_events s.audit_head s.audit_count i v.head_in h) (ground arith)
  | no h ↦
      rw
        (get_elem?-out (contents s) i
          (omega (arith, length-window s.audit_events s.audit_head s.audit_count)))
        (ground arith)
]

sub-suc : (a b : ℕ) → a - b - 1 ≡ a - (b + 1)
sub-suc a b = omega arith

filtered_loop_lem :
    (s : State) (t v index rounds offset matched h : ℕ)
    → t ≤ 2
    → matched ≤ index
    → h ≡ (s.audit_head + offset) % 16
    → filtered_loop s t v index rounds offset matched
      ≡ get_elem? (filter (passes t v) (window s.audit_events h rounds)) (index - matched)
unfolding filtered_loop
filtered_loop_lem s t v index zero offset matched h ht hm e = refl
filtered_loop_lem s t v index (suc rounds) offset matched h ht hm e =
    let x = get_or s.audit_events h blank_event in
    let later = window s.audit_events ((h + 1) % 16) rounds in
    rw (← e) (
      ground (
        arith,
        skipped-passes t v x ht,
        get_elem?-cons x (filter (passes t v) later) (index - matched),
        filtered_loop_lem s t v index rounds (offset + 1) matched ((h + 1) % 16),
        filtered_loop_lem s t v index rounds (offset + 1) (matched + 1) ((h + 1) % 16),
        ap (λ k. get_elem? (filter (passes t v) later) k) (sub-suc index matched),
      ))

-- On a log whose indices are in range, `security_audit_get_filtered` with a filter type of at most
-- 2 gives the event at the index in the list of the held events that pass the filter, oldest
-- first, or nothing past its end; with another type it gives nothing.
pub audit_get_filtered_lem :
    (s : State) (t v i : ℕ)
    → IsValid s
    → audit_get_filtered s t v i true
      ≡ (if leb t 2 then get_elem? (filter (passes t v) (contents s)) i else none)
unfolding audit_get_filtered
audit_get_filtered_lem s t v i w =
    ground (arith, filtered_loop_lem s t v i s.audit_count 0 0 s.audit_head)
