-- ===== src/Security/Log.antt =====
-- The audit ring as the list of the events that it holds, oldest first.
use initra_os.Base.{
  lt→ltb, le→ltb, ℕ, zero, suc, ◌+◌, ◌-◌, ◌%◌, ◌≤◌, ◌<◌, ◌≡◌, refl, ap, ap₂, ◌∙◌, sym, List, [],
  ◌∷◌, ◌++◌, arith, length, get_or, set, drop, length-set, length-append, get_or-set_self,
  get_or-set_ne,
}
use native.Mathlib.Numerals.{add-one}
use native.Mathlib.Decide.{dec_lt}
use initra_os.Security.{State, AuditEvent, blank_event, init, store}

-- The `n` events from position `h` on, round the end of the array.
abbrev pub window : List AuditEvent → ℕ → ℕ → List AuditEvent
window events h zero = []
window events h (suc n) = get_or events h blank_event ∷ window events ((h + 1) % 16) n

abbrev pub contents : State → List AuditEvent
contents s = window s.audit_events s.audit_head s.audit_count

pub record IsValid (s : State) : Type 0 where
  pub slots : length s.audit_events ≡ 16
  pub head_in : s.audit_head < 16
  pub count_in : s.audit_count ≤ 16

pub init-IsValid : IsValid init
unfolding init
init-IsValid = omega arith

-- Storing an event keeps the indices in range.
pub store-IsValid : (s : State) (e : AuditEvent) → IsValid s → IsValid (store s e)
unfolding store
store-IsValid s e v = ground (
  arith,
  length-set s.audit_events ((s.audit_head + s.audit_count) % 16) e,
  length-set s.audit_events s.audit_head e,
)

pub length-window : (events : List AuditEvent) (h n : ℕ) → length (window events h n) ≡ n
length-window events h zero = refl
length-window events h (suc n) = ap suc (length-window events ((h + 1) % 16) n)

-- A write just past the window appends to it.
window-set :
    (events : List AuditEvent) (x : AuditEvent) (n h i : ℕ)
    → length events ≡ 16
    → h < 16
    → n < 16
    → i ≡ (h + n) % 16
    → window (set events i x) h (suc n) ≡ window events h n ++ x ∷ []
window-set events x zero h i slots hh hn e =
    let same : i ≡ h = omega arith in
    rw (same, get_or-set_self events h x blank_event (omega arith))
window-set events x (suc n) h i slots hh hn e =
    ap₂ ◌∷◌ (get_or-set_ne events i h x blank_event (omega arith))
      (window-set events x n ((h + 1) % 16) i slots (omega arith) (omega arith) (omega arith))

-- Keep the newest sixteen of a list of events.
pub newest : List AuditEvent → List AuditEvent
newest events = drop (length events - 16) events

newest_short : (xs : List AuditEvent) → length xs ≤ 16 → newest xs ≡ xs
unfolding newest
newest_short xs h = let e : length xs - 16 ≡ 0 = omega arith in rw e

newest_cons : (x : AuditEvent) (xs : List AuditEvent) → 16 ≤ length xs → newest (x ∷ xs) ≡ newest xs
unfolding newest
newest_cons x xs h = let e : suc (length xs) - 16 ≡ suc (length xs - 16) = omega arith in rw e

-- What was forgotten once stays forgotten.
pub newest-append : (xs ys : List AuditEvent) → newest (newest xs ++ ys) ≡ newest (xs ++ ys)
newest-append [] ys = rw (newest_short [] (omega arith))
newest-append (x ∷ xs) ys = elim (dec_lt (length xs) 16) [
  | yes h ↦ rw (newest_short (x ∷ xs) h)
  | no h ↦
      rw (newest_cons x xs (omega arith))
        (newest-append xs ys ∙ sym (newest_cons x (xs ++ ys) (omega (arith, length-append xs ys))))
]

store_room :
    (s : State) (e : AuditEvent)
    → IsValid s
    → s.audit_count < 16
    → contents (store s e) ≡ newest (contents s ++ e ∷ [])
unfolding store
store_room s e v room =
    rw (lt→ltb s.audit_count 16 room, add-one s.audit_count)
      (window-set s.audit_events e s.audit_count s.audit_head _ v.slots v.head_in room refl
        ∙ sym (
            newest_short (contents s ++ e ∷ []) (
              omega (
                arith,
                length-append (contents s) (e ∷ []),
                length-window s.audit_events s.audit_head s.audit_count,
              ))))

store_full :
    (s : State) (e : AuditEvent)
    → IsValid s
    → s.audit_count ≡ 16
    → contents (store s e) ≡ newest (contents s ++ e ∷ [])
unfolding store newest
store_full s e v full =
    rw (le→ltb s.audit_count 16 (omega arith), full)
      (window-set s.audit_events e 15 ((s.audit_head + 1) % 16) s.audit_head v.slots (omega arith)
          (omega arith) (omega arith)
        ∙ refl)

-- On a log whose indices are in range, storing an event appends it to the list of the events held,
-- of which the newest sixteen are kept.
pub contents-store :
    (s : State) (e : AuditEvent) → IsValid s → contents (store s e) ≡ newest (contents s ++ e ∷ [])
contents-store s e v = elim (dec_lt s.audit_count 16) [
  | yes room ↦ store_room s e v room
  | no full ↦ store_full s e v (omega arith)
]

-- A valid log is never longer than the ring.
pub newest-contents : (s : State) → IsValid s → newest (contents s) ≡ contents s
newest-contents s v =
    newest_short (contents s)
      (omega (arith, length-window s.audit_events s.audit_head s.audit_count, v.count_in))
