-- ===== src/Security.antt =====
-- security.h and security.c: authorization decisions and the ring buffer of audit events.
-- The file's static variables are one record, `State`; a function that changes them returns the
-- new state. An output pointer is a Boolean, whether it is not null, and what is stored through it
-- is the returned option (`none` is the return value 0).
pub mod Log
pub mod History
pub mod Reads
mod Tests
use initra_os.Base.{
  ℕ, zero, suc, ◌+◌, ◌%◌, Bool, not, ◌&&◌, ◌||◌, Option, none, some, List, bit_or, ltb, leb, ◌==◌,
  ◌!=◌, if◌then◌else◌, u32, get_or, set, replicate,
}

abbrev pub privilege_kernel : ℕ
privilege_kernel = 0

abbrev pub allowed : ℕ
allowed = 1

abbrev pub denied : ℕ
denied = 0

abbrev pub max_audit_events : ℕ
max_audit_events = 16

abbrev pub operation_resource_access : ℕ
operation_resource_access = 2

abbrev pub filter_result : ℕ
filter_result = 1

abbrev pub filter_operation : ℕ
filter_operation = 2

pub record AuditEvent : Type 0 where
  pub sequence : ℕ
  pub pid : ℕ
  pub privilege : ℕ
  pub operation : ℕ
  pub result : ℕ

pub record State : Type 0 where
  pub audit_events : List AuditEvent
  pub audit_count : ℕ
  pub audit_head : ℕ
  pub audit_sequence : ℕ

abbrev pub blank_event : AuditEvent
blank_event = record { sequence = 0; pid = 0; privilege = 0; operation = 0; result = 0 }

-- Append while there is room; once full, overwrite the oldest event and move the head forward.
pub store : State → AuditEvent → State
store s event =
    if ltb s.audit_count max_audit_events
    then record s {
      audit_events = set s.audit_events ((s.audit_head + s.audit_count) % max_audit_events) event;
      audit_count = s.audit_count + 1;
      audit_sequence = event.sequence;
    }
    else record s {
      audit_events = set s.audit_events s.audit_head event;
      audit_head = (s.audit_head + 1) % max_audit_events;
      audit_sequence = event.sequence;
    }

pub audit_record : State → ℕ → ℕ → ℕ → ℕ → State
unfolding store
audit_record s pid privilege operation result = store s (record {
  sequence = u32 (s.audit_sequence + 1);
  pid = pid;
  privilege = privilege;
  operation = operation;
  result = result;
})

-- The loop writes every one of the sixteen slots.
unfoldable pub init : State
init = record {
  audit_events = replicate max_audit_events blank_event;
  audit_count = 0;
  audit_head = 0;
  audit_sequence = 0;
}

pub authorize : State → ℕ → ℕ → ℕ → ℕ → ℕ × State
authorize s pid caller_privilege operation required_privilege =
    let result = if leb caller_privilege required_privilege then allowed else denied in
    (result, audit_record s pid caller_privilege operation result)

pub resource_authorize : State → ℕ → ℕ → ℕ → ℕ × State
resource_authorize s caller_pid caller_privilege resource_owner_pid =
    let result =
      if leb caller_privilege privilege_kernel
      then allowed
      else if caller_pid == resource_owner_pid
      then allowed
      else denied in
    (result, audit_record s caller_pid caller_privilege operation_resource_access result)

pub status : ℕ
status = bit_or (bit_or (bit_or (bit_or (bit_or 0x01 0x02) 0x04) 0x08) 0x10) 0x20

-- `continue` is taken for an event that the filter rejects.
pub skipped : ℕ → ℕ → AuditEvent → Bool
skipped filter_type filter_value event =
    (filter_type == filter_result && event.result != filter_value)
    || (filter_type == filter_operation && event.operation != filter_value)

-- The loop over `offset`, with `rounds` of them left and `matched` matches so far.
filtered_loop : State → ℕ → ℕ → ℕ → ℕ → ℕ → ℕ → Option AuditEvent
filtered_loop s filter_type filter_value index zero offset matched = none
filtered_loop s filter_type filter_value index (suc rounds) offset matched =
    let event = get_or s.audit_events ((s.audit_head + offset) % max_audit_events) blank_event in
    let skip = filtered_loop s filter_type filter_value index rounds (offset + 1) matched in
    let next = filtered_loop s filter_type filter_value index rounds (offset + 1) (matched + 1) in
    if skipped filter_type filter_value event
    then skip
    else if matched == index
    then some event
    else next

pub audit_get_filtered : State → ℕ → ℕ → ℕ → Bool → Option AuditEvent
unfolding filtered_loop
audit_get_filtered s filter_type filter_value index has_event =
    if not has_event || ltb filter_operation filter_type
    then none
    else filtered_loop s filter_type filter_value index s.audit_count 0 0

pub audit_get : State → ℕ → Bool → Option AuditEvent
audit_get s index has_event =
    if not has_event || leb s.audit_count index
    then none
    else some (get_or s.audit_events ((s.audit_head + index) % max_audit_events) blank_event)
