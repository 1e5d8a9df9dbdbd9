-- ===== src/Observers.antt =====
-- src/smcp/smcp-observable.c: the table of observers, and the list of those of one observable.
-- An index of the list is one more than that of the table, and 0 is the list's end.
pub mod Links
pub mod Register
pub mod Trigger
pub mod Free
use smcp.Prelude.{ℕ, zero, suc, ◌+◌, ◌-◌, ◌%◌, ◌^◌, Bool, true, false, not, ◌&&◌, ◌||◌}
use smcp.Prelude.{Option, none, some, ltb, ◌==◌, if◌then◌else◌}

-- `struct smcp_observer_s`: the length and the sender of the request that it keeps, and whether
-- its transaction is active.
pub record Observer : Type 0 where
  pub has_observable : Bool
  pub next : ℕ
  pub key : ℕ
  pub seq : ℕ
  pub request_len : ℕ
  pub remote : ℕ
  pub active : Bool

-- `observer_table`
abbrev pub Table : Type 0
Table = ℕ → Observer

-- SMCP_MAX_OBSERVERS
abbrev pub max_observers : ℕ
max_observers = 8

-- SMCP_OBSERVABLE_BROADCAST_KEY
abbrev pub broadcast_key : ℕ
broadcast_key = 0xff

-- The table with a `struct smcp_observable_s`.
pub record Observable : Type 0 where
  pub table : Table
  pub first_observer : ℕ
  pub last_observer : ℕ

unfoldable pub put : Table → ℕ → Observer → Table
put table i o j = if j == i then o else table j

abbrev pub is_unused : Observer → Bool
is_unused o = o.request_len == 0 && (o.next == 0 && not o.active)

-- The loop from index `i` on, with `left` indices to go.
unfoldable pub unused_from : Table → ℕ → ℕ → Option ℕ
unused_from table zero i = none
unused_from table (suc left) i =
    let rest = unused_from table left (i + 1) in if is_unused (table i) then some i else rest

-- `none` is -1.
abbrev pub get_unused_observer_index : Table → Option ℕ
get_unused_observer_index table = unused_from table max_observers 0

-- The first loop of `smcp_observable_update`, for the sender `remote`; the result is one more than
-- the index at which it stops. `none`: out of fuel.
unfoldable pub find_observer : Table → ℕ → ℕ → ℕ → ℕ → Option ℕ
find_observer table key remote zero at = none
find_observer table key remote (suc fuel) at =
    let o = table (at - 1) in
    let rest = find_observer table key remote fuel o.next in
    if at == 0 then some 0 else if o.key == key && o.remote == remote then some at else rest

-- A new observer at the end of the list.
unfoldable pub append_observer : Observable → ℕ → ℕ → Observable
append_observer self i key =
    let last = self.table (self.last_observer - 1) in
    let linked =
      if self.last_observer == 0
      then self.table
      else put self.table (self.last_observer - 1) (record last { next = i + 1 }) in
    record {
      table = put linked i (record (linked i) { key = key; seq = 0; has_observable = true });
      first_observer = if self.last_observer == 0 then i + 1 else self.first_observer;
      last_observer = i + 1;
    }

-- `smcp_start_async_response`; `request` is the length of what it keeps, if that is not too long.
unfoldable pub start_response : Table → ℕ → ℕ → Option ℕ → Table
start_response table i remote none = table
start_response table i remote (some n) =
    put table i (record (table i) { request_len = n; remote = remote })

-- How the loop of `free_observer` ends: at one more than the index `i`, or with a read outside of
-- the table. `stuck`: out of fuel.
pub data Unlinked : Type 0 where
  stuck outside : Unlinked
  broke_at : ℕ → Unlinked

-- The loop. `prev` stays as it is, and `at` is `i + 1`.
unfoldable pub unlink : Table → ℕ → ℕ → ℕ → Unlinked
unlink table prev zero at = stuck
unlink table prev (suc fuel) at =
    let rest = unlink table prev fuel (table (at - 1)).next in
    if at == 0 then outside else if (table prev).next == at - 1 then broke_at at else rest

-- What a call leaves; `invalid_access` is an access at the index -1.
pub data Outcome : Type 0 where
  endless invalid_access : Outcome
  leaves : Observable → Outcome

-- `smcp_finish_async_response`
abbrev pub finish_response : Observable → ℕ → Observable
finish_response self i = record self {
  table = put self.table i (record (self.table i) { request_len = 0 });
}

-- What follows the loop.
abbrev pub after_loop : Observable → ℕ → Unlinked → Outcome
after_loop self i stuck = endless
after_loop self i outside = invalid_access
after_loop self i (broke_at at) =
    let prev = self.first_observer - 1 in
    let o = self.table prev in
    leaves (
      finish_response
        (record self {
          table = put self.table prev (record o { next = (self.table (at - 1)).next });
          last_observer = if self.last_observer == at then prev else self.last_observer;
        })
        i)

-- `smcp_transaction_end` on the observer's transaction.
abbrev pub end_transaction : Observable → ℕ → Observable
end_transaction self i = record self {
  table = put self.table i (record (self.table i) { active = false });
}

-- The three cases of the list. Each round of the loop goes one item on.
unfoldable pub unlink_observer : Observable → ℕ → Outcome
unlink_observer self i =
    if self.first_observer == i + 1 && self.last_observer == i + 1
    then leaves (finish_response (record self { first_observer = 0; last_observer = 0 }) i)
    else if self.first_observer == i + 1
    then leaves (finish_response (record self { first_observer = (self.table i).next }) i)
    else if self.first_observer == 0
    then invalid_access
    else after_loop self i (unlink self.table (self.first_observer - 1) (max_observers + 1) (i + 1))

unfoldable pub free_observer : Observable → ℕ → Outcome
free_observer self i =
    if (self.table i).has_observable
    then unlink_observer (end_transaction self i) i
    else leaves (finish_response self i)

-- The observe option's value, with what the call leaves.
abbrev pub Updated : Type 0
Updated = Outcome × Option ℕ

-- An observer, at the index `i`, for which an async response is started.
unfoldable pub renew : Observable → ℕ → ℕ → Option ℕ → Updated
renew self i remote request = (
  leaves (record self { table = start_response self.table i remote request }),
  some (self.table i).seq,
)

-- With no observer found, and with one found, for a request with an observe option.
unfoldable pub observe : Observable → ℕ → ℕ → ℕ → Option ℕ → Updated
observe self at key remote request =
    let new : Updated = elim (get_unused_observer_index self.table) [
      | none ↦ (leaves self, none)
      | some i ↦ renew (append_observer self i key) i remote request
    ] in
    if at == 0 then new else renew self (at - 1) remote request

-- `smcp_observable_update`. `is_new`: there is an inbound packet, and it is neither fake nor a
-- duplicate.
unfoldable pub observable_update : Observable → Bool → Bool → ℕ → ℕ → Option ℕ → Updated
observable_update self is_new has_observe_option key remote request =
    if not is_new
    then (leaves self, none)
    else elim (find_observer self.table key remote (max_observers + 1) self.first_observer) [
      | none ↦ (endless, none)
      | some at ↦
          if has_observe_option
          then observe self at key remote request
          else if at == 0
          then (leaves self, none)
          else (free_observer self (at - 1), none)
    ]

-- Neither of the two keys is the broadcast key, and they differ.
abbrev pub is_other_key : Observer → ℕ → Bool
is_other_key o key =
    not (o.key == broadcast_key) && (not (key == broadcast_key) && not (o.key == key))

-- An event for one observer: its transaction is begun, or goes on.
abbrev pub notified : Observer → Observer
notified o = record o { seq = (o.seq + 1) % 2 ^ 32; active = true }

-- The loop of `smcp_observable_trigger`. `none`: out of fuel.
unfoldable pub trigger_from : ℕ → ℕ → ℕ → Table → Option Table
trigger_from key zero at table = none
trigger_from key (suc fuel) at table =
    let o = table (at - 1) in
    let table' = if is_other_key o key then table else put table (at - 1) (notified o) in
    let rest = trigger_from key fuel o.next table' in if at == 0 then some table else rest

-- A list has at most one item for each observer of the table.
abbrev pub observable_trigger : Observable → ℕ → Option Table
observable_trigger self key = trigger_from key (max_observers + 1) self.first_observer self.table

-- The loop of `smcp_observable_observer_count`.
unfoldable pub count_from : Table → ℕ → ℕ → ℕ → ℕ → Option ℕ
count_from table key zero at count = none
count_from table key (suc fuel) at count =
    let o = table (at - 1) in
    let rest = count_from table key fuel o.next (if is_other_key o key then count else count + 1) in
    if at == 0 then some count else rest

abbrev pub observer_count : Observable → ℕ → Option ℕ
observer_count self key = count_from self.table key (max_observers + 1) self.first_observer 0
