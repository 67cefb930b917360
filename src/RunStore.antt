-- ===== src/RunStore.antt =====
-- src/run-store.ts: the records of the runs and their file. Instants stand for the ISO texts.
pub mod Restart
use cursor_claw.Base.{
  ℕ, zero, suc, ◌+◌, ◌-◌, Bool, true, false, not, Option, none, some, List, [], ◌∷◌, String, ltb,
  leb, if◌then◌else◌, string_eq, length, take, keep, any,
}
use cursor_claw.Base.Dict.{get, set, delete, values, map_values}

pub data RunStatus : Type 0 where
  pending completed failed interrupted : RunStatus

-- A turn result by the session of its first event and the rest, which no operation reads.
pub record TurnResult : Type 0 where
  pub event_session : Option String
  pub content : ℕ

pub record RunRecord : Type 0 where
  pub run_id : String
  pub session_id : String
  pub profile_id : Option String
  pub status : RunStatus
  pub created_at : ℕ
  pub updated_at : ℕ
  pub consumed_at : Option ℕ
  pub result : Option TurnResult
  pub error : Option String

pub record Store : Type 0 where
  pub records : List (String × RunRecord)
  pub disk : List RunRecord
  pub max_completed_runs : ℕ

pub is_pending : RunRecord → Bool
is_pending r = elim r.status [ pending ↦ true | _ ↦ false ]

pub is_interrupted : RunRecord → Bool
is_interrupted r = elim r.status [ interrupted ↦ true | _ ↦ false ]

pub is_consumed : RunRecord → Bool
is_consumed r = elim r.consumed_at [ none ↦ false | some t ↦ true ]

pub by_run_id : List RunRecord → List (String × RunRecord) → List (String × RunRecord)
by_run_id [] m = m
by_run_id (r ∷ rs) m = by_run_id rs (set r.run_id r m)

-- `load` of a file that can be read; the last record of an identifier counts, at its first place.
pub load : Store → Store
load s = record s { records = by_run_id s.disk [] }

pub persist : Store → Store
persist s = record s { disk = values s.records }

pub new_record : (run_id session_id : String) (status : RunStatus) (now : ℕ) → RunRecord
new_record run_id session_id status now = record {
  run_id = run_id;
  session_id = session_id;
  profile_id = none;
  status = status;
  created_at = now;
  updated_at = now;
  consumed_at = none;
  result = none;
  error = none;
}

pub create_pending :
    (run_id session_id : String) (profile_id : Option String) (now : ℕ) → Store → Store
unfolding new_record persist
create_pending run_id session_id profile_id now s = persist (record s {
  records =
      set run_id (record (new_record run_id session_id pending now) { profile_id = profile_id })
        s.records;
})

-- `sort` is stable.
pub insert_by_update : RunRecord → List RunRecord → List RunRecord
insert_by_update r [] = r ∷ []
insert_by_update r (x ∷ xs) =
    let rest = insert_by_update r xs in
    if leb r.updated_at x.updated_at then r ∷ x ∷ xs else x ∷ rest

pub sort_by_update : List RunRecord → List RunRecord
sort_by_update [] = []
sort_by_update (r ∷ rs) = insert_by_update r (sort_by_update rs)

pub delete_all : List RunRecord → List (String × RunRecord) → List (String × RunRecord)
delete_all [] m = m
delete_all (r ∷ rs) m = delete_all rs (delete r.run_id m)

pub prune : Store → Store
prune s =
    let done = sort_by_update (keep is_consumed (values s.records)) in
    record s { records = delete_all (take (length done - s.max_completed_runs) done) s.records }

abbrev pub session_of : TurnResult → String
session_of r = elim r.event_session [ none ↦ "unknown" | some session ↦ session ]

pub completed_record :
    (run_id : String) (result : TurnResult) (now : ℕ) → Option RunRecord → RunRecord
unfolding new_record
completed_record run_id result now none =
    record (new_record run_id (session_of result) completed now) { result = some result }
completed_record run_id result now (some r) = record r {
  status = completed;
  updated_at = now;
  result = some result;
  error = none;
}

pub mark_completed : (run_id : String) (result : TurnResult) (now : ℕ) → Store → Store
unfolding completed_record prune persist
mark_completed run_id result now s = persist (
    prune (record s {
      records = set run_id (completed_record run_id result now (get run_id s.records)) s.records;
    }))

pub failed_record : (run_id error : String) (now : ℕ) → Option RunRecord → RunRecord
unfolding new_record
failed_record run_id error now none = record (new_record run_id "unknown" failed now) {
  error = some error;
}
failed_record run_id error now (some r) = record r {
  status = failed;
  updated_at = now;
  result = none;
  error = some error;
}

pub mark_failed : (run_id error : String) (now : ℕ) → Store → Store
unfolding failed_record prune persist
mark_failed run_id error now s = persist (
    prune (record s {
      records = set run_id (failed_record run_id error now (get run_id s.records)) s.records;
    }))

pub interrupt : (now : ℕ) → RunRecord → RunRecord
unfolding is_pending
interrupt now r =
    if is_pending r
    then record r {
      status = interrupted;
      updated_at = now;
      error = some "run interrupted by process restart";
    }
    else r

-- The store and the number of records changed.
pub mark_in_flight_interrupted : (now : ℕ) → Store → Store × ℕ
unfolding interrupt persist
mark_in_flight_interrupted now s =
    let changed = length (keep is_pending (values s.records)) in
    let next = record s { records = map_values (interrupt now) s.records } in
    (if ltb 0 changed then persist next else next, changed)

pub has_interrupted_runs : Store → Bool
has_interrupted_runs s = any is_interrupted (values s.records)

pub list_interrupted_runs : Store → List RunRecord
list_interrupted_runs s = keep is_interrupted (values s.records)

pub visible : Option RunRecord → Option RunRecord
visible none = none
visible (some r) = if is_consumed r then none else some r

pub get_run : (run_id : String) → Store → Option RunRecord
unfolding visible
get_run run_id s = visible (get run_id s.records)

pub consume_found : (run_id : String) (now : ℕ) → Option RunRecord → Store → Store
unfolding prune persist
consume_found run_id now none s = s
consume_found run_id now (some r) s = persist (
    prune (record s {
      records = set run_id (record r { consumed_at = some now; updated_at = now }) s.records;
    }))

pub consume : (run_id : String) (now : ℕ) → Store → Store
unfolding consume_found
consume run_id now s = consume_found run_id now (get run_id s.records) s
