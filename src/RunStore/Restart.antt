-- ===== src/RunStore/Restart.antt =====
-- What a restart and a consumed run do to the records of src/run-store.ts.
use cursor_claw.Base.{
  ℕ, ◌+◌, ◌-◌, ◌≡◌, ◌⊎◌, inl, inr, refl, ◌∙◌, Bool, true, false, ◌&&◌, ◌||◌, Option, none, some,
  List, [], ◌∷◌, String, arith, if◌then◌else◌, string_eq, ◌==◌, length, keep, any, take, Bool-cases,
  ltb,
}
use cursor_claw.Base.Dict.{
  get, set, delete, values, map_values, map_option, get-map_values, get-delete, get-set_self,
}
use cursor_claw.RunStore.{
  RunStatus, RunRecord, Store, pending, completed, failed, interrupted, is_pending, is_interrupted,
  is_consumed, interrupt, mark_in_flight_interrupted, list_interrupted_runs, get_run, visible,
  consume, consume_found, prune, persist, delete_all, sort_by_update,
}

records-if_persist : (b : Bool) (s : Store) → (if b then persist s else s).records ≡ s.records
unfolding persist
records-if_persist true s = refl
records-if_persist false s = refl

interrupted_by :
    (now : ℕ) (r : RunRecord) (st : RunStatus)
    → r.status ≡ st
    → (is_pending (interrupt now r) ≡ false)
      × (is_interrupted (interrupt now r) ≡ (is_interrupted r || is_pending r))
      × ((is_interrupted r && is_pending r) ≡ false)
unfolding interrupt is_pending is_interrupted
interrupted_by now r pending h = ground (arith, h)
interrupted_by now r completed h = ground (arith, h)
interrupted_by now r failed h = ground (arith, h)
interrupted_by now r interrupted h = ground (arith, h)

no_pending_left :
    (now : ℕ) (m : List (String × RunRecord))
    → any is_pending (values (map_values (interrupt now) m)) ≡ false
unfolding values map_values
no_pending_left now [] = refl
no_pending_left now ((k, r) ∷ m) =
    rw ((interrupted_by now r r.status refl).0, no_pending_left now m)

interrupted_grow :
    (now : ℕ) (m : List (String × RunRecord))
    → length (keep is_interrupted (values (map_values (interrupt now) m)))
      ≡ length (keep is_interrupted (values m)) + length (keep is_pending (values m))
unfolding values map_values
interrupted_grow now [] = omega arith
interrupted_grow now ((k, r) ∷ m) =
    let (left, now_so, apart) = interrupted_by now r r.status refl in
    ground (arith, left, now_so, apart, interrupted_grow now m)

-- What a restart leaves: no run is pending, the answer is the number of runs that were, every
-- record is the interrupted one of its run or the same as before, and the interrupted runs have
-- grown by that number.
pub mark_in_flight_interrupted_lem :
    (now : ℕ) (s : Store)
    → (any is_pending (values (mark_in_flight_interrupted now s).0.records) ≡ false)
      × ((mark_in_flight_interrupted now s).1 ≡ length (keep is_pending (values s.records)))
      × (length (list_interrupted_runs (mark_in_flight_interrupted now s).0)
          ≡ length (list_interrupted_runs s) + (mark_in_flight_interrupted now s).1)
      × ((run_id : String)
          → get run_id (mark_in_flight_interrupted now s).0.records
            ≡ map_option (interrupt now) (get run_id s.records))
unfolding mark_in_flight_interrupted list_interrupted_runs persist
mark_in_flight_interrupted_lem now s =
    let same =
      records-if_persist (ltb 0 (length (keep is_pending (values s.records))))
        (record s { records = map_values (interrupt now) s.records }) in
    (
      rw same (no_pending_left now s.records),
      refl,
      rw same (interrupted_grow now s.records),
      λ run_id. rw same (get-map_values (interrupt now) run_id s.records),
    )

get-delete_all :
    (run_id : String) (rs : List RunRecord) (m : List (String × RunRecord))
    → (get run_id (delete_all rs m) ≡ none) ⊎ (get run_id (delete_all rs m) ≡ get run_id m)
unfolding delete_all
get-delete_all run_id [] m = inr refl
get-delete_all run_id (r ∷ rs) m = elim (get-delete_all run_id rs (delete r.run_id m)) [
  | inl gone ↦ inl gone
  | inr same ↦ elim (Bool-cases (r.run_id == run_id)) [
    | inl e ↦ inl (same ∙ get-delete r.run_id run_id m ∙ rw e)
    | inr e ↦ inr (same ∙ get-delete r.run_id run_id m ∙ rw e)
  ]
]

-- The records that pruning deletes.
abbrev pruned : (limit : ℕ) → List (String × RunRecord) → List RunRecord
pruned limit m =
    let done = sort_by_update (keep is_consumed (values m)) in take (length done - limit) done

get_run-consume_found :
    (run_id : String) (now : ℕ) (o : Option RunRecord) (s : Store)
    → get run_id s.records ≡ o
    → get_run run_id (consume_found run_id now o s) ≡ none
unfolding get_run consume_found visible persist prune is_consumed
get_run-consume_found run_id now none s g = rw g
get_run-consume_found run_id now (some r) s g =
    let m = set run_id (record r { consumed_at = some now; updated_at = now }) s.records in
    elim (get-delete_all run_id (pruned s.max_completed_runs m) m) [
      | inl gone ↦ rw gone
      | inr same ↦ rw (
        same,
        get-set_self run_id (record r { consumed_at = some now; updated_at = now }) s.records,
      )
    ]

-- After `consume` the run cannot be read, whether the store had it or not and whether pruning has
-- dropped it or not.
pub get_run-consume :
    (run_id : String) (now : ℕ) (s : Store) → get_run run_id (consume run_id now s) ≡ none
unfolding consume
get_run-consume run_id now s = get_run-consume_found run_id now (get run_id s.records) s refl
