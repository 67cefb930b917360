-- ===== src/Gateway/Waiting.antt =====
-- `agent.wait` and `appendAssistantToThread` of src/gateway.ts, with the run store of RunStore.antt.
-- The threads are of any type that a reply can be appended to; `agent.wait` with `block`, which
-- awaits the promise of a run, is left out.
pub mod Once
pub mod Racing
use cursor_claw.Base.{
  ℕ, Bool, true, false, not, ◌&&◌, ◌||◌, Option, none, some, List, [], ◌∷◌, String, if◌then◌else◌,
  ◌==◌, string_eq, mem,
}
use cursor_claw.Base.Dict.{get, set, delete}
use cursor_claw.RunStore.{
  TurnResult, RunRecord, RunStatus, pending, completed, failed, interrupted, Store, get_run,
  consume,
}

-- The thread store: whether a reply has a text, whether the last message of a thread is this reply
-- (trimmed, by the assistant), and appending it.
pub record Threads {ℓ} (T : Type ℓ) : Type ℓ where
  pub has_text : TurnResult → Bool
  pub shows : (profile_id session_id : String) → TurnResult → T → Bool
  pub append : (profile_id session_id : String) → TurnResult → T → T

pub data PendingRun : Type 0 where
  running : PendingRun
  resolved : TurnResult → PendingRun
  rejected : (error : String) → PendingRun

-- `appended` are the runs whose reply was appended.
pub record Server {ℓ} (T : Type ℓ) : Type ℓ where
  pub pending_runs : List (String × PendingRun)
  pub appended : List String
  pub store : Store
  pub threads : T

pub data Answer : Type 0 where
  result : TurnResult → Answer
  still_pending : Answer
  not_found run_unavailable : Answer
  run_failed : (error : Option String) → Answer

module _ {ℓ} {T : Type ℓ} where
  abbrev pub consume_run : (run_id : String) (now : ℕ) → Server T → Server T
  consume_run run_id now s = record s { store = consume run_id now s.store }

  abbrev pub forget : (run_id : String) → Server T → Server T
  forget run_id s = record s { pending_runs = delete run_id s.pending_runs }

module _ {ℓ} {T : Type ℓ} (th : Threads T) where
  -- `appendAssistantToThread` up to its first await: whether it goes on.
  unfoldable pub claim_append : (run_id : String) → TurnResult → Server T → Server T × Bool
  claim_append run_id r s =
      if not (th.has_text r) || mem run_id s.appended
      then (s, false)
      else (record s { appended = run_id ∷ s.appended }, true)

  abbrev pub append_unless_shown :
      (profile_id session_id : String) → TurnResult → Server T → Server T
  append_unless_shown profile_id session_id r s =
      if th.shows profile_id session_id r s.threads
      then s
      else record s { threads = th.append profile_id session_id r s.threads }

  abbrev pub append_in : Option String → (session_id : String) → TurnResult → Server T → Server T
  append_in none session_id r s = s
  append_in (some profile_id) session_id r s =
      if profile_id == "" || session_id == ""
      then s
      else append_unless_shown profile_id session_id r s

  abbrev pub append_for : Option RunRecord → TurnResult → Server T → Server T
  append_for none r s = s
  append_for (some rec) r s = append_in rec.profile_id rec.session_id r s

  -- The rest of `appendAssistantToThread`.
  unfoldable pub finish_append : (run_id : String) → TurnResult → Server T → Server T
  finish_append run_id r s = append_for (get_run run_id s.store) r s

  abbrev pub append_claimed : (run_id : String) → TurnResult → Server T × Bool → Server T
  append_claimed run_id r (s, true) = finish_append run_id r s
  append_claimed run_id r (s, false) = s

  unfoldable pub append_assistant_to_thread : (run_id : String) → TurnResult → Server T → Server T
  unfolding claim_append finish_append
  append_assistant_to_thread run_id r s = append_claimed run_id r (claim_append run_id r s)

  -- A result goes to the thread, is consumed and answered.
  unfoldable pub deliver : (run_id : String) (now : ℕ) → TurnResult → Server T → Server T × Answer
  unfolding append_assistant_to_thread
  deliver run_id now r s =
      (consume_run run_id now (append_assistant_to_thread run_id r s), result r)

  abbrev pub persisted_result :
      (run_id : String) (now : ℕ)
      → RunRecord
      → RunStatus
      → Option TurnResult
      → Server T
      → Server T × Answer
  persisted_result run_id now rec completed (some r) s = deliver run_id now r s
  persisted_result run_id now rec completed none s =
      (consume_run run_id now s, run_failed rec.error)
  persisted_result run_id now rec pending r s = (s, run_unavailable)
  persisted_result run_id now rec failed r s = (consume_run run_id now s, run_failed rec.error)
  persisted_result run_id now rec interrupted r s = (consume_run run_id now s, run_failed rec.error)

  unfoldable pub wait_persisted :
      (run_id : String) (now : ℕ) → Option RunRecord → Server T → Server T × Answer
  unfolding deliver
  wait_persisted run_id now none s = (s, not_found)
  wait_persisted run_id now (some rec) s = persisted_result run_id now rec rec.status rec.result s

  unfoldable pub wait_found :
      (run_id : String) (now : ℕ) → Option PendingRun → Server T → Server T × Answer
  unfolding deliver wait_persisted
  wait_found run_id now none s = wait_persisted run_id now (get_run run_id s.store) s
  wait_found run_id now (some (resolved r)) s = deliver run_id now r (forget run_id s)
  wait_found run_id now (some (rejected e)) s =
      (consume_run run_id now (forget run_id s), run_failed (some e))
  wait_found run_id now (some running) s = (s, still_pending)

  unfoldable pub agent_wait : (run_id : String) (now : ℕ) → Server T → Server T × Answer
  unfolding wait_found
  agent_wait run_id now s = wait_found run_id now (get run_id s.pending_runs) s
