-- ===== src/Gateway/Waiting/Once.antt =====
-- How often src/gateway.ts hands out the result of a run.
use cursor_claw.Base.{
  ℕ, ◌≡◌, refl, ap, ◌∙◌, Bool, true, false, not, ◌||◌, Option, none, some, String, arith, string_eq,
  mem, inl, inr, Bool-cases, ==_refl,
}
use cursor_claw.Base.Dict.{get, get-delete}
use cursor_claw.RunStore.{
  TurnResult, RunRecord, RunStatus, pending, completed, failed, interrupted, get_run,
}
use cursor_claw.RunStore.Restart.{get_run-consume}
use cursor_claw.Gateway.Waiting.{
  Threads, PendingRun, running, resolved, rejected, Server, Answer, result, not_found, run_failed,
  claim_append, append_in, append_for, append_unless_shown, finish_append,
  append_assistant_to_thread, consume_run, forget, deliver, persisted_result, wait_persisted,
  wait_found, agent_wait,
}

-- An answer with the result of the run, or its error.
abbrev pub is_final : Answer → Bool
is_final (result r) = true
is_final (run_failed e) = true
is_final _ = false

module _ {ℓ} {T : Type ℓ} (th : Threads T) (run_id : String) where
  pending-unless_shown :
      (p q : String) (r : TurnResult) (s : Server T)
      → (append_unless_shown th p q r s).pending_runs ≡ s.pending_runs
  pending-unless_shown p q r s = ground arith

  pending-append_in :
      (o : Option String) (q : String) (r : TurnResult) (s : Server T)
      → (append_in th o q r s).pending_runs ≡ s.pending_runs
  pending-append_in none q r s = refl
  pending-append_in (some p) q r s = ground arith

  pending-append_for :
      (o : Option RunRecord) (r : TurnResult) (s : Server T)
      → (append_for th o r s).pending_runs ≡ s.pending_runs
  pending-append_for none r s = refl
  pending-append_for (some rec) r s = pending-append_in rec.profile_id rec.session_id r s

  pending-finish_append :
      (r : TurnResult) (s : Server T) → (finish_append th run_id r s).pending_runs ≡ s.pending_runs
  unfolding finish_append
  pending-finish_append r s = pending-append_for (get_run run_id s.store) r s

  pending-append_assistant :
      (r : TurnResult) (s : Server T)
      → (append_assistant_to_thread th run_id r s).pending_runs ≡ s.pending_runs
  unfolding append_assistant_to_thread claim_append
  pending-append_assistant r s = elim (Bool-cases (not (th.has_text r) || mem run_id s.appended)) [
    | inl done ↦ rw done
    | inr new ↦ rw new (pending-finish_append r _)
  ]

  -- A run that no further call finds.
  abbrev IsGone : Server T → Type 0
  IsGone s = (get run_id s.pending_runs ≡ none) × (get_run run_id s.store ≡ none)

  consumed-IsGone :
      (now : ℕ) (s : Server T)
      → get run_id s.pending_runs ≡ none
      → IsGone (consume_run run_id now s)
  consumed-IsGone now s e = (e, get_run-consume run_id now s.store)

  deliver-IsGone :
      (now : ℕ) (r : TurnResult) (s : Server T)
      → get run_id s.pending_runs ≡ none
      → IsGone (deliver th run_id now r s).0
  unfolding deliver
  deliver-IsGone now r s e =
      consumed-IsGone now (append_assistant_to_thread th run_id r s)
        (ap (get run_id) (pending-append_assistant r s) ∙ e)

  forgotten : (s : Server T) → get run_id (forget run_id s).pending_runs ≡ none
  forgotten s = get-delete run_id run_id s.pending_runs ∙ rw (==_refl run_id)

  persisted-IsGone :
      (now : ℕ) (rec : RunRecord) (st : RunStatus) (o : Option TurnResult) (s : Server T)
      → get run_id s.pending_runs ≡ none
      → is_final (persisted_result th run_id now rec st o s).1 ≡ true
      → IsGone (persisted_result th run_id now rec st o s).0
  persisted-IsGone now rec completed (some r) s e h = deliver-IsGone now r s e
  persisted-IsGone now rec completed none s e h = consumed-IsGone now s e
  persisted-IsGone now rec pending o s e h = absurd (let k : false ≡ true = h in cc)
  persisted-IsGone now rec failed o s e h = consumed-IsGone now s e
  persisted-IsGone now rec interrupted o s e h = consumed-IsGone now s e

  wait_persisted-IsGone :
      (now : ℕ) (o : Option RunRecord) (s : Server T)
      → get run_id s.pending_runs ≡ none
      → is_final (wait_persisted th run_id now o s).1 ≡ true
      → IsGone (wait_persisted th run_id now o s).0
  unfolding wait_persisted
  wait_persisted-IsGone now none s e h = absurd (let k : false ≡ true = h in cc)
  wait_persisted-IsGone now (some rec) s e h = persisted-IsGone now rec rec.status rec.result s e h

  wait_found-IsGone :
      (now : ℕ) (o : Option PendingRun) (s : Server T)
      → get run_id s.pending_runs ≡ o
      → is_final (wait_found th run_id now o s).1 ≡ true
      → IsGone (wait_found th run_id now o s).0
  unfolding wait_found
  wait_found-IsGone now none s e h = wait_persisted-IsGone now (get_run run_id s.store) s e h
  wait_found-IsGone now (some (resolved r)) s e h =
      deliver-IsGone now r (forget run_id s) (forgotten s)
  wait_found-IsGone now (some (rejected t)) s e h =
      consumed-IsGone now (forget run_id s) (forgotten s)
  wait_found-IsGone now (some running) s e h = absurd (let k : false ≡ true = h in cc)

  not_found_persisted :
      (later : ℕ) (s : Server T)
      → get_run run_id s.store ≡ none
      → wait_found th run_id later none s ≡ (s, not_found)
  unfolding wait_found wait_persisted
  not_found_persisted later s e = rw e

  not_found-IsGone :
      (later : ℕ) (s : Server T) → IsGone s → agent_wait th run_id later s ≡ (s, not_found)
  unfolding agent_wait
  not_found-IsGone later s g =
      ap (λ (o : Option PendingRun). wait_found th run_id later o s) g.0
      ∙ not_found_persisted later s g.1

  -- Once a call of `agent.wait` has answered the result of a run or its error, the next call for the
  -- run answers that it is not found, and changes nothing.
  pub agent_wait_again :
      (now later : ℕ) (s : Server T)
      → is_final (agent_wait th run_id now s).1 ≡ true
      → agent_wait th run_id later (agent_wait th run_id now s).0
        ≡ ((agent_wait th run_id now s).0, not_found)
  agent_wait_again now later s h =
      not_found-IsGone later (agent_wait th run_id now s).0
        (unfold agent_wait in wait_found-IsGone now (get run_id s.pending_runs) s refl h)
