-- ===== src/Examples/Records.antt =====
-- The memory, the journal, the file queue and the idle scheduler at concrete inputs.
use cursor_claw.Base.{
  ℕ, ◌+◌, ◌≤◌, ◌≡◌, ◌≢◌, ◌⊎◌, ◌++◌, refl, true, false, none, some, List, [], ◌∷◌, arith, length,
  map, string_eq,
}
use cursor_claw.Base.Dict.{get}
use cursor_claw.Memory.{
  MemoryRecord, private_user, Format, RollingWindow, Store, split, header_lines, record_lines,
  chars, maybe_trim,
}
use cursor_claw.Memory.Trimming.{maybe_trim_lem}
use cursor_claw.Journal.{Journal, Disk, takes, no_write, append}
use cursor_claw.Journal as Journal
use cursor_claw.Journal.Chain.{append_all, all_false, append_all-after_failure}
use cursor_claw.MemoryQueue.Fifo.{Call, put, take_one, spec_answers}
use cursor_claw.FileQueue.{Backend}
use cursor_claw.FileQueue.Races.{Enqueue}
use cursor_claw.FileQueue.Calls.{answers, to_file, answers-spec_answers_files}
use cursor_claw.IdleScheduler.{Options, Scheduler}
use cursor_claw.IdleScheduler.Starting.{
  Event, World, activity, queues, ticks, settles, run, count, times_queued, run-activity,
}

abbrev note : MemoryRecord
note = record {
  id = "i";
  session_id = "s";
  category = "note";
  text = "t";
  timestamp = 0;
  sensitivity = private_user;
}

abbrev format : Format
format = record { stringify = λ r. b'j' ∷ []; parse = λ t. some note }

-- Three records after a line of the header, and prose between them.
abbrev line : List ℕ
line = b'-' ∷ b' ' ∷ b'j' ∷ []

abbrev three : Store
three = record {
  primary = record { lines = (b'#' ∷ []) ∷ line ∷ (b'p' ∷ []) ∷ line ∷ line ∷ []; tail = [] };
  archive = [];
  window = none;
}

abbrev window : RollingWindow
window = record { max_records = some 2; max_chars = some 7; has_archive = true }

maybe_trim_lem_example :
    (length (record_lines format (maybe_trim format (some window) three).primary) ≤ 2)
    × ((chars (header_lines format (split three.primary))
            + chars (record_lines format (maybe_trim format (some window) three).primary)
          ≤ 7)
        ⊎ (record_lines format (maybe_trim format (some window) three).primary ≡ []))
    × ((maybe_trim format (some window) three).archive
          ++ record_lines format (maybe_trim format (some window) three).primary
        ≡ [] ++ record_lines format three.primary)
maybe_trim_lem_example = maybe_trim_lem format window three 2 7 refl refl refl

abbrev sizes : Journal.Format ℕ
sizes = record { size = λ l. l; is_blank = λ l. false; at = λ l. some l }

abbrev journal : Journal ℕ
journal = record { file = some (5 ∷ []); rotated = none; chain_broken = false; max_bytes = 20 }

disk_refuses : no_write ≢ takes
disk_refuses = λ (e : no_write ≡ takes). cc

append_all-after_failure_example :
    append_all sizes ((8, takes) ∷ []) (append sizes 7 no_write journal).0
    ≡ ((append sizes 7 no_write journal).0, all_false sizes ((8, takes) ∷ []))
append_all-after_failure_example =
    append_all-after_failure sizes 7 no_write ((8, takes) ∷ []) journal disk_refuses

abbrev one_file : Backend ℕ
one_file = record { files = []; id_counter = 0 }

abbrev first_call : Enqueue ℕ
first_call = record { session_id = "a"; payload = 1; now = 10 }

abbrev second_call : Enqueue ℕ
second_call = record { session_id = "b"; payload = 2; now = 11 }

abbrev calls : List (Call ℕ)
calls = put "a" 1 10 ∷ put "b" 2 11 ∷ take_one "a" ∷ take_one "a" ∷ []

answers-spec_answers_files_example :
    answers (λ s. "f") calls one_file ≡ spec_answers (map (to_file (λ s. "f")) calls) (λ n. [])
unfolding get
answers-spec_answers_files_example =
    answers-spec_answers_files (λ s. "f") calls one_file (λ n. []) (λ n. refl)

abbrev scheduler : Scheduler
scheduler = record { last_activity_ms = 0; has_timer = true; running_jobs = 0; queue = "old" ∷ [] }

abbrev one_job : Options
one_job = record { idle_after_ms = 10; max_concurrent_jobs = 1 }

-- Of two jobs that are queued after the activity, one starts, settles, and the other one starts.
abbrev two_jobs : List Event
two_jobs = queues "new" ∷ queues "next" ∷ ticks 20 ∷ settles "new" ∷ ticks 21 ∷ []

abbrev world : World
world = record { scheduler = scheduler; under_way = [] }

run-activity_example :
    let r = run one_job (activity 5 ∷ two_jobs) world in
    (count "old" r.1 ≤ times_queued "old" two_jobs)
    × ((r.0.scheduler.running_jobs ≡ length r.0.under_way) × (length r.0.under_way ≤ 1))
run-activity_example = run-activity one_job 5 two_jobs world "old" refl (omega arith)
