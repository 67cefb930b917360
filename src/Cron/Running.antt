-- ===== src/Cron/Running.antt =====
-- Ticks that overlap: how many jobs run at once, and that no job runs twice at a time.
use cursor_claw.Base.{
  All, to_All, of_All, ℕ, ◌-◌, ◌≤◌, ◌<◌, ◌≡◌, refl, sym, ◌∙◌, ap, Bool, true, false, not, Option,
  none, some, List, ◌∷◌, String, arith, leb, ◌==◌, string_eq, keep, mem, length, IsDistinct,
  length-keep_ne, mem-keep_ne, keep-IsDistinct, Bool-cases, inl, inr,
}
use cursor_claw.Base.Dict.{get, set, get-set, get-set_ne}
use cursor_claw.Cron.{
  CronParser, Job, Record, Service, Next, throws, next, Due, due_throws, due, is_due, due_stored,
  due_at, next_of, start_run, begin_due, begin_record, begin, finish, finish_record, finished,
  add_job, load_state,
}

abbrev running : Option Record → Bool
running none = false
running (some r) = r.running

abbrev pub is_running : String → Service → Bool
is_running id s = running (get id s.jobs)

module _ (parser : CronParser) where
  -- One operation of one of the ticks under way, or of `addJob` with a fresh id.
  pub data Step (s : Service) : Service → Type 0 where
    begins : (id : String) (now : ℕ) → Step s (begin parser id now s).0
    finishes :
        (id : String) (now : ℕ) (success : Bool)
        → mem id s.in_flight ≡ true
        → Step s (finish parser id now success s)
    adds : (now : ℕ) (job : Job) → get job.id s.jobs ≡ none → Step s (add_job parser now job s)

  pub data Reach (s : Service) : Service → Type 0 where
    here : Reach s s
    then_step : {t u : Service} → Reach s t → Step t u → Reach s u

  abbrev Keeps : Record → Due → Type 0
  Keeps r due_throws = Unit
  Keeps r (due r' b) = r'.running ≡ r.running

  due_at-Keeps : (now : ℕ) (r : Record) (n : Next) → Keeps r (due_at now r n)
  due_at-Keeps now r throws = tt
  due_at-Keeps now r (next none) = refl
  due_at-Keeps now r (next (some n)) = refl

  is_due-Keeps : (now : ℕ) (r : Record) (o : Option ℕ) → Keeps r (due_stored parser now r o)
  is_due-Keeps now r (some n) = refl
  is_due-Keeps now r none = due_at-Keeps now r (next_of parser r.def (now - 1))

  -- What `begin` does: nothing, or it stores a time of a job that does not run, or it starts one.
  module _ {ℓ} (P : Service → Type ℓ) (id : String) (s : Service) (same : P s)
      (stored : (r : Record)
        → r.running ≡ false
        → is_running id s ≡ false
        → P (record s { jobs = set id r s.jobs }))
      (started : (r : Record)
        → is_running id s ≡ false
        → s.active_runs < s.max_concurrent_runs
        → P (start_run id r s)) where
    begin_due_cases :
        (r : Record) (d : Due)
        → Keeps r d
        → r.running ≡ false
        → is_running id s ≡ false
        → s.active_runs < s.max_concurrent_runs
        → P (begin_due id d s).0
    unfolding begin_due
    begin_due_cases r due_throws k idle free room = same
    begin_due_cases r (due r' false) k idle free room = stored r' (k ∙ idle) free
    begin_due_cases r (due r' true) k idle free room = started r' free room

    begin_record_cases :
        (now : ℕ) (o : Option Record)
        → get id s.jobs ≡ o
        → s.active_runs < s.max_concurrent_runs
        → P (begin_record parser id now o s).0
    unfolding begin_record is_due
    begin_record_cases now none e room = same
    begin_record_cases now (some r) e room = elim (Bool-cases r.running) [
      | inl busy ↦ rw busy same
      | inr idle ↦
          simp idle
            (begin_due_cases r _ (is_due-Keeps now r r.def.next_run_at) idle (rw e idle) room)
    ]

    pub begin_cases : (now : ℕ) → P (begin parser id now s).0
    unfolding begin
    begin_cases now = elim (Bool-cases (leb s.max_concurrent_runs s.active_runs)) [
      | inl full ↦ rw full same
      | inr room ↦ rw room (begin_record_cases now (get id s.jobs) refl (ground arith))
    ]

-- The counter is the number of runs under way and within the limit, and each of them is of another
-- job, which is marked as running.
pub record Inv (s : Service) : Type 0 where
  pub counted : s.active_runs ≡ length s.in_flight
  pub bounded : s.active_runs ≤ s.max_concurrent_runs
  pub distinct : IsDistinct s.in_flight
  pub marked : All (λ k. is_running k s ≡ true) s.in_flight

is_marked : (s : Service) → Inv s → (k : String) → mem k s.in_flight ≡ true → is_running k s ≡ true
is_marked s v k m = of_All (λ k. is_running k s ≡ true) s.in_flight v.marked k m

module _ (parser : CronParser) where
  not_in_flight :
      (id : String) (s : Service) → Inv s → is_running id s ≡ false → mem id s.in_flight ≡ false
  not_in_flight id s v idle = elim (Bool-cases (mem id s.in_flight)) [
    | inl busy ↦ cc (is_marked s v id busy)
    | inr free ↦ free
  ]

  begin-Inv : (id : String) (now : ℕ) (s : Service) → Inv s → Inv (begin parser id now s).0
  begin-Inv id now s v =
      begin_cases parser Inv id s v
        (λ r idle free. record {
          counted = v.counted;
          bounded = v.bounded;
          distinct = v.distinct;
          marked =
              to_All (λ k. running (get k (set id r s.jobs)) ≡ true) s.in_flight
                (λ k m.
                  rw
                    (get-set_ne id k r s.jobs
                      (λ same. cc (is_marked s v k m, ap (λ j. is_running j s) same)))
                    (is_marked s v k m));
        })
        (λ r free room. record {
          counted = omega (arith, v.counted);
          bounded = omega arith;
          distinct = (not_in_flight id s v free, v.distinct);
          marked =
              to_All (λ k. running (get k (set id (record r { running = true }) s.jobs)) ≡ true)
                (id ∷ s.in_flight)
                (λ k m. elim (Bool-cases (id == k)) [
                  | inl same ↦ rw (get-set id k (record r { running = true }) s.jobs, same)
                  | inr other ↦
                      rw (get-set id k (record r { running = true }) s.jobs, other)
                        (is_marked s v k (rw other at m))
                ]);
        })
        now

  -- Another run that is left is still marked.
  still_marked :
      (id k : String) (s : Service)
      → Inv s
      → mem k (keep (λ j. not (id == j)) s.in_flight) ≡ true
      → ((id == k) ≡ false) × (is_running k s ≡ true)
  still_marked id k s v m =
      let both = sym (mem-keep_ne id k s.in_flight) ∙ m in
      let other : (id == k) ≡ false = ground (arith, both) in
      let there : mem k s.in_flight ≡ true = ground (arith, both) in (other, is_marked s v k there)

  finish_record-Inv :
      (id : String) (now : ℕ) (success : Bool) (o : Option Record) (s : Service)
      → Inv s
      → mem id s.in_flight ≡ true
      → Inv (finish_record parser id now success o s)
  unfolding finish_record
  finish_record-Inv id now success none s v m = record {
    counted = omega (arith, v.counted, length-keep_ne id s.in_flight v.distinct m);
    bounded = omega (arith, v.bounded);
    distinct = keep-IsDistinct id s.in_flight v.distinct;
    marked = to_All _ _ (λ k h. (still_marked id k s v h).1);
  }
  finish_record-Inv id now success (some r) s v m = record {
    counted = omega (arith, v.counted, length-keep_ne id s.in_flight v.distinct m);
    bounded = omega (arith, v.bounded);
    distinct = keep-IsDistinct id s.in_flight v.distinct;
    marked = to_All _ _ (λ k h.
        let (other, busy) = still_marked id k s v h in
        rw (get-set id k (finished parser now success r) s.jobs, other) busy);
  }

  finish-Inv :
      (id : String) (now : ℕ) (success : Bool) (s : Service)
      → Inv s
      → mem id s.in_flight ≡ true
      → Inv (finish parser id now success s)
  unfolding finish
  finish-Inv id now success s v m = finish_record-Inv id now success (get id s.jobs) s v m

  add_job-Inv :
      (now : ℕ) (job : Job) (s : Service)
      → get job.id s.jobs ≡ none
      → Inv s
      → Inv (add_job parser now job s)
  unfolding add_job
  add_job-Inv now job s fresh v = record {
    counted = v.counted;
    bounded = v.bounded;
    distinct = v.distinct;
    marked = to_All _ _ (λ k m.
        rw (get-set_ne job.id k _ s.jobs (λ same. cc (is_marked s v k m, same, fresh)))
          (is_marked s v k m));
  }

  Step-Inv : {s t : Service} → Step parser s t → Inv s → Inv t
  Step-Inv {s} (begins id now) v = begin-Inv id now s v
  Step-Inv {s} (finishes id now success m) v = finish-Inv id now success s v m
  Step-Inv {s} (adds now job fresh) v = add_job-Inv now job s fresh v

  load_state-Inv : (max_runs : ℕ) (file : List Record) → Inv (load_state max_runs file)
  unfolding load_state
  load_state-Inv max_runs file = record {
    counted = refl;
    bounded = omega arith;
    distinct = tt;
    marked = tt;
  }

  Reach-Inv : {s t : Service} → Inv s → Reach parser s t → Inv t
  Reach-Inv v here = v
  Reach-Inv v (then_step r st) = Step-Inv st (Reach-Inv v r)

  -- However the ticks of a process interleave, `activeRuns` is the number of runs under way, it never
  -- passes `maxConcurrentRuns`, and no job has two runs under way.
  pub Reach-load_state-Inv :
      (max_runs : ℕ) (file : List Record) {t : Service}
      → Reach parser (load_state max_runs file) t
      → Inv t
  Reach-load_state-Inv max_runs file r = Reach-Inv (load_state-Inv max_runs file) r
