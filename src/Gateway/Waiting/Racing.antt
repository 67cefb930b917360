-- ===== src/Gateway/Waiting/Racing.antt =====
-- How often src/gateway.ts appends the reply of a run to a thread, when calls overlap.
use cursor_claw.Base.{
  ℕ, ◌+◌, ◌≤◌, ◌≡◌, refl, ap, Bool, true, false, not, ◌||◌, Option, none, some, List, [], ◌∷◌, ◌++◌,
  String, arith, ◌==◌, string_eq, mem, inl, inr, Bool-cases,
}
use cursor_claw.RunStore.{TurnResult, RunRecord, Store, get_run}
use cursor_claw.Gateway.Waiting.{
  Threads, Server, claim_append, finish_append, append_unless_shown, append_in, append_for,
}

-- What happens: a call of `appendAssistantToThread` begins, the oldest one under way finishes, or
-- another part of the server changes the store or the threads.
pub data Event {ℓ} (T : Type ℓ) : Type ℓ where
  begins : (run_id : String) → TurnResult → Event T
  finishes : Event T
  changes : (Store → Store) → (T → T) → Event T

-- The server, the calls under way, and the runs for which a call has finished.
pub record State {ℓ} (T : Type ℓ) : Type ℓ where
  pub server : Server T
  pub under_way : List (String × TurnResult)
  pub finished : List String

abbrev pub bit : Bool → ℕ
bit true = 1
bit false = 0

abbrev pub calls_for : String → List (String × TurnResult) → ℕ
calls_for k [] = 0
calls_for k ((run_id, r) ∷ cs) = bit (run_id == k) + calls_for k cs

abbrev pub times : String → List String → ℕ
times k [] = 0
times k (x ∷ xs) = bit (x == k) + times k xs

bit-le : (b : Bool) → bit b ≤ 1
bit-le true = omega arith
bit-le false = omega arith

module _ {ℓ} {T : Type ℓ} (th : Threads T) where
  abbrev begun : (run_id : String) → TurnResult → Server T × Bool → State T → State T
  begun run_id r (s, true) w = record w { server = s; under_way = w.under_way ++ (run_id, r) ∷ [] }
  begun run_id r (s, false) w = record w { server = s }

  abbrev ended : List (String × TurnResult) → State T → State T
  ended [] w = w
  ended ((run_id, r) ∷ cs) w = record {
    server = finish_append th run_id r w.server;
    under_way = cs;
    finished = run_id ∷ w.finished;
  }

  pub step : Event T → State T → State T
  unfolding claim_append finish_append
  step (begins run_id r) w = begun run_id r (claim_append th run_id r w.server) w
  step finishes w = ended w.under_way w
  step (changes f g) w = record w {
    server = record w.server { store = f w.server.store; threads = g w.server.threads };
  }

  pub run : List (Event T) → State T → State T
  unfolding step
  run [] w = w
  run (e ∷ es) w = run es (step e w)

  -- The calls for a run that are under way or have finished, of which there is one when the run is
  -- marked as appended.
  abbrev pub IsBounded : String → State T → Type 0
  IsBounded k w = calls_for k w.under_way + times k w.finished ≤ bit (mem k w.server.appended)

  calls_for-append :
      (k : String) (cs : List (String × TurnResult)) (i : String) (r : TurnResult)
      → calls_for k (cs ++ (i, r) ∷ []) ≡ calls_for k cs + bit (i == k)
  calls_for-append k [] i r = omega arith
  calls_for-append k ((j, q) ∷ cs) i r = omega (arith, calls_for-append k cs i r)

  begins-IsBounded :
      (k i : String) (r : TurnResult) (w : State T)
      → IsBounded k w
      → IsBounded k (step (begins i r) w)
  unfolding step claim_append
  begins-IsBounded k i r w h = elim (Bool-cases (not (th.has_text r) || mem i w.server.appended)) [
    | inl done ↦ rw done h
    | inr new ↦
        rw (new, calls_for-append k w.under_way i r)
          (ground (arith, h, new, string_eq.is_same_iff i k))
  ]

  appended-unless_shown :
      (p q : String) (r : TurnResult) (s : Server T)
      → (append_unless_shown th p q r s).appended ≡ s.appended
  appended-unless_shown p q r s = ground arith

  appended-append_in :
      (o : Option String) (q : String) (r : TurnResult) (s : Server T)
      → (append_in th o q r s).appended ≡ s.appended
  appended-append_in none q r s = refl
  appended-append_in (some p) q r s = ground arith

  appended-append_for :
      (o : Option RunRecord) (r : TurnResult) (s : Server T)
      → (append_for th o r s).appended ≡ s.appended
  appended-append_for none r s = refl
  appended-append_for (some rec) r s = appended-append_in rec.profile_id rec.session_id r s

  appended-finish_append :
      (i : String) (r : TurnResult) (s : Server T) → (finish_append th i r s).appended ≡ s.appended
  unfolding finish_append
  appended-finish_append i r s = appended-append_for (get_run i s.store) r s

  finishes-IsBounded :
      (k : String) (cs : List (String × TurnResult)) (w : State T)
      → w.under_way ≡ cs
      → IsBounded k w
      → IsBounded k (ended cs w)
  finishes-IsBounded k [] w e h = h
  finishes-IsBounded k ((i, r) ∷ cs) w e h =
      rw (appended-finish_append i r w.server) (omega (arith, h, ap (calls_for k) e))

  run-IsBounded :
      (k : String) (es : List (Event T)) (w : State T) → IsBounded k w → IsBounded k (run es w)
  unfolding run
  run-IsBounded k [] w h = h
  run-IsBounded k (begins i r ∷ es) w h =
      run-IsBounded k es (step (begins i r) w) (begins-IsBounded k i r w h)
  run-IsBounded k (finishes ∷ es) w h =
      run-IsBounded k es (step finishes w)
        (unfold step in finishes-IsBounded k w.under_way w refl h)
  run-IsBounded k (changes f g ∷ es) w h =
      run-IsBounded k es (step (changes f g) w) (unfold step in h)

  -- However the calls of `appendAssistantToThread` overlap with each other and with changes of the
  -- run store and the threads, at most one of those for a run goes past its check, so that its reply
  -- is appended to a thread at most once while the server runs.
  pub times-run-le :
      (k : String) (es : List (Event T)) (w : State T)
      → w.under_way ≡ []
      → w.finished ≡ []
      → times k (run es w).finished ≤ 1
  times-run-le k es w e f =
      let start : IsBounded k w = simp (e, f) (omega arith) in
      omega (arith, run-IsBounded k es w start, bit-le (mem k (run es w).server.appended))
