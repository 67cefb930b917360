-- ===== src/FileQueue/Calls.antt =====
-- The backend of src/queue/file-backend.ts, one call at a time, as one first-in-first-out queue for
-- each file: the specification of MemoryQueue/Fifo.antt, with the names of the files.
use cursor_claw.Base.{
  suc, ◌≡◌, refl, sym, ap, ◌∙◌, Option, none, some, List, [], ◌∷◌, ◌++◌, map, String, string_eq,
  ◌==◌, inl, inr, Bool-cases, eq_of_==,
}
use cursor_claw.Base.Dict.{or_else, get, get-set}
use cursor_claw.MemoryQueue.{Item}
use cursor_claw.MemoryQueue.Fifo.{
  Call, put, take_one, Queues, payloads, payloads-append, put_at, head_of, tail_of, spec_step,
  spec_answers,
}
use cursor_claw.FileQueue.{Backend, Write, load, begin_enqueue, take_first, begin_dequeue, save}

module _ {ℓ} {P : Type ℓ} (safe : String → String) where
  abbrev pub taken : Option (Write P × P) → Backend P → Backend P × Option P
  taken none b = (b, none)
  taken (some (w, p)) b = (save w b, some p)

  pub step : Call P → Backend P → Backend P × Option P
  unfolding begin_enqueue begin_dequeue
  step (put session_id payload now) b =
      let (b', w, id) = begin_enqueue safe session_id payload now b in (save w b', none)
  step (take_one session_id) b = taken (begin_dequeue safe session_id b) b

  pub answers : List (Call P) → Backend P → List (Option P)
  answers [] b = []
  answers (c ∷ cs) b = let (b', r) = step c b in r ∷ answers cs b'

  -- The call of a queue by the name of its file.
  abbrev pub to_file : Call P → Call P
  to_file (put session_id payload now) = put (safe session_id) payload now
  to_file (take_one session_id) = take_one (safe session_id)

  abbrev pub Holds : Backend P → Queues P → Type ℓ
  Holds b q = (name : String) → payloads (or_else (get name b.files) []) ≡ q name

  get-save :
      (w : Write P) (b : Backend P) (q : Queues P) (name : String)
      → Holds b q
      → payloads (or_else (get name (save w b).files) []) ≡ put_at w.name (payloads w.items) q name
  unfolding save put_at
  get-save w b q name h =
      rw (get-set w.name name w.items b.files)
        (elim (Bool-cases (w.name == name)) [ inl same ↦ rw same | inr other ↦ rw other (h name) ])

  unchanged :
      (b : Backend P) (q : Queues P) (n : String)
      → Holds b q
      → q n ≡ []
      → Holds b (put_at n (tail_of (q n)) q)
  unfolding put_at tail_of
  unchanged b q n h e name = elim (Bool-cases (n == name)) [
    | inl same ↦ rw (same, e) (rw (← eq_of_== n name same) (h n ∙ e))
    | inr other ↦ rw other (h name)
  ]

  take-Holds :
      (s : String) (xs : List (Item P)) (b : Backend P) (q : Queues P)
      → Holds b q
      → payloads xs ≡ q (safe s)
      → Holds (taken (take_first safe s xs) b).0 (put_at (safe s) (tail_of (q (safe s))) q)
        × ((taken (take_first safe s xs) b).1 ≡ head_of (q (safe s)))
  unfolding tail_of head_of
  take-Holds s [] b q h e = (unchanged b q (safe s) h (sym e), rw (← e))
  take-Holds s (x ∷ xs) b q h e =
      (λ name. rw (← e) (get-save (record { name = safe s; items = xs }) b q name h), rw (← e))

  step-Holds :
      (c : Call P) (b : Backend P) (q : Queues P)
      → Holds b q
      → Holds (step c b).0 (spec_step (to_file c) q).0
        × ((step c b).1 ≡ (spec_step (to_file c) q).1)
  unfolding step spec_step begin_enqueue begin_dequeue load
  step-Holds (put s p now) b q h = (
    λ name.
        get-save _ (record b { id_counter = suc b.id_counter }) q name h
        ∙ ap (λ (xs : List P). put_at (safe s) xs q name)
            (payloads-append (or_else (get (safe s) b.files) []) _
              ∙ ap (λ (xs : List P). xs ++ p ∷ []) (h (safe s))),
    refl,
  )
  step-Holds (take_one s) b q h =
      take-Holds s (or_else (get (safe s) b.files) []) b q h (h (safe s))

  -- Calls that do not overlap answer what separate first-in-first-out queues answer, one for each
  -- file: sessions share a queue exactly when they have the same file name. The queues hold what
  -- the files hold at first, also those that another process has left.
  pub answers-spec_answers_files :
      (cs : List (Call P)) (b : Backend P) (q : Queues P)
      → Holds b q
      → answers cs b ≡ spec_answers (map to_file cs) q
  unfolding answers spec_answers
  answers-spec_answers_files [] b q h = refl
  answers-spec_answers_files (c ∷ cs) b q h =
      let (next, same) = step-Holds c b q h in
      rw (same, answers-spec_answers_files cs (step c b).0 (spec_step (to_file c) q).0 next)
