-- ===== src/MemoryQueue/Fifo.antt =====
-- The backend of src/queue/in-memory-backend.ts as one first-in-first-out queue for each session.
use cursor_claw.Base.{
  ℕ, suc, ◌≡◌, refl, sym, ap, ◌∙◌, Option, none, some, List, [], ◌∷◌, ◌++◌, map, String,
  if◌then◌else◌, string_eq, ◌==◌, inl, inr, Bool-cases, eq_of_==,
}
use cursor_claw.Base.Dict.{or_else, get, get-set, get-delete}
use cursor_claw.MemoryQueue.{Item, Backend, enqueue, dequeue, dequeue_found, write_back}

pub data Call {ℓ} (P : Type ℓ) : Type ℓ where
  put : (session_id : String) (payload : P) (now : ℕ) → Call P
  take_one : (session_id : String) → Call P

-- The specification: one list of payloads for each session.
abbrev pub Queues {ℓ} : Type ℓ → Type ℓ
Queues P = String → List P

module _ {ℓ} {P : Type ℓ} where
  -- The items of a session, oldest first.
  unfoldable pub waiting : String → Backend P → List (Item P)
  waiting session_id b = or_else (get session_id b.sessions) []

  -- What a call answers: nothing for `enqueue`, whose identifier is not compared here.
  pub step : Call P → Backend P → Backend P × Option P
  unfolding enqueue dequeue
  step (put session_id payload now) b = ((enqueue session_id payload now b).0, none)
  step (take_one session_id) b = dequeue session_id b

  pub answers : List (Call P) → Backend P → List (Option P)
  answers [] b = []
  answers (c ∷ cs) b = let (b', r) = step c b in r ∷ answers cs b'

  unfoldable pub put_at : String → List P → Queues P → String → List P
  put_at session_id xs q t = if session_id == t then xs else q t

  unfoldable pub head_of : List P → Option P
  head_of [] = none
  head_of (x ∷ xs) = some x

  unfoldable pub tail_of : List P → List P
  tail_of [] = []
  tail_of (x ∷ xs) = xs

  unfoldable pub spec_step : Call P → Queues P → Queues P × Option P
  unfolding put_at head_of tail_of
  spec_step (put session_id payload now) q =
      (put_at session_id (q session_id ++ (payload ∷ [])) q, none)
  spec_step (take_one session_id) q =
      (put_at session_id (tail_of (q session_id)) q, head_of (q session_id))

  unfoldable pub spec_answers : List (Call P) → Queues P → List (Option P)
  spec_answers [] q = []
  spec_answers (c ∷ cs) q = let (q', r) = spec_step c q in r ∷ spec_answers cs q'

  abbrev pub payloads : List (Item P) → List P
  payloads xs = map (λ x. x.payload) xs

  abbrev pub Refines : Backend P → Queues P → Type ℓ
  Refines b q = (t : String) → payloads (waiting t b) ≡ q t

  pub payloads-append :
      (xs : List (Item P)) (x : Item P)
      → payloads (xs ++ (x ∷ [])) ≡ payloads xs ++ (x.payload ∷ [])
  payloads-append [] x = refl
  payloads-append (y ∷ xs) x = ap (λ zs. y.payload ∷ zs) (payloads-append xs x)

  waiting-write_back :
      (s t : String) (xs : List (Item P)) (b : Backend P)
      → waiting t (write_back s xs b) ≡ (if s == t then xs else waiting t b)
  unfolding waiting write_back
  waiting-write_back s t [] b =
      rw (get-delete s t b.sessions) (elim (Bool-cases (s == t)) [ inl e ↦ rw e | inr e ↦ rw e ])
  waiting-write_back s t (x ∷ xs) b =
      rw (get-set s t (x ∷ xs) b.sessions)
        (elim (Bool-cases (s == t)) [ inl e ↦ rw e | inr e ↦ rw e ])

  waiting-enqueue :
      (s t : String) (p : P) (now : ℕ) (b : Backend P)
      → payloads (waiting t (enqueue s p now b).0)
        ≡ (if s == t then payloads (waiting s b) ++ (p ∷ []) else payloads (waiting t b))
  unfolding waiting enqueue
  waiting-enqueue s t p now b =
      rw
        (get-set s t
          (waiting s b
            ++ (record { id = record { counter = suc b.id_counter; at = now }; payload = p } ∷ []))
          b.sessions)
        (elim (Bool-cases (s == t)) [
          | inl e ↦ rw e (payloads-append (waiting s b) _)
          | inr e ↦ rw e
        ])

  waiting-empty :
      (s t : String) (b : Backend P)
      → waiting s b ≡ []
      → (payloads (waiting t b)
          ≡ (if s == t then tail_of (payloads (waiting s b)) else payloads (waiting t b)))
        × (none ≡ head_of (payloads (waiting s b)))
  unfolding tail_of head_of
  waiting-empty s t b h = rw h (elim (Bool-cases (s == t)) [
    | inl e ↦ (rw e (rw (sym (eq_of_== s t e), h)), refl)
    | inr e ↦ (rw e, refl)
  ])

  waiting-taken :
      (s t : String) (xs : List (Item P)) (b : Backend P)
      → payloads (if s == t then xs else waiting t b)
        ≡ (if s == t then payloads xs else payloads (waiting t b))
  waiting-taken s t xs b = elim (Bool-cases (s == t)) [ inl e ↦ rw e | inr e ↦ rw e ]

  waiting-dequeue_found :
      (s t : String) (o : Option (List (Item P))) (b : Backend P)
      → get s b.sessions ≡ o
      → (payloads (waiting t (dequeue_found s o b).0)
          ≡ (if s == t then tail_of (payloads (waiting s b)) else payloads (waiting t b)))
        × ((dequeue_found s o b).1 ≡ head_of (payloads (waiting s b)))
  unfolding waiting dequeue_found tail_of head_of
  waiting-dequeue_found s t none b g = waiting-empty s t b (rw g)
  waiting-dequeue_found s t (some []) b g = waiting-empty s t b (rw g)
  waiting-dequeue_found s t (some (x ∷ xs)) b g =
      rw (g, waiting-write_back s t xs b) (waiting-taken s t xs b, refl)

  waiting-dequeue :
      (s t : String) (b : Backend P)
      → (payloads (waiting t (dequeue s b).0)
          ≡ (if s == t then tail_of (payloads (waiting s b)) else payloads (waiting t b)))
        × ((dequeue s b).1 ≡ head_of (payloads (waiting s b)))
  unfolding dequeue
  waiting-dequeue s t b = waiting-dequeue_found s t (get s b.sessions) b refl

  Refines-step :
      (c : Call P) (b : Backend P) (q : Queues P)
      → Refines b q
      → Refines (step c b).0 (spec_step c q).0 × ((step c b).1 ≡ (spec_step c q).1)
  unfolding step spec_step put_at
  Refines-step (put s p now) b q r = (λ t. rw (waiting-enqueue s t p now b, r s, r t), refl)
  Refines-step (take_one s) b q r =
      (λ t. (waiting-dequeue s t b).0 ∙ rw (r s, r t), (waiting-dequeue s s b).1 ∙ ap head_of (r s))

  -- Whatever the order of the calls and the sessions, the calls of a backend answer what separate
  -- first-in-first-out queues answer, one for each session, that hold the same payloads at first.
  pub answers-spec_answers :
      (cs : List (Call P)) (b : Backend P) (q : Queues P)
      → Refines b q
      → answers cs b ≡ spec_answers cs q
  unfolding answers spec_answers
  answers-spec_answers [] b q r = refl
  answers-spec_answers (c ∷ cs) b q r =
      let (next, same) = Refines-step c b q r in
      rw (same, answers-spec_answers cs (step c b).0 (spec_step c q).0 next)
