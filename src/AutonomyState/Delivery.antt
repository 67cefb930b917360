-- ===== src/AutonomyState/Delivery.antt =====
-- Which intents of src/autonomy-state.ts are due, over deliveries and restarts.
use cursor_claw.Base.{
  ℕ, ◌≡◌, refl, ap, sym, ◌∙◌, true, false, not, List, [], ◌∷◌, ◌++◌, map, String, arith,
  if◌then◌else◌, string_eq, ◌==◌, Bool-cases, inl, inr, keep, keep-append, IsDistinct, mem,
  eq_of_==,
}
use cursor_claw.AutonomyState.{
  ProactiveIntent, Snapshot, Store, is_due, load, persist, to_raw, to_raw_intents,
  sanitize_snapshot, well_formed, queue_intent, list_pending_intents, mark_first, has_intent,
  mark_intent_sent,
}

abbrev pub ids : List ProactiveIntent → List String
ids is = map (λ i. i.id) is

abbrev pub others : (intent_id : String) → List ProactiveIntent → List ProactiveIntent
others intent_id is = keep (λ i. not (i.id == intent_id)) is

-- The store as another process finds it.
pub restarted : Snapshot → Store → Store
restarted before s = record { state = before; loaded = false; disk = s.disk }

others_absent :
    (intent_id : String) (t : ℕ) (is : List ProactiveIntent)
    → mem intent_id (ids is) ≡ false
    → others intent_id (keep (is_due t) is) ≡ keep (is_due t) is
others_absent intent_id t [] a = refl
others_absent intent_id t (i ∷ is) a = elim (Bool-cases (i.id == intent_id)) [
  | inl e ↦ ground (arith, a, e)
  | inr e ↦
      let rest = others_absent intent_id t is (ground (arith, a, e)) in
      elim (Bool-cases (is_due t i)) [ inl due ↦ rw (due, e, rest) | inr due ↦ rw (due, rest) ]
]

due-mark_first :
    (intent_id : String) (now t : ℕ) (is : List ProactiveIntent)
    → IsDistinct (ids is)
    → keep (is_due t) (mark_first intent_id now is) ≡ others intent_id (keep (is_due t) is)
unfolding mark_first
due-mark_first intent_id now t [] d = refl
due-mark_first intent_id now t (i ∷ is) d = elim (Bool-cases (i.id == intent_id)) [
  | inl e ↦
      let p = eq_of_== i.id intent_id e in
      let rest = others_absent intent_id t is (rw (sym p) d.0) in
      rw e (elim (Bool-cases (is_due t i)) [
        | inl due ↦ rw due (rw e (sym rest))
        | inr due ↦ rw due (sym rest)
      ])
  | inr e ↦
      let rest = due-mark_first intent_id now t is d.1 in
      rw e
        (elim (Bool-cases (is_due t i)) [ inl due ↦ rw (due, e, rest) | inr due ↦ rw (due, rest) ])
]

mark_first_absent :
    (intent_id : String) (is : List ProactiveIntent)
    → has_intent intent_id is ≡ false
    → mem intent_id (ids is) ≡ false
unfolding has_intent
mark_first_absent intent_id [] h = refl
mark_first_absent intent_id (i ∷ is) h = ground (arith, h, mark_first_absent intent_id is)

-- Marking an intent as sent takes it, and no other intent, from the intents that are due, at any
-- instant. The identifiers are distinct and the store is loaded.
pub list_pending_intents-mark_intent_sent :
    (intent_id : String) (now t : ℕ) (s : Store)
    → s.loaded ≡ true
    → IsDistinct (ids s.state.intents)
    → list_pending_intents t (mark_intent_sent intent_id now s)
      ≡ others intent_id (list_pending_intents t s)
unfolding list_pending_intents mark_intent_sent persist load
list_pending_intents-mark_intent_sent intent_id now t s l d =
    elim (Bool-cases (has_intent intent_id s.state.intents)) [
      | inl h ↦ simp (l, h) (due-mark_first intent_id now t s.state.intents d)
      | inr h ↦
          simp (l, h)
            (sym (
              others_absent intent_id t s.state.intents
                (mark_first_absent intent_id s.state.intents h)))
    ]

well_formed-to_raw_intents : (is : List ProactiveIntent) → well_formed (to_raw_intents is) ≡ is
unfolding well_formed
well_formed-to_raw_intents [] = refl
well_formed-to_raw_intents (i ∷ is) = ap (λ js. i ∷ js) (well_formed-to_raw_intents is)

-- An intent queued in a loaded store outlives the process: another process that finds the file lists
-- the intents that were due before and, once its time has come, the new one, after them.
pub list_pending_intents-queue_intent :
    (intent : ProactiveIntent) (now t : ℕ) (before : Snapshot) (s : Store)
    → s.loaded ≡ true
    → list_pending_intents t (restarted before (queue_intent intent now s))
      ≡ list_pending_intents t s ++ (if is_due t intent then intent ∷ [] else [])
unfolding list_pending_intents queue_intent persist load restarted sanitize_snapshot to_raw
list_pending_intents-queue_intent intent now t before s l = simp l (
    ap (keep (is_due t)) (well_formed-to_raw_intents (s.state.intents ++ (intent ∷ [])))
    ∙ keep-append (is_due t) s.state.intents (intent ∷ []))
