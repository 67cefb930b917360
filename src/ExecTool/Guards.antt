-- ===== src/ExecTool/Guards.antt =====
-- What holds of a command that `createExecTool` (src/tools.ts) hands to the sandbox.
use cursor_claw.Base.{
  ℕ, ◌≡◌, refl, Bool, true, false, ◌||◌, ◌&&◌, not, Option, none, some, List, [], ◌∷◌, String, ◌==◌,
  ==_refl, string_eq, mem, any, leb, arith, Bool-cases, inl, inr, list_beq, list_beq_iff,
}
use cursor_claw.Base.Dict.{or_else, map_option}
use cursor_claw.Capabilities.{Intent, read_only, privilege_impacting}
use cursor_claw.Approvals.{Input}
use cursor_claw.Gate.{intent_eq}
use cursor_claw.ExecTool.{
  Platform, classify_command_intent, is_destructive_command, path_under_profile_root, Call, Options,
  destructive_plan, bin_plan, intent_plan, Outcome, destructive_unapproved, bin_denied,
  intent_unapproved, runs, Guarded, input, non_empty, choose_cwd, args_under_profile, run_command,
  ask, check_intent, check_bin, check_destructive, execute,
}

-- The gate approved a question of the call that has this intent and this plan.
abbrev pub approved_for : Call → Intent → (plan : String) → List (Input × Bool) → Bool
approved_for c intent plan asked =
    any (λ q. q.1 && (q.0.tool == "exec" && (q.0.intent == intent && q.0.plan == plan))) asked

abbrev pub is_under : Platform → (profile_root : Option String) → (path : String) → Bool
is_under p none path = true
is_under p (some profile_root) path = path_under_profile_root p path profile_root

module _ {S : Type 0} (o : Options S) (p : Platform) (c : Call) where
  abbrev pub bin_ok : (bin : String) → List (Input × Bool) → Bool
  bin_ok bin asked =
      mem bin o.allowed_bins
      || approved_for c (classify_command_intent p c.command) (bin_plan bin) asked

  abbrev pub intent_ok : List (Input × Bool) → Bool
  intent_ok asked =
      let intent = classify_command_intent p c.command in
      intent == read_only || approved_for c intent (intent_plan intent) asked

  abbrev pub destructive_ok : List (Input × Bool) → Bool
  destructive_ok asked =
      not (is_destructive_command p c.command)
      || (o.gate.supports_destructive_approval
          && approved_for c privilege_impacting destructive_plan asked)

  abbrev pub place_ok : (bin_args : List String) (cwd : String) → Bool
  place_ok bin_args cwd =
      let root = non_empty c.profile_root in
      is_under p root cwd && args_under_profile p root cwd bin_args

  -- What a run of a command needs; another outcome needs nothing.
  abbrev pub is_guarded : Outcome → List (Input × Bool) → Bool
  is_guarded (runs bin bin_args cwd) asked =
      list_beq (p.words c.command) (bin ∷ bin_args)
      && (bin_ok bin asked && (intent_ok asked && (destructive_ok asked && place_ok bin_args cwd)))
  is_guarded _ asked = true

  abbrev IsGuarded : Guarded S → Type 0
  IsGuarded g = is_guarded g.outcome g.asked ≡ true

  choose_cwd-is_under :
      ((path : String) → p.resolve (p.resolve path) ≡ p.resolve path)
      → (profile_root cwd : Option String)
      → is_under p profile_root (choose_cwd p profile_root cwd) ≡ true
  unfolding choose_cwd path_under_profile_root
  choose_cwd-is_under idem none cwd = refl
  choose_cwd-is_under idem (some root) cwd =
      let base = p.resolve root in
      let requested = or_else (map_option (p.resolve_from base) cwd) base in
      elim (Bool-cases (path_under_profile_root p requested base)) [
        | inl e ↦ rw e (rw (idem root) at e)
        | inr e ↦ rw e (rw (idem root, ==_refl base))
      ]

  run_command-IsGuarded :
      ((path : String) → p.resolve (p.resolve path) ≡ p.resolve path)
      → (bin : String) (bin_args : List String) (s : S) (asked : List (Input × Bool))
      → list_beq (p.words c.command) (bin ∷ bin_args) ≡ true
      → (bin_ok bin asked && (intent_ok asked && destructive_ok asked)) ≡ true
      → IsGuarded (run_command p c bin bin_args s asked)
  unfolding run_command
  run_command-IsGuarded idem bin bin_args s asked w h =
      let root = non_empty c.profile_root in
      let cwd = choose_cwd p root (non_empty c.cwd) in
      elim (Bool-cases (args_under_profile p root cwd bin_args)) [
        | inl e ↦ rw e (ground (arith, w, h, e, choose_cwd-is_under idem root (non_empty c.cwd)))
        | inr e ↦ rw e refl
      ]

  ask-IsGuarded :
      (question : Input) (refusal : Option String → Outcome)
      (next : S → List (Input × Bool) → Guarded S) (s : S) (asked : List (Input × Bool))
      → ((r : Option String) (l : List (Input × Bool)) → is_guarded (refusal r) l ≡ true)
      → ((s' : S) → IsGuarded (next s' ((question, true) ∷ asked)))
      → IsGuarded (ask o.gate question refusal next s asked)
  unfolding ask
  ask-IsGuarded question refusal next s asked fails goes =
      elim (Bool-cases (o.gate.approve question s).1) [
        | inl e ↦ rw e (goes (o.gate.approve question s).0)
        | inr e ↦
            rw e
              (fails (o.gate.request_id (o.gate.approve question s).0) ((question, false) ∷ asked))
      ]

  check_intent-IsGuarded :
      ((path : String) → p.resolve (p.resolve path) ≡ p.resolve path)
      → (bin : String) (bin_args : List String) (s : S) (asked : List (Input × Bool))
      → list_beq (p.words c.command) (bin ∷ bin_args) ≡ true
      → (bin_ok bin asked && destructive_ok asked) ≡ true
      → IsGuarded (check_intent o p c bin bin_args s asked)
  unfolding check_intent
  check_intent-IsGuarded idem bin bin_args s asked w h =
      let intent = classify_command_intent p c.command in
      let plan = intent_plan intent in
      elim (Bool-cases (intent == read_only)) [
        | inl e ↦ rw e (run_command-IsGuarded idem bin bin_args s asked w (ground (arith, h, e)))
        | inr e ↦ rw e (
            ask-IsGuarded (input c intent plan) intent_unapproved (run_command p c bin bin_args) s
              asked (λ r l. refl)
              (λ s'.
                run_command-IsGuarded idem bin bin_args s' ((input c intent plan, true) ∷ asked) w
                  (ground (arith, h, ==_refl intent, ==_refl plan))))
      ]

  check_bin-IsGuarded :
      ((path : String) → p.resolve (p.resolve path) ≡ p.resolve path)
      → (words : List String) (s : S) (asked : List (Input × Bool))
      → list_beq (p.words c.command) words ≡ true
      → destructive_ok asked ≡ true
      → IsGuarded (check_bin o p c words s asked)
  unfolding check_bin
  check_bin-IsGuarded idem [] s asked w h = refl
  check_bin-IsGuarded idem (bin ∷ bin_args) s asked w h =
      let intent = classify_command_intent p c.command in
      let plan = bin_plan bin in
      elim (Bool-cases (mem bin o.allowed_bins)) [
        | inl e ↦ rw e (check_intent-IsGuarded idem bin bin_args s asked w (ground (arith, h, e)))
        | inr e ↦ rw e (
            ask-IsGuarded (input c intent plan) bin_denied (check_intent o p c bin bin_args) s asked
              (λ r l. refl)
              (λ s'.
                check_intent-IsGuarded idem bin bin_args s' ((input c intent plan, true) ∷ asked) w
                  (ground (arith, h, ==_refl intent, ==_refl plan))))
      ]

  check_destructive-IsGuarded :
      ((path : String) → p.resolve (p.resolve path) ≡ p.resolve path)
      → (s : S) → IsGuarded (check_destructive o p c s [])
  unfolding check_destructive
  check_destructive-IsGuarded idem s =
      let plan = destructive_plan in
      let same = (list_beq_iff (p.words c.command) (p.words c.command)).1 refl in
      elim (Bool-cases (is_destructive_command p c.command)) [
        | inr e ↦ rw e (check_bin-IsGuarded idem (p.words c.command) s [] same (ground (arith, e)))
        | inl e ↦ rw e (elim (Bool-cases o.gate.supports_destructive_approval) [
          | inr never ↦ rw never refl
          | inl may ↦ simp may (
              ask-IsGuarded (input c privilege_impacting plan) destructive_unapproved
                (check_bin o p c (p.words c.command)) s [] (λ r l. refl)
                (λ s'.
                  check_bin-IsGuarded idem (p.words c.command) s'
                    ((input c privilege_impacting plan, true) ∷ []) same
                    (ground (arith, may, ==_refl plan))))
        ])
      ]

  -- A command reaches the sandbox only when each of these holds: its program is in the allowlist or
  -- the gate approved the question about it; its intent is read-only or the gate approved that; it has
  -- no destructive signature, or the gate supports such approvals and gave one; and with a profile root
  -- the working directory and every argument lie under that root. Resolving a resolved path changes
  -- nothing.
  pub is_guarded-execute :
      ((path : String) → p.resolve (p.resolve path) ≡ p.resolve path)
      → (concurrent_execs : ℕ) (s : S)
      → is_guarded
          (execute o p concurrent_execs c s).outcome
          (execute o p concurrent_execs c s).asked
        ≡ true
  unfolding execute
  is_guarded-execute idem n s = elim (Bool-cases (leb o.concurrency_cap n)) [
    | inl e ↦ rw e refl
    | inr e ↦ rw e (check_destructive-IsGuarded idem s)
  ]
