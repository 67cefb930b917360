-- ===== src/ToolRouter/Normalizing.antt =====
-- `normalizeExecArgs` of src/tools.ts: what it answers is in normal form.
use cursor_claw.Base.{
  ℕ, ◌≡◌, refl, Bool, true, false, not, ◌&&◌, Option, none, some, List, [], ◌∷◌, string_eq, arith,
  Bool-cases, inl, inr,
}
use cursor_claw.Approvals.Args.{Value, null, undefined, bool, num, text, array, object}
use cursor_claw.ToolRouter.{
  Texts, lookup, fields_of, is_empty, read_fields, read_command, trimmed_text, parsed_command,
  recover_command, non_empty_text, normalize_exec_args, exec_value,
}

and_false : (b : Bool) → (b && false) ≡ false
and_false b = ground arith

module _ (t : Texts) (idem : (s : List ℕ) → t.trim (t.trim s) ≡ t.trim s)
    (trims : t.trim [] ≡ []) where
  trim-read_command : (v : Value) → t.trim (read_command t v) ≡ read_command t v
  unfolding read_command
  trim-read_command null = idem []
  trim-read_command undefined = idem []
  trim-read_command (text s) = idem s
  trim-read_command (bool b) = idem (t.show (bool b))
  trim-read_command (num n) = idem (t.show (num n))
  trim-read_command (array xs) = idem (t.show (array xs))
  trim-read_command (object fs) = idem (t.show (object fs))

  trim-trimmed_text : (v : Value) → t.trim (trimmed_text t v) ≡ trimmed_text t v
  trim-trimmed_text null = trims
  trim-trimmed_text undefined = trims
  trim-trimmed_text (text s) = idem s
  trim-trimmed_text (bool b) = trims
  trim-trimmed_text (num n) = trims
  trim-trimmed_text (array xs) = trims
  trim-trimmed_text (object fs) = trims

  trim-parsed_command : (o : Option Value) → t.trim (parsed_command t o) ≡ parsed_command t o
  trim-parsed_command none = trims
  trim-parsed_command (some v) = trim-trimmed_text (lookup "command" (fields_of v))

  trim-recover_command :
      (raw : List ℕ) → t.trim raw ≡ raw → t.trim (recover_command t raw) ≡ recover_command t raw
  unfolding recover_command
  trim-recover_command raw h = elim (Bool-cases (is_empty (parsed_command t (t.parse raw)))) [
    | inl e ↦ rw e h
    | inr e ↦ rw e (trim-parsed_command (t.parse raw))
  ]

  trim-command :
      (args : Value)
      → t.trim (normalize_exec_args t args).command ≡ (normalize_exec_args t args).command
  unfolding normalize_exec_args
  trim-command args =
      let obj = read_fields t args in
      let raw = trimmed_text t (lookup "raw" obj) in
      elim (Bool-cases (is_empty (read_command t (lookup "command" obj)) && not (is_empty raw))) [
        | inl e ↦ rw e (trim-recover_command raw (trim-trimmed_text (lookup "raw" obj)))
        | inr e ↦ rw e (trim-read_command (lookup "command" obj))
      ]

  abbrev is_normal_cwd : Option (List ℕ) → Bool
  is_normal_cwd none = true
  is_normal_cwd (some s) = not (is_empty s)

  non_empty_text-normal : (v : Value) → is_normal_cwd (non_empty_text v) ≡ true
  non_empty_text-normal null = refl
  non_empty_text-normal undefined = refl
  non_empty_text-normal (text []) = refl
  non_empty_text-normal (text (x ∷ xs)) = refl
  non_empty_text-normal (bool b) = refl
  non_empty_text-normal (num n) = refl
  non_empty_text-normal (array xs) = refl
  non_empty_text-normal (object fs) = refl

  normalize-exec_value :
      (c : List ℕ) (cwd : Option (List ℕ))
      → t.trim c ≡ c
      → is_normal_cwd cwd ≡ true
      → normalize_exec_args t (exec_value (record { command = c; cwd = cwd }))
        ≡ record { command = c; cwd = cwd }
  unfolding normalize_exec_args read_fields read_command
  normalize-exec_value c none h n = rw (and_false (is_empty (t.trim c)), h)
  normalize-exec_value c (some []) h n = cc
  normalize-exec_value c (some (x ∷ xs)) h n = rw (and_false (is_empty (t.trim c)), h)

-- Normalizing the arguments that normalizing gave changes nothing, whatever came in: an object with
-- any fields, a text, or no object. Trimming a trimmed text changes nothing, and the empty text stays.
pub normalize_exec_args_idem :
    (t : Texts) (args : Value)
    → ((s : List ℕ) → t.trim (t.trim s) ≡ t.trim s)
    → t.trim [] ≡ []
    → normalize_exec_args t (exec_value (normalize_exec_args t args)) ≡ normalize_exec_args t args
unfolding normalize_exec_args
normalize_exec_args_idem t args idem trims =
    let a = normalize_exec_args t args in
    normalize-exec_value t idem trims a.command a.cwd (trim-command t idem trims args)
      (non_empty_text-normal t idem trims (lookup "cwd" (read_fields t args)))
