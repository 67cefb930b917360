-- ===== src/PluginHost.antt =====
-- `PluginHost` of src/plugins/host.ts: collectors, analyzers and synthesizers in a row. A plugin is
-- what it answers for its input and the time that it takes; clearing the timer is left out.
pub mod Failing
use cursor_claw.Base.{
  ℕ, Bool, true, false, Option, none, some, List, [], ◌∷◌, ◌++◌, String, ltb, if◌then◌else◌,
}
use cursor_claw.Base.Dict.{or_else}

-- How the promise of a plugin ends.
pub data Outcome {ℓ} (B : Type ℓ) : Type ℓ where
  resolves : List B → Outcome B
  rejects : (error : String) → Outcome B

pub record Plugin {ℓ κ} (A : Type ℓ) (B : Type κ) : Type (ℓ ⊔ κ) where
  pub id : String
  pub timeout_ms : Option ℕ
  pub answer : A → Outcome B
  pub duration_ms : A → ℕ

pub data Stage : Type 0 where
  collector analyzer synthesizer : Stage

-- A diagnostic by the stage and the plugin, with the error, or `none` for the timeout.
pub record Diagnostic : Type 0 where
  pub stage : Stage
  pub plugin_id : String
  pub error : Option String

pub record Host {ℓ} (C A I M : Type ℓ) : Type ℓ where
  pub collectors : List (Plugin C A)
  pub analyzers : List (Plugin (C × List A) I)
  pub synthesizers : List (Plugin (C × List I) M)
  pub default_timeout_ms : ℕ

module _ {ℓ} {B : Type ℓ} where
  abbrev pub note :
      Stage → String → Option (Outcome B) → List B × List Diagnostic → List B × List Diagnostic
  note stage id (some (resolves bs)) (out, ds) = (bs ++ out, ds)
  note stage id (some (rejects e)) (out, ds) =
      (out, record { stage = stage; plugin_id = id; error = some e } ∷ ds)
  note stage id none (out, ds) = (out, record { stage = stage; plugin_id = id; error = none } ∷ ds)

module _ {ℓ} {A : Type ℓ} {B : Type ℓ} where
  -- `none` for the timeout.
  unfoldable pub with_timeout : (default_timeout_ms : ℕ) → Plugin A B → A → Option (Outcome B)
  with_timeout default_timeout_ms p a =
      if ltb (p.duration_ms a) (or_else p.timeout_ms default_timeout_ms)
      then some (p.answer a)
      else none

  -- A loop over the plugins of a stage: what they answer, and the diagnostics.
  unfoldable pub run_stage :
      Stage → (default_timeout_ms : ℕ) → List (Plugin A B) → A → List B × List Diagnostic
  unfolding with_timeout
  run_stage stage d [] a = ([], [])
  run_stage stage d (p ∷ ps) a = note stage p.id (with_timeout d p a) (run_stage stage d ps a)

module _ {ℓ} {C A I M : Type ℓ} where
  unfoldable pub run : Host C A I M → C → List M × List Diagnostic
  unfolding run_stage
  run h c =
      let (artifacts, ds) = run_stage collector h.default_timeout_ms h.collectors c in
      let (insights, ds') = run_stage analyzer h.default_timeout_ms h.analyzers (c, artifacts) in
      let (messages, ds'') =
        run_stage synthesizer h.default_timeout_ms h.synthesizers (c, insights) in
      (messages, ds ++ (ds' ++ ds''))
