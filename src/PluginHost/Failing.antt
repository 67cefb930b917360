-- ===== src/PluginHost/Failing.antt =====
-- What a plugin of src/plugins/host.ts that fails or is late does to the prompt: nothing.
use cursor_claw.Base.{
  ℕ, ◌≡◌, refl, ap, Bool, true, false, Option, none, some, List, [], String, ◌∷◌, ◌++◌, arith,
  if◌then◌else◌, ltb, leb, Bool-cases, inl, inr,
}
use cursor_claw.Base.Dict.{or_else}
use cursor_claw.PluginHost.{
  Outcome, resolves, rejects, Plugin, Diagnostic, Stage, collector, analyzer, synthesizer, Host,
  with_timeout, run_stage, run,
}

-- What a promise resolves to, and whether it rejects.
abbrev pub values_of {ℓ} : {B : Type ℓ} → Outcome B → List B
values_of (resolves bs) = bs
values_of (rejects e) = []

abbrev pub is_rejected {ℓ} : {B : Type ℓ} → Outcome B → Bool
is_rejected (resolves bs) = false
is_rejected (rejects e) = true

abbrev pub ids_of : List Diagnostic → List String
ids_of [] = []
ids_of (x ∷ xs) = x.plugin_id ∷ ids_of xs

ids_of-append : (xs ys : List Diagnostic) → ids_of (xs ++ ys) ≡ ids_of xs ++ ids_of ys
ids_of-append [] ys = refl
ids_of-append (x ∷ xs) ys = ap (λ ids. x.plugin_id ∷ ids) (ids_of-append xs ys)

-- The time that a plugin has.
abbrev pub allowed_ms : (own : Option ℕ) (d : ℕ) → ℕ
allowed_ms none d = d
allowed_ms (some ms) d = ms

allowed_ms-or_else : (own : Option ℕ) (d : ℕ) → or_else own d ≡ allowed_ms own d
allowed_ms-or_else none d = refl
allowed_ms-or_else (some ms) d = refl

module _ {ℓ} {A : Type ℓ} {B : Type ℓ} where
  -- The plugin takes as long as it is allowed or longer.
  abbrev pub is_late : (d : ℕ) → Plugin A B → A → Bool
  is_late d p a = leb (allowed_ms p.timeout_ms d) (p.duration_ms a)

  -- The plugins that are not late and do not throw.
  unfoldable pub healthy : (d : ℕ) → List (Plugin A B) → A → List (Plugin A B)
  healthy d [] a = []
  healthy d (p ∷ ps) a =
      let rest = healthy d ps a in
      if is_late d p a then rest else if is_rejected (p.answer a) then rest else p ∷ rest

  -- The ids of the others, in their order.
  unfoldable pub unhealthy_ids : (d : ℕ) → List (Plugin A B) → A → List String
  unhealthy_ids d [] a = []
  unhealthy_ids d (p ∷ ps) a =
      let rest = unhealthy_ids d ps a in
      if is_late d p a then p.id ∷ rest else if is_rejected (p.answer a) then p.id ∷ rest else rest

  -- All that plugins resolve to, in their order.
  unfoldable pub all_values : List (Plugin A B) → A → List B
  all_values [] a = []
  all_values (p ∷ ps) a = values_of (p.answer a) ++ all_values ps a

  with_timeout-late :
      (d : ℕ) (p : Plugin A B) (a : A) → is_late d p a ≡ true → with_timeout d p a ≡ none
  unfolding with_timeout
  with_timeout-late d p a h =
      let e : ltb (p.duration_ms a) (allowed_ms p.timeout_ms d) ≡ false = ground (arith, h) in
      rw (allowed_ms-or_else p.timeout_ms d, e) refl

  with_timeout-in_time :
      (d : ℕ) (p : Plugin A B) (a : A)
      → is_late d p a ≡ false
      → with_timeout d p a ≡ some (p.answer a)
  unfolding with_timeout
  with_timeout-in_time d p a h =
      let e : ltb (p.duration_ms a) (allowed_ms p.timeout_ms d) ≡ true = ground (arith, h) in
      rw (allowed_ms-or_else p.timeout_ms d, e) refl

  answer-step :
      (s : Stage) (d : ℕ) (p : Plugin A B) (ps : List (Plugin A B)) (a : A) (o : Outcome B)
      → p.answer a ≡ o
      → is_late d p a ≡ false
      → (run_stage s d ps a).0 ≡ all_values (healthy d ps a) a
      → ids_of (run_stage s d ps a).1 ≡ unhealthy_ids d ps a
      → ((run_stage s d (p ∷ ps) a).0 ≡ all_values (healthy d (p ∷ ps) a) a)
        × (ids_of (run_stage s d (p ∷ ps) a).1 ≡ unhealthy_ids d (p ∷ ps) a)
  unfolding run_stage healthy unhealthy_ids all_values
  answer-step s d p ps a (resolves bs) e t h l =
      rw (with_timeout-in_time d p a t, t, e) (rw e (ap (λ xs. bs ++ xs) h), l)
  answer-step s d p ps a (rejects m) e t h l =
      rw (with_timeout-in_time d p a t, t, e) (h, ap (λ ids. p.id ∷ ids) l)

  run_stage_lem :
      (s : Stage) (d : ℕ) (ps : List (Plugin A B)) (a : A)
      → ((run_stage s d ps a).0 ≡ all_values (healthy d ps a) a)
        × (ids_of (run_stage s d ps a).1 ≡ unhealthy_ids d ps a)
  unfolding run_stage healthy unhealthy_ids all_values
  run_stage_lem s d [] a = (refl, refl)
  run_stage_lem s d (p ∷ ps) a =
      let (h, l) = run_stage_lem s d ps a in
      elim (Bool-cases (is_late d p a)) [
        | inl t ↦ rw (with_timeout-late d p a t, t) (h, ap (λ ids. p.id ∷ ids) l)
        | inr t ↦ answer-step s d p ps a (p.answer a) refl t h l
      ]

module _ {ℓ} {C A I M : Type ℓ} where
  -- What the healthy collectors and analyzers of a host give, each stage from the one before.
  pub artifacts_of : Host C A I M → C → List A
  unfolding healthy all_values
  artifacts_of h c = all_values (healthy h.default_timeout_ms h.collectors c) c

  pub insights_of : Host C A I M → C → List I
  unfolding artifacts_of healthy all_values
  insights_of h c =
      let input : C × List A = (c, artifacts_of h c) in
      all_values (healthy h.default_timeout_ms h.analyzers input) input

  pub healthy_synthesizers : Host C A I M → C → List (Plugin (C × List I) M)
  unfolding insights_of healthy
  healthy_synthesizers h c = healthy h.default_timeout_ms h.synthesizers (c, insights_of h c)

  -- The plugins of all stages that are not healthy, stage by stage.
  pub failing_ids : Host C A I M → C → List String
  unfolding artifacts_of insights_of unhealthy_ids
  failing_ids h c =
      let d = h.default_timeout_ms in
      unhealthy_ids d h.collectors c
      ++ (unhealthy_ids d h.analyzers (c, artifacts_of h c)
          ++ unhealthy_ids d h.synthesizers (c, insights_of h c))

  -- The messages of a run are all that its healthy synthesizers resolve to, where a plugin is healthy
  -- when it does not throw and takes less time than its own timeout or else the default one. Their
  -- input are the insights of the healthy analyzers, whose input are the artifacts of the healthy
  -- collectors. The diagnostics name the plugins that are not healthy, each one once, stage by stage
  -- and in the order of the plugins, and no other.
  pub run-healthy :
      (h : Host C A I M) (c : C)
      → ((run h c).0 ≡ all_values (healthy_synthesizers h c) (c, insights_of h c))
        × (ids_of (run h c).1 ≡ failing_ids h c)
  unfolding run healthy_synthesizers failing_ids insights_of artifacts_of
  run-healthy h c =
      let d = h.default_timeout_ms in
      let input : C × List A = (c, artifacts_of h c) in
      let last : C × List I = (c, insights_of h c) in
      let r1 = run_stage collector d h.collectors c in
      let r2 = run_stage analyzer d h.analyzers input in
      let r3 = run_stage synthesizer d h.synthesizers last in
      let (e1, l1) = run_stage_lem collector d h.collectors c in
      let (e2, l2) = run_stage_lem analyzer d h.analyzers input in
      let (e3, l3) = run_stage_lem synthesizer d h.synthesizers last in
      rw (e1, e2)
        (e3, rw (ids_of-append r1.1 (r2.1 ++ r3.1), ids_of-append r2.1 r3.1, l1, l2, l3) refl)
