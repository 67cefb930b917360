-- ===== src/Capabilities/Spending.antt =====
-- What `consumeRequired` answers and what it spends.
use cursor_claw.Base.{
  ℕ, ◌+◌, ◌<◌, ◌≡◌, refl, sym, ◌∙◌, ◌↔◌, true, false, ◌&&◌, List, [], ◌∷◌, String, arith,
  if◌then◌else◌, ◌==◌, All, keep, string_eq, Bool-cases, inl, inr, mem, dedup, IsDistinct,
  mem-dedup, dedup-IsDistinct, of_All, to_All, some, none, Option,
}
use cursor_claw.Base.Dict.{or_else, get, set, get-set, get-map_values, map_option}
use cursor_claw.Capabilities.{
  Capability, Grant, Store, entries, is_active, has_uses, use_first, prune_expired, persist,
  list_active, consume_one, capability_eq, capability_beq_iff, all_consumable, consume_all,
  consume_required,
}
use cursor_claw.Capabilities.Uses.{
  bit, available, Unexpired, uses-keep_active, uses-keep-has_uses, keep_active-Unexpired,
  use_first-Unexpired, any_consumable_iff, uses-use_first,
}

-- No expired grant is left in the store.
abbrev pub IsPruned : ℕ → Store → Type 0
IsPruned now s = (c : Capability) → Unexpired now (entries c s)

keep-entries :
    (now : ℕ) (o : Option (List Grant))
    → or_else (map_option (keep (is_active now)) o) [] ≡ keep (is_active now) (or_else o [])
keep-entries now none = refl
keep-entries now (some gs) = refl

pub entries-prune_expired :
    (now : ℕ) (c : Capability) (s : Store)
    → entries c (prune_expired now s) ≡ keep (is_active now) (entries c s)
unfolding prune_expired
entries-prune_expired now c s =
    rw (get-map_values (keep (is_active now)) c s.grants) (keep-entries now (get c s.grants))

pub available-prune_expired :
    (c : Capability) (sc : String) (now : ℕ) (s : Store)
    → available c sc now (prune_expired now s) ≡ available c sc now s
available-prune_expired c sc now s =
    rw (entries-prune_expired now c s) (uses-keep_active sc now (entries c s))

pub prune_expired-IsPruned : (now : ℕ) (s : Store) → IsPruned now (prune_expired now s)
prune_expired-IsPruned now s c =
    rw (entries-prune_expired now c s) (keep_active-Unexpired now (entries c s))

pub available-persist :
    (c : Capability) (sc : String) (now : ℕ) (s : Store)
    → available c sc now (persist now s) ≡ available c sc now s
unfolding persist list_active
available-persist c sc now s = ground (arith, available-prune_expired c sc now s)

persist-IsPruned : (now : ℕ) (s : Store) → IsPruned now s → IsPruned now (persist now s)
unfolding persist list_active
persist-IsPruned now s h c = ground (arith, h c, prune_expired-IsPruned now s c)

module _ (cap : Capability) (scope : String) (now : ℕ) (s : Store) where
  abbrev rest : List Grant
  rest = keep has_uses (use_first scope (entries cap s))

  abbrev used : Store
  used = record s { grants = set cap rest s.grants }

  entries-used : (c : Capability) → entries c used ≡ (if cap == c then rest else entries c s)
  entries-used c = rw (get-set cap c rest s.grants) (ground arith)

  consume_one-IsPruned : IsPruned now s → IsPruned now (consume_one cap scope now s)
  unfolding consume_one
  consume_one-IsPruned h = persist-IsPruned now used λ c.
      rw (entries-used c)
        (ground (arith, h c, use_first-Unexpired scope now (entries cap s) (h cap)))

  available-consume_one :
      IsPruned now s
      → 0 < available cap scope now s
      → (c : Capability) (sc : String)
      → available c sc now (consume_one cap scope now s) + bit (cap == c && scope == sc)
        ≡ available c sc now s
  unfolding consume_one
  available-consume_one h p c sc =
      rw (available-persist c sc now used, entries-used c)
        (ground (
          arith,
          capability_beq_iff cap c,
          uses-keep-has_uses sc now (use_first scope (entries cap s)),
          uses-use_first scope sc now (entries cap s) (h cap) p,
        ))

-- Every capability of the list has a use left.
abbrev pub HasUses : List Capability → String → ℕ → Store → Type 0
HasUses cs scope now s = All (λ c. 0 < available c scope now s) cs

HasUses-consume_one :
    (cap : Capability) (cs : List Capability) (scope : String) (now : ℕ) (s : Store)
    → IsPruned now s
    → 0 < available cap scope now s
    → mem cap cs ≡ false
    → HasUses cs scope now s
    → HasUses cs scope now (consume_one cap scope now s)
HasUses-consume_one cap [] scope now s h p fresh u = tt
HasUses-consume_one cap (c ∷ cs) scope now s h p fresh u = ground (
  arith,
  capability_beq_iff cap c,
  capability_beq_iff c cap,
  available-consume_one cap scope now s h p c scope,
  HasUses-consume_one cap cs scope now s h p,
)

available-consume_all :
    (cs : List Capability) (scope : String) (now : ℕ) (s : Store)
    → IsPruned now s
    → IsDistinct cs
    → HasUses cs scope now s
    → (c : Capability) (sc : String)
    → available c sc now (consume_all cs scope now s) + bit (mem c cs && scope == sc)
      ≡ available c sc now s
unfolding consume_all
available-consume_all [] scope now s h d u c sc = omega arith
available-consume_all (cap ∷ cs) scope now s h d u c sc =
    let step = available-consume_one cap scope now s h u.0 c sc in
    let later =
      available-consume_all cs scope now (consume_one cap scope now s)
        (consume_one-IsPruned cap scope now s h) d.1
        (HasUses-consume_one cap cs scope now s h u.0 d.0 u.1) c sc in
    ground (arith, step, later, d.0, capability_beq_iff cap c)

all_consumable_iff :
    (cs : List Capability) (scope : String) (now : ℕ) (s : Store)
    → IsPruned now s
    → (all_consumable cs scope s ≡ true) ↔ HasUses cs scope now s
unfolding all_consumable
all_consumable_iff [] scope now s h = (λ _. tt, λ _. refl)
all_consumable_iff (c ∷ cs) scope now s h =
    ground
      (arith, any_consumable_iff scope now (entries c s) (h c), all_consumable_iff cs scope now s h)

dedup_iff :
    (cs : List Capability) (scope : String) (now : ℕ) (s : Store)
    → HasUses (dedup cs) scope now (prune_expired now s)
      ↔ ((c : Capability) → mem c cs ≡ true → 0 < available c scope now s)
dedup_iff cs scope now s = (
  λ h c m. rw (available-prune_expired c scope now s) at (
      of_All (λ c. 0 < available c scope now (prune_expired now s)) (dedup cs) h c
        (mem-dedup c cs ∙ m)),
  λ h.
      to_All (λ c. 0 < available c scope now (prune_expired now s)) (dedup cs)
        λ c m. rw (available-prune_expired c scope now s) (h c (sym (mem-dedup c cs) ∙ m)),
)

consume_required_iff :
    (cs : List Capability) (scope : String) (now : ℕ) (s : Store)
    → ((consume_required cs scope now s).1 ≡ true)
      ↔ ((c : Capability) → mem c cs ≡ true → 0 < available c scope now s)
unfolding consume_required
consume_required_iff cs scope now s =
    let p = prune_expired now s in
    let tested = all_consumable_iff (dedup cs) scope now p (prune_expired-IsPruned now s) in
    let (to, from) = dedup_iff cs scope now s in
    let answer : (consume_required cs scope now s).1 ≡ all_consumable (dedup cs) scope p =
      ground arith in
    (λ e. to (tested.0 (sym answer ∙ e)), λ h. answer ∙ tested.1 (from h))

-- `consumeRequired` answers true exactly when every capability asked for has an unexpired grant
-- with a use left in that scope.
pub consume_required-eq-true_iff :
    (cs : List Capability) (scope : String) (now : ℕ) (s : Store)
    → ((consume_required cs scope now s).1 ≡ true) ↔ All (λ c. 0 < available c scope now s) cs
consume_required-eq-true_iff cs scope now s =
    let (to, from) = consume_required_iff cs scope now s in
    (
      λ e. to_All (λ c. 0 < available c scope now s) cs (to e),
      λ h. from (of_All (λ c. 0 < available c scope now s) cs h),
    )

-- A call that answers true spends one use of each capability asked for, in that scope, and no
-- other; a call that answers false spends none.
pub available-consume_required :
    (cs : List Capability) (scope : String) (now : ℕ) (s : Store) (c : Capability) (sc : String)
    → let (t, done) = consume_required cs scope now s in
      available c sc now t + bit (done && (mem c cs && scope == sc)) ≡ available c sc now s
unfolding consume_required
available-consume_required cs scope now s c sc =
    let p = prune_expired now s in
    let pruned = prune_expired-IsPruned now s in
    let tested = all_consumable_iff (dedup cs) scope now p pruned in
    elim (Bool-cases (all_consumable (dedup cs) scope p)) [
      | inl done ↦
          rw (done, ← mem-dedup c cs, ← available-prune_expired c sc now s)
            (available-consume_all (dedup cs) scope now p pruned (dedup-IsDistinct cs)
              (tested.0 done) c sc)
      | inr refused ↦ rw refused (omega (arith, available-prune_expired c sc now s))
    ]
