-- ===== src/SessionQueue/Counting.antt =====
-- Counts over the turns that the drains of `SessionQueue` (src/runtime.ts) execute, and over flags.
use cursor_claw.Base.{
  ℕ, ◌+◌, ◌<◌, ◌≡◌, refl, true, false, not, Option, none, some, List, [], ◌∷◌, arith, if◌then◌else◌,
  ◌==◌, nat_eq, mem, keep, Bool-cases, inl, inr, eq_of_==,
}
use cursor_claw.SessionQueue.{extract, bit}

module _ (t : ℕ) where
  abbrev pub among : List ℕ → ℕ
  among [] = 0
  among (u ∷ us) = bit (u == t) + among us

  pub among-absent : (u : ℕ) (us : List ℕ) → mem u us ≡ false → (u == t) ≡ true → among us ≡ 0
  among-absent u [] a e = refl
  among-absent u (v ∷ us) a e = ground (arith, a, e, among-absent u us)

  pub among-present : (u : ℕ) (us : List ℕ) → mem u us ≡ true → (u == t) ≡ true → 0 < among us
  among-present u [] a e = cc
  among-present u (v ∷ us) a e = ground (arith, a, e, among-present u us)

  pub among-keep :
      (u : ℕ) (us : List ℕ) → among (keep (λ j. not (j == u)) us) ≡ (if u == t then 0 else among us)
  among-keep u [] = ground arith
  among-keep u (v ∷ us) = ground (arith, among-keep u us)

module _ (w : ℕ → ℕ → ℕ) where
  abbrev pub weigh : List (ℕ × ℕ) → ℕ
  weigh [] = 0
  weigh ((object, turn) ∷ xs) = w object turn + weigh xs

  -- The weight of what `extract` finds, or `n` where it finds nothing.
  abbrev pub found : (object : ℕ) → Option (ℕ × List (ℕ × ℕ)) → (n : ℕ) → ℕ
  found object none n = n
  found object (some (turn, others)) n = w object turn + weigh others

  weigh-extract_later :
      (object : ℕ) (x : ℕ × ℕ) (n : ℕ) (o : Option (ℕ × List (ℕ × ℕ)))
      → found object o n ≡ n
      → found object (elim o [ none ↦ none | some (v, ys) ↦ some (v, x ∷ ys) ]) (w x.0 x.1 + n)
        ≡ w x.0 x.1 + n
  weigh-extract_later object x n none h = refl
  weigh-extract_later object x n (some (v, ys)) h = omega (arith, h)

  pub weigh-extract :
      (object : ℕ) (xs : List (ℕ × ℕ)) → found object (extract object xs) (weigh xs) ≡ weigh xs
  unfolding extract
  weigh-extract object [] = refl
  weigh-extract object ((j, u) ∷ xs) = elim (Bool-cases (j == object)) [
    | inl e ↦ rw e (rw (eq_of_== j object e))
    | inr e ↦
        rw e (
          weigh-extract_later object (j, u) (weigh xs) (extract object xs)
            (weigh-extract object xs))
  ]
