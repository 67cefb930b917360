-- ===== src/Gateway/Params/Messages.antt =====
-- What the messages of a turn are after src/gateway.ts has parsed them.
use cursor_claw.Base.{
  ℕ, zero, suc, ◌+◌, ◌≤◌, ◌≡◌, refl, ap, Bool, true, false, Option, some, List, [], ◌∷◌, ◌++◌,
  arith, ltb, leb, ◌&&◌, length, map, take, length-append, Bool-cases, inl, inr,
}
use cursor_claw.Base.Dict.{or_else}
use cursor_claw.Gateway.Params.{
  Text, Message, ok, user_text, marker, cut_content, parse_message, parse_messages,
}

length-take-le : (n : ℕ) (t : Text) → length (take n t) ≤ n
length-take-le zero t = omega arith
length-take-le (suc n) [] = omega arith
length-take-le (suc n) (c ∷ t) = omega (arith, length-take-le n t)

take-append_take : (n : ℕ) (t s : Text) → n ≤ length t → take n (take n t ++ s) ≡ take n t
take-append_take zero t s h = refl
take-append_take (suc n) [] s h = absurd (omega (arith, h))
take-append_take (suc n) (c ∷ t) s h = ap (λ xs. c ∷ xs) (take-append_take n t s (omega (arith, h)))

length-take_all : (n : ℕ) (t : Text) → n ≤ length t → length (take n t) ≡ n
length-take_all zero t h = refl
length-take_all (suc n) [] h = absurd (omega (arith, h))
length-take_all (suc n) (c ∷ t) h = omega (arith, length-take_all n t (omega (arith, h)))

length-cut_content-le : (n : ℕ) (t : Text) → length (cut_content n t) ≤ n + 28
unfolding cut_content
length-cut_content-le n t = elim (Bool-cases (ltb n (length t))) [
  | inl long ↦ rw (long, length-append (take n t) marker) (omega (arith, length-take-le n t))
  | inr short ↦ rw short (ground (arith, short))
]

cut_content-cut_content : (n : ℕ) (t : Text) → cut_content n (cut_content n t) ≡ cut_content n t
unfolding cut_content
cut_content-cut_content n t = elim (Bool-cases (ltb n (length t))) [
  | inl long ↦
      let enough : n ≤ length t = ground (arith, long) in
      let again : ltb n (length (take n t ++ marker)) ≡ true =
        ground (arith, length-append (take n t) marker, length-take_all n t enough) in
      rw long (rw again (ap (λ xs. xs ++ marker) (take-append_take n t marker enough)))
  | inr short ↦ rw short (rw short)
]

-- What is sent when parsed messages are sent again.
abbrev pub again : List Message → List (Option Text × Option Text)
again [] = []
again (m ∷ ms) = (some m.role, some m.content) ∷ again ms

length-again :
    (c : ℕ) (ms : List (Option Text × Option Text))
    → length (again (map (parse_message c) ms)) ≡ length ms
length-again c [] = refl
length-again c (m ∷ ms) = ap suc (length-again c ms)

parse_again :
    (c : ℕ) (m : Option Text × Option Text)
    → parse_message c (some (parse_message c m).role, some (parse_message c m).content)
      ≡ parse_message c m
unfolding parse_message
parse_again c (r, t) =
    ap (λ (x : Text). record { role = or_else r user_text; content = x })
      (cut_content-cut_content c (or_else t []))

map-again :
    (c : ℕ) (ms : List (Option Text × Option Text))
    → map (parse_message c) (again (map (parse_message c) ms)) ≡ map (parse_message c) ms
map-again c [] = refl
map-again c (m ∷ ms) = rw (parse_again c m, map-again c ms)

abbrev pub all_within : ℕ → List Message → Bool
all_within n [] = true
all_within n (m ∷ ms) = leb (length m.content) n && all_within n ms

all_within-parsed :
    (c : ℕ) (ms : List (Option Text × Option Text))
    → all_within (c + 28) (map (parse_message c) ms) ≡ true
unfolding parse_message
all_within-parsed c [] = refl
all_within-parsed c ((r, t) ∷ ms) =
    ground (arith, length-cut_content-le c (or_else t []), all_within-parsed c ms)

length-parsed :
    (c : ℕ) (ms : List (Option Text × Option Text)) → length (map (parse_message c) ms) ≡ length ms
length-parsed c [] = refl
length-parsed c (m ∷ ms) = ap suc (length-parsed c ms)

-- Messages that are accepted are as many as the limit allows at most, each of the maximum of
-- characters and the 28 of the marker at most, and sending them again gives the same messages.
pub parse_messages_lem :
    (n c : ℕ) (ms : List (Option Text × Option Text)) (out : List Message)
    → parse_messages n c (some ms) ≡ ok out
    → (length out ≤ n)
      × (all_within (c + 28) out ≡ true)
      × (parse_messages n c (some (again out)) ≡ ok out)
unfolding parse_messages
parse_messages_lem n c ms out h = elim (Bool-cases (ltb n (length ms))) [
  | inl many ↦ absurd (let e = rw many at h in cc)
  | inr few ↦
      let e : map (parse_message c) ms ≡ out = let k = rw few at h in cc in
      let fits : ltb n (length (again (map (parse_message c) ms))) ≡ false =
        rw (length-again c ms) few in
      rw (← e) (
        ground (arith, few, length-parsed c ms),
        all_within-parsed c ms,
        rw fits (ap ok (map-again c ms)),
      )
]
