-- ===== src/Memory/Reading.antt =====
-- What is read back from src/memory.ts.
use cursor_claw.Base.{
  ◌≡◌, refl, sym, ap, ◌∙◌, Bool, Option, none, some, List, [], ◌∷◌, ◌++◌, String, if◌then◌else◌,
  string_eq, keep, append-nil, keep-append,
}
use cursor_claw.Cron.Duration.{trim, trim_start}
use cursor_claw.Memory.{
  Text, MemoryRecord, Format, Store, to_line, parse_line, parsed, parse_all, append_line,
  maybe_trim, append, read_all, is_visible, retrieve_for_session,
}

module _ (j : Format) where
  parsed-append :
      (o : Option MemoryRecord) (xs ys : List Text)
      → parse_all j (xs ++ ys) ≡ parse_all j xs ++ parse_all j ys
      → parsed o (parse_all j (xs ++ ys)) ≡ parsed o (parse_all j xs) ++ parse_all j ys
  parsed-append none xs ys e = e
  parsed-append (some r) xs ys e = ap (λ rs. r ∷ rs) e

  parse_all-append : (xs ys : List Text) → parse_all j (xs ++ ys) ≡ parse_all j xs ++ parse_all j ys
  unfolding parse_all
  parse_all-append [] ys = refl
  parse_all-append (l ∷ xs) ys = parsed-append (parse_line j l) xs ys (parse_all-append xs ys)

  parse_line-to_line :
      (r : MemoryRecord)
      → trim (to_line j r) ≡ to_line j r
      → j.parse (j.stringify r) ≡ some r
      → parse_line j (to_line j r) ≡ some r
  unfolding parse_line to_line
  parse_line-to_line r t p = rw t p

  blank : parse_all j ([] ∷ []) ≡ []
  unfolding parse_all parse_line trim trim_start
  blank = refl

  one_line : (l : Text) → parse_all j (l ∷ []) ≡ parsed (parse_line j l) []
  unfolding parse_all
  one_line l = refl

  read_all-appended :
      (r : MemoryRecord) (s : Store)
      → s.window ≡ none
      → read_all j (append j r s)
        ≡ parse_all j s.primary.lines ++ parsed (parse_line j (s.primary.tail ++ to_line j r)) []
  unfolding append append_line maybe_trim read_all
  read_all-appended r s w =
      let line = s.primary.tail ++ to_line j r in
      simp w (
        parse_all-append (s.primary.lines ++ line ∷ []) ([] ∷ [])
        ∙ ap (λ xs. parse_all j (s.primary.lines ++ line ∷ []) ++ xs) blank
        ∙ append-nil (parse_all j (s.primary.lines ++ line ∷ []))
        ∙ parse_all-append s.primary.lines (line ∷ [])
        ∙ ap (λ xs. parse_all j s.primary.lines ++ xs) (one_line line))

  read_all_complete : (s : Store) → s.primary.tail ≡ [] → read_all j s ≡ parse_all j s.primary.lines
  unfolding read_all
  read_all_complete s e =
      parse_all-append s.primary.lines (s.primary.tail ∷ [])
      ∙ ap (λ xs. parse_all j s.primary.lines ++ xs) (rw e blank)
      ∙ append-nil (parse_all j s.primary.lines)

  read_all-append :
      (r : MemoryRecord) (s : Store)
      → s.window ≡ none
      → s.primary.tail ≡ []
      → trim (to_line j r) ≡ to_line j r
      → j.parse (j.stringify r) ≡ some r
      → read_all j (append j r s) ≡ read_all j s ++ r ∷ []
  read_all-append r s w e t p =
      let written : parse_line j (s.primary.tail ++ to_line j r) ≡ some r =
        ap (λ (l : Text). parse_line j (l ++ to_line j r)) e ∙ parse_line-to_line r t p in
      read_all-appended r s w
      ∙ ap (λ (o : Option MemoryRecord). parse_all j s.primary.lines ++ parsed o []) written
      ∙ ap (λ xs. xs ++ r ∷ []) (sym (read_all_complete s e))

  -- A record that is appended is read back last in its session, unless it is secret and secrets are
  -- not asked for, and in no other session; nothing else changes. There is no rolling window, the
  -- file ends with a newline, and a line that is written is parsed as what was written.
  pub retrieve_for_session-append :
      (r : MemoryRecord) (s : Store) (session_id : String) (allow_secret : Bool)
      → s.window ≡ none
      → s.primary.tail ≡ []
      → trim (to_line j r) ≡ to_line j r
      → j.parse (j.stringify r) ≡ some r
      → retrieve_for_session j session_id allow_secret (append j r s)
        ≡ retrieve_for_session j session_id allow_secret s
          ++ (if is_visible session_id allow_secret r then r ∷ [] else [])
  unfolding retrieve_for_session
  retrieve_for_session-append r s session_id allow_secret w e t p =
      ap (keep (is_visible session_id allow_secret)) (read_all-append r s w e t p)
      ∙ keep-append (is_visible session_id allow_secret) (read_all j s) (r ∷ [])

  -- A record that is appended to a file whose last line does not end with a newline is not read
  -- back when the line that it is written onto is no record: the file reads as if without both.
  pub read_all-append_lost :
      (r : MemoryRecord) (s : Store)
      → s.window ≡ none
      → parse_line j (s.primary.tail ++ to_line j r) ≡ none
      → read_all j (append j r s) ≡ parse_all j s.primary.lines
  read_all-append_lost r s w e =
      read_all-appended r s w ∙ rw e (append-nil (parse_all j s.primary.lines))
