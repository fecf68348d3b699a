-- ===== src/Agent/Queue/Contents.antt =====
-- What the queue's file holds after an append or a rewrite.
use Prim.Native.String
use Prim.Native.String.append
use stackhour.Prelude.{
  ◌≡◌, refl, sym, ◌∙◌, ap, true, false, Option, none, some, List, [], ◌∷◌, ◌++◌, String, arith,
  Bool-cases, Option-cases, inl, inr, ◌⊎◌, All,
}
use mathlib.Core.List.{append-nil}
use stackhour.Domain.Codec.{Codec}
use stackhour.Domain.Json.{Value}
use stackhour.Agent.Queue.{
  split, is_newline, newline, parse_lines, read_text, read_queue, encode_rows, encode, append_queue,
  save_queue, contents,
}

append-right : (s : String) → String.◌++◌ s String.[] ≡ s
append-right String.[] = append.nil String.[]
append-right (String.◌∷◌ ch s) = append.cons ch s String.[] ∙ ap (String.◌∷◌ ch) (append-right s)

append_texts : (s t u : String) → String.◌++◌ (String.◌++◌ s t) u ≡ String.◌++◌ s (String.◌++◌ t u)
append_texts String.[] t u = rw (append.nil t, append.nil (String.◌++◌ t u)) refl
append_texts (String.◌∷◌ ch s) t u =
    rw (append.cons ch s t, append.cons ch (String.◌++◌ s t) u, append.cons ch s (String.◌++◌ t u))
      (ap (String.◌∷◌ ch) (append_texts s t u))

-- the lines of two texts with a line break between them
pub split-append :
    (s t : String)
    → split (String.◌++◌ s (String.◌∷◌ newline t))
      ≡ ((split s).0, (split s).1 ++ (split t).0 ∷ (split t).1)
unfolding split
split-append String.[] t = rw (append.nil (String.◌∷◌ newline t)) refl
split-append (String.◌∷◌ ch s) t =
    rw (append.cons ch s (String.◌∷◌ newline t)) (elim (Bool-cases (is_newline ch)) [
      | inl broken ↦ rw broken (
          ap
            (λ (x : String × List String).
              let r : String × List String = (String.[], x.0 ∷ x.1) in r)
            (split-append s t))
      | inr plain ↦ rw plain (
          ap
            (λ (x : String × List String).
              let r : String × List String = (String.◌∷◌ ch x.0, x.1) in r)
            (split-append s t))
    ])

module _ (c : Codec) where
  parse_lines-append :
      (xs ys : List String) → parse_lines c (xs ++ ys) ≡ parse_lines c xs ++ parse_lines c ys
  unfolding parse_lines
  parse_lines-append [] ys = refl
  parse_lines-append (String.[] ∷ xs) ys = parse_lines-append xs ys
  parse_lines-append (String.◌∷◌ ch s ∷ xs) ys =
      elim (Option-cases (c.parse_json (String.◌∷◌ ch s))) [
        | inl bad ↦ ground (arith, bad, parse_lines-append xs ys)
        | inr (row, good) ↦ ground (arith, good, parse_lines-append xs ys)
      ]

  -- the rows of two texts with a line break between them
  read_text-append :
      (s t : String)
      → read_text c (String.◌++◌ s (String.◌∷◌ newline t)) ≡ read_text c s ++ read_text c t
  unfolding read_text
  read_text-append s t =
      rw (split-append s t)
        (parse_lines-append ((split s).0 ∷ (split s).1) ((split t).0 ∷ (split t).1))

  -- a row whose text is one line that reads back
  abbrev pub IsClean : Value → Type 0
  IsClean row = read_text c (c.json_text row) ≡ row ∷ []

  read_rows :
      (row : Value) (rows : List Value)
      → IsClean row
      → All IsClean rows
      → read_text c (String.◌++◌ (c.json_text row) (encode_rows c true rows)) ≡ row ∷ rows
  unfolding encode_rows
  read_rows row [] h hs = rw (append-right (c.json_text row)) h
  read_rows row (next ∷ rows) h hs =
      read_text-append (c.json_text row) (String.◌++◌ (c.json_text next) (encode_rows c true rows))
      ∙ rw h (ap (λ (rs : List Value). row ∷ rs) (read_rows next rows hs.0 hs.1))

  read-encode :
      (row : Value) (rows : List Value)
      → IsClean row
      → All IsClean rows
      → read_text c (encode c (row ∷ rows)) ≡ row ∷ rows
  unfolding encode encode_rows read_text split parse_lines
  read-encode row rows h hs =
      read_text-append (String.◌++◌ (c.json_text row) (encode_rows c true rows)) String.[]
      ∙ append-nil _
      ∙ read_rows row rows h hs

  -- a file that no write was torn off: empty, or closed by a line break
  abbrev pub IsWhole : String → Type 0
  IsWhole text =
      (text ≡ String.[])
      ⊎ ((lines : String) × (text ≡ String.◌++◌ lines (String.◌∷◌ newline String.[])))

  read-append :
      (text more : String)
      → IsWhole text
      → read_text c (String.◌++◌ text more) ≡ read_text c text ++ read_text c more
  unfolding read_text split parse_lines
  read-append text more (inl nothing) = rw (nothing, append.nil more) refl
  read-append text more (inr (lines, closed)) =
      let whole : String.◌++◌ text more ≡ String.◌++◌ lines (String.◌∷◌ newline more) =
        rw (closed, append_texts lines (String.◌∷◌ newline String.[]) more)
          (ap (String.◌++◌ lines)
            (append.cons newline String.[] more ∙ ap (String.◌∷◌ newline) (append.nil more))) in
      let before : read_text c text ≡ read_text c lines =
        rw closed (read_text-append lines String.[] ∙ append-nil (read_text c lines)) in
      ap (read_text c) whole
      ∙ read_text-append lines more
      ∙ ap (λ (rows : List Value). rows ++ read_text c more) (sym before)

  closed-IsWhole :
      (text : String) (row : Value) (rows : List Value)
      → IsWhole (String.◌++◌ text (encode c (row ∷ rows)))
  unfolding encode
  closed-IsWhole text row rows = inr (
    String.◌++◌ text (encode_rows c false (row ∷ rows)),
    sym (append_texts text (encode_rows c false (row ∷ rows)) (String.◌∷◌ newline String.[])),
  )

  -- After an append to a file that no write was torn off, the queue reads as the rows before and
  -- then the new ones, in order, and the file is whole again: for rows whose texts are one line
  -- each and read back.
  pub append_queue-read :
      (rows : List Value) (file : Option String)
      → IsWhole (contents file)
      → All IsClean rows
      → (read_queue c (append_queue c rows file) ≡ read_queue c file ++ rows)
        × IsWhole (contents (append_queue c rows file))
  unfolding append_queue read_queue
  append_queue-read [] file whole clean = (sym (append-nil (read_queue c file)), whole)
  append_queue-read (row ∷ rows) file whole clean = (
    read-append (contents file) (encode c (row ∷ rows)) whole
        ∙ rw (read-encode row rows clean.0 clean.1)
            (ap (λ (before : List Value). before ++ row ∷ rows) (of_file file)),
    closed-IsWhole (contents file) row rows,
  )
    where
      of_file : (f : Option String) → read_text c (contents f) ≡ read_queue c f
      of_file none = refl
      of_file (some text) = refl

  -- A rewritten queue reads as the rows that were saved, whatever the file held, and the file is
  -- whole: for rows whose texts are one line each and read back.
  pub save_queue-read :
      (rows : List Value) (file : Option String)
      → All IsClean rows
      → (read_queue c (save_queue c rows file) ≡ rows) × IsWhole (contents (save_queue c rows file))
  unfolding save_queue read_queue
  save_queue-read [] file clean = (refl, inl refl)
  save_queue-read (row ∷ rows) file clean = (
    read-encode row rows clean.0 clean.1,
    rw (sym (append.nil (encode c (row ∷ rows)))) (closed-IsWhole String.[] row rows),
  )
