-- ===== src/Agent/Tail/Ticks.antt =====
-- A file that grows between the ticks.
use mathlib.Core.List.{append_assoc, append-nil}
use stackhour.Prelude.{
  ℕ, min, ◌+◌, ◌-◌, ◌≡◌, ◌≤◌, ◌<◌, ◌^◌, refl, sym, ap, ◌∙◌, String, Option, none, some, List, [],
  ◌∷◌, ◌++◌, take, drop, length, length-append, arith, str_eq, eq_refl,
}
use stackhour.Domain.Codec.{Codec}
use stackhour.Domain.Json.{Value}
use stackhour.Hub.Table
use stackhour.Agent.Tail.{
  last_newline, Offsets, FileView, max_read_per_file, json_lines, number_of, recorded,
  record_offset, commit, read_grown, read_seen, read_new_lines,
}
use stackhour.Agent.Tail.Lines.{
  open_line, closed, up_to, BreaksLines, read_to, read_once, open_line-split, read_once-none,
  read_once-more, closed-more, closed-none, drop-front, take-all,
}

abbrev pub whole : List ℕ → FileView
whole content = record { size = some (length content); bytes = some content }

abbrev pub concat : List (List ℕ) → List ℕ
concat [] = []
concat (bytes ∷ pieces) = bytes ++ concat pieces

-- No tick finds more than it may read.
unfoldable pub Fits : (unread : List ℕ) → List (List ℕ) → Type 0
Fits unread [] = Unit
Fits unread (more ∷ pieces) =
    (length (unread ++ more) ≤ max_read_per_file) × Fits (open_line (unread ++ more)) pieces

no_line : last_newline [] ≡ none
unfolding last_newline
no_line = refl

module _ (c : Codec) (lossy : List ℕ → String) (as_u64 : Value → Option ℕ)
    (u64_value : ℕ → Value) where
  -- The file grows by each of the pieces, with a tick after each; `content` is what it has before.
  unfoldable pub ticks :
      String → List (List ℕ) → (content : List ℕ) → Offsets → List Value × Offsets
  unfolding read_new_lines
  ticks name [] content offsets = ([], offsets)
  ticks name (more ∷ pieces) content offsets =
      let grown = content ++ more in
      let (rows, left) = read_new_lines c lossy as_u64 u64_value name (whole grown) offsets in
      let (later, last) = ticks name pieces grown left in (rows ++ later, last)

  -- a number reads back
  abbrev pub KeepsNumbers : Type 0
  KeepsNumbers = (n : ℕ) → n < 2 ^ 64 → as_u64 (u64_value n) ≡ some n

  abbrev saved : String → Offsets → Option ℕ
  saved name offsets = recorded c lossy as_u64 u64_value name offsets

  abbrev save : String → ℕ → Offsets → Offsets
  save name n offsets = record_offset c lossy as_u64 u64_value name n offsets

  saved-save :
      KeepsNumbers
      → (name : String) (n : ℕ) (offsets : Offsets) → n < 2 ^ 64
      → saved name (save name n offsets) ≡ some n
  saved-save keeps name n offsets small =
      ap (number_of c lossy as_u64 u64_value)
        (Table.get-insert str_eq name (u64_value n) offsets (eq_refl name))
      ∙ keeps n small

  commit-found :
      (name : String) (start : ℕ) (buf : List ℕ) (found : Option ℕ) (offsets : Offsets)
      → commit c lossy as_u64 u64_value name start buf found offsets
        ≡ (read_to c lossy found buf, save name (start + up_to found) offsets)
  commit-found name start buf none offsets =
      ap (λ (n : ℕ). let r : List Value × Offsets = ([], save name n offsets) in r) (omega arith)
  commit-found name start buf (some i) offsets =
      ap
        (λ (n : ℕ).
          let r : List Value × Offsets = (json_lines c lossy (take i buf), save name n offsets) in
          r)
        (omega arith)

  read_seen-same :
      (name : String) (size prev : ℕ) (content : Option (List ℕ)) (offsets : Offsets)
      → size ≤ prev
      → read_seen c lossy as_u64 u64_value name size content (some prev) offsets
        ≡ ([], save name size offsets)
  unfolding read_seen
  read_seen-same name size prev content offsets h =
      let smaller : min prev size ≡ size = omega arith in rw smaller (ground arith)

  read_seen-grown :
      (name : String) (size prev : ℕ) (content : List ℕ) (offsets : Offsets)
      → prev < size
      → size ≤ prev + max_read_per_file
      → let buf = take (size - prev) (drop prev content) in
        read_seen c lossy as_u64 u64_value name size (some content) (some prev) offsets
        ≡ commit c lossy as_u64 u64_value name prev buf (last_newline buf) offsets
  unfolding read_seen read_grown
  read_seen-grown name size prev content offsets h k = ground arith

  read_seen-step :
      (name : String) (done bytes : List ℕ) (offsets : Offsets)
      → length bytes ≤ max_read_per_file
      → read_seen c lossy as_u64 u64_value name
          (length (done ++ bytes))
          (some (done ++ bytes))
          (some (length done))
          offsets
        ≡ (read_once c lossy bytes, save name (length done + closed bytes) offsets)
  unfolding read_once closed last_newline
  read_seen-step name done [] offsets fits =
      read_seen-same name (length (done ++ [])) (length done) (some (done ++ [])) offsets
        (omega (arith, length-append done []))
      ∙ ap (λ (n : ℕ). let r : List Value × Offsets = ([], save name n offsets) in r)
          (omega (arith, length-append done []))
  read_seen-step name done (b ∷ bs) offsets fits =
      let bytes = b ∷ bs in
      let longer = length-append done bytes in
      let len : length (done ++ bytes) - length done ≡ length bytes = omega (arith, longer) in
      let buf : take (length (done ++ bytes) - length done) (drop (length done) (done ++ bytes))
          ≡ bytes =
        ap (λ (n : ℕ). take n (drop (length done) (done ++ bytes))) len
        ∙ ap (take (length bytes)) (drop-front done bytes)
        ∙ take-all bytes in
      read_seen-grown name (length (done ++ bytes)) (length done) (done ++ bytes) offsets
        (omega (arith, longer)) (omega (arith, longer))
      ∙ ap
          (λ (xs : List ℕ).
            commit c lossy as_u64 u64_value name (length done) xs (last_newline xs) offsets)
          buf
      ∙ commit-found name (length done) bytes (last_newline bytes) offsets

  -- A tick reads the lines that are whole and moves past them.
  read_new_lines-step :
      (name : String) (done bytes : List ℕ) (offsets : Offsets)
      → saved name offsets ≡ some (length done)
      → length bytes ≤ max_read_per_file
      → read_new_lines c lossy as_u64 u64_value name (whole (done ++ bytes)) offsets
        ≡ (read_once c lossy bytes, save name (length done + closed bytes) offsets)
  unfolding read_new_lines
  read_new_lines-step name done bytes offsets known fits =
      ap
        (λ (prev : Option ℕ).
          read_seen c lossy as_u64 u64_value name (length (done ++ bytes)) (some (done ++ bytes))
            prev offsets)
        known
      ∙ read_seen-step name done bytes offsets fits

  first_sight :
      (name : String) (content : List ℕ) (offsets : Offsets)
      → saved name offsets ≡ none
      → read_new_lines c lossy as_u64 u64_value name (whole content) offsets
        ≡ ([], save name (length content) offsets)
  unfolding read_new_lines read_seen
  first_sight name content offsets unknown =
      ap
        (λ (prev : Option ℕ).
          read_seen c lossy as_u64 u64_value name (length content) (some content) prev offsets)
        unknown

  abbrev after_tick :
      String → List (List ℕ) → (grown : List ℕ) → List Value × Offsets → List Value × Offsets
  after_tick name pieces grown (rows, left) =
      let (later, last) = ticks name pieces grown left in (rows ++ later, last)

  ticks-after :
      (name : String) (more : List ℕ) (pieces : List (List ℕ)) (content : List ℕ)
      (offsets : Offsets)
      → ticks name (more ∷ pieces) content offsets
        ≡ after_tick name pieces
            (content ++ more)
            (read_new_lines c lossy as_u64 u64_value name (whole (content ++ more)) offsets)
  unfolding ticks
  ticks-after name more pieces content offsets = refl

  ticks-nil :
      (name : String) (content : List ℕ) (offsets : Offsets)
      → ticks name [] content offsets ≡ ([], offsets)
  unfolding ticks
  ticks-nil name content offsets = refl

  -- from an offset on, with an unfinished line behind it
  ticks-continue :
      BreaksLines lossy
      → KeepsNumbers
      → (name : String) (pieces : List (List ℕ)) (done rest : List ℕ) (offsets : Offsets)
      → last_newline rest ≡ none
      → saved name offsets ≡ some (length done)
      → Fits rest pieces
      → length (done ++ rest ++ concat pieces) < 2 ^ 64
      → let (rows, left) = ticks name pieces (done ++ rest) offsets in
        (rows ≡ read_once c lossy (rest ++ concat pieces))
        × (saved name left ≡ some (length done + closed (rest ++ concat pieces)))
  unfolding Fits
  ticks-continue breaks keeps name [] done rest offsets plain known fits small = (
    ap (λ (r : List Value × Offsets). r.0) (ticks-nil name (done ++ rest) offsets)
        ∙ sym (ap (read_once c lossy) (append-nil rest) ∙ read_once-none c lossy rest plain),
    ap (λ (r : List Value × Offsets). saved name r.1) (ticks-nil name (done ++ rest) offsets)
        ∙ known
        ∙ ap (λ (n : ℕ). some n)
            (omega (arith, ap closed (append-nil rest) ∙ closed-none rest plain)),
  )
  ticks-continue breaks keeps name (more ∷ pieces) done rest offsets plain known fits small =
      let bytes = rest ++ more in
      let offset = length done + closed bytes in
      let (front, split, counted, open_plain) = open_line-split bytes in
      let grown : done ++ rest ++ more ≡ done ++ front ++ open_line bytes =
        append_assoc done rest more
        ∙ ap (λ (xs : List ℕ). done ++ xs) split
        ∙ sym (append_assoc done front (open_line bytes)) in
      let total : done ++ front ++ open_line bytes ++ concat pieces
          ≡ done ++ rest ++ (more ++ concat pieces) =
        ap (λ (xs : List ℕ). xs ++ concat pieces) (sym grown)
        ∙ append_assoc (done ++ rest) more (concat pieces) in
      let ticked : ticks name (more ∷ pieces) (done ++ rest) offsets
          ≡ after_tick name pieces (done ++ front ++ open_line bytes)
              (read_once c lossy bytes, save name offset offsets) =
        ticks-after name more pieces (done ++ rest) offsets
        ∙ ap (after_tick name pieces (done ++ rest ++ more)) (
            ap (λ (xs : List ℕ). read_new_lines c lossy as_u64 u64_value name (whole xs) offsets)
              (append_assoc done rest more)
            ∙ read_new_lines-step name done bytes offsets known fits.0)
        ∙ ap
            (λ (xs : List ℕ).
              after_tick name pieces xs (read_once c lossy bytes, save name offset offsets))
            grown in
      let bound : offset < 2 ^ 64 = omega (
        arith,
        length-append done front,
        counted,
        ap (λ (xs : List ℕ). length xs) total,
        length-append (done ++ front) (open_line bytes),
        length-append (done ++ front ++ open_line bytes) (concat pieces),
      ) in
      let ih =
        ticks-continue breaks keeps name pieces (done ++ front) (open_line bytes)
          (save name offset offsets) open_plain
          (saved-save keeps name offset offsets bound
            ∙ ap (λ (n : ℕ). some n) (omega (arith, length-append done front, counted)))
          fits.1 (omega (arith, ap (λ (xs : List ℕ). length xs) total)) in
      (
        ap (λ (r : List Value × Offsets). r.0) ticked
            ∙ ap (λ (vs : List Value). read_once c lossy bytes ++ vs) ih.0
            ∙ read_once-more c lossy breaks bytes (concat pieces)
            ∙ ap (read_once c lossy) (append_assoc rest more (concat pieces)),
        ap (λ (r : List Value × Offsets). saved name r.1) ticked
            ∙ ih.1
            ∙ ap (λ (n : ℕ). some n)
                (omega (
                  arith,
                  length-append done front,
                  counted,
                  closed-more bytes (concat pieces),
                  ap closed (append_assoc rest more (concat pieces)),
                )),
      )

  -- A file is new to the agent and then grows, with a tick after each growth, and no tick finds more than
  -- it may read. The ticks return what one read of all that came after the first tick returns, and
  -- the offset stands behind the last line break.
  pub ticks-read :
      BreaksLines lossy
      → KeepsNumbers
      → (name : String) (first : List ℕ) (pieces : List (List ℕ)) (offsets : Offsets)
      → saved name offsets ≡ none
      → Fits [] pieces
      → length (first ++ concat pieces) < 2 ^ 64
      → let (rows, left) = ticks name (first ∷ pieces) [] offsets in
        (rows ≡ read_once c lossy (concat pieces))
        × (saved name left ≡ some (length first + closed (concat pieces)))
  ticks-read breaks keeps name first pieces offsets unknown fits small =
      let seen : ticks name (first ∷ pieces) [] offsets
          ≡ after_tick name pieces (first ++ []) ([], save name (length first) offsets) =
        ticks-after name first pieces [] offsets
        ∙ ap (after_tick name pieces first) (first_sight name first offsets unknown)
        ∙ ap (λ (xs : List ℕ). after_tick name pieces xs ([], save name (length first) offsets))
            (sym (append-nil first)) in
      let steady =
        ticks-continue breaks keeps name pieces first [] (save name (length first) offsets) no_line
          (saved-save keeps name (length first) offsets
            (omega (arith, length-append first (concat pieces))))
          fits
          (omega (arith, ap (λ (xs : List ℕ). length (xs ++ concat pieces)) (append-nil first))) in
      (
        ap (λ (r : List Value × Offsets). r.0) seen ∙ steady.0,
        ap (λ (r : List Value × Offsets). saved name r.1) seen ∙ steady.1,
      )
