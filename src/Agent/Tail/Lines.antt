-- ===== src/Agent/Tail/Lines.antt =====
-- The lines of a text, cut at any place.
use Prim.Native.String
use mathlib.Core.List.{append_assoc, append-nil}
use stackhour.Prelude.{
  ℕ, suc, ◌+◌, ◌≡◌, refl, sym, ap, ◌∙◌, String, Option, none, some, List, [], ◌∷◌, ◌++◌, ◌==◌, ◌⊎◌,
  inl, inr, Bool-cases, Option-cases, take, drop, length, length-append, arith, ==_iff,
}
use stackhour.Domain.Codec.{Codec}
use stackhour.Domain.Json.{Value}
use stackhour.Agent.Queue.{split, newline}
use stackhour.Agent.Queue.Contents.{split-append}
use stackhour.Agent.Tail.{last_newline, newline_byte, parse_trimmed, json_lines}

abbrev after : Option ℕ → List ℕ → List ℕ
after none bytes = bytes
after (some i) bytes = drop (suc i) bytes

-- the bytes behind the last line break
unfoldable pub open_line : List ℕ → List ℕ
open_line bytes = after (last_newline bytes) bytes

abbrev pub up_to : Option ℕ → ℕ
up_to none = 0
up_to (some i) = suc i

-- how many bytes stand up to the last line break
unfoldable pub closed : List ℕ → ℕ
closed bytes = up_to (last_newline bytes)

-- with a line break, or without one
Broken : List ℕ → Type 0
Broken bytes =
    (line : List ℕ) × (rest : List ℕ) × (bytes ≡ line ++ newline_byte ∷ rest)
    × (last_newline rest ≡ none)

newline-cases : (bytes : List ℕ) → (last_newline bytes ≡ none) ⊎ Broken bytes
unfolding last_newline Broken
newline-cases [] = inl refl
newline-cases (b ∷ bs) = elim (newline-cases bs) [
  | inr (line, rest, same, plain) ↦ inr (b ∷ line, rest, ap (λ (xs : List ℕ). b ∷ xs) same, plain)
  | inl plain ↦ elim (Bool-cases (b == newline_byte)) [
    | inl h ↦ inr ([], bs, ap (λ (x : ℕ). x ∷ bs) ((==_iff b newline_byte).0 h), plain)
    | inr h ↦ inl (rw (plain, h) refl)
  ]
]

take-front : (xs ys : List ℕ) → take (length xs) (xs ++ ys) ≡ xs
take-front [] [] = refl
take-front [] (y ∷ ys) = refl
take-front (x ∷ xs) ys = ap (λ (zs : List ℕ). x ∷ zs) (take-front xs ys)

pub drop-front : (xs ys : List ℕ) → drop (length xs) (xs ++ ys) ≡ ys
drop-front [] ys = refl
drop-front (x ∷ xs) ys = drop-front xs ys

pub take-all : (xs : List ℕ) → take (length xs) xs ≡ xs
take-all [] = refl
take-all (x ∷ xs) = ap (λ (zs : List ℕ). x ∷ zs) (take-all xs)

drop-line : (line rest : List ℕ) (b : ℕ) → drop (suc (length line)) (line ++ b ∷ rest) ≡ rest
drop-line [] rest b = refl
drop-line (x ∷ line) rest b = drop-line line rest b

abbrev later : ℕ → Option ℕ → Option ℕ
later n none = some n
later n (some i) = some (n + suc i)

newline-append :
    (line rest : List ℕ)
    → last_newline (line ++ newline_byte ∷ rest) ≡ later (length line) (last_newline rest)
unfolding last_newline
newline-append [] rest = elim (Option-cases (last_newline rest)) [
  | inl p ↦ rw p refl
  | inr (i, p) ↦ rw p (ap (λ (n : ℕ). some n) (omega arith))
]
newline-append (x ∷ line) rest = elim (Option-cases (last_newline rest)) [
  | inl p ↦ ground (arith, p, newline-append line rest)
  | inr (i, p) ↦ ground (arith, p, newline-append line rest)
]

newline-break :
    (line rest : List ℕ)
    → last_newline rest ≡ none
    → last_newline (line ++ newline_byte ∷ rest) ≡ some (length line)
newline-break line rest plain = newline-append line rest ∙ ap (later (length line)) plain

open_line-break :
    (line rest : List ℕ) → last_newline rest ≡ none → open_line (line ++ newline_byte ∷ rest) ≡ rest
unfolding open_line
open_line-break line rest plain =
    ap (λ (o : Option ℕ). after o (line ++ newline_byte ∷ rest)) (newline-break line rest plain)
    ∙ drop-line line rest newline_byte

open_line-none : (bytes : List ℕ) → last_newline bytes ≡ none → open_line bytes ≡ bytes
unfolding open_line
open_line-none bytes plain = ap (λ (o : Option ℕ). after o bytes) plain

pub closed-none : (bytes : List ℕ) → last_newline bytes ≡ none → closed bytes ≡ 0
unfolding closed
closed-none bytes plain = ap up_to plain

up_to-later : (n : ℕ) (o : Option ℕ) → up_to (later n o) ≡ suc n + up_to o
up_to-later n none = omega arith
up_to-later n (some i) = omega arith

closed-line :
    (line rest : List ℕ) → closed (line ++ newline_byte ∷ rest) ≡ suc (length line) + closed rest
unfolding closed
closed-line line rest =
    ap up_to (newline-append line rest) ∙ up_to-later (length line) (last_newline rest)

-- the bytes up to the last line break, and the others
pub open_line-split :
    (bytes : List ℕ)
    → (front : List ℕ) × (bytes ≡ front ++ open_line bytes)
      × (length front ≡ closed bytes)
      × (last_newline (open_line bytes) ≡ none)
unfolding Broken
open_line-split bytes = elim (newline-cases bytes) [
  | inl plain ↦ (
    [],
    sym (open_line-none bytes plain),
    sym (closed-none bytes plain),
    ap last_newline (open_line-none bytes plain) ∙ plain,
  )
  | inr (line, rest, same, plain) ↦
      let left : open_line bytes ≡ rest = ap open_line same ∙ open_line-break line rest plain in
      (
        line ++ newline_byte ∷ [],
        rw left (same ∙ sym (append_assoc line (newline_byte ∷ []) rest)),
        omega (
          arith,
          length-append line (newline_byte ∷ []),
          ap closed same ∙ closed-line line rest,
          closed-none rest plain,
        ),
        ap last_newline left ∙ plain,
      )
]

-- decoding goes through line by line, as no byte of a longer character is a line break
abbrev pub BreaksLines : (List ℕ → String) → Type 0
BreaksLines lossy =
    (xs ys : List ℕ)
    → lossy (xs ++ newline_byte ∷ ys) ≡ String.◌++◌ (lossy xs) (String.◌∷◌ newline (lossy ys))

module _ (c : Codec) (lossy : List ℕ → String) where
  abbrev pub read_to : Option ℕ → List ℕ → List Value
  read_to none bytes = []
  read_to (some i) bytes = json_lines c lossy (take i bytes)

  -- the rows of a text that is read at one go
  unfoldable pub read_once : List ℕ → List Value
  read_once bytes = read_to (last_newline bytes) bytes

  parse_trimmed-append :
      (xs ys : List String) → parse_trimmed c (xs ++ ys) ≡ parse_trimmed c xs ++ parse_trimmed c ys
  unfolding parse_trimmed
  parse_trimmed-append [] ys = refl
  parse_trimmed-append (x ∷ xs) ys = ground (arith, parse_trimmed-append xs ys)

  json_lines-append :
      BreaksLines lossy
      → (xs ys : List ℕ)
      → json_lines c lossy (xs ++ newline_byte ∷ ys)
        ≡ json_lines c lossy xs ++ json_lines c lossy ys
  unfolding json_lines
  json_lines-append breaks xs ys =
      ap (λ (x : String × List String). parse_trimmed c (x.0 ∷ x.1))
        (ap split (breaks xs ys) ∙ split-append (lossy xs) (lossy ys))
      ∙ parse_trimmed-append ((split (lossy xs)).0 ∷ (split (lossy xs)).1)
          ((split (lossy ys)).0 ∷ (split (lossy ys)).1)

  read_once-found :
      (front back : List ℕ)
      → last_newline (front ++ back) ≡ some (length front)
      → read_once (front ++ back) ≡ json_lines c lossy front
  unfolding read_once
  read_once-found front back found =
      ap (λ (o : Option ℕ). read_to o (front ++ back)) found
      ∙ ap (json_lines c lossy) (take-front front back)

  pub read_once-none : (bytes : List ℕ) → last_newline bytes ≡ none → read_once bytes ≡ []
  unfolding read_once
  read_once-none bytes plain = ap (λ (o : Option ℕ). read_to o bytes) plain

  read_once-break :
      (line rest : List ℕ)
      → last_newline rest ≡ none
      → read_once (line ++ newline_byte ∷ rest) ≡ json_lines c lossy line
  read_once-break line rest plain =
      read_once-found line (newline_byte ∷ rest) (newline-break line rest plain)

  read_once-line :
      BreaksLines lossy
      → (line rest : List ℕ)
      → read_once (line ++ newline_byte ∷ rest) ≡ json_lines c lossy line ++ read_once rest
  unfolding Broken
  read_once-line breaks line rest = elim (newline-cases rest) [
    | inl plain ↦
        rw (read_once-none rest plain, append-nil (json_lines c lossy line))
          (read_once-break line rest plain)
    | inr (l, r, same, plain) ↦
        ap (λ (xs : List ℕ). read_once (line ++ newline_byte ∷ xs)) same
        ∙ ap read_once (sym (append_assoc line (newline_byte ∷ l) (newline_byte ∷ r)))
        ∙ read_once-break (line ++ newline_byte ∷ l) r plain
        ∙ json_lines-append breaks line l
        ∙ ap (λ (vs : List Value). json_lines c lossy line ++ vs)
            (sym (ap read_once same ∙ read_once-break l r plain))
  ]

  pub read_once-more :
      BreaksLines lossy
      → (bytes more : List ℕ)
      → read_once bytes ++ read_once (open_line bytes ++ more) ≡ read_once (bytes ++ more)
  unfolding Broken
  read_once-more breaks bytes more = elim (newline-cases bytes) [
    | inl plain ↦ rw (read_once-none bytes plain, open_line-none bytes plain) refl
    | inr (line, rest, same, plain) ↦
        rw
          (
            same,
            read_once-break line rest plain,
            open_line-break line rest plain,
            append_assoc line (newline_byte ∷ rest) more,
          )
          (sym (read_once-line breaks line (rest ++ more)))
  ]

pub closed-more :
    (bytes more : List ℕ) → closed bytes + closed (open_line bytes ++ more) ≡ closed (bytes ++ more)
unfolding Broken
closed-more bytes more = elim (newline-cases bytes) [
  | inl plain ↦ rw (closed-none bytes plain, open_line-none bytes plain) (omega arith)
  | inr (line, rest, same, plain) ↦
      rw
        (
          same,
          open_line-break line rest plain,
          append_assoc line (newline_byte ∷ rest) more,
          closed-line line rest,
          closed-line line (rest ++ more),
          closed-none rest plain,
        )
        (omega arith)
]
