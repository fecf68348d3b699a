-- ===== src/Examples/Tail.antt =====
-- The agent's reading of a log that grows.
use Prim.Native.Char.{Char}
use Prim.Native.String
use stackhour.Prelude.{
  ℕ, String, ◌≡◌, refl, sym, ap, ◌∙◌, Option, none, some, List, [], ◌∷◌, arith, ◌==◌, if◌then◌else◌,
}
use stackhour.Domain.Json.{Value, null, num}
use stackhour.Hub.Table
use stackhour.Agent.Queue.{newline}
use stackhour.Agent.Tail.{newline_byte, last_newline, json_lines, recorded}
use stackhour.Agent.Tail.Lines.{BreaksLines, closed, read_once, open_line}
use stackhour.Agent.Tail.Ticks.{ticks, Fits, KeepsNumbers, ticks-read}
use stackhour.Examples.Unary.{strokes, count_strokes, count_strokes-strokes}
use stackhour.Examples.World.{codec}

abbrev letter : Char
letter = "x"

-- every byte but a line break is one letter
unfoldable decode : List ℕ → String
decode [] = String.[]
decode (b ∷ bytes) = String.◌∷◌ (if b == newline_byte then newline else letter) (decode bytes)

decode-BreaksLines : BreaksLines decode
unfolding decode
decode-BreaksLines [] ys = sym (String.append.nil (String.◌∷◌ newline (decode ys)))
decode-BreaksLines (x ∷ xs) ys =
    ap (String.◌∷◌ (if x == newline_byte then newline else letter)) (decode-BreaksLines xs ys)
    ∙ sym (
        String.append.cons (if x == newline_byte then newline else letter) (decode xs)
          (String.◌∷◌ newline (decode ys)))

abbrev number : ℕ → Value
number n = num (strokes n)

abbrev as_number : Value → Option ℕ
as_number (num s) = some (count_strokes s)
as_number _ = none

number-KeepsNumbers : KeepsNumbers codec decode as_number number
number-KeepsNumbers n small = ap (λ (m : ℕ). some m) (count_strokes-strokes n)

-- a line and a half, and then the other half
abbrev growth : List (List ℕ)
growth = (3 ∷ 10 ∷ 4 ∷ []) ∷ (5 ∷ 10 ∷ []) ∷ []

growth-Fits : Fits [] growth
unfolding Fits open_line last_newline
growth-Fits = (omega arith, (omega arith, tt))

ticks-read_example :
    let (rows, left) = ticks codec decode as_number number "log" ((1 ∷ 2 ∷ []) ∷ growth) [] [] in
    (rows ≡ null ∷ null ∷ []) × (recorded codec decode as_number number "log" left ≡ some 7)
unfolding read_once closed decode last_newline json_lines stackhour.Examples.Unary.unary
    stackhour.Core.Text.trim Table.get
ticks-read_example =
    ticks-read codec decode as_number number decode-BreaksLines number-KeepsNumbers "log"
      (1 ∷ 2 ∷ []) growth [] refl growth-Fits (omega arith)
