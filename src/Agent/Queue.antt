-- ===== src/Agent/Queue.antt =====
-- The offline heartbeat queue: crates/stackhour-agent/src/queue.rs. The file is its text, or none
-- where it does not exist; the text of a row is `serde_json`'s.
pub mod Batch
pub mod Contents
use Prim.Native.Char.{Char, code}
use Prim.Native.String
use stackhour.Prelude.{
  ℕ, suc, ◌+◌, ◌*◌, String, Bool, true, false, Option, none, some, List, [], ◌∷◌, ltb, ◌==◌,
  if◌then◌else◌, ◌&&◌,
}
use stackhour.Domain.Codec.{Codec}
use stackhour.Domain.Json.{Value}

abbrev pub max_send_bytes : ℕ
max_send_bytes = 4 * 1024 * 1024

abbrev pub newline : Char
newline = "\n"

abbrev pub is_newline : Char → Bool
is_newline ch = code ch == code newline

-- `text.split('\n')`: the first line, and the others
unfoldable pub split : String → String × List String
split String.[] = (String.[], [])
split (String.◌∷◌ ch s) =
    let (line, rest) = split s in
    if is_newline ch then (String.[], line ∷ rest) else (String.◌∷◌ ch line, rest)

abbrev pub contents : Option String → String
contents none = String.[]
contents (some text) = text

module _ (c : Codec) where
  -- `filter_map` of the lines that are not empty and parse
  unfoldable pub parse_lines : List String → List Value
  parse_lines [] = []
  parse_lines (String.[] ∷ lines) = parse_lines lines
  parse_lines (String.◌∷◌ ch s ∷ lines) =
      let rest = parse_lines lines in
      elim (c.parse_json (String.◌∷◌ ch s)) [ none ↦ rest | some row ↦ row ∷ rest ]

  unfoldable pub read_text : String → List Value
  unfolding parse_lines split
  read_text text = let (line, rest) = split text in parse_lines (line ∷ rest)

  unfoldable pub read_queue : Option String → List Value
  unfolding read_text
  read_queue none = []
  read_queue (some text) = read_text text

  -- the loop of `encode`; `later` says that a row came before
  unfoldable pub encode_rows : (later : Bool) → List Value → String
  encode_rows later [] = String.[]
  encode_rows later (row ∷ rows) =
      let rest = String.◌++◌ (c.json_text row) (encode_rows true rows) in
      if later then String.◌∷◌ newline rest else rest

  unfoldable pub encode : List Value → String
  unfolding encode_rows
  encode rows = String.◌++◌ (encode_rows false rows) (String.◌∷◌ newline String.[])

  unfoldable pub append_queue : List Value → Option String → Option String
  unfolding encode
  append_queue [] file = file
  append_queue (row ∷ rows) file = some (String.◌++◌ (contents file) (encode (row ∷ rows)))

  unfoldable pub save_queue : List Value → Option String → Option String
  unfolding encode
  save_queue [] file = none
  save_queue (row ∷ rows) file = some (encode (row ∷ rows))

  -- the loop of `take_send_batch`
  unfoldable pub take_rows : (count bytes budget : ℕ) → List Value → ℕ
  take_rows count bytes budget [] = count
  take_rows count bytes budget (row ∷ rows) =
      let row_bytes = String.len (c.json_text row) + (if ltb 0 count then 1 else 0) in
      let rest = take_rows (count + 1) (bytes + row_bytes) budget rows in
      if ltb 0 count && ltb budget (bytes + row_bytes) then count else rest

  unfoldable pub take_send_batch : List Value → (budget : ℕ) → ℕ
  unfolding take_rows
  take_send_batch pending budget = take_rows 0 2 budget pending
