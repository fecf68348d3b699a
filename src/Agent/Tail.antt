-- ===== src/Agent/Tail.antt =====
-- How the agent follows the log files of other programs: crates/stackhour-agent/src/tail.rs. A file's
-- content is its list of bytes; the map of offsets is keyed by the file's path.
pub mod Lines
pub mod Ticks
pub mod Pruned
use Prim.Native.String
use stackhour.Prelude.{
  ℕ, suc, ◌+◌, ◌-◌, ◌*◌, min, String, Bool, false, Option, none, some, List, [], ◌∷◌, ltb, leb,
  ◌==◌, ◌||◌, if◌then◌else◌, take, drop, length, str_eq,
}
use stackhour.Domain.Codec.{Codec}
use stackhour.Domain.Json.{Value}
use stackhour.Hub.Table
use stackhour.Core.Text.{trim, is_empty}
use stackhour.Agent.Queue.{split}

abbrev pub max_read_per_file : ℕ
max_read_per_file = 5 * 1024 * 1024

abbrev pub default_prune_max : ℕ
default_prune_max = 2000

-- what the file system answers: the size, and the bytes that are there when they are read, or none
-- where the call fails
pub record FileView : Type 0 where
  pub size : Option ℕ
  pub bytes : Option (List ℕ)

abbrev pub newline_byte : ℕ
newline_byte = 10

-- `rposition` of a line break
unfoldable pub last_newline : List ℕ → Option ℕ
last_newline [] = none
last_newline (b ∷ bs) = elim (last_newline bs) [
  | none ↦ if b == newline_byte then some 0 else none
  | some i ↦ some (suc i)
]

abbrev pub Offsets : Type 0
Offsets = List (String × Value)

-- where the read begins: a file that grew by too much is caught up from its last part
abbrev pub start_of : (size prev : ℕ) → ℕ
start_of size prev = if ltb max_read_per_file (size - prev) then size - max_read_per_file else prev

module _ (c : Codec) where
  -- `filter_map` of the lines
  unfoldable pub parse_trimmed : List String → List Value
  parse_trimmed [] = []
  parse_trimmed (line ∷ lines) =
      let rest = parse_trimmed lines in
      let trimmed = trim line in
      if is_empty trimmed
      then rest
      else elim (c.parse_json trimmed) [ none ↦ rest | some value ↦ value ∷ rest ]

-- `lossy` is `String::from_utf8_lossy`
module _ (c : Codec) (lossy : List ℕ → String) where
  unfoldable pub json_lines : List ℕ → List Value
  unfolding parse_trimmed split
  json_lines bytes = let (line, rest) = split (lossy bytes) in parse_trimmed c (line ∷ rest)

-- `as_u64` and `u64_value` read and write a number as a `serde_json::Value`.
module _ (c : Codec) (lossy : List ℕ → String) (as_u64 : Value → Option ℕ)
    (u64_value : ℕ → Value) where
  abbrev pub number_of : Option Value → Option ℕ
  number_of none = none
  number_of (some value) = as_u64 value

  abbrev pub recorded : String → Offsets → Option ℕ
  recorded name offsets = number_of (Table.get str_eq name offsets)

  abbrev pub record_offset : String → ℕ → Offsets → Offsets
  record_offset name offset offsets = Table.insert str_eq name (u64_value offset) offsets

  -- `found` is the place of the last line break of `buf`
  abbrev pub commit :
      String → (start : ℕ) (buf : List ℕ) (found : Option ℕ) → Offsets → List Value × Offsets
  commit name start buf none offsets = ([], record_offset name start offsets)
  commit name start buf (some i) offsets =
      (json_lines c lossy (take i buf), record_offset name (start + i + 1) offsets)

  unfoldable pub read_grown :
      String → (size start : ℕ) → Option (List ℕ) → Offsets → List Value × Offsets
  unfolding last_newline json_lines
  read_grown name size start none offsets = ([], offsets)
  read_grown name size start (some bytes) offsets =
      let buf = take (size - start) (drop start bytes) in
      commit name start buf (last_newline buf) offsets

  unfoldable pub read_seen :
      String → (size : ℕ) → Option (List ℕ) → Option ℕ → Offsets → List Value × Offsets
  unfolding read_grown
  read_seen name size bytes none offsets = ([], record_offset name size offsets)
  read_seen name size bytes (some prev) offsets =
      if leb size prev
      then ([], record_offset name (min prev size) offsets)
      else read_grown name size (start_of size prev) bytes offsets

  unfoldable pub read_new_lines : String → FileView → Offsets → List Value × Offsets
  unfolding read_seen
  read_new_lines name file offsets = elim file.size [
    | none ↦ ([], offsets)
    | some size ↦ read_seen name size file.bytes (recorded name offsets) offsets
  ]

abbrev pub is_live : List String → String → Bool
is_live [] name = false
is_live (l ∷ live) name = str_eq l name || is_live live name

abbrev pub retain : (live : List String) → Offsets → Offsets
retain live [] = []
retain live ((name, offset) ∷ offsets) =
    let rest = retain live offsets in if is_live live name then (name, offset) ∷ rest else rest

unfoldable pub prune_offsets : (live : List String) (max : ℕ) → Offsets → Offsets
prune_offsets live max offsets = if ltb (length offsets) max then offsets else retain live offsets
