-- ===== src/Hub/Checks.antt =====
-- The checks on what a client asks for: `validate_text`, `validate_identifier`,
-- `validate_run_configuration`, `UpdateSettings::validate` and `node_accepts_engine`, of
-- crates/stackhour-hub/src/lib.rs. A `Result<(), String>` is its message, or none.
use Prim.Native.Char.{code}
use Prim.Native.String
use stackhour.Prelude.{
  ℕ, ◌*◌, Bool, true, false, not, ◌&&◌, ◌||◌, Option, none, some, List, [], ◌∷◌, leb, ltb, ◌==◌,
  length, str_eq, if◌then◌else◌, String,
}
use stackhour.Core.Text.{between, is_blank}
use stackhour.Domain.Json.{Value, arr, str, Elements, no_elements, element, get, as_bool}

-- the code points of a text
abbrev codes : String → List ℕ
codes String.[] = []
codes (String.◌∷◌ c s) = code c ∷ codes s

abbrev pub every : (ℕ → Bool) → List ℕ → Bool
every p [] = true
every p (n ∷ ns) = p n && every p ns

abbrev pub some_of : (ℕ → Bool) → List ℕ → Bool
some_of p [] = false
some_of p (n ∷ ns) = p n || some_of p ns

-- `char::is_control`
abbrev is_control : ℕ → Bool
is_control n = leb n 31 || between 127 159 n

-- `ch.is_ascii_alphanumeric() || matches!(ch, '.' | '_' | '-' | '/' | ':')`
abbrev identifier_char : ℕ → Bool
identifier_char n =
    between 48 57 n
    || between 65 90 n
    || between 97 122 n
    || (n == 46)
    || (n == 95)
    || (n == 45)
    || (n == 47)
    || (n == 58)

abbrev then_check : Option String → Option String → Option String
then_check none next = next
then_check (some message) next = some message

-- the number in the message is the limit's text
unfoldable pub validate_text :
    (label value : String) (limit : ℕ) (limit_text : String) → Option String
unfolding is_blank
validate_text label value limit limit_text =
    if is_blank value
    then some (String.◌++◌ label " must not be blank")
    else (if ltb limit (length (codes value)) || some_of is_control (codes value)
        then some (
            String.◌++◌ label
              (String.◌++◌ " is invalid or longer than " (String.◌++◌ limit_text " characters")))
        else none)

unfoldable pub validate_identifier : (label value : String) → Option String
unfolding validate_text
validate_identifier label value = then_check (validate_text label value 200 "200") (
    if every identifier_char (codes value)
    then none
    else some (String.◌++◌ label " contains unsupported characters"))

abbrev check_optional : (String → Option String) → Option String → Option String
check_optional check none = none
check_optional check (some value) = check value

abbrev is_effort : String → Bool
is_effort value = str_eq value "low" || str_eq value "medium" || str_eq value "high"

-- `Path::is_absolute` on Unix
abbrev is_absolute : List ℕ → Bool
is_absolute [] = false
is_absolute (n ∷ ns) = n == 47

abbrev is_nul : ℕ → Bool
is_nul n = n == 0

unfoldable pub validate_run_configuration :
    (engine : String) (model reasoning_effort system_prompt workspace_path : Option String)
    → Option String
unfolding validate_identifier
validate_run_configuration engine model reasoning_effort system_prompt workspace_path =
    then_check (validate_identifier "engine" engine) (
      then_check (check_optional (validate_identifier "model") model) (
        then_check
          (check_optional
            (λ effort.
              if is_effort effort
              then none
              else some "reasoning_effort must be low, medium, or high")
            reasoning_effort)
          (then_check
            (check_optional
              (λ prompt.
                if str_eq prompt ""
                  || ltb (128 * 1024) (String.len prompt)
                  || some_of is_nul (codes prompt)
                then some "system_prompt is empty, too large, or contains NUL"
                else none)
              system_prompt)
            (check_optional
              (λ path.
                if not (is_absolute (codes path)) || some_of is_nul (codes path)
                then some "workspace_path must be an absolute path"
                else none)
              workspace_path))))

abbrev pub is_false : Option Bool → Bool
is_false (some false) = true
is_false _ = false

abbrev pub is_true : Option Bool → Bool
is_true (some true) = true
is_true _ = false

abbrev pub is_text : String → Value → Bool
is_text s (str t) = str_eq t s
is_text s _ = false

abbrev pub as_bool_of : Option Value → Option Bool
as_bool_of none = none
as_bool_of (some v) = as_bool v

unfoldable pub any_text : String → Elements → Bool
any_text s no_elements = false
any_text s (element v vs) = is_text s v || any_text s vs

abbrev pub lists : String → Option Value → Bool
lists engine (some (arr vs)) = any_text engine vs
lists engine _ = false

unfoldable pub node_accepts_engine : Value → String → Bool
node_accepts_engine capabilities engine =
    if is_false (as_bool_of (get capabilities "accepts_tasks"))
    then false
    else (lists engine (get capabilities "engines")
        || is_true (as_bool_of (get capabilities engine)))

pub record UpdateSettings : Type 0 where
  pub automatic : Bool
  pub interval_hours : ℕ
  pub include_nodes : Bool

abbrev pub default_update_settings : UpdateSettings
default_update_settings = record { automatic = false; interval_hours = 24; include_nodes = true }

unfoldable pub validate_update_settings : UpdateSettings → Option String
validate_update_settings s =
    if between 1 168 s.interval_hours then none else some "interval_hours must be between 1 and 168"
