-- ===== src/Core/Engine/Plain.antt =====
-- Values with no opening brace, which substitution leaves alone.
use Prim.Native.Char.{code}
use Prim.Native.String
use Prim.Native.String.append
use text.Mathlib.TextLemmas
use stackhour.Prelude.{
  String, ◌≡◌, refl, ap, ◌∙◌, Bool, true, false, not, ◌&&◌, Option, none, some, List, [], ◌∷◌, ◌==◌,
  if◌then◌else◌, is_some, arith, All, drop,
}
use stackhour.Core.Text.{replace, replace_from, has_prefix}
use stackhour.Core.Engine.{ArgvVars, subst, unwrap_or, rendered, replace_all, substitutions}

-- no character is an opening brace
abbrev pub no_brace : String → Bool
no_brace String.[] = true
no_brace (String.◌∷◌ c s) = not (code c == 123) && no_brace s

abbrev pub braced : String → Bool
braced String.[] = false
braced (String.◌∷◌ c s) = code c == 123

pub replace-braced :
    (pattern to s : String) → braced pattern ≡ true → no_brace s ≡ true → replace pattern to s ≡ s
unfolding replace replace_from has_prefix
replace-braced String.[] to s brace h = absurd (cc brace)
replace-braced (String.◌∷◌ p ps) to String.[] brace h = refl
replace-braced (String.◌∷◌ p ps) to (String.◌∷◌ c s) brace h =
    ground (arith, replace-braced (String.◌∷◌ p ps) to s brace)

-- a text with no brace stays as it is
pub replace_all-no_brace :
    (pairs : List (String × String)) (s : String)
    → All (λ (x : String × String). braced x.0 ≡ true) pairs
    → no_brace s ≡ true
    → replace_all pairs s ≡ s
unfolding replace_all
replace_all-no_brace [] s braces h = refl
replace_all-no_brace ((p, v) ∷ rest) s braces h =
    ap (replace_all rest) (replace-braced p v s braces.0 h) ∙ replace_all-no_brace rest s braces.1 h

module _ (vars : ArgvVars) where
  pub subst_model :
      (m : String) → unwrap_or vars.model "" ≡ m → no_brace m ≡ true → subst vars "{{model}}" ≡ m
  unfolding subst
  subst_model m given h =
      let rest = drop 2 (substitutions vars) in
      ap (λ (v : String). replace_all rest (String.◌++◌ v "")) given
      ∙ ap (replace_all rest) (TextLemmas.append-nil m)
      ∙ replace_all-no_brace rest m (refl, (refl, (refl, (refl, (refl, tt))))) h

  pub subst_system_prompt :
      (m : String)
      → unwrap_or vars.system_prompt "" ≡ m
      → no_brace m ≡ true
      → subst vars "{{system_prompt}}" ≡ m
  unfolding subst
  subst_system_prompt m given h =
      let rest = drop 4 (substitutions vars) in
      ap (λ (v : String). replace_all rest (String.◌++◌ v "")) given
      ∙ ap (replace_all rest) (TextLemmas.append-nil m)
      ∙ replace_all-no_brace rest m (refl, (refl, (refl, tt))) h

  pub subst_session_id :
      (m : String)
      → unwrap_or vars.session_id "" ≡ m
      → no_brace m ≡ true
      → subst vars "{{session_id}}" ≡ m
  unfolding subst
  subst_session_id m given h =
      let rest = drop 1 (substitutions vars) in
      ap (λ (v : String). replace_all rest (String.◌++◌ v "")) given
      ∙ ap (replace_all rest) (TextLemmas.append-nil m)
      ∙ replace_all-no_brace rest m (refl, (refl, (refl, (refl, (refl, (refl, tt)))))) h

  pub subst_permission_mode :
      (m : String)
      → unwrap_or vars.permission_mode "default" ≡ m
      → no_brace m ≡ true
      → subst vars "{{permission_mode}}" ≡ m
  unfolding subst
  subst_permission_mode m given h =
      let rest = drop 3 (substitutions vars) in
      ap (λ (v : String). replace_all rest (String.◌++◌ v "")) given
      ∙ ap (replace_all rest) (TextLemmas.append-nil m)
      ∙ replace_all-no_brace rest m (refl, (refl, (refl, (refl, tt)))) h

-- a flag with its value, if there is one
abbrev pub pair : String → Option String → List String
pair name none = []
pair name (some v) = name ∷ v ∷ []

abbrev pub plain : Option String → Bool
plain none = true
plain (some s) = no_brace s

pub rendered-pair :
    (vars : ArgvVars) (name placeholder : String) (v : Option String)
    → subst vars name ≡ name
    → ((s : String) → v ≡ some s → no_brace s ≡ true → subst vars placeholder ≡ s)
    → plain v ≡ true
    → rendered (is_some v) vars (some (name ∷ placeholder ∷ [])) ≡ pair name v
rendered-pair vars name placeholder none fixed fits h = refl
rendered-pair vars name placeholder (some s) fixed fits h = rw (fixed, fits s refl h) refl

pub no_partial : (b : Bool) → ◌≡◌ {A = List String} (if b then [] else []) []
no_partial true = refl
no_partial false = refl

pub model_flag : (vars : ArgvVars) → subst vars "--model" ≡ "--model"
unfolding subst
model_flag vars = refl

pub no_brace-append :
    (s t : String) → no_brace s ≡ true → no_brace t ≡ true → no_brace (String.◌++◌ s t) ≡ true
no_brace-append String.[] t h k = rw (TextLemmas.nil-append t) k
no_brace-append (String.◌∷◌ c s) t h k =
    rw (append.cons c s t) (ground (arith, no_brace-append s t))
