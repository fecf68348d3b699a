-- ===== src/Core/Engine/Argv.antt =====
-- `assemble_argv` without its insertions.
use mathlib.Core.List.{append_assoc, append-nil}
use stackhour.Prelude.{
  ℕ, ◌+◌, String, ◌≡◌, refl, sym, ap, ◌∙◌, List, [], ◌∷◌, ◌++◌, map, length, length-append, str_eq,
  if◌then◌else◌, is_some, arith,
}
use stackhour.Core.Engine.{
  EngineDef, ArgvVars, subst, permission_argv, insert_at, sentinel_at, splice_in, rendered,
  partial_flag, not_empty, resumed, assemble_argv, spliced,
}

-- the arguments before a last "-", and the "-" if there is one
unfoldable pub before_sentinel : List String → List String
before_sentinel [] = []
before_sentinel (x ∷ []) = if str_eq x "-" then [] else x ∷ []
before_sentinel (x ∷ y ∷ rest) = x ∷ before_sentinel (y ∷ rest)

unfoldable pub sentinel : List String → List String
sentinel [] = []
sentinel (x ∷ []) = if str_eq x "-" then x ∷ [] else []
sentinel (x ∷ y ∷ rest) = sentinel (y ∷ rest)

pub before_sentinel-append : (xs : List String) → before_sentinel xs ++ sentinel xs ≡ xs
unfolding before_sentinel sentinel
before_sentinel-append [] = refl
before_sentinel-append (x ∷ []) = ground arith
before_sentinel-append (x ∷ y ∷ rest) =
    ap (λ (l : List String). x ∷ l) (before_sentinel-append (y ∷ rest))

pub sentinel_at-length : (xs : List String) → sentinel_at xs ≡ length (before_sentinel xs)
unfolding before_sentinel sentinel_at
sentinel_at-length [] = refl
sentinel_at-length (x ∷ []) = ground arith
sentinel_at-length (x ∷ y ∷ rest) = ground (arith, sentinel_at-length (y ∷ rest))

pub insert_at-append :
    (pre post : List String) (item : String)
    → insert_at (length pre) item (pre ++ post) ≡ pre ++ item ∷ post
unfolding insert_at
insert_at-append [] [] item = refl
insert_at-append [] (x ∷ post) item = refl
insert_at-append (x ∷ pre) post item =
    ap (λ (l : List String). x ∷ l) (insert_at-append pre post item)

pub last_length : (pre : List String) (item : String) → length pre + 1 ≡ length (pre ++ item ∷ [])
last_length pre item = omega (arith, length-append pre (item ∷ []))

splice_in-append :
    (items pre post : List String)
    → splice_in items (pre ++ post, length pre) ≡ ((pre ++ items) ++ post, length (pre ++ items))
unfolding splice_in
splice_in-append [] pre post = rw (append-nil pre) refl
splice_in-append (item ∷ items) pre post =
    rw
      (
        insert_at-append pre post item,
        sym (append_assoc pre (item ∷ []) post),
        last_length pre item,
        splice_in-append items (pre ++ item ∷ []) post,
        append_assoc pre (item ∷ []) items,
      )
      refl

-- the arguments between the base and the sentinel
abbrev pub inserted : EngineDef → ArgvVars → List String
inserted def vars =
    partial_flag def vars
    ++ (permission_argv def vars.permission_mode
        ++ (rendered (is_some vars.system_prompt) vars def.system_prompt_args
            ++ (rendered (is_some vars.model) vars def.model_args
                ++ (rendered (is_some vars.effort) vars def.effort_args
                    ++ (rendered (not_empty vars.allow_tools) vars def.allowed_tools_args
                        ++ rendered (not_empty vars.deny_tools) vars def.disallowed_tools_args)))))

splice_two :
    (xs ys pre post : List String)
    → splice_in ys (splice_in xs (pre ++ post, length pre))
      ≡ splice_in (xs ++ ys) (pre ++ post, length pre)
splice_two xs ys pre post =
    rw (splice_in-append xs pre post, splice_in-append ys (pre ++ xs) post)
      (rw (splice_in-append (xs ++ ys) pre post, append_assoc pre xs ys) refl)

splice_seven :
    (a b c d e f g pre post : List String)
    → (splice_in g (
        splice_in f (
          splice_in e
            (splice_in d (splice_in c (splice_in b (splice_in a (pre ++ post, length pre)))))))).0
      ≡ (pre ++ (a ++ (b ++ (c ++ (d ++ (e ++ (f ++ g))))))) ++ post
splice_seven a b c d e f g pre post =
    rw
      (
        splice_two a b pre post,
        splice_two (a ++ b) c pre post,
        splice_two ((a ++ b) ++ c) d pre post,
        splice_two (((a ++ b) ++ c) ++ d) e pre post,
        splice_two ((((a ++ b) ++ c) ++ d) ++ e) f pre post,
        splice_two (((((a ++ b) ++ c) ++ d) ++ e) ++ f) g pre post,
        splice_in-append ((((((a ++ b) ++ c) ++ d) ++ e) ++ f) ++ g) pre post,
      )
      (ap (λ (l : List String). (pre ++ l) ++ post) (simp (append_assoc)))

start :
    (base : List String)
    → ◌≡◌ {A = List String × ℕ}
        (base, sentinel_at base)
        (before_sentinel base ++ sentinel base, length (before_sentinel base))
start base = rw (before_sentinel-append base, sentinel_at-length base) refl

-- The arguments are, for every engine and all variables, the rendered base up to a last "-", then
-- the partial-messages flag, permission, system prompt, model, effort, allowed and denied tools in
-- this order, then the "-" if there was one, and then made to resume the session.
pub assemble_argv-inserted :
    (def : EngineDef) (vars : ArgvVars)
    → assemble_argv def vars
      ≡ let base = map (subst vars) def.args in
        resumed def vars (before_sentinel base ++ inserted def vars ++ sentinel base)
unfolding assemble_argv
assemble_argv-inserted def vars =
    let base = map (subst vars) def.args in
    ap (λ (at : List String × ℕ). resumed def vars (spliced def vars at).0) (start base)
    ∙ ap (resumed def vars) (
        splice_seven (partial_flag def vars) (permission_argv def vars.permission_mode)
          (rendered (is_some vars.system_prompt) vars def.system_prompt_args)
          (rendered (is_some vars.model) vars def.model_args)
          (rendered (is_some vars.effort) vars def.effort_args)
          (rendered (not_empty vars.allow_tools) vars def.allowed_tools_args)
          (rendered (not_empty vars.deny_tools) vars def.disallowed_tools_args)
          (before_sentinel base) (sentinel base))
