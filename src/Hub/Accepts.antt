-- ===== src/Hub/Accepts.antt =====
-- What a node's capabilities say of an engine: `node_accepts_engine`, of
-- crates/stackhour-hub/src/lib.rs.
use stackhour.Prelude.{
  String, ◌≡◌, ◌≢◌, refl, ap, ◌⊎◌, true, false, Option, none, some, arith, inl, inr, eq_iff,
  eq_refl, Bool-cases,
}
use stackhour.Domain.Json.{
  Value, null, num, obj, Elements, no_elements, element, str, bool, arr, get,
}
use stackhour.Hub.Checks.{
  node_accepts_engine, any_text, lists, is_text, is_true, is_false, as_bool_of,
}

-- the text stands in the array
abbrev pub Lists : String → Elements → Type 0
Lists engine no_elements = ⊥
Lists engine (element v vs) = (v ≡ str engine) ⊎ Lists engine vs

-- What a node says that accepts tasks for an engine: it did not opt out of tasks, and it lists the
-- engine or has a flag for it.
abbrev pub Accepts : Value → String → Type 0
Accepts capabilities engine =
    (get capabilities "accepts_tasks" ≢ some (bool false))
    × (((engines : Elements) × (get capabilities "engines" ≡ some (arr engines))
          × Lists engine engines)
        ⊎ (get capabilities engine ≡ some (bool true)))

module _ (engine : String) where
  any_text-Lists : (vs : Elements) → any_text engine vs ≡ true → Lists engine vs
  unfolding any_text
  any_text-Lists no_elements h = absurd (cc h)
  any_text-Lists (element v vs) h = elim (Bool-cases (is_text engine v)) [
    | inl same ↦ inl (text v same)
    | inr other ↦ inr (any_text-Lists vs (rw other at h))
  ]
    where
      text : (v : Value) → is_text engine v ≡ true → v ≡ str engine
      text (str t) e = ap str ((eq_iff t engine).0 e)
      text null e = absurd (cc e)
      text (bool b) e = absurd (cc e)
      text (num n) e = absurd (cc e)
      text (arr es) e = absurd (cc e)
      text (obj ms) e = absurd (cc e)

  Lists-any_text : (vs : Elements) → Lists engine vs → any_text engine vs ≡ true
  unfolding any_text
  Lists-any_text no_elements h = absurd h
  Lists-any_text (element v vs) (inl same) = rw (same, eq_refl engine) refl
  Lists-any_text (element v vs) (inr later) = ground (arith, Lists-any_text vs later)

  abbrev Listed : Option Value → Type 0
  Listed o = (engines : Elements) × (o ≡ some (arr engines)) × Lists engine engines

  lists-Listed : (o : Option Value) → lists engine o ≡ true → Listed o
  lists-Listed none h = absurd (cc h)
  lists-Listed (some (arr vs)) h = (vs, refl, any_text-Lists vs h)
  lists-Listed (some null) h = absurd (cc h)
  lists-Listed (some (bool b)) h = absurd (cc h)
  lists-Listed (some (num n)) h = absurd (cc h)
  lists-Listed (some (str s)) h = absurd (cc h)
  lists-Listed (some (obj ms)) h = absurd (cc h)

  flag_set : (o : Option Value) → is_true (as_bool_of o) ≡ true → o ≡ some (bool true)
  flag_set none h = absurd (cc h)
  flag_set (some (bool true)) h = refl
  flag_set (some (bool false)) h = absurd (cc h)
  flag_set (some null) h = absurd (cc h)
  flag_set (some (num n)) h = absurd (cc h)
  flag_set (some (str s)) h = absurd (cc h)
  flag_set (some (arr vs)) h = absurd (cc h)
  flag_set (some (obj ms)) h = absurd (cc h)

  not_out : (o : Option Value) → o ≢ some (bool false) → is_false (as_bool_of o) ≡ false
  not_out none h = refl
  not_out (some (bool true)) h = refl
  not_out (some (bool false)) h = absurd (h refl)
  not_out (some null) h = refl
  not_out (some (num n)) h = refl
  not_out (some (str s)) h = refl
  not_out (some (arr vs)) h = refl
  not_out (some (obj ms)) h = refl

  pub node_accepts_engine-Accepts :
      (v : Value) → node_accepts_engine v engine ≡ true → Accepts v engine
  unfolding node_accepts_engine
  node_accepts_engine-Accepts v h = elim (Bool-cases (lists engine (get v "engines"))) [
    | inl listed ↦ (out, inl (lists-Listed (get v "engines") listed))
    | inr unlisted ↦ (out, inr (flag_set (get v engine) (ground arith)))
  ]
    where
      out : get v "accepts_tasks" ≢ some (bool false)
      out e = absurd (cc (rw e at h))

  pub Accepts-node_accepts_engine :
      (v : Value) → Accepts v engine → node_accepts_engine v engine ≡ true
  unfolding node_accepts_engine
  Accepts-node_accepts_engine v (out, inl (es, found, listed)) =
      rw (node_accepts_engine, not_out (get v "accepts_tasks") out, found, Lists-any_text es listed)
        refl
  Accepts-node_accepts_engine v (out, inr flag) =
      ground (arith, not_out (get v "accepts_tasks") out, flag)
