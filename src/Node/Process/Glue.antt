-- ===== src/Node/Process/Glue.antt =====
-- Texts put together with a separator.
use Prim.Native.String
use Prim.Native.String.append
use text.Mathlib.TextLemmas
use stackhour.Prelude.{
  String, ◌≡◌, refl, ap, ◌∙◌, Bool, true, false, List, [], ◌∷◌, ◌++◌, if◌then◌else◌, Bool-cases,
  inl, inr, All,
}
use stackhour.Core.Text.{join, is_empty}

abbrev pub Filled : List String → Type 0
Filled ms = All (λ m. is_empty m ≡ false) ms

module _ (separator : String) where
  -- more texts behind a text, with the separator between them
  unfoldable pub glue : String → List String → String
  glue text [] = text
  glue text (m ∷ ms) =
      glue (if is_empty text then m else String.◌++◌ text (String.◌++◌ separator m)) ms

  join-append :
      (s t : String) (ms : List String)
      → join separator (String.◌++◌ s t ∷ ms) ≡ String.◌++◌ s (join separator (t ∷ ms))
  unfolding join
  join-append s t [] = refl
  join-append s t (m ∷ ms) = TextLemmas.append_assoc s t _

  is_empty-append : (s t : String) → is_empty s ≡ false → is_empty (String.◌++◌ s t) ≡ false
  is_empty-append String.[] t h = absurd (cc h)
  is_empty-append (String.◌∷◌ c s) t h = rw (append.cons c s t) refl

  glue-join :
      (text : String) (ms : List String)
      → is_empty text ≡ false
      → glue text ms ≡ join separator (text ∷ ms)
  unfolding glue join
  glue-join text [] h = refl
  glue-join text (m ∷ ms) h = rw h (
      glue-join (String.◌++◌ text (String.◌++◌ separator m)) ms (is_empty-append text _ h)
      ∙ join-append text (String.◌++◌ separator m) ms
      ∙ ap (String.◌++◌ text) (join-append separator m ms))

  pub glue-empty : (ms : List String) → Filled ms → glue "" ms ≡ join separator ms
  unfolding glue join
  glue-empty [] h = refl
  glue-empty (m ∷ ms) h = glue-join m ms h.0

  pub glue-append :
      (text : String) (xs ys : List String) → glue (glue text xs) ys ≡ glue text (xs ++ ys)
  unfolding glue
  glue-append text [] ys = refl
  glue-append text (x ∷ xs) ys =
      glue-append (if is_empty text then x else String.◌++◌ text (String.◌++◌ separator x)) xs ys

pub Filled-append : (xs ys : List String) → Filled xs → Filled ys → Filled (xs ++ ys)
Filled-append [] ys h k = k
Filled-append (x ∷ xs) ys h k = (h.0, Filled-append xs ys h.1 k)

pub lone-Filled : (m : String) → Filled (if is_empty m then [] else m ∷ [])
lone-Filled m = elim (Bool-cases (is_empty m)) [ inl h ↦ rw h tt | inr h ↦ rw h (h, tt) ]

pub either-Filled :
    (b : Bool) (xs ys : List String) → Filled xs → Filled ys → Filled (if b then xs else ys)
either-Filled true xs ys h k = h
either-Filled false xs ys h k = k
