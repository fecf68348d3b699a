-- ===== src/Examples/Unary.antt =====
-- A codec with unary texts of ids and times, and the codec's laws for it.
use Prim.Native.Nat.compare as compare_ℕ
use Prim.Native.Nat.{Ordering, compare as compare_ℕ}
use Prim.Native.String.compare
use Prim.Native.String.{String, [], ◌∷◌, compare}
use Prim.Native.Char.{Char}
use stackhour.Prelude.{ℕ, zero, suc, ◌≡◌, refl, ap, ◌∙◌, sym, true, false, some, text_le, leb}
use mathlib.Core.List.{[] as nil}
use stackhour.Domain.Json.{null}
use stackhour.Domain.Protocol.{HubToNode}
use stackhour.Domain.Codec.{Codec, IsLawful}

abbrev stroke : Char
stroke = "|"

unfoldable pub strokes : ℕ → String
strokes zero = []
strokes (suc n) = stroke ∷ strokes n

unfoldable pub count_strokes : String → ℕ
count_strokes [] = 0
count_strokes (c ∷ s) = suc (count_strokes s)

pub count_strokes-strokes : (n : ℕ) → count_strokes (strokes n) ≡ n
unfolding strokes count_strokes
count_strokes-strokes zero = refl
count_strokes-strokes (suc n) = ap suc (count_strokes-strokes n)

compare-strokes : (m n : ℕ) → compare (strokes m) (strokes n) ≡ compare_ℕ m n
unfolding strokes
compare-strokes zero zero = refl
compare-strokes zero (suc n) = compare.nil-cons stroke (strokes n) ∙ sym (compare_ℕ.zero-suc n)
compare-strokes (suc m) zero = compare.cons-nil stroke (strokes m) ∙ sym (compare_ℕ.suc-zero m)
compare-strokes (suc m) (suc n) =
    compare.cons-cons stroke stroke (strokes m) (strokes n)
    ∙ compare-strokes m n
    ∙ sym (compare_ℕ.suc-suc m n)

text_le-strokes : (m n : ℕ) → text_le (strokes m) (strokes n) ≡ leb m n
text_le-strokes m n =
    ap (λ (o : Ordering). elim o [ Ordering.gt ↦ false | _ ↦ true ]) (compare-strokes m n)

unfoldable pub unary : HubToNode → Codec
unary message = record {
  uuid_text = strokes;
  parse_uuid = λ s. some (count_strokes s);
  time_text = strokes;
  parse_time = λ s. some (count_strokes s);
  json_text = λ v. "null";
  parse_json = λ s. some null;
  texts_text = λ ts. "[]";
  parse_texts = λ s. some nil;
  message_text = λ m. "message";
  parse_message = λ s. some message;
}

pub unary-IsLawful : (message : HubToNode) → IsLawful (unary message)
unfolding unary
unary-IsLawful message = record {
  uuid_round = λ u. ap some (count_strokes-strokes u);
  time_round = λ t h. ap some (count_strokes-strokes t);
  time_order = λ s t h k. text_le-strokes s t;
}
