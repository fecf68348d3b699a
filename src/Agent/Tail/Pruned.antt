-- ===== src/Agent/Tail/Pruned.antt =====
-- What stays in the map of offsets.
use stackhour.Prelude.{
  ℕ, ◌≡◌, refl, String, true, inl, inr, List, [], ◌∷◌, Bool-cases, str_eq, eq_iff, ltb, length, ap,
  ◌∙◌,
}
use stackhour.Hub.Table
use stackhour.Agent.Tail.{Offsets, is_live, retain, prune_offsets}

retain-live :
    (live : List String) (name : String) (offsets : Offsets)
    → is_live live name ≡ true
    → Table.get str_eq name (retain live offsets) ≡ Table.get str_eq name offsets
unfolding Table.get
retain-live live name [] h = refl
retain-live live name ((other, offset) ∷ offsets) h = elim (Bool-cases (str_eq other name)) [
  | inl same ↦
      let kept : is_live live other ≡ true = ap (is_live live) ((eq_iff other name).0 same) ∙ h in
      rw (kept, same) refl
  | inr apart ↦ elim (Bool-cases (is_live live other)) [
    | inl kept ↦ rw (kept, apart) (retain-live live name offsets h)
    | inr dropped ↦ rw (dropped, apart) (retain-live live name offsets h)
  ]
]

-- A file that is there keeps its offset.
prune_offsets-live :
    (live : List String) (max : ℕ) (name : String) (offsets : Offsets)
    → is_live live name ≡ true
    → Table.get str_eq name (prune_offsets live max offsets) ≡ Table.get str_eq name offsets
unfolding prune_offsets
prune_offsets-live live max name offsets h = elim (Bool-cases (ltb (length offsets) max)) [
  | inl few ↦ rw few refl
  | inr many ↦ rw many (retain-live live name offsets h)
]
