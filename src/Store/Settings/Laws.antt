-- ===== src/Store/Settings/Laws.antt =====
-- `get_setting` after `put_setting`.
use stackhour.Prelude.{
  String, ◌≡◌, refl, Bool, true, false, none, some, List, [], ◌∷◌, arith, str_eq, eq_iff, eq_refl,
  Bool-cases, inl, inr,
}
use stackhour.Result.{ok}
use stackhour.Sql.{first, exists, update, upsert}
use stackhour.Sql.Laws.{first-append}
use stackhour.Domain.Codec.{Codec}
use stackhour.Domain.Ids.{Time}
use stackhour.Domain.Json.{Value}
use stackhour.Store.Rows.{SettingRow}
use stackhour.Store.Db.{Db}
use stackhour.Store.Settings.{get_setting, put_setting}

module _ {ℓ} {R : Type ℓ} (p : R → Bool) (row : R) where
  first-update_const :
      p row ≡ true
      → (xs : List R) → exists p xs ≡ true
      → first p (update p (λ r. row) xs) ≡ some row
  unfolding first exists update
  first-update_const h [] e = absurd (cc e)
  first-update_const h (x ∷ xs) e = ground (arith, first-update_const h xs)

  first-absent : (xs : List R) → exists p xs ≡ false → first p xs ≡ none
  unfolding first exists
  first-absent [] e = refl
  first-absent (x ∷ xs) e = ground (arith, first-absent xs)

  first-upsert : p row ≡ true → (xs : List R) → first p (upsert p (λ r. row) row xs) ≡ some row
  unfolding upsert first
  first-upsert h xs = elim (Bool-cases (exists p xs)) [
    | inl there ↦ ground (arith, first-update_const h xs there)
    | inr fresh ↦ ground (arith, first-append p xs (row ∷ []), first-absent xs fresh)
  ]

  first-update_other :
      (q : R → Bool)
      → q row ≡ false
      → ((r : R) → p r ≡ true → q r ≡ false)
      → (xs : List R) → first q (update p (λ r. row) xs) ≡ first q xs
  unfolding first update
  first-update_other q h apart [] = refl
  first-update_other q h apart (x ∷ xs) = ground (arith, first-update_other q h apart xs, apart x)

  first-upsert_other :
      (q : R → Bool)
      → q row ≡ false
      → ((r : R) → p r ≡ true → q r ≡ false)
      → (xs : List R) → first q (upsert p (λ r. row) row xs) ≡ first q xs
  unfolding upsert first
  first-upsert_other q h apart xs =
      ground (arith, first-update_other q h apart xs, first-append q xs (row ∷ []))

same_key :
    (key other : String)
    → str_eq key other ≡ false
    → (r : SettingRow) → str_eq r.key key ≡ true
    → str_eq r.key other ≡ false
same_key key other apart r h = rw ((eq_iff r.key key).0 h) apart

module _ (c : Codec) where
  -- A value that survives its JSON text reads back under the key that it was put under.
  pub get_setting-put_setting :
      (now : Time) (key : String) (value : Value) (db : Db)
      → c.parse_json (c.json_text value) ≡ some value
      → get_setting c key (put_setting c now key value db) ≡ ok (some value)
  unfolding get_setting put_setting
  get_setting-put_setting now key value db readable =
      let row : SettingRow = record {
        key = key;
        value = c.json_text value;
        updated_at = c.time_text now;
      } in
      ground (
        arith,
        first-upsert (λ (r : SettingRow). str_eq r.key key) row (eq_refl key) db.control_settings,
        readable,
      )

  -- The other settings read as before.
  pub get_setting-put_setting_other :
      (now : Time) (key other : String) (value : Value) (db : Db)
      → str_eq key other ≡ false
      → get_setting c other (put_setting c now key value db) ≡ get_setting c other db
  unfolding get_setting put_setting
  get_setting-put_setting_other now key other value db apart =
      let row : SettingRow = record {
        key = key;
        value = c.json_text value;
        updated_at = c.time_text now;
      } in
      ground (
        arith,
        first-upsert_other (λ (r : SettingRow). str_eq r.key key) row
            (λ (r : SettingRow). str_eq r.key other) apart (same_key key other apart)
            db.control_settings,
      )
