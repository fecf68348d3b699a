-- ===== src/Store/Settings.antt =====
-- The opaque JSON settings, of crates/stackhour-domain/src/store.rs.
pub mod Laws
use stackhour.Prelude.{String, Option, none, some, str_eq}
use stackhour.Result.{Result, ok, conversion, or_fail, ◌>>=◌}
use stackhour.Sql
use stackhour.Domain.Codec.{Codec}
use stackhour.Domain.Ids.{Time}
use stackhour.Domain.Json.{Value}
use stackhour.Store.Rows.{SettingRow}
use stackhour.Store.Reads.{optional}
use stackhour.Store.Db.{Db}

module _ (c : Codec) where
  unfoldable pub get_setting : String → Db → Result (Option Value)
  get_setting key db =
      optional (λ (r : SettingRow). or_fail (c.parse_json r.value) conversion)
        (Sql.first (λ (r : SettingRow). str_eq r.key key) db.control_settings)

  unfoldable pub put_setting : Time → String → Value → Db → Db
  put_setting now key value db =
      let row : SettingRow = record {
        key = key;
        value = c.json_text value;
        updated_at = c.time_text now;
      } in
      record db {
        control_settings =
            Sql.upsert (λ (r : SettingRow). str_eq r.key key) (λ r. row) row db.control_settings;
      }
