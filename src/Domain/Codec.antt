-- ===== src/Domain/Codec.antt =====
-- The texts that other crates give: `uuid`, `chrono` and `serde_json`. The store writes a value's
-- text to a column and parses it back when it reads a row.
use stackhour.Prelude.{ℕ, String, ◌≡◌, ◌<◌, ◌*◌, ◌^◌, Option, some, List, text_le, leb}
use stackhour.Domain.Ids.{Uuid, Time}
use stackhour.Domain.Json.{Value}
use stackhour.Domain.Protocol.{HubToNode}

pub record Codec : Type 0 where
  -- `Uuid`'s `Display` and `Uuid::parse_str`
  pub uuid_text : Uuid → String
  pub parse_uuid : String → Option Uuid
  -- `to_rfc3339_opts(SecondsFormat::Nanos, true)` and `parse_from_rfc3339`
  pub time_text : Time → String
  pub parse_time : String → Option Time
  -- `serde_json::to_string` and `from_str` at the three types that the store keeps
  pub json_text : Value → String
  pub parse_json : String → Option Value
  pub texts_text : List String → String
  pub parse_texts : String → Option (List String)
  pub message_text : HubToNode → String
  pub parse_message : String → Option HubToNode

-- The first instant of the year 10000, from which RFC 3339 has no text.
abbrev pub year_10000 : ℕ
year_10000 = 3652425 * 86400 * 10 ^ 9

-- What the store relies on: an id and a time read back as they were written, and the texts of
-- times stand in the order of the times.
pub record IsLawful (c : Codec) : Type 0 where
  pub uuid_round : (u : Uuid) → c.parse_uuid (c.uuid_text u) ≡ some u
  pub time_round : (t : Time) → t < year_10000 → c.parse_time (c.time_text t) ≡ some t
  pub time_order :
      (s t : Time)
      → s < year_10000
      → t < year_10000
      → text_le (c.time_text s) (c.time_text t) ≡ leb s t
