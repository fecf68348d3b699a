-- ===== src/Domain/Handshake.antt =====
-- The version check of a node's first frame.
use stackhour.Prelude.{ℤ, ◌≡◌, ◌↔◌, true, none, arith}
use stackhour.Domain.Protocol.{negotiate, wire_protocol_version, accept_welcome, reject_welcome}

-- The hub accepts a node if and only if the node speaks the hub's own version; an acceptance has no
-- error and a refusal has one, and either answer carries the hub's version.
pub negotiate-accepted :
    (version : ℤ)
    → (((negotiate version).accepted ≡ true) ↔ (version ≡ wire_protocol_version))
      × (((negotiate version).error ≡ none) ↔ (version ≡ wire_protocol_version))
      × ((negotiate version).protocol_version ≡ wire_protocol_version)
unfolding negotiate accept_welcome reject_welcome
negotiate-accepted version = ground arith
