-- ===== src/Uuid.antt =====
-- The package github.com/google/uuid, as far as the repositories use it: parsing an identifier and
-- printing one. A uuid is its 128-bit value, so the database's order of uuids is that of numbers.
use feedium.Prelude.{ℕ, String, ◌≡◌, Option, some}

pub record UuidCodec : Type 0 where
  pub parse : String → Option ℕ
  pub to_string : ℕ → String
  -- uuid.Parse reads what String prints.
  pub parse-to_string : (u : ℕ) → parse (to_string u) ≡ some u
