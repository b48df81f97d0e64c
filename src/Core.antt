-- ===== src/Core.antt =====
-- The data model: internal/core/models.go, interfaces.go, rpclistener.go, backfill.go and apikey.go.
--
-- Times are nanoseconds since the epoch and byte strings are lists of numbers. `uint64` fields are
-- natural numbers; the operations that can wrap write the wrap-around out.
use reddotrelay.Prelude.{
  ℕ, ◌≡◌, ◌↔◌, Bool, true, ◌&&◌, ◌||◌, List, Option, String, ◌==◌, str_eq, arith, eq_iff,
}

pub record EventId : Type 0 where
  pub chain_id : ℕ
  pub transaction_hash : String
  pub log_index : ℕ

-- Go's `==` on `core.EventID`.
unfoldable pub same_id : EventId → EventId → Bool
same_id a b =
    a.chain_id == b.chain_id
    && str_eq a.transaction_hash b.transaction_hash
    && a.log_index == b.log_index

pub same_id_iff : (a b : EventId) → (same_id a b ≡ true) ↔ (a ≡ b)
unfolding same_id
same_id_iff a b = ground (arith, eq_iff a.transaction_hash b.transaction_hash)

pub record Event : Type 0 where
  pub id : EventId
  pub block_number : ℕ
  pub block_hash : String
  pub address : String
  pub name : String
  pub signature : String
  pub raw_topics : List String
  pub raw_data : List ℕ
  pub decoded_payload : List ℕ
  pub observed_at : ℕ

pub record Checkpoint : Type 0 where
  pub chain_id : ℕ
  pub block_number : ℕ
  pub block_hash : String

pub record CanonicalBlock : Type 0 where
  pub chain_id : ℕ
  pub number : ℕ
  pub hash : String
  pub parent_hash : String

pub record WebhookAuthentication : Type 0 where
  pub kind : String
  pub secret_ref : String
  pub key_id : String

pub data DeliveryStatus : Type 0 where
  pending delivered dead : DeliveryStatus

pub record Delivery : Type 0 where
  pub event_id : EventId
  pub destination : String
  pub authentication : WebhookAuthentication
  pub status : DeliveryStatus
  pub attempts : ℕ
  pub total_attempts : ℕ
  pub lease_token : String
  pub next_attempt : ℕ
  pub last_attempt_at : Option ℕ
  pub last_status_code : Option ℕ
  pub last_error : String
  pub delivered_at : Option ℕ

pub record OutboxItem : Type 0 where
  pub delivery : Delivery
  pub event : Event

pub record RawLog : Type 0 where
  pub chain_id : ℕ
  pub block_number : ℕ
  pub block_hash : String
  pub transaction_hash : String
  pub log_index : ℕ
  pub address : String
  pub topics : List String
  pub content : List ℕ

-- `APIKeyPrincipal`
pub record Principal : Type 0 where
  pub id : String
  pub name : String
  pub role : String

-- The roles that the tables and the operations allow.
unfoldable pub valid_role : String → Bool
valid_role role = str_eq role "admin" || str_eq role "read-only"
