-- ===== src/Models.antt =====
-- internal/models: the records and enums that the other packages share. A uuid is a number that the
-- code only compares; a time is a number of nanoseconds; raw JSON and strings are texts.
pub mod Enums
use aegis_route.Base.{ℕ, String, string_key, Bool, Option}
use aegis_route.Base.Int.{ℤ}

abbrev pub Uuid : Type 0
Uuid = ℕ

pub data BackendKind : Type 0 where
  openai_compatible mock : BackendKind

pub record ModelBackend : Type 0 where
  pub id : Uuid
  pub name : String
  pub base_url : String
  pub model_name : String
  pub kind : BackendKind
  pub enabled : Bool
  pub priority : ℤ
  pub weight : ℤ
  pub max_in_flight : ℤ

pub record RoutingPolicy : Type 0 where
  pub id : Uuid
  pub name : String
  pub model_name : String
  pub strategy : String
  pub enabled : Bool

pub data JobStatus : Type 0 where
  queued running succeeded partially_failed failed : JobStatus

pub data ItemStatus : Type 0 where
  queued running succeeded failed : ItemStatus

pub data OutboxStatus : Type 0 where
  pending published failed : OutboxStatus

pub record BatchJob : Type 0 where
  pub id : Uuid
  pub tenant_id : Uuid
  pub api_key_id : Uuid
  pub model : String
  pub status : JobStatus
  pub total_items : ℕ
  pub completed_items : ℕ
  pub failed_items : ℕ
  pub created_at : ℕ
  pub updated_at : ℕ

pub record BatchJobItem : Type 0 where
  pub id : Uuid
  pub job_id : Uuid
  pub custom_id : String
  pub request : String
  pub status : ItemStatus
  pub attempts : ℕ
  pub response : Option String
  pub error : Option String
  pub created_at : ℕ
  pub updated_at : ℕ

pub record BatchJobOutbox : Type 0 where
  pub id : Uuid
  pub job_id : Uuid
  pub status : OutboxStatus
  pub attempts : ℕ
  pub last_error : Option String
  pub published_at : Option ℕ
  pub created_at : ℕ
  pub updated_at : ℕ

pub data IdempotencyStatus : Type 0 where
  pending completed : IdempotencyStatus

pub record IdempotencyRecord : Type 0 where
  pub id : Uuid
  pub scope : String
  pub idem_key : String
  pub request_hash : String
  pub status : IdempotencyStatus
  pub locked_until : Option ℕ
  pub response_status : Option ℕ
  pub response_headers : Option String
  pub response_body : Option String
  pub created_at : ℕ
  pub expires_at : ℕ
