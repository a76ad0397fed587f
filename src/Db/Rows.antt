-- ===== src/Db/Rows.antt =====
-- crates/ultramem-core/src/db/mod.rs: the rows of the relational tables. A confidence (`f32`) is
-- stored and copied, never computed with, so its type is a parameter.
use ultramem.Prelude.{ℤ, Text, Bool, Option}

pub record DocumentRow : Type 0 where
  pub id : Text
  pub container_tag : Text
  pub source : Text
  pub title : Text
  pub reference : Text
  pub content_hash : Option Text
  pub canonical_url : Option Text
  pub blob_key : Option Text
  pub captured_at : ℤ
  pub processing_state : Text
  pub created_at : ℤ

pub record ChunkRow : Type 0 where
  pub id : Text
  pub document_id : Text
  pub chunk_index : ℤ
  pub content : Text
  pub embed_model : Text
  pub dim : ℤ

pub record MemoryRow (F : Type 0) : Type 0 where
  pub id : Text
  pub container_tag : Text
  pub kind : Text
  pub statement : Text
  pub confidence : Option F
  pub is_latest : Bool
  pub needs_review : Bool
  pub supersedes : Option Text
  pub superseded_by : Option Text
  pub superseded_at : Option ℤ
  pub extends : Option Text
  pub event_from : Option ℤ
  pub valid_until : Option ℤ
  pub learned_at : ℤ
  pub document_id : Text
  pub created_at : ℤ

pub record EvidenceRow : Type 0 where
  pub id : Text
  pub memory_id : Text
  pub document_id : Text
  pub chunk_id : Option Text
  pub char_start : Option ℤ
  pub char_end : Option ℤ
  pub quote : Text
  pub extractor : Text

pub record JobRow : Type 0 where
  pub id : Text
  pub container_tag : Option Text
  pub kind : Text
  pub state : Text
  pub progress : ℤ
  pub total : Option ℤ
  pub error : Option Text
  pub created_at : ℤ
  pub updated_at : ℤ

pub record AclEntry : Type 0 where
  pub principal : Text
  pub scope : Text
  pub capability : Text
  pub created_at : ℤ

pub record AliasEntry : Type 0 where
  pub container_tag : Text
  pub alias : Text
  pub canonical : Text
  pub created_at : ℤ

pub record AuditEvent : Type 0 where
  pub actor : Text
  pub container_tag : Option Text
  pub action : Text
  pub target_id : Option Text
  pub request_id : Option Text
  pub ts : ℤ
