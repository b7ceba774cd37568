-- ===== src/Model.antt =====
-- internal/model/model.go. Times and durations are nanoseconds; `time.Time{}` is 0.
use nats_guest_access.Prelude.{ℕ, String, Bool, Option, List}

-- A string in Go, which JSON may give any other value: `other_state` of it.
pub data EventState : Type 0 where
  draft open_state paused deleting deleted : EventState
  other_state : String → EventState

pub data Capability : Type 0 where
  operate inspect delete : Capability
  unknown : String → Capability

-- LastError is a bounded code, "" for none.
pub record CleanupProgress : Type 0 where
  pub id : String
  pub attempts : ℕ
  pub started_at : ℕ
  pub next_attempt_at : ℕ
  pub last_error : String

pub record Event : Type 0 where
  pub cleanup : Option CleanupProgress
  pub deleted_by_subject : String
  pub id : String
  pub application_id : String
  pub name : String
  pub owner_subject : String
  pub capacity : ℕ
  pub inspect_live_workspaces : Bool
  pub state : EventState
  pub invitation_digest : String
  pub deletion_id : String
  pub cohosts : List (String × List Capability)
  pub created_at : ℕ
  pub updated_at : ℕ

pub record Slot : Type 0 where
  pub cleanup : Option CleanupProgress
  pub event_id : String
  pub number : ℕ
  pub generation : String
  pub subject : String
  pub resume_digest : String
  pub reserved : Bool
  pub lease_expires_at : ℕ
  pub grace_expires_at : ℕ
  pub created_at : ℕ
  pub last_seen_at : ℕ

pub record SessionIndex : Type 0 where
  pub deleted : Bool
  pub event_id : String
  pub slot : ℕ

pub record DeletionReceipt : Type 0 where
  pub deletion_id : String
  pub event_id : String
  pub application_id : String
  pub owner_subject : String
  pub deleted_by_subject : String
  pub created_at : ℕ
  pub deleted_at : ℕ
  pub identities_deleted : ℕ
