-- ===== src/Store.antt =====
-- The rows that the modelled services read and write (apps/web/prisma/schema.prisma), and the
-- database as the record of its tables. Identifiers are numbers, as they are only compared; a
-- device's identifier is a text, since its prefix is read. Times are milliseconds; a nullable column
-- is an `Option`. Columns that none of the modelled operations reads are left out.
pub mod Keys
use skytest_agent.Prelude.{ℕ, Bool, Option, List, String, Text}
use skytest_agent.Status.{TestStatus}
use skytest_agent.Retry.Plan.{CaseKind, RetryPolicy}

pub data Capability : Type 0 where
  android browser : Capability

pub data TriggerSource : Type 0 where
  user scheduler : TriggerSource

pub record TestRun : Type 0 where
  pub id : ℕ
  pub test_case_id : ℕ
  pub run_session_id : Option ℕ
  pub session_position : Option ℕ
  pub attempt : ℕ
  pub kind : CaseKind
  pub reused_session : Bool
  pub triggered_by_email : Option String
  pub trigger_source : TriggerSource
  pub required_capability : Option Capability
  pub required_runner_kind : Option ℕ
  pub requested_device_id : Option Text
  pub requested_runner_id : Option ℕ
  pub assigned_runner_id : Option ℕ
  pub lease_expires_at : Option ℕ
  pub last_event_at : Option ℕ
  pub next_event_sequence : ℕ
  pub status : TestStatus
  pub result : Option String
  pub error : Option String
  pub started_at : Option ℕ
  pub completed_at : Option ℕ
  pub deleted_at : Option ℕ
  pub created_at : ℕ

pub data ResourceType : Type 0 where
  emulator_profile connected_device : ResourceType

pub record AndroidResourceLock : Type 0 where
  pub host_fingerprint : ℕ
  pub resource_key : Text
  pub resource_type : ResourceType
  pub run_id : ℕ
  pub runner_id : ℕ
  pub lease_expires_at : ℕ

pub data DeviceState : Type 0 where
  online offline unavailable : DeviceState

pub record RunnerDevice : Type 0 where
  pub runner_id : ℕ
  pub device_id : Text
  pub state : DeviceState

pub record Runner : Type 0 where
  pub id : ℕ
  pub host_fingerprint : ℕ
  pub is_online : Bool

pub record Project : Type 0 where
  pub id : ℕ
  pub team_id : ℕ
  pub max_concurrent_runs : ℕ

pub record TestCase : Type 0 where
  pub id : ℕ
  pub project_id : ℕ
  pub status : TestStatus

pub record RunEvent : Type 0 where
  pub run_id : ℕ
  pub sequence : ℕ
  pub kind : String
  pub message : Option String
  pub created_at : ℕ

pub data SessionKind : Type 0 where
  single group : SessionKind

pub record RunSession : Type 0 where
  pub id : ℕ
  pub kind : SessionKind
  pub status : TestStatus
  pub retry_policy : RetryPolicy
  pub retry_pending : Bool
  pub started_at : Option ℕ
  pub completed_at : Option ℕ

pub record Db : Type 0 where
  pub runs : List TestRun
  pub locks : List AndroidResourceLock
  pub devices : List RunnerDevice
  pub runners : List Runner
  pub projects : List Project
  pub cases : List TestCase
  pub events : List RunEvent
  pub sessions : List RunSession
