-- ===== src/Jobs/Enums.antt =====
-- jobs/enums.py. A member's text is its stored value.
use wotbot.Base.{String, Bool, true, false, Option, none, some}

pub data JobTriggerKind : Type 0 where
  time event : JobTriggerKind

pub data JobActionKind : Type 0 where
  prompt analysis : JobActionKind

pub data JobInteractionMode : Type 0 where
  autonomous required_checkin : JobInteractionMode

pub data JobOutputKind : Type 0 where
  narrative structured_record : JobOutputKind

pub data JobRunSource : Type 0 where
  manual time event : JobRunSource

pub data JobRunStatus : Type 0 where
  running succeeded failed waiting_for_input cancelled skipped : JobRunStatus

pub data JobRunEventType : Type 0 where
  run_started user_reply waiting_for_input assistant_message record_submitted run_succeeded
        run_failed run_cancelled run_skipped :
      JobRunEventType

abbrev pub source_value : JobRunSource → String
source_value JobRunSource.manual = "manual"
source_value JobRunSource.time = "time"
source_value JobRunSource.event = "event"

abbrev pub is_manual : JobRunSource → Bool
is_manual JobRunSource.manual = true
is_manual _ = false

-- `status == JobRunStatus.WAITING_FOR_INPUT`
abbrev pub is_waiting : JobRunStatus → Bool
is_waiting JobRunStatus.waiting_for_input = true
is_waiting _ = false

abbrev pub is_running : JobRunStatus → Bool
is_running JobRunStatus.running = true
is_running _ = false

abbrev pub is_failed : JobRunStatus → Bool
is_failed JobRunStatus.failed = true
is_failed _ = false

-- `status in {RUNNING, WAITING_FOR_INPUT}`
abbrev pub in_progress : JobRunStatus → Bool
in_progress JobRunStatus.running = true
in_progress JobRunStatus.waiting_for_input = true
in_progress _ = false

-- A test on a nullable status.
abbrev pub has_status : (JobRunStatus → Bool) → Option JobRunStatus → Bool
has_status test none = false
has_status test (some s) = test s
