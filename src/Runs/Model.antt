-- ===== src/Runs/Model.antt =====
-- apps/automation/models/run.py, and the time stamps and texts that the services write into a run.
use cobalt_wren.Prelude.{ℕ, Bool, true, false, Option}
use cobalt_wren.Prelude.Text.{Text, codes}
use cobalt_wren.Core.Value.{Value}

pub data RunStatus : Type 0 where
  pending running waiting succeeded failed timed_out cancelled : RunStatus

abbrev pub status_beq : RunStatus → RunStatus → Bool
status_beq pending pending = true
status_beq running running = true
status_beq waiting waiting = true
status_beq succeeded succeeded = true
status_beq failed failed = true
status_beq timed_out timed_out = true
status_beq cancelled cancelled = true
status_beq _ _ = false

-- The database values of the choices.
abbrev pub status_text : RunStatus → Text
status_text pending = codes "pending"
status_text running = codes "running"
status_text waiting = codes "waiting"
status_text succeeded = codes "succeeded"
status_text failed = codes "failed"
status_text timed_out = codes "timed_out"
status_text cancelled = codes "cancelled"

-- A row of the table, without the columns that the services leave alone.
pub record Run : Type 0 where
  pub pk : ℕ
  pub status : RunStatus
  pub thread_id : Text
  pub input_payload : Value
  pub output_payload : Value
  pub error_message : Text
  pub started_at : Option ℕ
  pub finished_at : Option ℕ
  pub updated_at : ℕ

unfoldable pub is_running_state : Run → Bool
is_running_state run = status_beq run.status running

abbrev pub is_terminal : RunStatus → Bool
is_terminal succeeded = true
is_terminal failed = true
is_terminal timed_out = true
is_terminal cancelled = true
is_terminal _ = false

unfoldable pub is_terminal_state : Run → Bool
is_terminal_state run = is_terminal run.status
