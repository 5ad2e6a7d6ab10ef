-- ===== src/Agent/LogPump/Rounds.antt =====
-- Any number of rounds of the agent over a growing log file.
use gpufleet.Prelude.{ℕ, Text, Bool, none, List, [], ◌++◌}
use gpufleet.Logs.Chunk.{LogSettings, LogState}
use gpufleet.Agent.LogPump.{Attempt, Pump, pump_of, upload_incremental_logs}

abbrev pub nothing_stored : LogState
nothing_stored = record {
  row = none;
  files = record { archives = []; current = [] };
  quota_events = 0;
}

-- `Pumped settings source p`: the agent's file holds `source`, and the agent and the control plane
-- are in the state `p`.
pub data Pumped (settings : LogSettings) : Text → Pump → Type 0 where
  start : Pumped settings [] (record { acked_offset = none; server = nothing_stored })
  write :
      {source : Text} {p : Pump} (more : Text)
      → Pumped settings source p
      → Pumped settings (source ++ more) p
  round :
      {source : Text} {p : Pump} (attempts : ℕ → List Attempt) (final : Bool)
      → Pumped settings source p
      → Pumped settings source (pump_of (upload_incremental_logs settings attempts source final p))
