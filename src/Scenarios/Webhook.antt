-- ===== src/Scenarios/Webhook.antt =====
-- Two events, one of them on the white list.
use gpufleet.Prelude.{
  codes, true, ◌≡◌, ◌≤◌, List, [], ◌∷◌, ◌++◌, String, length, take_last, select, arith,
}
use gpufleet.Webhook.{Envelope, Emitter, queue_capacity, is_allowed}
use gpufleet.Webhook.Last.{emit_all, emit_all-newest}

abbrev envelope : String → Envelope
envelope event = record {
  event = event;
  timestamp = codes "2026-01-01T00:00:00.000Z";
  severity = "warning";
  payload = codes "{}";
  control_plane = "main";
}

abbrev emitter : Emitter
emitter = record {
  enabled = true;
  allowed_events = "task.failed" ∷ "task.lost" ∷ [];
  queue = envelope "task.lost" ∷ [];
  queue_depth = 1;
  send_total = [];
}

abbrev events : List Envelope
events = envelope "task.failed" ∷ envelope "node.online" ∷ []

emit_all-newest_example :
    ((emit_all emitter events).queue
      ≡ take_last queue_capacity
          (emitter.queue ++ select (is_allowed emitter.enabled emitter.allowed_events) events))
    × (length (emit_all emitter events).queue ≤ queue_capacity)
emit_all-newest_example = emit_all-newest emitter events (omega arith)
