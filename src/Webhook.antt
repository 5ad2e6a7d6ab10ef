-- ===== src/Webhook.antt =====
-- app/webhook.py: the queue of `WebhookEmitter` and the delivery of its worker. What httpx answers is
-- an argument.
pub mod Last
use gpufleet.Prelude.{
  ℕ, zero, suc, ◌+◌, String, Text, Bool, true, false, ◌&&◌, not, Option, none, some, List, [], ◌∷◌,
  ◌++◌, length, ltb, leb, any, same, if◌then◌else◌,
}

pub record Envelope : Type 0 where
  pub event : String
  pub timestamp : Text
  pub severity : String
  pub payload : Text
  pub control_plane : String

pub data SendResult : Type 0 where
  sent_ok send_fail dropped : SendResult

-- The emitter with its metrics: the gauge of the queue's depth, and the events counted.
pub record Emitter : Type 0 where
  pub enabled : Bool
  pub allowed_events : List String
  pub queue : List Envelope
  pub queue_depth : ℕ
  pub send_total : List (String × SendResult)

abbrev pub queue_capacity : ℕ
queue_capacity = 1000

abbrev pub is_allowed : Bool → List String → Envelope → Bool
is_allowed enabled allowed e = enabled && any (same e.event) allowed

abbrev pub without_oldest : List Envelope → List Envelope
without_oldest [] = []
without_oldest (oldest ∷ queue) = queue

-- put_nowait; the count of a drop names the new event.
unfoldable pub put : Emitter → Envelope → Emitter
put s e =
    if ltb (length s.queue) queue_capacity
    then record s { queue = s.queue ++ e ∷ []; queue_depth = length (s.queue ++ e ∷ []) }
    else record s {
      queue = without_oldest s.queue ++ e ∷ [];
      queue_depth = length (without_oldest s.queue ++ e ∷ []);
      send_total = s.send_total ++ (e.event, dropped) ∷ [];
    }

unfoldable pub emit : Emitter → Envelope → Emitter
emit s e = if is_allowed s.enabled s.allowed_events e then put s e else s

pub data Response : Type 0 where
  status_code : ℕ → Response
  http_error unexpected_error : Response

abbrev pub is_success : ℕ → Bool
is_success code = leb 200 code && ltb code 300

-- How a delivery ends, after how many posts; `crashed` is an exception that the worker only logs.
pub data Delivery : Type 0 where
  delivered gave_up crashed : ℕ → Delivery

abbrev pub retry_delays_sec : List ℕ
retry_delays_sec = 1 ∷ 2 ∷ 4 ∷ []

-- One round for each delay in `attempts`; `response n` answers the post after `n` others.
unfoldable pub deliver_attempts : List ℕ → (ℕ → Response) → ℕ → Delivery
deliver_attempts [] response posts = gave_up posts
deliver_attempts (delay ∷ delays) response posts =
    let rest = deliver_attempts delays response (suc posts) in
    elim (response posts) [
      | status_code code ↦ if is_success code then delivered (suc posts) else rest
      | http_error ↦ rest
      | unexpected_error ↦ crashed (suc posts)
    ]

unfoldable pub deliver : (ℕ → Response) → Delivery
deliver response = deliver_attempts (0 ∷ retry_delays_sec) response 0

abbrev pub counted : String → Delivery → List (String × SendResult)
counted event (delivered n) = (event, sent_ok) ∷ []
counted event (gave_up n) = (event, send_fail) ∷ []
counted event (crashed n) = []

-- A round of the worker; on an empty queue it waits.
unfoldable pub run_worker : (ℕ → Response) → Emitter → Emitter
run_worker response s = elim s.queue [
  | [] ↦ s
  | e ∷ queue ↦ record s {
    queue = queue;
    queue_depth = length queue;
    send_total = s.send_total ++ counted e.event (deliver response);
  }
]
