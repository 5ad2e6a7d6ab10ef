-- ===== src/Auth/Request/Replay.antt =====
-- What may happen to the tables of `authenticate_node` (app/services/node_runtime_service.py)
-- between two requests.
pub mod Spent
pub mod Once
use gpufleet.Prelude.{
  ℕ, suc, ◌≤◌, String, Text, Bool, true, false, ◌&&◌, ◌≡◌, refl, Bool-cases, inl, inr, Option, none,
  some, List, [], ◌∷◌, ◌++◌, arith, if◌then◌else◌, any, count_where, update_where, text_lt,
  text_lt_trans, text_lt_total, text_lt_irrefl, same, same_iff, ◌+◌,
}
use gpufleet.Auth.Nodes.{
  NodeRow, NodeStore, HeartbeatFields, set_seen, record_heartbeat, prune_expired_nonces,
}
use gpufleet.Auth.Request.{
  Environment, Request, Headers, earlier, may_advance, set_last_request, authenticate_node,
}

abbrev pub on_node : String → NodeRow → Bool
on_node j r = same r.node_id j

abbrev pub behind : String → Text → NodeRow → Bool
behind j t r = same r.node_id j && earlier r.last_request_ts t

-- UNIQUE on `node_id`, for a node that the table has.
abbrev pub One : String → List NodeRow → Type 0
One j rows = count_where (on_node j) rows ≡ 1

-- No row of the node waits for a timestamp as early as `t`.
abbrev pub Passed : String → Text → List NodeRow → Type 0
Passed j t rows = any (behind j t) rows ≡ false

-- What leaves the key and the time of the last request alone.
pub record KeepsRequest (f : NodeRow → NodeRow) : Type 0 where
  pub node_id : (r : NodeRow) → (f r).node_id ≡ r.node_id
  pub last : (r : NodeRow) → (f r).last_request_ts ≡ r.last_request_ts

-- What the control plane does with its nodes, deletion apart: a deleted node's name may return with
-- another key. Administrators' UPDATEs set neither column of `KeepsRequest`.
pub data Step : NodeStore → NodeStore → Type 0 where
  request : {s : NodeStore} (env : Environment) (r : Request) → Step s (authenticate_node env s r).1
  heartbeat :
      {s : NodeStore} (j : String) (h : HeartbeatFields) (node : NodeRow) (now_iso : Text)
      → Step s (record_heartbeat s j h node now_iso)
  prune : {s : NodeStore} (now_iso : Text) → Step s (prune_expired_nonces s now_iso)
  edit :
      {s : NodeStore} (p : NodeRow → Bool) (f : NodeRow → NodeRow)
      → KeepsRequest f
      → Step s (record s { nodes = update_where p f s.nodes })
  create :
      {s : NodeStore} (r : NodeRow)
      → count_where (on_node r.node_id) s.nodes ≡ 0
      → Step s (record s { nodes = s.nodes ++ r ∷ [] })

pub data Later (s : NodeStore) : NodeStore → Type 0 where
  same_state : Later s s
  after : {t u : NodeStore} → Later s t → Step t u → Later s u

pub count-update :
    (j : String) (p : NodeRow → Bool) (f : NodeRow → NodeRow)
    → ((r : NodeRow) → (f r).node_id ≡ r.node_id)
    → (rows : List NodeRow)
    → count_where (on_node j) (update_where p f rows) ≡ count_where (on_node j) rows
count-update j p f keeps [] = refl
count-update j p f keeps (x ∷ rows) = ground (arith, keeps x, count-update j p f keeps rows)

-- An UPDATE that puts no row behind keeps all rows past the timestamp.
pub update-Passed :
    (j : String) (t : Text) (p : NodeRow → Bool) (f : NodeRow → NodeRow)
    → ((r : NodeRow) → p r ≡ true → behind j t r ≡ false → behind j t (f r) ≡ false)
    → (rows : List NodeRow) → Passed j t rows
    → Passed j t (update_where p f rows)
update-Passed j t p f keeps [] h = refl
update-Passed j t p f keeps (x ∷ rows) h = ground (arith, keeps x, update-Passed j t p f keeps rows)

pub keeps_behind :
    (j : String) (t : Text) (f : NodeRow → NodeRow)
    → KeepsRequest f
    → (r : NodeRow) → behind j t r ≡ false
    → behind j t (f r) ≡ false
keeps_behind j t f keeps r h = ground (arith, keeps.node_id r, keeps.last r)

set_seen-KeepsRequest :
    (h : HeartbeatFields) (node : NodeRow) (now_iso : Text) → KeepsRequest (set_seen h node now_iso)
unfolding set_seen
set_seen-KeepsRequest h node now_iso = record { node_id = λ r. refl; last = λ r. refl }

-- Time only advances: a row behind which `t` lies is still past it at its next request.
advance_behind :
    (j : String) (t : Text) (h : Headers) (now_iso : Text) (r : NodeRow)
    → may_advance h r ≡ true
    → behind j t r ≡ false
    → behind j t (set_last_request h now_iso r) ≡ false
unfolding set_last_request
advance_behind j t h now_iso r selected past = elim (Bool-cases (same r.node_id j)) [
  | inl here ↦ ground (arith, last_lem r.last_request_ts)
  | inr away ↦ ground (arith, away)
]
  where
    last_lem :
        (last : Option Text)
        → earlier last h.timestamp ≡ true
        → earlier last t ≡ false
        → text_lt h.timestamp t ≡ false
    last_lem none a b = absurd (ground arith)
    last_lem (some l) a b = elim (Bool-cases (text_lt h.timestamp t)) [
      | inl lt ↦ absurd (ground (arith, text_lt_trans l h.timestamp t a lt))
      | inr ge ↦ ge
    ]
