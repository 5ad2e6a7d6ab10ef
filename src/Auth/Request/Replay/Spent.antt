-- ===== src/Auth/Request/Replay/Spent.antt =====
-- The row of a node in `nodes` once `authenticate_node` has accepted a timestamp.
use gpufleet.Prelude.{
  String, Text, Bool, false, ◌≡◌, refl, sym, subst, ◌∙◌, Bool-cases, inl, inr, List, [], ◌∷◌, ◌++◌,
  arith, any, count_where, update_where, same, same_iff, ◌⊎◌,
}
use gpufleet.Auth.Nodes.{NodeRow, NodeStore, set_seen, record_heartbeat, prune_expired_nonces}
use gpufleet.Auth.Request.{
  Environment, Headers, AuthReply, accepted, denied, server_error, may_advance, set_last_request,
  set_key, same_row, authenticate_node,
}
use gpufleet.Auth.Request.Rollback.{is_accepted, authenticate_node-RolledBack}
use gpufleet.Auth.Request.Genuine.{Recorded, SameButKey, authenticate_node-Genuine}
use gpufleet.Auth.Request.Replay.{
  on_node, behind, One, Passed, KeepsRequest, Step, request, heartbeat, prune, edit, create, Later,
  same_state, after, count-update, update-Passed, keeps_behind, set_seen-KeepsRequest,
  advance_behind,
}

-- What later requests rely on.
pub record Spent (j : String) (t : Text) (rows : List NodeRow) : Type 0 where
  pub one : One j rows
  pub passed : Passed j t rows

pub update-Spent :
    (j : String) (t : Text) (p : NodeRow → Bool) (f : NodeRow → NodeRow)
    → KeepsRequest f
    → (rows : List NodeRow) → Spent j t rows
    → Spent j t (update_where p f rows)
update-Spent j t p f keeps rows h = record {
  one = count-update j p f keeps.node_id rows ∙ h.one;
  passed = update-Passed j t p f (λ r _. keeps_behind j t f keeps r) rows h.passed;
}

set_key-KeepsRequest : (token now_iso : Text) → KeepsRequest (set_key token now_iso)
unfolding set_key
set_key-KeepsRequest token now_iso = record { node_id = λ r. refl; last = λ r. refl }

pub set_last_request_id :
    (h : Headers) (now_iso : Text) (r : NodeRow)
    → (set_last_request h now_iso r).node_id ≡ r.node_id
unfolding set_last_request
set_last_request_id h now_iso r = refl

-- The rows that a request leaves before it is recorded.
pub kept-One :
    (env : Environment) (node : NodeRow) (s s1 : NodeStore) (j : String)
    → SameButKey env node s s1
    → One j s.nodes
    → One j s1.nodes
kept-One env node s s1 j kept one = elim kept.rows [
  | inl e ↦ subst (One j) (sym e) one
  | inr (token, e) ↦ subst (One j) (sym e) (
      count-update j (same_row node) (set_key token env.now_iso)
        (set_key-KeepsRequest token env.now_iso).node_id s.nodes
      ∙ one)
]

pub kept-Spent :
    (env : Environment) (node : NodeRow) (s s1 : NodeStore) (j : String) (t : Text)
    → SameButKey env node s s1
    → Spent j t s.nodes
    → Spent j t s1.nodes
kept-Spent env node s s1 j t kept h = elim kept.rows [
  | inl e ↦ subst (Spent j t) (sym e) h
  | inr (token, e) ↦ subst (Spent j t) (sym e) (
      update-Spent j t (same_row node) (set_key token env.now_iso)
        (set_key-KeepsRequest token env.now_iso) s.nodes h)
]

Recorded-Spent :
    (env : Environment) (h : Headers) (s s' : NodeStore) (j : String) (t : Text)
    → Recorded env h s s'
    → Spent j t s.nodes
    → Spent j t s'.nodes
Recorded-Spent env h s s' j t rec spent = subst (Spent j t) (sym rec.nodes) (record {
  one = count-update j (may_advance h) _ (set_last_request_id h env.now_iso) s.nodes ∙ spent.one;
  passed =
      update-Passed j t (may_advance h) _ (advance_behind j t h env.now_iso) s.nodes spent.passed;
})

pub accepted_cases :
    (x : AuthReply × NodeStore)
    → (is_accepted x.0 ≡ false) ⊎ ((node : NodeRow) × (x ≡ (accepted node, x.1)))
accepted_cases (accepted node, s) = inr (node, refl)
accepted_cases (denied e, s) = inl refl
accepted_cases (server_error, s) = inl refl

pub no_row :
    (j : String) (p : NodeRow → Bool) (f : NodeRow → NodeRow) (t : Text)
    → ((r : NodeRow) → (f r).node_id ≡ r.node_id)
    → (rows : List NodeRow) → count_where (on_node j) rows ≡ 0
    → any (behind j t) (update_where p f rows) ≡ false
no_row j p f t keeps [] h = refl
no_row j p f t keeps (x ∷ rows) h = ground (arith, keeps x, no_row j p f t keeps rows)

append-Spent :
    (j : String) (t : Text) (r : NodeRow)
    → same r.node_id j ≡ false
    → (rows : List NodeRow)
    → (count_where (on_node j) (rows ++ r ∷ []) ≡ count_where (on_node j) rows)
      × (any (behind j t) (rows ++ r ∷ []) ≡ any (behind j t) rows)
append-Spent j t r away [] = ground (arith, away)
append-Spent j t r away (x ∷ rows) = ground (arith, append-Spent j t r away rows)

Step-Spent :
    (j : String) (t : Text) {s s' : NodeStore} → Step s s' → Spent j t s.nodes → Spent j t s'.nodes
unfolding record_heartbeat prune_expired_nonces
Step-Spent j t {s} (request env r) h = elim (accepted_cases (authenticate_node env s r)) [
  | inl refused ↦
      subst (Spent j t) (sym (authenticate_node-RolledBack env s r refused).same_nodes) h
  | inr (node, e) ↦
      let g = authenticate_node-Genuine env s r node (authenticate_node env s r).1 e in
      Recorded-Spent env g.head g.before (authenticate_node env s r).1 j t g.recorded
        (kept-Spent env node s g.before j t g.kept h)
]
Step-Spent j t {s} (heartbeat k hb node now_iso) h =
    update-Spent j t (λ r. same r.node_id k) (set_seen hb node now_iso)
      (set_seen-KeepsRequest hb node now_iso) s.nodes h
Step-Spent j t (prune now_iso) h = h
Step-Spent j t {s} (edit p f keeps) h = update-Spent j t p f keeps s.nodes h
Step-Spent j t {s} (create r fresh) h = elim (Bool-cases (same r.node_id j)) [
  | inl here ↦
      let r_node : r.node_id ≡ j = (same_iff r.node_id j).0 here in
      absurd (ground (arith, h.one, subst (λ k. count_where (on_node k) s.nodes ≡ 0) r_node fresh))
  | inr away ↦
      let (count, past) = append-Spent j t r away s.nodes in
      record { one = count ∙ h.one; passed = past ∙ h.passed }
]

pub Later-Spent :
    (j : String) (t : Text) {s s' : NodeStore} → Later s s' → Spent j t s.nodes → Spent j t s'.nodes
Later-Spent j t same_state h = h
Later-Spent j t (after later step) h = Step-Spent j t step (Later-Spent j t later h)
