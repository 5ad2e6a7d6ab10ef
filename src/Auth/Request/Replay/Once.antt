-- ===== src/Auth/Request/Replay/Once.antt =====
-- Requests with a timestamp that `authenticate_node` has accepted before.
use gpufleet.Prelude.{
  Text, true, false, ◌≡◌, refl, sym, subst, ◌∙◌, Bool-cases, inl, inr, Option, none, some, List, [],
  ◌∷◌, arith, count_where, update_where, text_lt, text_lt_trans, text_lt_total, text_lt_irrefl,
  same,
}
use gpufleet.Auth.Nodes.{NodeRow, NodeStore}
use gpufleet.Auth.Request.{
  Environment, Request, Headers, accepted, headers, earlier, may_advance, set_last_request,
  authenticate_node,
}
use gpufleet.Auth.Request.Rollback.{is_accepted}
use gpufleet.Auth.Request.Genuine.{Genuine, authenticate_node-Genuine}
use gpufleet.Auth.Request.Replay.{on_node, One, Passed, Later, count-update}
use gpufleet.Auth.Request.Replay.Spent.{
  Spent, kept-One, kept-Spent, accepted_cases, no_row, Later-Spent, set_last_request_id,
}

no_row-advances :
    (h : Headers) (rows : List NodeRow)
    → count_where (on_node h.node_id) rows ≡ 0
    → count_where (may_advance h) rows ≡ 0
no_row-advances h [] e = refl
no_row-advances h (x ∷ rows) e = ground (arith, no_row-advances h rows)

-- The one row of the node is past the timestamp that was recorded on it.
advanced-Passed :
    (h : Headers) (now_iso : Text) (rows : List NodeRow)
    → One h.node_id rows
    → count_where (may_advance h) rows ≡ 1
    → Passed h.node_id h.timestamp (update_where (may_advance h) (set_last_request h now_iso) rows)
unfolding set_last_request
advanced-Passed h now_iso [] one advanced = absurd (ground arith)
advanced-Passed h now_iso (x ∷ rows) one advanced = elim (Bool-cases (same x.node_id h.node_id)) [
  | inl here ↦
      let none_left : count_where (on_node h.node_id) rows ≡ 0 = ground (arith, here, one) in
      let none_advances = no_row-advances h rows none_left in
      let selected : may_advance h x ≡ true = elim (Bool-cases (may_advance h x)) [
        | inl p ↦ p
        | inr p ↦ absurd (ground (arith, p, none_advances, advanced))
      ] in
      ground (
        arith,
        selected,
        here,
        text_lt_irrefl h.timestamp,
        no_row h.node_id (may_advance h) (set_last_request h now_iso) h.timestamp
            (set_last_request_id h now_iso) rows none_left,
      )
  | inr away ↦ ground (arith, away, advanced-Passed h now_iso rows)
]

Genuine-Spent :
    (env : Environment) (s : NodeStore) (r : Request) (node : NodeRow) (s' : NodeStore)
    (g : Genuine env s r node s')
    → One g.head.node_id s.nodes
    → Spent g.head.node_id g.head.timestamp s'.nodes
Genuine-Spent env s r node s' g one =
    let h = g.head in
    let before_one = kept-One env node s g.before h.node_id g.kept one in
    subst (Spent h.node_id h.timestamp) (sym g.recorded.nodes) (record {
      one =
          count-update h.node_id (may_advance h) (set_last_request h env.now_iso)
            (set_last_request_id h env.now_iso) g.before.nodes
          ∙ before_one;
      passed = advanced-Passed h env.now_iso g.before.nodes before_one g.recorded.one;
    })

-- A timestamp no later than a spent one advances no row.
spent_advances :
    (h : Headers) (t : Text)
    → text_lt t h.timestamp ≡ false
    → (rows : List NodeRow) → Passed h.node_id t rows
    → count_where (may_advance h) rows ≡ 0
spent_advances h t old [] past = refl
spent_advances h t old (x ∷ rows) past =
    ground (arith, earlier_lem x.last_request_ts, spent_advances h t old rows)
  where
    earlier_lem : (last : Option Text) → earlier last t ≡ false → earlier last h.timestamp ≡ false
    earlier_lem none e = absurd (ground arith)
    earlier_lem (some l) e = elim (Bool-cases (text_lt l h.timestamp)) [
      | inr ge ↦ ge
      | inl lt ↦ elim (Bool-cases (text_lt h.timestamp t)) [
        | inl lt' ↦ absurd (ground (arith, text_lt_trans l h.timestamp t lt lt'))
        | inr ge ↦
            let equal = text_lt_total t h.timestamp old ge in
            absurd (ground (arith, subst (λ x. text_lt l x ≡ true) (sym equal) lt))
      ]
    ]

-- After a request of a node was accepted, no request of the node with the same or an earlier
-- timestamp is ever accepted, whatever requests, heartbeats, prunings of nonces and changes of nodes
-- come between, and whatever the clock and the settings are by then. So a request that is sent again
-- is refused for ever, also once its nonce is pruned. The node's name is unique, and is not deleted.
pub replay_refused :
    (env : Environment) (s : NodeStore) (r : Request) (h : Headers) (node : NodeRow)
    (s' s'' : NodeStore) (env' : Environment) (r' : Request) (h' : Headers)
    → headers r ≡ some h
    → One h.node_id s.nodes
    → authenticate_node env s r ≡ (accepted node, s')
    → Later s' s''
    → headers r' ≡ some h'
    → h'.node_id ≡ h.node_id
    → text_lt h.timestamp h'.timestamp ≡ false
    → is_accepted (authenticate_node env' s'' r').0 ≡ false
replay_refused env s r h node s' s'' env' r' h' complete one taken later complete' same_id old =
    elim (accepted_cases (authenticate_node env' s'' r')) [
      | inl refused ↦ refused
      | inr (node', e) ↦
          let g = authenticate_node-Genuine env s r node s' taken in
          let g' =
            authenticate_node-Genuine env' s'' r' node' (authenticate_node env' s'' r').1 e in
          let head : g.head ≡ h = ground (arith, g.complete) in
          let head' : g'.head ≡ h' = ground (arith, g'.complete) in
          let spent : Spent h.node_id h.timestamp s'.nodes =
            subst (λ (x : Headers). Spent x.node_id x.timestamp s'.nodes) head
              (Genuine-Spent env s r node s' g
                (subst (λ (x : Headers). One x.node_id s.nodes) (sym head) one)) in
          let before : Spent h'.node_id h.timestamp g'.before.nodes =
            subst (λ i. Spent i h.timestamp g'.before.nodes) (sym same_id)
              (kept-Spent env' node' s'' g'.before h.node_id h.timestamp g'.kept
                (Later-Spent h.node_id h.timestamp later spent)) in
          let advances : count_where (may_advance h') g'.before.nodes ≡ 1 =
            subst (λ x. count_where (may_advance x) g'.before.nodes ≡ 1) head' g'.recorded.one in
          absurd (
            ground
              (arith, advances, spent_advances h' h.timestamp old g'.before.nodes before.passed))
    ]
