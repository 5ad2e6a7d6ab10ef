-- ===== src/Auth/Admin/Disabled/Turns.antt =====
-- The handlers of app/services/admin_nodes_service.py on a node that is disabled.
use gpufleet.Prelude.{
  ℕ, ◌++◌, select, String, Text, Bool, true, false, ◌&&◌, ◌≡◌, refl, sym, ◌∙◌, none, some, List, [],
  ◌∷◌, same, same_iff, any, Bool-cases, Option-cases, inl, inr, arith, update_where,
}
use gpufleet.Auth.Nodes.{NodeRow, set_seen, record_heartbeat, prune_expired_nonces}
use gpufleet.Auth.Admin.{
  NodesState, AdminCall, unchanged, NodeUpdateRequest, find_node, update_row, write_node,
  insert_node_audit, set_changes, update_node, set_enabled, set_node_enabled,
  queue_fingerprint_refresh, set_secret, renew_secret, changed,
}
use gpufleet.Auth.Admin.Registry.{
  NodeCreateRequest, new_node, insert_node, create_node, remove_node, delete_node,
}
use gpufleet.Auth.Admin.History.{
  creates, deletes, Turn, requests, beats, prunes, updates, enables, refreshes, renews, turn, turns,
}
use gpufleet.Auth.Admin.Disabled.{live, Dead, update-Dead, authenticate_node-Dead}

-- A turn by which an administrator enables the node `j`, or registers a node of this name.
unfoldable pub re_enables : String → Turn → Bool
re_enables j (updates c i p) = same i j && changed p.is_enabled false
re_enables j (enables c i enabled) = same i j && enabled
re_enables j (creates c p key token id) = same p.node_id j
re_enables j _ = false

same_trans : (a b c : String) → same a b ≡ true → same a c ≡ true → same b c ≡ true
same_trans a b c ab ac = (same_iff b c).1 (sym ((same_iff a b).0 ab) ∙ (same_iff a c).0 ac)

find_node-id :
    (i : String) (rows : List NodeRow) (row : NodeRow)
    → find_node i rows ≡ some row
    → same row.node_id i ≡ true
unfolding find_node
find_node-id i [] row found = absurd (ground (arith, found))
find_node-id i (x ∷ rows) row found = ground (arith, found, find_node-id i rows row)

find_node-Dead :
    (i j : String) (rows : List NodeRow) (row : NodeRow)
    → any (live j) rows ≡ false
    → find_node i rows ≡ some row
    → live j row ≡ false
unfolding find_node
find_node-Dead i j [] row dead found = absurd (ground (arith, found))
find_node-Dead i j (x ∷ rows) row dead found =
    ground (arith, dead, found, find_node-Dead i j rows row)

write_node-Dead :
    (j : String) (c : AdminCall) (action i : String) (f : NodeRow → NodeRow) (s : NodesState)
    → ((r : NodeRow) → same r.node_id i ≡ true → live j r ≡ false → live j (f r) ≡ false)
    → Dead j s.store
    → Dead j (write_node c action i f s).1.store
unfolding write_node insert_node_audit update_row
write_node-Dead j c action i f s keeps dead = update-Dead j _ f keeps s.store.nodes dead

set_changes-Dead :
    (i j : String) (p : NodeUpdateRequest) (now_iso : Text) (row r : NodeRow)
    → (same i j && changed p.is_enabled false) ≡ false
    → same row.node_id i ≡ true
    → live j row ≡ false
    → same r.node_id i ≡ true
    → live j (set_changes p now_iso row r) ≡ false
unfolding set_changes
set_changes-Dead i j p now_iso row r calm it dead here = elim (Bool-cases (same r.node_id j)) [
  | inr away ↦ rw away refl
  | inl at_j ↦
      let ij : same i j ≡ true = same_trans r.node_id i j here at_j in
      let row_j : same row.node_id j ≡ true =
        (same_iff row.node_id j).1 ((same_iff _ _).0 it ∙ (same_iff _ _).0 ij) in
      ground (arith, ij, row_j, calm, dead)
]

update_node-Dead :
    (j : String) (c : AdminCall) (i : String) (p : NodeUpdateRequest) (s : NodesState)
    → (same i j && changed p.is_enabled false) ≡ false
    → Dead j s.store
    → Dead j (update_node c i p s).1.store
unfolding update_node
update_node-Dead j c i p s calm dead = elim (Bool-cases (unchanged p)) [
  | inl none_set ↦ rw (none_set, update_node) dead
  | inr set ↦ elim (Option-cases (find_node i s.store.nodes)) [
    | inl gone ↦ rw (set, gone, update_node) dead
    | inr (row, found) ↦
        rw (set, found, update_node)
          (write_node-Dead j c _ i _ s
            (λ r here d.
              set_changes-Dead i j p c.now_iso row r calm (find_node-id i s.store.nodes row found)
                (find_node-Dead i j s.store.nodes row dead found) here)
            dead)
  ]
]

set_enabled-Dead :
    (i j : String) (enabled : Bool) (now_iso : Text) (r : NodeRow)
    → (same i j && enabled) ≡ false
    → same r.node_id i ≡ true
    → live j r ≡ false
    → live j (set_enabled enabled now_iso r) ≡ false
unfolding set_enabled
set_enabled-Dead i j enabled now_iso r calm here dead = elim (Bool-cases (same r.node_id j)) [
  | inr away ↦ rw away refl
  | inl at_j ↦ ground (arith, same_trans r.node_id i j here at_j, calm)
]

set_node_enabled-Dead :
    (j : String) (c : AdminCall) (i : String) (enabled : Bool) (s : NodesState)
    → (same i j && enabled) ≡ false
    → Dead j s.store
    → Dead j (set_node_enabled c i enabled s).1.store
unfolding set_node_enabled
set_node_enabled-Dead j c i enabled s calm dead = elim (Option-cases (find_node i s.store.nodes)) [
  | inl gone ↦ rw (gone, set_node_enabled) dead
  | inr (row, found) ↦
      rw (found, set_node_enabled)
        (write_node-Dead j c _ i _ s (λ r. set_enabled-Dead i j enabled c.now_iso r calm) dead)
]

queue_fingerprint_refresh-Dead :
    (j : String) (c : AdminCall) (i : String) (s : NodesState)
    → Dead j s.store
    → Dead j (queue_fingerprint_refresh c i s).1.store
unfolding queue_fingerprint_refresh insert_node_audit
queue_fingerprint_refresh-Dead j c i s dead = elim (Option-cases (find_node i s.store.nodes)) [
  | inl gone ↦ rw (gone, queue_fingerprint_refresh) dead
  | inr (row, found) ↦ rw (found, queue_fingerprint_refresh) dead
]

renew_secret-Dead :
    (j : String) (c : AdminCall) (action i : String) (key token : Text) (s : NodesState)
    → Dead j s.store
    → Dead j (renew_secret c action i key token s).1.store
unfolding renew_secret
renew_secret-Dead j c action i key token s dead = elim (Option-cases (find_node i s.store.nodes)) [
  | inl gone ↦ rw (gone, renew_secret) dead
  | inr (row, found) ↦
      rw (found, renew_secret)
        (write_node-Dead j c _ i _ s (λ r here d. unfold set_secret in d) dead)
]

append-Dead :
    (j : String) (rows : List NodeRow) (r : NodeRow)
    → any (live j) rows ≡ false
    → live j r ≡ false
    → any (live j) (rows ++ r ∷ []) ≡ false
append-Dead j [] r dead new = ground (arith, new)
append-Dead j (x ∷ rows) r dead new = ground (arith, dead, append-Dead j rows r)

select-Dead :
    (j : String) (p : NodeRow → Bool) (rows : List NodeRow)
    → any (live j) rows ≡ false
    → any (live j) (select p rows) ≡ false
select-Dead j p [] dead = refl
select-Dead j p (x ∷ rows) dead = ground (arith, dead, select-Dead j p rows)

create_node-Dead :
    (j : String) (c : AdminCall) (p : NodeCreateRequest) (key token : Text) (id : ℕ)
    (s : NodesState)
    → same p.node_id j ≡ false
    → Dead j s.store
    → Dead j (create_node c p key token id s).1.store
unfolding create_node insert_node_audit insert_node new_node
create_node-Dead j c p key token id s other dead =
    elim (Option-cases (find_node p.node_id s.store.nodes)) [
      | inr (row, found) ↦ rw (found, create_node) dead
      | inl fresh ↦ rw (fresh, create_node) (append-Dead j s.store.nodes _ dead (rw other refl))
    ]

delete_node-Dead :
    (j : String) (c : AdminCall) (i : String) (s : NodesState)
    → Dead j s.store
    → Dead j (delete_node c i s).1.store
unfolding delete_node insert_node_audit remove_node
delete_node-Dead j c i s dead = elim (Option-cases (find_node i s.store.nodes)) [
  | inl gone ↦ rw (gone, delete_node) dead
  | inr (row, found) ↦ rw (found, delete_node) (select-Dead j _ s.store.nodes dead)
]

turn-Dead :
    (j : String) (x : Turn) (s : NodesState)
    → re_enables j x ≡ false
    → Dead j s.store
    → Dead j (turn x s).store
unfolding turn re_enables
turn-Dead j (requests env r) s calm dead = authenticate_node-Dead env j s.store r dead
turn-Dead j (beats i h node now_iso) s calm dead =
    unfold record_heartbeat in
    update-Dead j _ (set_seen h node now_iso) (λ r here d. unfold set_seen in d) s.store.nodes dead
turn-Dead j (prunes now_iso) s calm dead = unfold prune_expired_nonces in dead
turn-Dead j (updates c i p) s calm dead = update_node-Dead j c i p s calm dead
turn-Dead j (enables c i enabled) s calm dead = set_node_enabled-Dead j c i enabled s calm dead
turn-Dead j (refreshes c i) s calm dead = queue_fingerprint_refresh-Dead j c i s dead
turn-Dead j (renews c action i key token) s calm dead =
    renew_secret-Dead j c action i key token s dead
turn-Dead j (creates c p key token id) s calm dead = create_node-Dead j c p key token id s calm dead
turn-Dead j (deletes c i) s calm dead = delete_node-Dead j c i s dead

pub turns-Dead :
    (j : String) (l : List Turn) (s : NodesState)
    → any (re_enables j) l ≡ false
    → Dead j s.store
    → Dead j (turns l s).store
unfolding turns
turns-Dead j [] s calm dead = dead
turns-Dead j (x ∷ rest) s calm dead =
    turns-Dead j rest (turn x s) (ground (arith, calm))
      (turn-Dead j x s (ground (arith, calm)) dead)

-- Disabling ends every row of the node.
disable-ends :
    (j : String) (now_iso : Text) (rows : List NodeRow)
    → any (live j) (update_where (λ r. same r.node_id j) (set_enabled false now_iso) rows) ≡ false
unfolding set_enabled
disable-ends j now_iso [] = refl
disable-ends j now_iso (x ∷ rows) = ground (arith, disable-ends j now_iso rows)

absent-Dead :
    (j : String) (rows : List NodeRow) → find_node j rows ≡ none → any (live j) rows ≡ false
unfolding find_node
absent-Dead j [] gone = refl
absent-Dead j (x ∷ rows) gone = ground (arith, gone, absent-Dead j rows)

pub disabled-Dead :
    (j : String) (c : AdminCall) (s : NodesState) → Dead j (set_node_enabled c j false s).1.store
unfolding set_node_enabled write_node insert_node_audit update_row
disabled-Dead j c s = elim (Option-cases (find_node j s.store.nodes)) [
  | inl gone ↦ rw (gone, set_node_enabled) (absent-Dead j s.store.nodes gone)
  | inr (row, found) ↦ rw (found, set_node_enabled) (disable-ends j c.now_iso s.store.nodes)
]
