-- ===== src/Scanner/Gauges/Alternate.antt =====
-- The node events of `_refresh_status_gauges` (app/background.py), node by node.
use gpufleet.Prelude.{
  ℕ, ◌≤◌, String, Bool, true, false, not, ◌&&◌, ◌≡◌, refl, sym, subst, ◌∙◌, ap, ap₂, List, [], ◌∷◌,
  ◌++◌, map, any, same, same_iff, count_where, if◌then◌else◌, arith, Bool-cases, inl, inr,
}
use gpufleet.Auth.Nodes.{NodeRow}
use gpufleet.Audit.{Notice, node_offline, node_online}
use gpufleet.Scanner.Gauges.{
  Gauges, Round, set_add, offline_nodes, difference, node_events, refresh_status_gauges,
  refresh_rounds, seen_unreadable,
}

abbrev signal : String → Notice → List Bool
signal n (node_offline j) = if same n j then true ∷ [] else []
signal n (node_online j) = if same n j then false ∷ [] else []
signal n _ = []

-- What is told of the node `n`, in order: `true` that it is offline, `false` that it is back.
unfoldable pub signals : String → List Notice → List Bool
signals n [] = []
signals n (x ∷ notices) = signal n x ++ signals n notices

-- Each signal differs from the one before; the first from `b`.
abbrev pub Alternating : Bool → List Bool → Type 0
Alternating b [] = Unit {0}
Alternating b (x ∷ xs) = (x ≡ not b) × Alternating x xs

abbrev pub times : String → List String → ℕ
times n set = count_where (same n) set

signals-append :
    (n : String) (xs ys : List Notice) → signals n (xs ++ ys) ≡ signals n xs ++ signals n ys
unfolding signals
signals-append n [] ys = refl
signals-append n (x ∷ xs) ys = rw (signals-append n xs ys) (ground arith)

times_absent : (n : String) (set : List String) → any (same n) set ≡ false → times n set ≡ 0
times_absent n [] h = refl
times_absent n (j ∷ set) h = ground (arith, times_absent n set)

set_add_once : (n j : String) (set : List String) → times n set ≤ 1 → times n (set_add j set) ≤ 1
unfolding set_add
set_add_once n j set h = ground (arith, same_iff n j, times_absent n set)

offline_once :
    (n : String) (r : Round) (nodes : List NodeRow) → times n (offline_nodes r.older nodes) ≤ 1
unfolding offline_nodes
offline_once n r [] = omega arith
offline_once n r (x ∷ nodes) = ground (
  arith,
  offline_once n r nodes,
  set_add_once n x.node_id (offline_nodes r.older nodes) (offline_once n r nodes),
)

absent_times : (n : String) (set : List String) → times n set ≡ 0 → any (same n) set ≡ false
absent_times n [] h = refl
absent_times n (j ∷ set) h = ground (arith, absent_times n set)

-- A node is told of if it is in the first set and not in the second.
module _ (n : String) (tell : String → Notice) (b : Bool)
    (told : (j : String) → signal n (tell j) ≡ (if same n j then b ∷ [] else [])) where
  signals-difference :
      (xs ys : List String)
      → times n xs ≤ 1
      → signals n (map tell (difference xs ys))
        ≡ (if any (same n) xs && not (any (same n) ys) then b ∷ [] else [])
  unfolding signals difference
  signals-difference [] ys h = refl
  signals-difference (j ∷ xs) ys h = elim (Bool-cases (same n j)) [
    | inl hit ↦
        let same_test : any (same n) ys ≡ any (same j) ys =
          ap (λ k. any (same k) ys) ((same_iff n j).0 hit) in
        let gone : any (same n) xs ≡ false = absent_times n xs (ground (arith, hit)) in
        ground (arith, told j, signals-difference xs ys)
    | inr miss ↦ ground (arith, told j, signals-difference xs ys)
  ]

event_signals :
    (n : String) (g : Gauges) (current : List String)
    → g.scanner_first_tick ≡ false
    → times n g.offline_node_cache ≤ 1
    → times n current ≤ 1
    → signals n (node_events g current)
      ≡ (if any (same n) current && not (any (same n) g.offline_node_cache) then true ∷ [] else [])
        ++ (if any (same n) g.offline_node_cache && not (any (same n) current)
            then false ∷ []
            else [])
unfolding node_events
event_signals n g current later h k = rw later (
    signals-append n (map node_offline (difference current g.offline_node_cache)) _
    ∙ ap₂ (λ xs ys. xs ++ ys)
        (signals-difference n node_offline true (λ j. refl) current g.offline_node_cache k)
        (signals-difference n node_online false (λ j. refl) g.offline_node_cache current h))

-- A round fails and tells nothing, or the cache becomes the set of offline nodes.
data After (n : String) (g g' : Gauges) (notices : List Notice) : Type 0 where
  failed :
      g'.offline_node_cache ≡ g.offline_node_cache
      → g'.scanner_first_tick ≡ g.scanner_first_tick
      → notices ≡ []
      → After n g g' notices
  refreshed :
      g'.scanner_first_tick ≡ false
      → notices ≡ node_events g g'.offline_node_cache
      → times n g'.offline_node_cache ≤ 1
      → After n g g' notices

round-After :
    (n : String) (g : Gauges) (r : Round)
    → After n g (refresh_status_gauges g r).0 (refresh_status_gauges g r).1
unfolding refresh_status_gauges
round-After n g r = elim (Bool-cases (any (seen_unreadable r.clock) r.nodes)) [
  | inl bad ↦ rw bad (failed refl refl refl)
  | inr fine ↦ elim (Bool-cases r.storage_ok) [
    | inl good ↦ rw (fine, good) (refreshed refl refl (offline_once n r r.nodes))
    | inr bad ↦ rw (fine, bad) (failed refl refl refl)
  ]
]

Alternating-append :
    (was is : Bool) (later : List Bool)
    → Alternating is later
    → Alternating was (
        ((if is && not was then true ∷ [] else []) ++ (if was && not is then false ∷ [] else []))
        ++ later)
Alternating-append true true later h = h
Alternating-append true false later h = (refl, h)
Alternating-append false true later h = (refl, h)
Alternating-append false false later h = h

-- However many rounds there are, failed rounds among them: of one node, "offline" and "online" are told
-- in turn, "offline" first where the cache does not hold the node. The first tick is over, and the cache
-- is a set.
pub node_events-alternate :
    (n : String) (rounds : List Round) (g : Gauges)
    → g.scanner_first_tick ≡ false
    → times n g.offline_node_cache ≤ 1
    → Alternating (any (same n) g.offline_node_cache) (signals n (refresh_rounds g rounds).1)
unfolding refresh_rounds signals
node_events-alternate n [] g later h = tt
node_events-alternate n (r ∷ rounds) g later h =
    let g' = (refresh_status_gauges g r).0 in
    let both = signals-append n (refresh_status_gauges g r).1 (refresh_rounds g' rounds).1 in
    elim (round-After n g r) [
      | failed cache tick silent ↦
          rw (both, silent)
            (subst (λ set. Alternating (any (same n) set) (signals n (refresh_rounds g' rounds).1))
              cache
              (node_events-alternate n rounds g' (tick ∙ later)
                (subst (λ set. times n set ≤ 1) (sym cache) h)))
      | refreshed tick told once ↦
          rw (both, told, event_signals n g g'.offline_node_cache later h once)
            (Alternating-append (any (same n) g.offline_node_cache)
              (any (same n) g'.offline_node_cache) (signals n (refresh_rounds g' rounds).1)
              (node_events-alternate n rounds g' tick once))
    ]
