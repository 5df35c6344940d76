-- ===== src/Domain/Dag/Progress.antt =====
-- Which node of a task is next, and what a mark changes.
use rack_ai.Common.{
  ℕ, true, false, List, [], ◌∷◌, none, some, ◌==◌, nat_eq, ◌≡◌, refl, arith, ok, ok_or,
  if◌then◌else◌, any, member, Bool-cases, inl, inr, all-member, >>=-eq-ok, ok_or-eq-ok,
}
use rack_ai.Common.Map.{lookup, remove, lookup-insert, lookup-remove}
use rack_ai.Domain.Dag.{
  DagRunState, DagNodeState, DagNodeStatus, dag_node_status_eq, is_ready_node,
  ready_node_id_in_order, map_node, dependency_met,
}

-- A node that is found is listed and ready.
pub ready_node_id_in_order-ready :
    (d : DagRunState) (ids : List ℕ) {id : ℕ}
    → ready_node_id_in_order d ids ≡ some id
    → (member id ids ≡ true) × (is_ready_node d id ≡ true)
unfolding ready_node_id_in_order
ready_node_id_in_order-ready d [] h = absurd (ground arith)
ready_node_id_in_order-ready d (i ∷ ids) {id} h = elim (Bool-cases (is_ready_node d i)) [
  | inl e ↦ ground (arith, e)
  | inr e ↦ ground (arith, ready_node_id_in_order-ready d ids {id = id})
]

-- None is found exactly when none that is listed is ready.
pub ready_node_id_in_order-none :
    (d : DagRunState) (ids : List ℕ)
    → ready_node_id_in_order d ids ≡ none
    → any (is_ready_node d) ids ≡ false
unfolding ready_node_id_in_order
ready_node_id_in_order-none d [] h = refl
ready_node_id_in_order-none d (i ∷ ids) h = ground (arith, ready_node_id_in_order-none d ids)

-- A ready node waits, and each node on which it depends has succeeded.
pub ready_after_dependencies :
    (d : DagRunState) (id : ℕ) {n : DagNodeState}
    → is_ready_node d id ≡ true
    → lookup id d.nodes ≡ some n
    → (n.status ≡ DagNodeStatus.pending)
      × ((j : ℕ) → member j n.depends_on ≡ true → dependency_met d j ≡ true)
unfolding is_ready_node
ready_after_dependencies d id {n} r e =
    (ground arith, λ j m. all-member (dependency_met d) n.depends_on j (ground arith) m)

-- A mark changes the named node, and no other.
pub lookup-map_node :
    (id : ℕ) (change : DagNodeState → DagNodeState) (d : DagRunState) {e : DagRunState} (j : ℕ)
    → map_node id change d ≡ ok e
    → (n : DagNodeState) × (lookup id d.nodes ≡ some n)
      × (lookup j e.nodes ≡ (if j == id then some (change n) else lookup j d.nodes))
unfolding map_node
lookup-map_node id change d {e} j h =
    let m = >>=-eq-ok (ok_or (lookup id d.nodes) _) _ h in
    (
      m.0,
      ok_or-eq-ok _ _ m.1,
      ground (
        arith,
        m.2,
        lookup-insert j id (change m.0) (remove id d.nodes),
        lookup-remove j id d.nodes,
      ),
    )
