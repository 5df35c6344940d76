-- ===== src/Domain/Dag.antt =====
-- The nodes of a task and their states: dag_node_status.rs, dag_node_state.rs and dag_run_state.rs of
-- crates/rack_ai_domain/src. A node's identifier is a number; times and paths are numbers too.
pub mod Progress
use rack_ai.Common.{
  ℕ, Bool, true, false, not, ◌&&◌, List, [], ◌∷◌, Option, none, some, all, ◌==◌, nat_eq, nat_beq,
  Eq, ◌≡◌, ◌↔◌, arith, Outcome, ok, err, ◌>>=◌, ◌>>◌, ok_or, refuse_if, is_some_and, if◌then◌else◌,
}
use rack_ai.Common.Map.{lookup, insert, remove, values}
use rack_ai.Common.Text.{is_empty}
use rack_ai.Domain.Faults.{Fault}

pub data DagNodeStatus : Type 0 where
  pending running succeeded failed timed_out : DagNodeStatus

abbrev dag_node_status_rank : DagNodeStatus → ℕ
dag_node_status_rank DagNodeStatus.pending = 0
dag_node_status_rank DagNodeStatus.running = 1
dag_node_status_rank DagNodeStatus.succeeded = 2
dag_node_status_rank DagNodeStatus.failed = 3
dag_node_status_rank DagNodeStatus.timed_out = 4

abbrev pub dag_node_status_beq : DagNodeStatus → DagNodeStatus → Bool
dag_node_status_beq a b = nat_beq (dag_node_status_rank a) (dag_node_status_rank b)

pub dag_node_status_beq_iff : (a b : DagNodeStatus) → (dag_node_status_beq a b ≡ true) ↔ (a ≡ b)
dag_node_status_beq_iff a b = (λ h. ground arith, λ h. ground arith)

instance abbrev pub dag_node_status_eq : Eq DagNodeStatus
dag_node_status_eq = record { beq = dag_node_status_beq; beq_iff = dag_node_status_beq_iff }

-- `DagNodeStatus::is_terminal`.
abbrev pub node_is_terminal : DagNodeStatus → Bool
node_is_terminal DagNodeStatus.succeeded = true
node_is_terminal DagNodeStatus.failed = true
node_is_terminal DagNodeStatus.timed_out = true
node_is_terminal _ = false

pub record DagNodeState : Type 0 where
  pub depends_on : List ℕ
  pub status : DagNodeStatus
  pub last_error : Option ℕ
  pub started_at : Option ℕ
  pub finished_at : Option ℕ
  pub result_path : Option ℕ

unfoldable pub pending_node : List ℕ → DagNodeState
pending_node depends_on = record {
  depends_on = depends_on;
  status = DagNodeStatus.pending;
  last_error = none;
  started_at = none;
  finished_at = none;
  result_path = none;
}

unfoldable pub node_running : ℕ → DagNodeState → DagNodeState
node_running started_at n = record n {
  status = DagNodeStatus.running;
  started_at = some started_at;
  last_error = none;
}

unfoldable pub node_pending : ℕ → DagNodeState → DagNodeState
node_pending last_error n = record n {
  status = DagNodeStatus.pending;
  last_error = some last_error;
}

unfoldable pub node_succeeded : ℕ → Option ℕ → DagNodeState → DagNodeState
node_succeeded finished_at result_path n = record n {
  status = DagNodeStatus.succeeded;
  finished_at = some finished_at;
  result_path = result_path;
  last_error = none;
}

unfoldable pub node_failed : ℕ → Option ℕ → ℕ → DagNodeState → DagNodeState
node_failed finished_at result_path last_error n = record n {
  status = DagNodeStatus.failed;
  finished_at = some finished_at;
  result_path = result_path;
  last_error = some last_error;
}

pub record DagRunState : Type 0 where
  pub nodes : List (ℕ × DagNodeState)

-- The loop of `DagRunState::new`.
unfoldable pub collect_nodes :
    List (ℕ × DagNodeState) → List (ℕ × DagNodeState) → Outcome Fault (List (ℕ × DagNodeState))
collect_nodes [] into = ok into
collect_nodes ((id, state) ∷ rest) into = elim (lookup id into) [
  | some old ↦ err Fault.duplicate_node
  | none ↦ collect_nodes rest (insert id state into)
]

unfoldable pub new_dag_run : List (ℕ × DagNodeState) → Outcome Fault DagRunState
new_dag_run nodes = do m ← collect_nodes nodes []; ok (record { nodes = m })

abbrev pub has_succeeded : DagNodeState → Bool
has_succeeded n = n.status == DagNodeStatus.succeeded

abbrev pub no_nodes : List (ℕ × DagNodeState) → Bool
no_nodes [] = true
no_nodes (entry ∷ entries) = false

unfoldable pub all_succeeded : DagRunState → Bool
all_succeeded d = not (no_nodes d.nodes) && all has_succeeded (values d.nodes)

unfoldable pub node_state : DagRunState → ℕ → Option DagNodeState
node_state d id = lookup id d.nodes

abbrev pub dependency_met : DagRunState → ℕ → Bool
dependency_met d dependency = is_some_and (lookup dependency d.nodes) has_succeeded

-- The body of `ready_node_id_in_order` for one identifier.
unfoldable pub is_ready_node : DagRunState → ℕ → Bool
is_ready_node d id =
    is_some_and (lookup id d.nodes)
      (λ n. n.status == DagNodeStatus.pending && all (dependency_met d) n.depends_on)

unfoldable pub ready_node_id_in_order : DagRunState → List ℕ → Option ℕ
ready_node_id_in_order d [] = none
ready_node_id_in_order d (id ∷ ids) =
    if is_ready_node d id then some id else ready_node_id_in_order d ids

unfoldable pub map_node :
    ℕ → (DagNodeState → DagNodeState) → DagRunState → Outcome Fault DagRunState
map_node id change d = do
  n ← ok_or (lookup id d.nodes) Fault.node_state_missing
  ok (record { nodes = insert id (change n) (remove id d.nodes) })

unfoldable pub dag_mark_running : ℕ → ℕ → DagRunState → Outcome Fault DagRunState
dag_mark_running id started_at d = map_node id (node_running started_at) d

unfoldable pub dag_mark_pending : ℕ → ℕ → DagRunState → Outcome Fault DagRunState
dag_mark_pending id last_error d = map_node id (node_pending last_error) d

unfoldable pub dag_mark_succeeded : ℕ → ℕ → Option ℕ → DagRunState → Outcome Fault DagRunState
dag_mark_succeeded id finished_at result_path d =
    map_node id (node_succeeded finished_at result_path) d

unfoldable pub dag_mark_failed : ℕ → ℕ → Option ℕ → ℕ → DagRunState → Outcome Fault DagRunState
dag_mark_failed id finished_at result_path last_error d =
    map_node id (node_failed finished_at result_path last_error) d
