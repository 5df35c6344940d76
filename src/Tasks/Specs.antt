-- ===== src/Tasks/Specs.antt =====
-- The specification of a task and its graph of nodes: task_spec.rs, task_dag.rs and task_dag_node.rs
-- of crates/rack_ai_application/src. The documents of a node's artifacts are one number.
use rack_ai.Common.{
  ℕ, Bool, true, false, not, List, [], ◌∷◌, Option, none, some, map, find, member, ◌==◌, nat_eq,
  Outcome, ok, err, ◌>>=◌, ◌>>◌, ok_or, refuse_if, unwrap_or,
}
use rack_ai.Common.Text.{Text}
use rack_ai.Domain.Faults.{Fault}
use rack_ai.Domain.Dag.{
  DagRunState, DagNodeState, pending_node, new_dag_run, ready_node_id_in_order,
}
use rack_ai.Domain.Runs.{Placement}

-- The messages with which running a task fails; those of the services are numbers.
pub data TaskError : Type 0 where
  value : Fault → TaskError
  service : ℕ → TaskError
  unknown_dependency : ℕ → ℕ → TaskError
  without_dag node_missing : TaskError
  dag_state_missing initial_dag_missing no_ready_node active_node_missing : TaskError
  run_state_missing : TaskError

abbrev pub Answer : Type 0 → Type 0
Answer A = Outcome TaskError A

-- A result of the domain, its message kept.
abbrev pub valued : {A : Type 0} → Outcome Fault A → Answer A
valued (ok a) = ok a
valued (err e) = err (TaskError.value e)

pub record TaskDagNode : Type 0 where
  pub id : ℕ
  pub name : Option ℕ
  pub worker : ℕ
  pub cwd : ℕ
  pub prompt : ℕ
  pub depends_on : List ℕ
  pub artifacts : ℕ

pub record TaskDag : Type 0 where
  pub nodes : List TaskDagNode

abbrev pub node_ids : TaskDag → List ℕ
node_ids dag = map (λ n. n.id) dag.nodes

unfoldable pub find_node : TaskDag → ℕ → Option TaskDagNode
find_node dag id = find (λ n. n.id == id) dag.nodes

-- The loops of `validate`: over the dependencies of a node, and over the nodes.
unfoldable pub validate_dependencies : List ℕ → ℕ → List ℕ → Answer (Unit {0})
validate_dependencies known id [] = ok tt
validate_dependencies known id (dependency ∷ rest) = do
  refuse_if (not (member dependency known)) (TaskError.unknown_dependency id dependency)
  validate_dependencies known id rest

unfoldable pub validate_nodes : List ℕ → List TaskDagNode → Answer (Unit {0})
validate_nodes known [] = ok tt
validate_nodes known (n ∷ rest) = do
  validate_dependencies known n.id n.depends_on
  validate_nodes known rest

unfoldable pub validate_dag : TaskDag → Answer (Unit {0})
validate_dag dag = validate_nodes (node_ids dag) dag.nodes

pub record TaskSpec : Type 0 where
  pub task_id : Text
  pub placement : Placement
  pub template : Option ℕ
  pub request : Option ℕ
  pub dag : Option TaskDag

abbrev pub has_dag : TaskSpec → Bool
has_dag spec = elim spec.dag [ none ↦ false | some dag ↦ true ]

abbrev pub initial_nodes : List TaskDagNode → List (ℕ × DagNodeState)
initial_nodes nodes = map (λ n. (n.id, pending_node n.depends_on)) nodes

unfoldable pub initial_dag_run : Option TaskDag → Answer (Option DagRunState)
initial_dag_run none = ok none
initial_dag_run (some dag) = do
  validate_dag dag
  d ← valued (new_dag_run (initial_nodes dag.nodes))
  ok (some d)

-- `TaskSpec::dag_run_state`.
abbrev pub spec_dag_run : TaskSpec → Answer (Option DagRunState)
spec_dag_run spec = initial_dag_run spec.dag

unfoldable pub first_ready_node_id : TaskSpec → DagRunState → Option ℕ
first_ready_node_id spec d = elim spec.dag [
  | none ↦ none
  | some dag ↦ ready_node_id_in_order d (node_ids dag)
]

unfoldable pub find_dag_node : TaskSpec → ℕ → Answer TaskDagNode
find_dag_node spec id = do
  dag ← ok_or spec.dag TaskError.without_dag
  ok_or (find_node dag id) TaskError.node_missing

-- The fields of the documents that `execution_step` and `build_execution_spec_json` write; the name
-- of a step is the node's identifier where the node has none.
pub record ExecutionStep : Type 0 where
  pub name : ℕ
  pub worker : ℕ
  pub cwd : ℕ
  pub prompt : ℕ
  pub artifacts : ℕ

unfoldable pub execution_step : TaskDagNode → ExecutionStep
execution_step n = record {
  name = unwrap_or n.name n.id;
  worker = n.worker;
  cwd = n.cwd;
  prompt = n.prompt;
  artifacts = n.artifacts;
}

pub record ExecutionSpec : Type 0 where
  pub task_id : Text × ℕ
  pub template : Option ℕ
  pub request : Option ℕ
  pub placement : Placement
  pub step : ExecutionStep

unfoldable pub build_execution_spec : TaskSpec → ℕ → Placement → Answer ExecutionSpec
build_execution_spec spec id placement = do
  n ← find_dag_node spec id
  ok (record {
    task_id = (spec.task_id, id);
    template = spec.template;
    request = spec.request;
    placement = placement;
    step = execution_step n;
  })
