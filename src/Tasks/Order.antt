-- ===== src/Tasks/Order.antt =====
-- Which task and which node a selection picks.
use rack_ai.Common.{
  ℕ, true, false, List, [], ◌∷◌, Option, none, some, ◌≡◌, refl, ok, ok_or, ok_or-eq-ok, inl, inr,
  Bool-cases, Option-cases, member, all-member, arith, nat_eq, subst, ok-injective,
}
use rack_ai.Common.Map.{lookup}
use rack_ai.Domain.Dag.{
  DagRunState, DagNodeState, DagNodeStatus, ready_node_id_in_order, is_ready_node, dependency_met,
  dag_node_status_eq,
}
use rack_ai.Domain.Dag.Progress.{ready_node_id_in_order-ready}
use rack_ai.Domain.Names.{task_id}
use rack_ai.Domain.Runs.{RunState, Placement}
use rack_ai.Tasks.Specs.{TaskSpec, TaskDag, has_dag, node_ids, first_ready_node_id, valued}
use rack_ai.Tasks.Effects.{Services, QueuedTask, Call, Calls, Log, perform, return}
use rack_ai.Tasks.Results.{then-eq-ok, bind-eq-ok, return-eq-ok}
use rack_ai.Tasks.Selection.{
  SelectedTask, Selection, select_task, select_listed, select_from, unless_blocked, take_task,
  plan_task, plan_dag_task, ensure_dag_run_state, dag_node_placement, load_run_state,
}

-- The node waits, and each node that it depends on is stored and has succeeded.
abbrev pub Runnable : DagRunState → ℕ → Type 0
Runnable d id =
    (n : DagNodeState) × (lookup id d.nodes ≡ some n)
    × (n.status ≡ DagNodeStatus.pending)
    × ((dependency : ℕ)
        → member dependency n.depends_on ≡ true
        → (m : DagNodeState) × (lookup dependency d.nodes ≡ some m)
          × (m.status ≡ DagNodeStatus.succeeded))

is_ready_node-Runnable : (d : DagRunState) (id : ℕ) → is_ready_node d id ≡ true → Runnable d id
unfolding is_ready_node
is_ready_node-Runnable d id h = elim (Option-cases (lookup id d.nodes)) [
  | inl e ↦ absurd (ground arith)
  | inr (n, e) ↦ (
    n,
    e,
    ground arith,
    λ dependency m.
        let met = all-member (dependency_met d) n.depends_on dependency (ground arith) m in
        elim (Option-cases (lookup dependency d.nodes)) [
          | inl f ↦ absurd (ground arith)
          | inr (p, f) ↦ (p, f, ground arith)
        ],
  )
]

-- A task without a graph runs as a whole. Of a task with a graph one listed node runs, which waits
-- and all of whose dependencies have succeeded.
pub data Planned (spec : TaskSpec) (run : RunState) (active : Option ℕ) : Type 0 where
  whole : has_dag spec ≡ false → active ≡ none → Planned spec run active
  next_node :
      (dag : TaskDag) (d : DagRunState) (id : ℕ)
      → spec.dag ≡ some dag
      → run.dag_run_state ≡ some d
      → active ≡ some id
      → member id (node_ids dag) ≡ true
      → Runnable d id
      → Planned spec run active

first_ready_listed :
    (spec : TaskSpec) (d : DagRunState) {id : ℕ}
    → first_ready_node_id spec d ≡ some id
    → (dag : TaskDag) × (spec.dag ≡ some dag)
      × (member id (node_ids dag) ≡ true)
      × (is_ready_node d id ≡ true)
unfolding first_ready_node_id
first_ready_listed spec d {id} h = by_dag spec.dag refl h
  where
    by_dag :
        (o : Option TaskDag)
        → spec.dag ≡ o
        → (elim o [ none ↦ none | some dag ↦ ready_node_id_in_order d (node_ids dag) ]) ≡ some id
        → (dag : TaskDag) × (spec.dag ≡ some dag)
          × (member id (node_ids dag) ≡ true)
          × (is_ready_node d id ≡ true)
    by_dag none e k = cc
    by_dag (some dag) e k =
        let r = ready_node_id_in_order-ready d (node_ids dag) k in (dag, e, r.0, r.1)

module _ (services : Services) where
  plan_dag_task-Planned :
      (run : RunState) (spec : TaskSpec) (log : Log) {planned : RunState × Option ℕ × Placement}
      → (plan_dag_task services run spec log).0 ≡ ok planned
      → Planned spec planned.0 planned.1
  unfolding plan_dag_task return
  plan_dag_task-Planned run spec log h =
      let p = return-eq-ok (ensure_dag_run_state run spec) _ log h in
      let d = return-eq-ok (ok_or p.0.dag_run_state _) _ log (rw p.2 at h) in
      let i =
        return-eq-ok (ok_or (first_ready_node_id spec d.0) _) _ log (rw d.2 at (rw p.2 at h)) in
      let q =
        bind-eq-ok (dag_node_placement services spec i.0) _ log
          (rw i.2 at (rw d.2 at (rw p.2 at h))) in
      let f = first_ready_listed spec d.0 (ok_or-eq-ok _ _ i.1) in
      let e = ok-injective (rw q.2 at (rw i.2 at (rw d.2 at (rw p.2 at h)))) in
      subst (λ z. Planned spec z.0 z.1) e
        (next_node f.0 d.0 i.0 f.1 (ok_or-eq-ok _ _ d.1) refl f.2
          (is_ready_node-Runnable d.0 i.0 f.3))

  plan_task-Planned :
      (run : RunState) (spec : TaskSpec) (log : Log) {planned : RunState × Option ℕ × Placement}
      → (plan_task services run spec log).0 ≡ ok planned
      → Planned spec planned.0 planned.1
  unfolding plan_task return
  plan_task-Planned run spec log h = elim (Bool-cases (has_dag spec)) [
    | inl e ↦ plan_dag_task-Planned run spec log (rw e at h)
    | inr e ↦
        subst (λ z. Planned spec z.0 z.1) {x = (run, none, spec.placement)}
          (ok-injective (rw e at h)) (whole e refl)
  ]

  take_task-Planned :
      (task : QueuedTask) (spec : TaskSpec) (planned : RunState × Option ℕ × Placement) (log : Log)
      {s : SelectedTask}
      → Planned spec planned.0 planned.1
      → (take_task services task spec planned log).0 ≡ ok (Selection.selected s)
      → Planned s.task_spec s.run_state s.active_node_id
  unfolding take_task return
  take_task-Planned task spec (run, active, placement) log {s} p h =
      let saved = then-eq-ok (perform (Call.save _) _) _ log h in
      let claimed =
        bind-eq-ok (perform (Call.claim task) (services.claim_task task)) _ _ (rw saved at h) in
      let e = ok-injective (rw claimed.2 at (rw saved at h)) in
      subst {A = SelectedTask} (λ z. Planned z.task_spec z.run_state z.active_node_id)
        {x = record {
          queued_task = claimed.0;
          run_state = run;
          task_spec = spec;
          active_node_id = active;
          placement = placement;
        }}
        {y = s} (cc e) p

  unless_blocked-Planned :
      (task : QueuedTask) (spec : TaskSpec) (planned : RunState × Option ℕ × Placement)
      (rest : Calls Selection) (blocked : List ℕ) (log : Log) {s : SelectedTask}
      → Planned spec planned.0 planned.1
      → ((after : Log)
          → (rest after).0 ≡ ok (Selection.selected s)
          → Planned s.task_spec s.run_state s.active_node_id)
      → (unless_blocked services task spec planned rest blocked log).0 ≡ ok (Selection.selected s)
      → Planned s.task_spec s.run_state s.active_node_id
  unfolding unless_blocked
  unless_blocked-Planned task spec planned rest [] log p later h =
      take_task-Planned task spec planned log p h
  unless_blocked-Planned task spec planned rest (r ∷ rs) log p later h =
      let saved = then-eq-ok (perform (Call.save _) _) rest log h in later _ (rw saved at h)

  select_from-Planned :
      (tasks : List QueuedTask) (log : Log) {s : SelectedTask}
      → (select_from services tasks log).0 ≡ ok (Selection.selected s)
      → Planned s.task_spec s.run_state s.active_node_id
  unfolding select_from return
  select_from-Planned [] log h = absurd (cc h)
  select_from-Planned (task ∷ tasks) log h =
      let i = return-eq-ok (valued (task_id task.task_id)) _ log h in
      let run = bind-eq-ok (load_run_state services i.0) _ log (rw i.2 at h) in
      let spec =
        bind-eq-ok (perform (Call.load task) (services.load_spec task)) _ _
          (rw run.2 at (rw i.2 at h)) in
      let planned =
        bind-eq-ok (plan_task services run.0 spec.0) _ _
          (rw spec.2 at (rw run.2 at (rw i.2 at h))) in
      let blocked =
        bind-eq-ok (perform (Call.blocked _) _) _ _
          (rw planned.2 at (rw spec.2 at (rw run.2 at (rw i.2 at h)))) in
      unless_blocked-Planned task spec.0 planned.0 (select_from services tasks) blocked.0 _
        (plan_task-Planned run.0 spec.0 _ planned.1) (λ after k. select_from-Planned tasks after k)
        (rw blocked.2 at (rw planned.2 at (rw spec.2 at (rw run.2 at (rw i.2 at h)))))

  select_listed-Planned :
      (tasks : List QueuedTask) (log : Log) {s : SelectedTask}
      → (select_listed services tasks log).0 ≡ ok (Selection.selected s)
      → Planned s.task_spec s.run_state s.active_node_id
  unfolding return
  select_listed-Planned [] log h = absurd (cc h)
  select_listed-Planned (task ∷ tasks) log h = select_from-Planned (task ∷ tasks) log h

  -- A selected task without a graph runs as a whole; of a task with a graph, a node is selected that
  -- is listed, waits, and whose dependencies have all succeeded.
  pub select_task-Planned :
      (log : Log) {s : SelectedTask}
      → (select_task services log).0 ≡ ok (Selection.selected s)
      → Planned s.task_spec s.run_state s.active_node_id
  unfolding select_task
  select_task-Planned log h =
      let tasks =
        bind-eq-ok (perform Call.list services.list_tasks) (select_listed services) log h in
      select_listed-Planned tasks.0 _ (rw tasks.2 at h)
