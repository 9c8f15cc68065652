-- ===== src/Scheduler/Queue.antt =====
-- companyos_runtime/scheduler.py: the queries that choose tasks, and the texts of reasons.
use Prim.Native.Nat.{◌/◌, ◌%◌, Ordering}
use Prim.Native.String.{compare, ◌++◌ as append_text}
use company_os.Prelude.{
  ◌≡◌, head-select, ℕ, zero, suc, String, Bool, true, false, not, ◌&&◌, ◌||◌, Option, none, some,
  List, [], ◌∷◌, select, head?, take, row, ltb, leb, eqb, is_none, if◌then◌else◌, ◌==◌,
}
use company_os.Types.Values.{LoopState, TaskState}
use company_os.Types.Equality.{same_loop_state, same_task_state}
use company_os.Db.{World}
use company_os.Db.Rows.{Task, Run, Lease}
use company_os.Leases.{find_lease}

-- the decimal text of a number; a number has at most as many digits as it says, and one more
decimal : ℕ → ℕ → String
decimal zero n = ""
decimal (suc fuel) n =
    let rest = decimal fuel (n / 10) in
    let last = digit (n % 10) in if ltb n 10 then last else append_text rest last
  where
    digit : ℕ → String
    digit d =
        if eqb d 0
        then "0"
        else if eqb d 1
        then "1"
        else if eqb d 2
        then "2"
        else if eqb d 3
        then "3"
        else if eqb d 4
        then "4"
        else if eqb d 5
        then "5"
        else if eqb d 6
        then "6"
        else if eqb d 7
        then "7"
        else if eqb d 8
        then "8"
        else "9"

unfoldable pub str : ℕ → String
unfolding decimal
str n = decimal (suc n) n

-- `_task_resource`
abbrev pub task_resource : String → String
task_resource task_id = append_text "task://" task_id

abbrev pub run_key : Run → String
run_key r = r.run_id

abbrev pub task_key : Task → String
task_key t = t.task_id

abbrev pub find_run : Option String → List Run → Option Run
find_run none runs = none
find_run (some run_id) runs = row run_key run_id runs

abbrev run_matches : Task → Option Run → (LoopState → Bool) → Bool
run_matches t none p = false
run_matches t (some r) p = r.project_id == t.project_id && r.goal_id == t.goal_id && p r.loop_state

-- `_EXECUTABLE_RUN_STATES`
abbrev ready_or_running : LoopState → Bool
ready_or_running s = same_loop_state LoopState.ready s || same_loop_state LoopState.running s

-- the join of a task with its run
abbrev pub joined : World → Task → Bool
joined w t = run_matches t (find_run t.run_id w.runs) ready_or_running

-- `_require_executable_run` wants the run to be running
abbrev pub executable : World → Task → Bool
executable w t = run_matches t (find_run t.run_id w.runs) (same_loop_state LoopState.running)

abbrev due : Option ℕ → ℕ → Bool
due none now = true
due (some t) now = leb t now

abbrev text_below : String → String → Bool
text_below s t = elim (compare s t) [
  | Ordering.lt ↦ true
  | Ordering.eq ↦ false
  | Ordering.gt ↦ false
]

-- NULL comes first
abbrev due_below : Option ℕ → Option ℕ → Bool
due_below none none = false
due_below none (some n) = true
due_below (some m) none = false
due_below (some m) (some n) = ltb m n

abbrev insert : (Task → Task → Bool) → Task → List Task → List Task
insert below t [] = t ∷ []
insert below t (u ∷ us) = let rest = insert below t us in if below u t then u ∷ rest else t ∷ u ∷ us

-- ORDER BY
abbrev pub order_by : (Task → Task → Bool) → List Task → List Task
order_by below [] = []
order_by below (t ∷ ts) = insert below t (order_by below ts)

-- t.due_at, t.task_id
abbrev by_due : Task → Task → Bool
by_due t u =
    due_below t.due_at u.due_at
    || not (due_below u.due_at t.due_at) && text_below t.task_id u.task_id

-- t.due_at, t.created_at, t.task_id
abbrev by_age : Task → Task → Bool
by_age t u =
    due_below t.due_at u.due_at
    || not (due_below u.due_at t.due_at)
      && (ltb t.created_at u.created_at
          || eqb t.created_at u.created_at && text_below t.task_id u.task_id)

abbrev waiting : String → TaskState → ℕ → World → List Task
waiting project_id s now w =
    select
      (λ t.
        t.project_id == project_id && same_task_state s t.state && joined w t && due t.due_at now)
      w.tasks

-- the rows of `promote_due_retries`
unfoldable pub due_retries : String → ℕ → ℕ → World → List Task
due_retries project_id limit now w =
    take limit (order_by by_due (waiting project_id TaskState.retry_pending now w))

-- the first row of `claim_next` that has an attempt left
abbrev pub has_attempt : Task → Bool
has_attempt t = ltb t.attempt_count t.spec.max_attempts && not (is_none t.run_id)

unfoldable pub next_ready : String → ℕ → World → Option Task
next_ready project_id now w =
    head? (select has_attempt (order_by by_age (waiting project_id TaskState.ready now w)))

-- What it chooses has an attempt left.
pub next_ready-has_attempt :
    (p : String) (now : ℕ) (w : World) (t : Task)
    → next_ready p now w ≡ some t
    → has_attempt t ≡ true
unfolding next_ready
next_ready-has_attempt p now w t h =
    head-select has_attempt (order_by by_age (waiting p TaskState.ready now w)) t h

abbrev lease_gone : Option Lease → ℕ → Bool
lease_gone none now = true
lease_gone (some l) now = not (is_none l.released_at) || leb l.expires_at now

-- the rows of `reap_expired`
unfoldable pub expired : String → ℕ → ℕ → World → List Task
expired project_id limit now w = take limit (
    order_by (λ t u. ltb t.updated_at u.updated_at)
      (select
        (λ t.
          t.project_id == project_id
          && (same_task_state TaskState.leased t.state || same_task_state TaskState.running t.state)
          && lease_gone (find_lease (task_resource t.task_id) w) now)
        w.tasks))
