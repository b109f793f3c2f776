-- ===== src/Timer.antt =====
-- src/plexo/timer.py: a timeout that another coroutine may cut short. How long a wait lasts is known
-- here by the events that are handled meanwhile, so a timer keeps what became of its task. The program
-- gives no timer a callback.
use pyplexo.Base.{ℕ, Option, none, some}
use pyplexo.Exceptions.{Result, ok, raise, pending, cancelled_error}

pub data Task : Type 0 where
  running cancelled finished : Task

pub record Timer : Type 0 where
  pub timeout : ℕ
  pub task : Option Task

-- `Timer(timeout)`
unfoldable pub init : ℕ → Timer
init timeout = record { timeout = timeout; task = none }

unfoldable pub start : Timer → Timer
start t = record t { task = some running }

finish_task : Option Task → Option Task
finish_task (some running) = some finished
finish_task x = x

-- `_job`, once the timeout has passed: a task that is cancelled by then stays so.
unfoldable pub job : Timer → Timer
unfolding finish_task
job t = record t { task = finish_task t.task }

-- `await self._task`
outcome : Task → Result (Unit {0})
outcome running = pending
outcome cancelled = raise cancelled_error
outcome finished = ok tt

unfoldable pub wait : Timer → Result (Unit {0})
unfolding outcome
wait t = elim t.task [ none ↦ ok tt | some x ↦ outcome x ]

-- A task that has finished stays so.
cancel_task : Option Task → Option Task
cancel_task (some running) = some cancelled
cancel_task x = x

unfoldable pub cancel : Timer → Timer
unfolding cancel_task
cancel t = record t { task = cancel_task t.task }
