-- ===== src/Timer.antt =====
-- base/timer.h and base/timer.cc: a timer, the waits on its clock that are not served, and its tasks.
-- Tasks, handlers and error codes are numbers. A step is a call or the part of one that runs under
-- the timer's mutex. The answer of `expires_from_now` is the argument `error`; a failed assert is
-- `none`. The clock itself, `GetElapsedTime` and `Fire` are left out.
pub mod Invariant
pub mod Cancelling
pub mod Starting
pub mod Running
pub mod Reachable
pub mod Quiet
pub mod Silence
mod Tests
use tf_common.Common.{
  put, ℕ, ◌+◌, ◌%◌, ◌^◌, Bool, true, false, not, ◌&&◌, ◌||◌, Option, none, some, List, [], ◌∷◌,
  if◌then◌else◌, ltb, ◌==◌,
}
use tf_common.Task.{◌>>=◌, ◌>>◌, assert, is_none}

pub data TimerState : Type 0 where
  init running fired cancelled : TimerState

-- Where a task stands: with the scheduler, taken up, taken up and then cancelled, calling its
-- handler, about to end with or without a restart, or gone.
pub data Phase : Type 0 where
  waiting taken dropped calling : Phase
  finishing : Bool → Phase
  gone : Phase

pub record Timer : Type 0 where
  pub state : TimerState
  pub timer_task : Option ℕ
  pub time : ℕ
  pub handler : Option ℕ
  pub error_handler : Option ℕ
  pub seq_no : ℕ
  pub delete_on_completion : Bool

-- The waits by their sequence numbers, the tasks by their numbers, the next task's number, whether
-- the manager holds the timer, and how often a handler was called.
pub record World : Type 0 where
  pub timer : Timer
  pub waits : ℕ → Bool
  pub phase : ℕ → Phase
  pub failed : ℕ → Bool
  pub next_task : ℕ
  pub held : Bool
  pub callbacks : ℕ

abbrev pub new_world : Bool → World
new_world delete_on_completion = record {
  timer = record {
    state = init;
    timer_task = none;
    time = 0;
    handler = none;
    error_handler = none;
    seq_no = 0;
    delete_on_completion = delete_on_completion;
  };
  waits = λ _. false;
  phase = λ _. gone;
  failed = λ _. false;
  next_task = 0;
  held = true;
  callbacks = 0;
}

abbrev pub set_state : TimerState → World → World
set_state state w = record w { timer = record (w.timer) { state = state } }

abbrev pub with_task : Option ℕ → World → World
with_task t w = record w { timer = record (w.timer) { timer_task = t } }

-- `state_ == Running || state_ == Fired`
abbrev pub is_active : TimerState → Bool
is_active running = true
is_active fired = true
is_active _ = false

abbrev pub is_fired : TimerState → Bool
is_fired fired = true
is_fired _ = false

abbrev pub is_cancelled : TimerState → Bool
is_cancelled cancelled = true
is_cancelled _ = false

-- A time below 0 is `none`.
unfoldable pub start : Option ℕ → Option ℕ → Option ℕ → Bool → World → Bool × World
start none handler error_handler error w = (true, w)
start (some time) handler error_handler error w =
    let seq = (w.timer.seq_no + 1) % 2 ^ 32 in
    let prepared = record w {
      timer = record (w.timer) {
        time = time;
        handler = handler;
        seq_no = seq;
        error_handler = error_handler;
      };
    } in
    let waiting = set_state running (record prepared { waits = put w.waits seq true }) in
    if is_active w.timer.state
    then (true, w)
    else if error
    then (false, prepared)
    else (true, waiting)

unfoldable pub reschedule : Option ℕ → World → Bool × World
reschedule none w = (false, w)
reschedule (some time) w =
    if is_fired w.timer.state
    then (true, record w { timer = record (w.timer) { time = time } })
    else (false, w)

-- The scheduler's `Cancel`, `none` for the code FAILED and for a task that is past the test of its
-- cancellation.
abbrev pub cancelled_phase : Phase → Option Phase
cancelled_phase waiting = some gone
cancelled_phase taken = some dropped
cancelled_phase dropped = some dropped
cancelled_phase _ = none

unfoldable pub cancel_task : Option ℕ → World → Option World
cancel_task none w = some w
cancel_task (some t) w = cancelled_phase (w.phase t) >>= λ phase.
    some (with_task none (record w { phase = put w.phase t phase }))

unfoldable pub cancel : World → Option (Bool × World)
cancel w =
    let done = cancel_task w.timer.timer_task w >>= λ v. some (true, set_state cancelled v) in
    if is_fired w.timer.state then some (false, w) else done

-- The serving of a wait with its sequence number, after an abort, an error or none.
pub data Expiry : Type 0 where
  aborted erroneous elapsed : Expiry

abbrev pub is_aborted : Expiry → Bool
is_aborted aborted = true
is_aborted _ = false

abbrev pub is_error : Expiry → Bool
is_error erroneous = true
is_error _ = false

unfoldable pub start_timer_task : ℕ → Expiry → World → Option World
start_timer_task seq_no ec w =
    let t = w.next_task in
    let enqueued = with_task (some t) (record w {
      phase = put w.phase t waiting;
      failed = put w.failed t (is_error ec);
      next_task = t + 1;
    }) in
    let created = assert (is_none w.timer.timer_task) >> some enqueued in
    if is_cancelled w.timer.state || (is_aborted ec || not (w.timer.seq_no == seq_no))
    then some w
    else created

-- A wait is served once.
unfoldable pub expires : ℕ → Expiry → World → Option World
expires seq_no ec w =
    let served = start_timer_task seq_no ec (record w { waits = put w.waits seq_no false }) in
    if w.waits seq_no then served else some w

-- The scheduler takes up a task.
abbrev pub taken_phase : Phase → Phase
taken_phase waiting = taken
taken_phase p = p

abbrev pub task_begins : ℕ → World → World
task_begins t w = record w { phase = put w.phase t (taken_phase (w.phase t)) }

-- The first part of `TimerTask::Run`.
unfoldable pub run_begins : ℕ → Phase → World → World
run_begins t taken w =
    set_state fired (record w { phase = put w.phase t calling; callbacks = w.callbacks + 1 })
run_begins t dropped w = record w { phase = put w.phase t gone }
run_begins t _ w = w

abbrev pub is_own : ℕ → Option ℕ → Bool
is_own t none = true
is_own t (some u) = u == t

unfoldable pub on_task_cancel : ℕ → World → Option World
on_task_cancel t w =
    assert (is_own t w.timer.timer_task) >> some (set_state init (with_task none w))

-- The handler answers, and the task leaves the timer.
unfoldable pub run_returns : ℕ → Bool → Phase → World → Option World
run_returns t answer calling w =
    let handled = w.failed t && not (is_none w.timer.error_handler) in
    let restart = if handled then false else answer in
    on_task_cancel t w >>= λ v. some (record v { phase = put v.phase t (finishing restart) })
run_returns t answer _ w = some w

-- `TimerManager::DeleteTimer`, which takes the mutex once for the test and once in `Cancel`, as one
-- step.
unfoldable pub delete_timer : World → Option (Bool × World)
delete_timer w =
    let erased = cancel w >>= λ (done, v).
    if not done && v.timer.delete_on_completion
    then some (false, v)
    else some (true, record v { held = false }) in
    if is_fired w.timer.state then some (false, w) else erased

-- The last part of `TimerTask::Run`.
unfoldable pub run_ends : ℕ → Bool → Phase → World → Option World
run_ends t error (finishing true) w =
    let v = record w { phase = put w.phase t gone } in
    some (start (some w.timer.time) w.timer.handler w.timer.error_handler error v).1
run_ends t error (finishing false) w =
    let v = record w { phase = put w.phase t gone } in
    let deleted = delete_timer v >>= λ r. some r.1 in
    if w.timer.delete_on_completion then deleted else some v
run_ends t error _ w = some w

-- What happens to a timer. A task is begun, runs its first part, calls its handler, and ends.
pub data Happens : Type 0 where
  starts : Option ℕ → Option ℕ → Option ℕ → Bool → Happens
  reschedules : Option ℕ → Happens
  cancels : Happens
  expiry : ℕ → Expiry → Happens
  begins : ℕ → Happens
  runs : ℕ → Happens
  returns : ℕ → Bool → Happens
  ends : ℕ → Bool → Happens
  deletes : Happens

unfoldable pub step : Happens → World → Option World
step (starts time handler error_handler error) w = some (start time handler error_handler error w).1
step (reschedules time) w = some (reschedule time w).1
step cancels w = cancel w >>= λ r. some r.1
step (expiry seq_no ec) w = expires seq_no ec w
step (begins t) w = some (task_begins t w)
step (runs t) w = some (run_begins t (w.phase t) w)
step (returns t answer) w = run_returns t answer (w.phase t) w
step (ends t error) w = run_ends t error (w.phase t) w
step deletes w = delete_timer w >>= λ r. some r.1

unfoldable pub run : List Happens → World → Option World
run [] w = some w
run (h ∷ happens) w = step h w >>= run happens
