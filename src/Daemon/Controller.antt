-- ===== src/Daemon/Controller.antt =====
-- backend/internal/daemon/controller.go. One worker goroutine takes actions off a queue; a scan runs
-- on a goroutine of its own and ends when it likes. `Controller` is the shared state, `worker` says
-- where the worker stands, and each step is one stretch that runs under a lock or between two
-- waits. Runs are numbered as they are launched, and a number stands for the run's `done` channel.
use expensor.Prelude.{
  ℕ, ◌+◌, String, Bool, true, false, not, ◌&&◌, ◌||◌, Option, none, some, List, [], ◌∷◌, ◌++◌, ◌==◌,
  ◌≡◌, str_eq, if◌then◌else◌,
}
use expensor.Prelude.Text.{is_blank}
use expensor.Errors.{Err, is_error, canceled, deadline_exceeded}
use expensor.Errors.Text.{error_text}

pub data ScanMode : Type 0 where
  scan_continuous scan_scheduled scan_rescan : ScanMode

pub record RunRequest : Type 0 where
  pub tenant_id : String
  pub reader : String

pub data Action : Type 0 where
  start : RunRequest → Action
  stop : Action
  rescan : RunRequest → Action
  restart : RunRequest → Action

-- A goroutine inside `scanner.Run`.
pub record LiveRun : Type 0 where
  pub id : ℕ
  pub request : RunRequest
  pub mode : ScanMode
  pub canceled : Bool

-- The worker waits for an action, or waits in `stopCurrent` for a run to end before it goes on with
-- the rest of an action.
pub data Worker : Type 0 where
  idle : Worker
  stopping : ℕ → Action → Worker
  finished : Worker

pub record Controller : Type 0 where
  pub queue : List Action
  pub closed : Bool
  pub context_done : Bool
  pub worker : Worker
  -- `runCancel` is set, and the run that `done` belongs to.
  pub cancel_set : Bool
  pub done : Option ℕ
  pub active_reader : String
  pub active_tenant : String
  pub running : Bool
  pub last_error : String
  -- The runs in `scanner.Run`, the number of the next one, and the readers persisted so far.
  pub live : List LiveRun
  pub next_id : ℕ
  pub persisted : List RunRequest

unfoldable pub new_controller : Controller
new_controller = record {
  queue = [];
  closed = false;
  context_done = false;
  worker = idle;
  cancel_set = false;
  done = none;
  active_reader = "";
  active_tenant = "";
  running = false;
  last_error = "";
  live = [];
  next_id = 0;
  persisted = [];
}

-- `enqueue`: refused once the controller is closed.
unfoldable pub enqueue : Action → Controller → Controller × Bool
enqueue a c = if c.closed then (c, false) else (record c { queue = c.queue ++ a ∷ [] }, true)

-- `launch`, up to the start of the run's goroutine.
unfoldable pub launch : RunRequest → ScanMode → Controller → Controller
launch request mode c = record c {
  cancel_set = true;
  done = some c.next_id;
  active_reader = request.reader;
  active_tenant = request.tenant_id;
  running = true;
  last_error = "";
  live = record { id = c.next_id; request = request; mode = mode; canceled = false } ∷ c.live;
  next_id = c.next_id + 1;
}

-- `persistActiveReader`: a fault of the store is logged and has no effect here.
unfoldable pub persist_active_reader : RunRequest → Controller → Controller
persist_active_reader request c = record c { persisted = request ∷ c.persisted }

-- What an action does once `stopCurrent` has returned nil.
unfoldable pub after_stop : Action → Controller → Controller
unfolding launch persist_active_reader
after_stop (start request) c =
    if c.context_done then c else launch request scan_continuous (persist_active_reader request c)
after_stop stop c = record c { active_reader = ""; active_tenant = "" }
after_stop (rescan request) c =
    if c.context_done then c else launch request scan_rescan (persist_active_reader request c)
after_stop (restart request) c = if c.context_done then c else launch request scan_continuous c

abbrev pub cancel_run : ℕ → List LiveRun → List LiveRun
cancel_run id [] = []
cancel_run id (r ∷ rs) = (if r.id == id then record r { canceled = true } else r) ∷ cancel_run id rs

-- `stopCurrent` before an action's rest: with nothing to cancel it returns at once, else the run is
-- cancelled and the worker waits for its `done`.
unfoldable pub stop_then : Bool → Option ℕ → Action → Controller → Controller
unfolding after_stop
stop_then true (some id) a c = record c { worker = stopping id a; live = cancel_run id c.live }
stop_then true none a c = after_stop a c
stop_then false _ a c = after_stop a c

-- `transitionStart`, `transitionStop`, `transitionRescan` and `transitionRestart` up to the wait.
unfoldable pub begin : Action → Controller → Controller
unfolding stop_then after_stop
begin (start request) c =
    if c.running
      && str_eq c.active_reader request.reader
      && str_eq c.active_tenant request.tenant_id
    then c
    else if c.running
    then stop_then c.cancel_set c.done (start request) c
    else after_stop (start request) c
begin stop c = stop_then c.cancel_set c.done stop c
begin (rescan request) c = stop_then c.cancel_set c.done (rescan request) c
begin (restart request) c = stop_then c.cancel_set c.done (restart request) c

unfoldable pub is_live : ℕ → List LiveRun → Bool
is_live id [] = false
is_live id (r ∷ rs) = r.id == id || is_live id rs

unfoldable pub remove_run : ℕ → List LiveRun → List LiveRun
remove_run id [] = []
remove_run id (r ∷ rs) = let rest = remove_run id rs in if r.id == id then rest else r ∷ rest

abbrev pub is_current : Option ℕ → ℕ → Bool
is_current none id = false
is_current (some current) id = current == id

-- The text that a run's error leaves in `lastError`.
abbrev error_left : Option Err → String → String
error_left none old = old
error_left (some err) old =
    if is_error canceled err || is_error deadline_exceeded err then old else error_text err

-- The end of a run's goroutine: only the current run changes the status.
unfoldable pub end_run : ℕ → Option Err → Controller → Controller
unfolding remove_run
end_run id outcome c =
    if is_current c.done id
    then record c {
      live = remove_run id c.live;
      running = false;
      cancel_set = false;
      last_error = error_left outcome c.last_error;
    }
    else record c { live = remove_run id c.live }

abbrev pub cancel_all : List LiveRun → List LiveRun
cancel_all [] = []
cancel_all (r ∷ rs) = record r { canceled = true } ∷ cancel_all rs

-- The context of the controller is done, and with it that of every run.
unfoldable pub cancel_context : Controller → Controller
cancel_context c = record c { context_done = true; live = cancel_all c.live }

-- `Close`, up to its wait for the worker and the run.
unfoldable pub close : Controller → Controller
unfolding cancel_context
close c = if c.closed then c else cancel_context (record c { closed = true; queue = [] })

-- `RefreshResolver`: `loaded` says whether the scanner could reload its snapshot.
unfoldable pub refresh_resolver : Bool → Controller → Controller
unfolding enqueue
refresh_resolver loaded c =
    if c.closed || not loaded
    then c
    else if c.running && not (is_blank c.active_reader)
    then (enqueue (restart (record { tenant_id = c.active_tenant; reader = c.active_reader })) c).0
    else c

pub data Step (c : Controller) : Controller → Type 0 where
  ask : (a : Action) → Step c (enqueue a c).0
  refresh : (loaded : Bool) → Step c (refresh_resolver loaded c)
  take :
      (a : Action) (rest : List Action)
      → c.worker ≡ idle
      → c.queue ≡ a ∷ rest
      → Step c (begin a (record c { queue = rest }))
  resume :
      (id : ℕ) (a : Action)
      → c.worker ≡ stopping id a
      → is_live id c.live ≡ false
      → Step c (after_stop a (record c { worker = idle }))
  give_up :
      (id : ℕ) (a : Action)
      → c.worker ≡ stopping id a
      → c.context_done ≡ true
      → Step c (record c { worker = idle })
  leave :
      c.worker ≡ idle
      → c.queue ≡ []
      → (c.closed || c.context_done) ≡ true
      → Step c (record c { worker = finished })
  end : (id : ℕ) (outcome : Option Err) → is_live id c.live ≡ true → Step c (end_run id outcome c)
  shut : Step c (close c)
  parent_done : Step c (cancel_context c)

pub data Reach (c : Controller) : Controller → Type 0 where
  here : Reach c c
  next : {d f : Controller} → Reach c d → Step d f → Reach c f
