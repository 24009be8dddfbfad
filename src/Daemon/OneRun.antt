-- ===== src/Daemon/OneRun.antt =====
-- Whatever clients ask for and however runs end, the controller of
-- backend/internal/daemon/controller.go has at most one scan running, and its status says whether
-- it has.
use expensor.Prelude.{
  ℕ, ◌≤◌, ◌≡◌, ap, sym, ◌∙◌, ◌⊎◌, ◌↔◌, refl, Bool, true, false, Option, none, some, [], ◌∷◌, arith,
  length, inl, inr, ◌==◌, if◌then◌else◌,
}
use mathlib.Core.Path.{subst}
use expensor.Errors.{Err}
use expensor.Daemon.Controller.{
  Controller, LiveRun, Action, start, stop, rescan, restart, Worker, idle, stopping, finished, Step,
  ask, refresh, take, resume, give_up, leave, end, shut, parent_done, Reach, here, next, begin,
  after_stop, stop_then, launch, enqueue, refresh_resolver, end_run, is_current, close,
  cancel_context, is_live, remove_run, cancel_run, new_controller, persist_active_reader,
  RunRequest, ScanMode, scan_continuous, scan_rescan,
}

abbrev IsQuiet : Controller → Type 0
IsQuiet c = (c.live ≡ []) × (c.cancel_set ≡ false) × (c.running ≡ false)

abbrev IsBusy : Controller → Type 0
IsBusy c =
    (r : LiveRun) × (c.live ≡ r ∷ [])
    × (c.done ≡ some r.id)
    × (c.cancel_set ≡ true)
    × (c.running ≡ true)

abbrev WaitsFor : Worker → Option ℕ → Type 0
WaitsFor idle _ = Unit
WaitsFor (stopping id a) done = done ≡ some id
WaitsFor finished _ = Unit

record Inv (c : Controller) : Type 0 where
  shape : IsQuiet c ⊎ IsBusy c
  waits : WaitsFor c.worker c.done

new_controller-Inv : Inv new_controller
unfolding new_controller
new_controller-Inv = record { shape = inl (refl, refl, refl); waits = tt }

launch-Inv :
    (request : RunRequest) (mode : ScanMode) (c : Controller)
    → c.live ≡ []
    → c.worker ≡ idle
    → Inv (launch request mode c)
unfolding launch
launch-Inv request mode c l w = record {
  shape =
      let r : LiveRun = record {
        id = c.next_id;
        request = request;
        mode = mode;
        canceled = false;
      } in
      inr (r, rw l, refl, refl, refl);
  waits = rw w tt;
}

quiet-Inv : (c : Controller) → IsQuiet c → c.worker ≡ idle → Inv c
quiet-Inv c q w = record { shape = inl q; waits = rw w tt }

Inv-if : (b : Bool) (c d : Controller) → Inv c → Inv d → Inv (if b then c else d)
Inv-if true c d vc vd = vc
Inv-if false c d vc vd = vd

after_stop-Inv : (a : Action) (c : Controller) → IsQuiet c → c.worker ≡ idle → Inv (after_stop a c)
unfolding after_stop
after_stop-Inv (start request) c q w =
    Inv-if c.context_done c _ (quiet-Inv c q w)
      (launch-Inv request scan_continuous (persist_active_reader request c) q.0 w)
after_stop-Inv stop c q w = record { shape = inl q; waits = rw w tt }
after_stop-Inv (rescan request) c q w =
    Inv-if c.context_done c _ (quiet-Inv c q w)
      (launch-Inv request scan_rescan (persist_active_reader request c) q.0 w)
after_stop-Inv (restart request) c q w =
    Inv-if c.context_done c _ (quiet-Inv c q w) (launch-Inv request scan_continuous c q.0 w)

-- Cancelling a run keeps its number.
id-cancel_run :
    (id : ℕ) (r : LiveRun) → (r' : LiveRun) × (cancel_run id (r ∷ []) ≡ r' ∷ []) × (r'.id ≡ r.id)
id-cancel_run id r = ((if r.id == id then record r { canceled = true } else r), refl, ground arith)

-- A busy controller cancels its run and waits for it, a quiet one goes on.
stop_then-Inv :
    (set : Bool) (done : Option ℕ) (a : Action) (c : Controller)
    → set ≡ c.cancel_set
    → done ≡ c.done
    → IsQuiet c ⊎ IsBusy c
    → c.worker ≡ idle
    → Inv (stop_then set done a c)
unfolding stop_then
stop_then-Inv true (some id) a c e d (inl q) w = cc
stop_then-Inv true (some id) a c e d (inr (r, l, current, set, on)) w =
    let (r', l', same) = id-cancel_run id r in
    record { shape = inr (r', rw l l', current ∙ ap some (sym same), set, on); waits = sym d }
stop_then-Inv true none a c e d (inl q) w = cc
stop_then-Inv true none a c e d (inr b) w = cc
stop_then-Inv false _ a c e d (inl q) w = after_stop-Inv a c q w
stop_then-Inv false _ a c e d (inr b) w = cc

not_running : (c : Controller) → IsQuiet c ⊎ IsBusy c → c.running ≡ false → IsQuiet c
not_running c (inl q) off = q
not_running c (inr b) off = cc

begin-start :
    (request : RunRequest) (c : Controller) (on : Bool)
    → on ≡ c.running
    → Inv c
    → c.worker ≡ idle
    → Inv (
        if on
        then stop_then c.cancel_set c.done (start request) c
        else after_stop (start request) c)
begin-start request c true e v w = stop_then-Inv _ _ (start request) c refl refl v.shape w
begin-start request c false e v w =
    after_stop-Inv (start request) c (not_running c v.shape (sym e)) w

begin-Inv : (a : Action) (c : Controller) → Inv c → c.worker ≡ idle → Inv (begin a c)
begin-Inv (start request) c v w =
    unfold begin in Inv-if _ c _ v (begin-start request c c.running refl v w)
begin-Inv stop c v w = unfold begin in stop_then-Inv _ _ stop c refl refl v.shape w
begin-Inv (rescan request) c v w =
    unfold begin in stop_then-Inv _ _ (rescan request) c refl refl v.shape w
begin-Inv (restart request) c v w =
    unfold begin in stop_then-Inv _ _ (restart request) c refl refl v.shape w

-- When the run that the worker waits for has ended, no other runs.
ended :
    (id : ℕ) (c : Controller)
    → IsQuiet c ⊎ IsBusy c
    → c.done ≡ some id
    → is_live id c.live ≡ false
    → IsQuiet c
unfolding is_live
ended id c (inl q) d dead = q
ended id c (inr (r, l, current, set, on)) d dead = ground arith

resume-Inv :
    (id : ℕ) (a : Action) (c : Controller)
    → Inv c
    → c.worker ≡ stopping id a
    → is_live id c.live ≡ false
    → Inv (after_stop a (record c { worker = idle }))
resume-Inv id a c v w dead =
    after_stop-Inv a (record c { worker = idle })
      (ended id c v.shape (subst (λ x. WaitsFor x c.done) w v.waits) dead) refl

only_run : (id : ℕ) (r : LiveRun) → is_live id (r ∷ []) ≡ true → r.id ≡ id
unfolding is_live
only_run id r h = ground arith

current_run :
    (id : ℕ) (r : LiveRun) (done : Option ℕ)
    → done ≡ some r.id
    → r.id ≡ id
    → is_current done id ≡ true
current_run id r none d same = cc
current_run id r (some n) d same = ground arith

alone_removed : (id : ℕ) (r : LiveRun) → r.id ≡ id → remove_run id (r ∷ []) ≡ []
unfolding remove_run
alone_removed id r same = ground arith

end_run-Inv :
    (id : ℕ) (outcome : Option Err) (c : Controller)
    → IsQuiet c ⊎ IsBusy c
    → WaitsFor c.worker c.done
    → is_live id c.live ≡ true
    → Inv (end_run id outcome c)
unfolding end_run is_live remove_run
end_run-Inv id outcome c (inl q) w alive =
    absurd (no_run (subst (λ x. is_live id x ≡ true) q.0 alive))
  where
    no_run : false ≡ true → ⊥
    no_run h = cc
end_run-Inv id outcome c (inr (r, l, current, set, on)) w alive =
    let same = only_run id r (subst (λ x. is_live id x ≡ true) l alive) in
    rw (current_run id r c.done current same)
      (record { shape = inl (rw l (alone_removed id r same), refl, refl); waits = w })

cancel_context-Inv :
    (c : Controller) → IsQuiet c ⊎ IsBusy c → WaitsFor c.worker c.done → Inv (cancel_context c)
unfolding cancel_context
cancel_context-Inv c (inl q) w = record { shape = inl (rw q.0, q.1, q.2); waits = w }
cancel_context-Inv c (inr (r, l, current, set, on)) w = record {
  shape = inr (record r { canceled = true }, rw l, current, set, on);
  waits = w;
}

Inv-if_pair : (b : Bool) (p q : Controller × Bool) → Inv p.0 → Inv q.0 → Inv (if b then p else q).0
Inv-if_pair true p q vp vq = vp
Inv-if_pair false p q vp vq = vq

enqueue-Inv : (a : Action) (c : Controller) → Inv c → Inv (enqueue a c).0
unfolding enqueue
enqueue-Inv a c v = Inv-if_pair c.closed _ _ v (record { shape = v.shape; waits = v.waits })

refresh_resolver-Inv : (loaded : Bool) (c : Controller) → Inv c → Inv (refresh_resolver loaded c)
unfolding refresh_resolver
refresh_resolver-Inv loaded c v = Inv-if _ c _ v (Inv-if _ _ c (enqueue-Inv (restart _) c v) v)

close-Inv : (c : Controller) → Inv c → Inv (close c)
unfolding close
close-Inv c v =
    Inv-if c.closed c _ v
      (cancel_context-Inv (record c { closed = true; queue = [] }) v.shape v.waits)

Step-Inv : {c d : Controller} → Step c d → Inv c → Inv d
Step-Inv {c} (ask a) v = enqueue-Inv a c v
Step-Inv {c} (refresh loaded) v = refresh_resolver-Inv loaded c v
Step-Inv {c} (take a rest w q) v =
    begin-Inv a (record c { queue = rest }) (record { shape = v.shape; waits = v.waits }) w
Step-Inv {c} (resume id a w dead) v = resume-Inv id a c v w dead
Step-Inv {c} (give_up id a w done) v = record { shape = v.shape; waits = tt }
Step-Inv {c} (leave w q done) v = record { shape = v.shape; waits = tt }
Step-Inv {c} (end id outcome alive) v = end_run-Inv id outcome c v.shape v.waits alive
Step-Inv {c} shut v = close-Inv c v
Step-Inv {c} parent_done v = cancel_context-Inv c v.shape v.waits

Reach-Inv : {c : Controller} → Reach new_controller c → Inv c
Reach-Inv here = new_controller-Inv
Reach-Inv (next r s) = Step-Inv s (Reach-Inv r)

-- From a new controller, after any interleaving of requests, worker steps, run ends and shutdowns:
-- at most one scan runs, and the status says `running` exactly while one does.
pub one_run :
    {c : Controller}
    → Reach new_controller c
    → (length c.live ≤ 1) × ((c.running ≡ true) ↔ (length c.live ≡ 1))
one_run {c} r = one_run_of c (Reach-Inv r).shape
  where
    one_run_of :
        (c : Controller)
        → IsQuiet c ⊎ IsBusy c
        → (length c.live ≤ 1) × ((c.running ≡ true) ↔ (length c.live ≡ 1))
    one_run_of c (inl q) = ground arith
    one_run_of c (inr b) = ground arith
