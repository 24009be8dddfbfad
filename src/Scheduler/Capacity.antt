-- ===== src/Scheduler/Capacity.antt =====
-- How many scans `Reconcile` (backend/internal/daemon/scheduler/scheduler.go) starts, and which.
use expensor.Prelude.{
  ℕ, zero, suc, ◌+◌, ◌-◌, ◌≤◌, ◌<◌, max, String, ◌≡◌, ap, sym, ◌⊎◌, true, false, Option, none, some,
  List, [], ◌∷◌, arith, All, length, length-append, length-erase, contains, contains-erase,
  contains-append, erase, str_eq, eq_refl, ltb, if◌then◌else◌, Bool-cases, inl, inr,
}
use expensor.Prelude.Text.{is_blank}
use mathlib.Core.Path.{subst}
use expensor.Errors.{Err}
use expensor.Result.{Result, ok, fail, Result-cases}
use expensor.Scanning.Config.{SchedulerConfig, get_scheduler_config}
use expensor.Scanning.{Table}
use expensor.Scheduler.Run.{World}
use expensor.Scheduler.Reconcile.{
  Look, Pass, Outside, leave, mark_running, start_tenant, start_listed, reconcile,
  available_capacity, started_first, looks_of, skips, start_rows, start_configured, start_ensured,
  ensured,
}

length-leave : (ks running : List String) → length (leave ks running) ≤ length running
unfolding leave
length-leave [] running = omega arith
length-leave (k ∷ ks) running =
    omega (arith, length-leave ks (erase k running), length-erase k running)

length-mark_running :
    (k : String) (running : List String) → length (mark_running k running) ≤ length running + 1
unfolding mark_running
length-mark_running k running = ground (arith, length-append running (k ∷ []))

-- What a start adds to the running tenants.
start_tenant-running :
    (look : Look) (w w' : World)
    → start_tenant look w ≡ ok w'
    → w'.running_tenants ≡ mark_running look.st.tenant_id w.running_tenants
unfolding start_tenant
start_tenant-running look w w' h = ground arith

abbrev after_leaving : Look → World → World
after_leaving look w = record w { running_tenants = leave look.finished w.running_tenants }

module _ (capacity : ℕ) (look : Look) (looks : List Look) (w : World) where
  start_listed-skip :
      skips look (after_leaving look w) ≡ true
      → start_listed (suc capacity) (look ∷ looks) w
        ≡ start_listed (suc capacity) looks (after_leaving look w)
  unfolding start_listed
  start_listed-skip e = rw (e, start_listed)

  start_listed-start :
      (w'' : World)
      → skips look (after_leaving look w) ≡ false
      → start_tenant look (after_leaving look w) ≡ ok w''
      → start_listed (suc capacity) (look ∷ looks) w
        ≡ started_first look.st.tenant_id (start_listed capacity looks w'')
  unfolding start_listed
  start_listed-start w'' e r = rw (e, r, start_listed)

  start_listed-fail :
      (err : Err)
      → skips look (after_leaving look w) ≡ false
      → start_tenant look (after_leaving look w) ≡ fail err
      → start_listed (suc capacity) (look ∷ looks) w
        ≡ record { world = after_leaving look w; started = []; failure = some err }
  unfolding start_listed
  start_listed-fail err e r = rw (e, r, start_listed)

start_listed-length :
    (capacity limit : ℕ) (looks : List Look) (w : World)
    → length w.running_tenants + capacity ≤ limit
    → (length (start_listed capacity looks w).world.running_tenants ≤ limit)
      × (length (start_listed capacity looks w).started ≤ capacity)
unfolding start_listed
start_listed-length capacity limit [] w h = omega arith
start_listed-length zero limit (look ∷ looks) w h =
    omega (arith, length-leave look.finished w.running_tenants)
start_listed-length (suc capacity) limit (look ∷ looks) w h =
    let w' = after_leaving look w in
    let fewer = length-leave look.finished w.running_tenants in
    elim (Bool-cases (skips look w')) [
      | inl e ↦
          rw (start_listed-skip capacity look looks w e)
            (start_listed-length (suc capacity) limit looks w' (omega (arith, fewer)))
      | inr e ↦ elim (Result-cases (start_tenant look w')) [
        | inl (w'', r) ↦ rw (start_listed-start capacity look looks w w'' e r) (
            let added = length-mark_running look.st.tenant_id w'.running_tenants in
            let now_running = ap length (start_tenant-running look w' w'' r) in
            let rest =
              start_listed-length capacity limit looks w''
                (omega (arith, fewer, added, now_running)) in
            (rest.0, omega (arith, rest.1)))
        | inr (err, r) ↦
            rw (start_listed-fail capacity look looks w err e r) (omega (arith, fewer), omega arith)
      ]
    ]

contains-leave :
    (k : String) (ks running : List String)
    → contains k (leave ks running) ≡ true
    → contains k running ≡ true
unfolding leave
contains-leave k [] running h = h
contains-leave k (j ∷ ks) running h =
    ground (arith, contains-leave k ks (erase j running), contains-erase j k running)

contains-mark_running :
    (k j : String) (running : List String)
    → contains j (mark_running k running) ≡ true
    → (contains j running ≡ true) ⊎ (str_eq k j ≡ true)
unfolding mark_running contains
contains-mark_running k j running h = ground (arith, contains-append j running (k ∷ []))

-- A listed tenant was looked after: it has no reader, ran when the pass began, or was started.
abbrev pub IsServed : List String → List String → Look → Type 0
IsServed running started look =
    (is_blank look.st.active_reader ≡ true)
    ⊎ (contains look.st.tenant_id running ≡ true)
    ⊎ (contains look.st.tenant_id started ≡ true)

IsServed-later :
    (running running' started started' : List String) (looks : List Look)
    → ((k : String)
        → contains k running' ≡ true
        → (contains k running ≡ true) ⊎ (contains k started ≡ true))
    → ((k : String) → contains k started' ≡ true → contains k started ≡ true)
    → All (IsServed running' started') looks
    → All (IsServed running started) looks
IsServed-later running running' started started' [] f g h = h
IsServed-later running running' started started' (look ∷ looks) f g h = (
  ground (arith, f look.st.tenant_id, g look.st.tenant_id, h.0),
  IsServed-later running running' started started' looks f g h.1,
)

-- A pass that no fault ended and that had capacity left.
abbrev Serves : List String → List Look → ℕ → Pass → Type 0
Serves running looks capacity p =
    p.failure ≡ none → length p.started < capacity → All (IsServed running p.started) looks

contains_head : (k : String) (ks : List String) → contains k (k ∷ ks) ≡ true
unfolding contains
contains_head k ks = rw eq_refl

contains_cons_eq :
    (k j : String) (ks : List String) → str_eq k j ≡ true → contains j (k ∷ ks) ≡ true
unfolding contains
contains_cons_eq k j ks h = rw h

contains_cons :
    (k j : String) (ks : List String) → contains j ks ≡ true → contains j (k ∷ ks) ≡ true
unfolding contains
contains_cons k j ks h = ground arith

-- From the running tenants behind a start to those before it.
before_start :
    (look : Look) (w w'' : World) (started : List String)
    → start_tenant look (after_leaving look w) ≡ ok w''
    → (k : String) → contains k w''.running_tenants ≡ true
    → (contains k w.running_tenants ≡ true) ⊎ (contains k (look.st.tenant_id ∷ started) ≡ true)
before_start look w w'' started r k h =
    let marked = rw (start_tenant-running look (after_leaving look w) w'' r) at h in
    elim (contains-mark_running look.st.tenant_id k (after_leaving look w).running_tenants marked) [
      | inl old ↦ inl (contains-leave k look.finished w.running_tenants old)
      | inr new ↦ inr (contains_cons_eq look.st.tenant_id k started new)
    ]

start_listed-Serves :
    (capacity : ℕ) (looks : List Look) (w : World)
    → Serves w.running_tenants looks capacity (start_listed capacity looks w)
start_listed-Serves capacity [] w = λ done room. tt
start_listed-Serves zero (look ∷ looks) w = λ done room. absurd (omega arith)
start_listed-Serves (suc capacity) (look ∷ looks) w =
    let w' = after_leaving look w in
    let goal = Serves w.running_tenants (look ∷ looks) (suc capacity) in
    elim (Bool-cases (skips look w')) [
      | inl e ↦ subst goal (sym (start_listed-skip capacity look looks w e)) (λ done room. (
        ground (arith, contains-leave look.st.tenant_id look.finished w.running_tenants, e),
        IsServed-later _ _ _ _ looks
            (λ k h. inl (contains-leave k look.finished w.running_tenants h)) (λ k h. h)
            (start_listed-Serves (suc capacity) looks w' done room),
      ))
      | inr e ↦ elim (Result-cases (start_tenant look w')) [
        | inl (w'', r) ↦
            let q = start_listed capacity looks w'' in
            subst goal (sym (start_listed-start capacity look looks w w'' e r)) (λ done room. (
              inr (inr (contains_head look.st.tenant_id q.started)),
              IsServed-later _ _ _ _ looks (before_start look w w'' q.started r)
                  (λ k h. contains_cons look.st.tenant_id k q.started h)
                  (start_listed-Serves capacity looks w'' done (omega arith)),
            ))
        | inr (err, r) ↦
            subst goal (sym (start_listed-fail capacity look looks w err e r)) (λ done room. cc)
      ]
    ]

abbrev IsLimited : SchedulerConfig → List String → Pass → Type 0
IsLimited cfg running p =
    (length p.world.running_tenants ≤ max (length running) (max 1 cfg.max_concurrent_scans))
    × (length p.started ≤ max 1 cfg.max_concurrent_scans - length running)

limit-rows :
    (o : Outside) (cfg : SchedulerConfig) (w : World) (r : Result Table)
    → IsLimited cfg w.running_tenants (start_rows o cfg w r)
unfolding available_capacity
limit-rows o cfg w (fail err) = omega arith
limit-rows o cfg w (ok listed) =
    let limit = if ltb cfg.max_concurrent_scans 1 then 1 else cfg.max_concurrent_scans in
    let bound =
      start_listed-length (limit - length w.running_tenants) (max (length w.running_tenants) limit)
        (looks_of o.look_at listed) w (omega arith) in
    ground (arith, bound)

limit-configured :
    (o : Outside) (cfg : SchedulerConfig) (w : World) (fault : Option Err)
    → IsLimited cfg w.running_tenants (start_configured o w (get_scheduler_config fault cfg))
unfolding get_scheduler_config
limit-configured o cfg w none = limit-rows o cfg w _
limit-configured o cfg w (some err) = omega arith

limit-ensured :
    (o : Outside) (cfg : SchedulerConfig) (w : World) (r : Result Table)
    → IsLimited cfg w.running_tenants (start_ensured o cfg w r)
limit-ensured o cfg w (fail err) = omega arith
limit-ensured o cfg w (ok rows) = limit-configured o cfg (record w { rows = rows }) o.config_fault

-- A pass never has more scans running than before it or than the configured limit (at least one),
-- and starts no more than the limit leaves free.
pub reconcile_limit :
    (o : Outside) (cfg : SchedulerConfig) (w : World)
    → (length (reconcile o cfg w).world.running_tenants
        ≤ max (length w.running_tenants) (max 1 cfg.max_concurrent_scans))
      × (length (reconcile o cfg w).started
          ≤ max 1 cfg.max_concurrent_scans - length w.running_tenants)
unfolding reconcile
reconcile_limit o cfg w = limit-ensured o cfg w (ensured o w o.users)

-- A pass that starts fewer scans than it had capacity for, and that no fault ended, has served every
-- listed tenant: it has no reader, ran already when the pass began, or was started.
pub start_listed-serves :
    (limit : ℕ) (looks : List Look) (w : World)
    → (start_listed (available_capacity limit w.running_tenants) looks w).failure ≡ none
    → length (start_listed (available_capacity limit w.running_tenants) looks w).started
      < available_capacity limit w.running_tenants
    → All
        (IsServed w.running_tenants
          (start_listed (available_capacity limit w.running_tenants) looks w).started)
        looks
start_listed-serves limit looks w =
    start_listed-Serves (available_capacity limit w.running_tenants) looks w
