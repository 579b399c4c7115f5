-- ===== src/Events.antt =====
-- events.go and the telemetry of middleware.go: events, the recorder that counts them and hands them
-- to its subscribers, and the middleware that emits them. A recorder is a part of the world `W`.
pub mod Counts
pub mod Attempts
use oban.Prelude.{
  ℕ, suc, ◌==◌, ℤ, pos, ◌-ℤ◌, String, Bool, List, [], ◌∷◌, ◌++◌, Option, none, some, if◌then◌else◌,
}
use oban.Errors.{Err}
use oban.Job.{Job}
use oban.Store.Caps.{drop_key}
use oban.Worker.{Ctx, Handler, Middleware, Clock}

pub data EventName : Type 0 where
  job_start job_stop job_exception job_retry job_discard job_cancel job_snooze : EventName
  engine_insert plugin_prune plugin_rescue queue_pause queue_resume : EventName

abbrev pub event_code : EventName → ℕ
event_code job_start = 0
event_code job_stop = 1
event_code job_exception = 2
event_code job_retry = 3
event_code job_discard = 4
event_code job_cancel = 5
event_code job_snooze = 6
event_code engine_insert = 7
event_code plugin_prune = 8
event_code plugin_rescue = 9
event_code queue_pause = 10
event_code queue_resume = 11

pub record Event : Type 0 where
  pub name : EventName
  pub at_time : ℤ
  pub job : Option Job
  pub queue : String
  pub worker : String
  pub attempt : ℕ
  pub max_attempts : ℤ
  pub duration : ℤ
  pub error : Option Err
  pub tags : List String
  pub meta : List (String × String)

-- `eventsForJob`.
abbrev pub events_for_job : EventName → ℤ → Option Job → ℤ → Option Err → Event
events_for_job name at_time none dur e = record {
  name = name;
  at_time = at_time;
  job = none;
  queue = "";
  worker = "";
  attempt = 0;
  max_attempts = pos 0;
  duration = dur;
  error = e;
  tags = [];
  meta = [];
}
events_for_job name at_time (some j) dur e = record {
  name = name;
  at_time = at_time;
  job = some j;
  queue = j.queue;
  worker = j.worker;
  attempt = j.attempt;
  max_attempts = j.max_attempts;
  duration = dur;
  error = e;
  tags = [];
  meta = [];
}

-- `r.counts[ev.Name]++`.
abbrev pub bump_count : EventName → List (EventName × ℕ) → List (EventName × ℕ)
bump_count name [] = (name, 1) ∷ []
bump_count name ((m, n) ∷ counts) =
    if event_code m == event_code name then (m, suc n) ∷ counts else (m, n) ∷ bump_count name counts

-- A name that the map lacks has the count 0.
abbrev pub count_of : EventName → List (EventName × ℕ) → ℕ
count_of name [] = 0
count_of name ((m, n) ∷ counts) =
    if event_code m == event_code name then n else count_of name counts

-- The event that the end of an attempt emits.
abbrev pub end_name : Option Err → EventName
end_name none = job_stop
end_name (some e) = job_exception

module _ (W : Type 0) where
  abbrev pub EventHandler : Type 0
  EventHandler = Event → W → W

  -- The order of the list is the unspecified order in which the handlers are called.
  pub record Recorder : Type 0 where
    pub next_id : ℕ
    pub handlers : List (ℕ × EventHandler)
    pub counts : List (EventName × ℕ)

  abbrev pub new_recorder : Recorder
  new_recorder = record { next_id = 0; handlers = []; counts = [] }

  -- `Attach`, with the id that its detach function removes.
  unfoldable pub attach : Option EventHandler → Recorder → Option ℕ × Recorder
  attach none r = (none, r)
  attach (some h) r = (
    some r.next_id,
    record r { next_id = suc r.next_id; handlers = r.handlers ++ (r.next_id, h) ∷ [] },
  )

  -- The detach function. Since no id is given out twice, a second call removes nothing.
  unfoldable pub detach : Option ℕ → Recorder → Recorder
  detach none r = r
  detach (some id) r = record r { handlers = drop_key id r.handlers }

  -- Where the world keeps the recorder.
  pub record Place : Type 0 where
    pub read : W → Recorder
    pub write : Recorder → W → W

  -- The hooks of `Telemetry`; a hook that is nil is `none`.
  pub record Telemetry : Type 0 where
    pub on_start : Option (Ctx → Job → W → W)
    pub on_complete : Option (Ctx → Job → ℤ → W → W)
    pub on_error : Option (Ctx → Job → Err → ℤ → W → W)

module _ {W : Type 0} where
  abbrev pub deliver : Event → List (ℕ × EventHandler W) → W → W
  deliver ev [] w = w
  deliver ev ((id, h) ∷ hs) w = deliver ev hs (h ev w)

  -- `Emit`: the counter and the snapshot of the handlers under the mutex, then the handlers.
  unfoldable pub emit : Place W → Event → W → W
  emit place ev w =
      let r = place.read w in
      deliver ev r.handlers (place.write (record r { counts = bump_count ev.name r.counts }) w)

  -- `Counts`.
  abbrev pub counts : Place W → W → List (EventName × ℕ)
  counts place w = (place.read w).counts

  -- The `Middleware` of a recorder.
  unfoldable pub recorder_middleware : Place W → Clock W → Middleware W
  unfolding emit
  recorder_middleware place clock next ctx job w =
      let start = clock w in
      let began = emit place (events_for_job job_start start.0 (some job) (pos 0) none) start.1 in
      let out = next ctx job began in
      let stop = clock out.1 in
      (
        out.0,
        emit place (events_for_job (end_name out.0) stop.0 (some job) (stop.0 -ℤ start.0) out.0)
            stop.1,
      )

  abbrev run_start : Option (Ctx → Job → W → W) → Ctx → Job → W → W
  run_start none ctx job w = w
  run_start (some hook) ctx job w = hook ctx job w

  abbrev run_complete : Option (Ctx → Job → ℤ → W → W) → Ctx → Job → ℤ → W → W
  run_complete none ctx job dur w = w
  run_complete (some hook) ctx job dur w = hook ctx job dur w

  abbrev run_error : Option (Ctx → Job → Err → ℤ → W → W) → Ctx → Job → Err → ℤ → W → W
  run_error none ctx job e dur w = w
  run_error (some hook) ctx job e dur w = hook ctx job e dur w

  abbrev pub run_end : Telemetry W → Ctx → Job → Option Err → ℤ → W → W
  run_end t ctx job none dur w = run_complete t.on_complete ctx job dur w
  run_end t ctx job (some e) dur w = run_error t.on_error ctx job e dur w

  -- The `Middleware` of telemetry hooks (middleware.go).
  unfoldable pub telemetry_middleware : Telemetry W → Clock W → Middleware W
  telemetry_middleware t clock next ctx job w =
      let start = clock (run_start t.on_start ctx job w) in
      let out = next ctx job start.1 in
      let stop = clock out.1 in (out.0, run_end t ctx job out.0 (stop.0 -ℤ start.0) stop.1)

  -- A hook of `AsTelemetry`: it reads the clock and emits.
  abbrev pub emit_now : Place W → Clock W → EventName → Job → ℤ → Option Err → W → W
  emit_now place clock name job dur e w =
      let now = clock w in emit place (events_for_job name now.0 (some job) dur e) now.1

  unfoldable pub as_telemetry : Place W → Clock W → Telemetry W
  as_telemetry place clock = record {
    on_start = some (λ ctx job w. emit_now place clock job_start job (pos 0) none w);
    on_complete = some (λ ctx job dur w. emit_now place clock job_stop job dur none w);
    on_error = some (λ ctx job e dur w. emit_now place clock job_exception job dur (some e) w);
  }
