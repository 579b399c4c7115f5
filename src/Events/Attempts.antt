-- ===== src/Events/Attempts.antt =====
-- What a recorder counts of an attempt (events.go, middleware.go), installed either way.
use oban.Prelude.{
  ℕ, ◌≡◌, refl, ap, ◌∙◌, List, [], ◌∷◌, Option, none, some, All, subst, sym, ℤ, pos, suc, ◌+◌, ◌==◌,
  ap₂, Bool, if◌then◌else◌, arith,
}
use oban.Errors.{Err}
use oban.Job.{Job}
use oban.Worker.{Ctx, Handler, Clock}
use oban.Events.Counts.{count_of-bump_count}
use oban.Events.{
  event_code, count_of, counts, EventName, job_start, job_stop, job_exception, emit_now, run_end,
  Event, EventHandler, Recorder, Place, bump_count, deliver, emit, end_name, events_for_job,
  recorder_middleware, telemetry_middleware, as_telemetry,
}

-- The event that ends an attempt.
abbrev pub ended : Option Err → EventName
ended none = job_stop
ended (some e) = job_exception

end_name_lem : (e : Option Err) → end_name e ≡ ended e
end_name_lem none = refl
end_name_lem (some e) = refl

-- 1 for an event of that name, and 0 for another.
abbrev pub tally : EventName → EventName → ℕ
tally happened name = if event_code happened == event_code name then 1 else 0

count_bumped :
    (happened name : EventName) (m : List (EventName × ℕ))
    → count_of name (bump_count happened m) ≡ tally happened name + count_of name m
count_bumped happened name m =
    count_of-bump_count happened name m
    ∙ either (event_code happened == event_code name) (count_of name m)
  where
    either : (b : Bool) (n : ℕ) → (if b then suc n else n) ≡ (if b then 1 else 0) + n
    either b n = ground arith

module _ {W : Type 0} (place : Place W) where
  -- A handler that leaves the recorder alone.
  abbrev pub IsQuiet : ℕ × EventHandler W → Type 0
  IsQuiet (id, h) = (ev : Event) (w : W) → place.read (h ev w) ≡ place.read w

  abbrev pub counted : EventName → Recorder W → Recorder W
  counted name r = record r { counts = bump_count name r.counts }

  -- The clock, the handler and the subscribers leave the recorder alone, and a written counter is kept.
  pub record IsCalm (clock : Clock W) (next : Handler W) (w : W) : Type 0 where
    pub count_written :
        (name : EventName) (v : W)
        → place.read (place.write (counted name (place.read v)) v) ≡ counted name (place.read v)
    pub clock_quiet : (v : W) → place.read (clock v).1 ≡ place.read v
    pub next_quiet : (ctx : Ctx) (job : Job) (v : W) → place.read (next ctx job v).1 ≡ place.read v
    pub handlers_quiet : All IsQuiet (place.read w).handlers

  read-deliver :
      (ev : Event) (hs : List (ℕ × EventHandler W)) (w : W)
      → All IsQuiet hs
      → place.read (deliver ev hs w) ≡ place.read w
  read-deliver ev [] w q = refl
  read-deliver ev ((id, h) ∷ hs) w q = read-deliver ev hs (h ev w) q.1 ∙ q.0 ev w

  module _ (clock : Clock W) (next : Handler W) (w : W) (calm : IsCalm clock next w) where
    read-emit :
        (ev : Event) (v : W) (r : Recorder W)
        → place.read v ≡ r
        → All IsQuiet r.handlers
        → place.read (emit place ev v) ≡ counted ev.name r
    unfolding emit
    read-emit ev v r e q =
        read-deliver ev (place.read v).handlers (place.write (counted ev.name (place.read v)) v)
          (subst (λ (s : Recorder W). All IsQuiet s.handlers) (sym e) q)
        ∙ calm.count_written ev.name v
        ∙ ap (counted ev.name) e

    emit_now-counts :
        (name : EventName) (job : Job) (dur : ℤ) (e : Option Err) (v : W) (r : Recorder W)
        → place.read v ≡ r
        → All IsQuiet r.handlers
        → place.read (emit_now place clock name job dur e v) ≡ counted name r
    emit_now-counts name job dur e v r k q =
        read-emit (events_for_job name (clock v).0 (some job) dur e) (clock v).1 r
          (calm.clock_quiet v ∙ k) q

    run_end-counts :
        (ctx : Ctx) (job : Job) (e : Option Err) (dur : ℤ) (v : W) (r : Recorder W)
        → place.read v ≡ r
        → All IsQuiet r.handlers
        → place.read (run_end (as_telemetry place clock) ctx job e dur v) ≡ counted (end_name e) r
    unfolding as_telemetry
    run_end-counts ctx job none dur v r k q = emit_now-counts job_stop job dur none v r k q
    run_end-counts ctx job (some e) dur v r k q =
        emit_now-counts job_exception job dur (some e) v r k q

    -- The counters and subscribers after an attempt that returned `out`, and what it returned.
    pub record Observed (ctx : Ctx) (job : Job) (out : Option Err × W) : Type 0 where
      pub handed : W
      pub began :
          (name : EventName)
          → count_of name (counts place handed)
            ≡ tally job_start name + count_of name (counts place w)
      pub returned : out.0 ≡ (next ctx job handed).0
      pub tallied :
          (name : EventName)
          → count_of name (counts place out.1)
            ≡ tally (ended out.0) name + (tally job_start name + count_of name (counts place w))
      pub subscribed : (place.read out.1).handlers ≡ (place.read w).handlers

    observe :
        (ctx : Ctx) (job : Job) (v : W) (out : Option Err × W)
        → place.read v ≡ counted job_start (place.read w)
        → out.0 ≡ (next ctx job v).0
        → place.read out.1 ≡ counted (end_name out.0) (counted job_start (place.read w))
        → Observed ctx job out
    observe ctx job v out b e k = record {
      handed = v;
      began = λ name.
          ap (λ (r : Recorder W). count_of name r.counts) b
          ∙ count_bumped job_start name (place.read w).counts;
      returned = e;
      tallied = λ name.
          ap (λ (r : Recorder W). count_of name r.counts) k
          ∙ (count_bumped (end_name out.0) name (bump_count job_start (place.read w).counts)
              ∙ ap₂ (λ (m n : ℕ). m + n) (ap (λ a. tally a name) (end_name_lem out.0))
                  (count_bumped job_start name (place.read w).counts));
      subscribed = ap (λ (r : Recorder W). r.handlers) k;
    }

    -- Whether a recorder is installed as middleware or as telemetry: when the wrapped handler is called
    -- one start has been counted; the attempt returns what the handler returned there; after it one
    -- start and one stop have been counted if that is no error, and one start and one exception if it
    -- is one, and no other event; and the subscribers are the same.
    pub attempt_lem :
        (ctx : Ctx) (job : Job)
        → Observed ctx job (recorder_middleware place clock next ctx job w)
          × Observed ctx job (telemetry_middleware (as_telemetry place clock) clock next ctx job w)
    unfolding recorder_middleware telemetry_middleware as_telemetry
    attempt_lem ctx job =
        let direct = read-emit _ _ (place.read w) (calm.clock_quiet w) calm.handlers_quiet in
        let hooked =
          calm.clock_quiet _
          ∙ emit_now-counts job_start job (pos 0) none w (place.read w) refl calm.handlers_quiet in
        (
          observe ctx job _ _ direct refl (
              read-emit _ _ (counted job_start (place.read w))
                (calm.clock_quiet _ ∙ calm.next_quiet ctx job _ ∙ direct) calm.handlers_quiet),
          observe ctx job _ _ hooked refl (
              run_end-counts ctx job _ _ _ (counted job_start (place.read w))
                (calm.clock_quiet _ ∙ calm.next_quiet ctx job _ ∙ hooked) calm.handlers_quiet),
        )
