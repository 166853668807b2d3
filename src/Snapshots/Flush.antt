-- ===== src/Snapshots/Flush.antt =====
-- When a snapshot is written: `schedule`, `flush`, `close` and `runFlush`, with the queue of the
-- microtasks. Maps are passed by reference: a place of the heap.
use molenkopf.Base.{
  ℕ, String, Bool, true, false, Option, none, some, List, [], ◌∷◌, ◌++◌, nat_eq, if◌then◌else◌,
  Dict,
}
use molenkopf.Snapshots.{JsonText, UsageMaps, saved_rows}

-- A microtask: the start of a background flush, the end of `await this.save(next)` with whether the
-- save succeeded, and the handler that keeps the error of a background flush.
pub data Job : Type 0 where
  start : Job
  resumed : ℕ → Bool → Job
  caught : Job

-- `flushPromise`: none, one that a background or a foreground flush will settle, or one that has been
-- settled and is still there.
pub data FlushPromise : Type 0 where
  absent : FlushPromise
  background : FlushPromise
  foreground : FlushPromise
  settled : FlushPromise

pub record Store (J : Type 0) : Type 0 where
  pub heap : ℕ → UsageMaps J
  pub rows : Dict String
  pub flushing : Bool
  pub pending : Option ℕ
  pub promise : FlushPromise
  pub last_error : Bool
  pub closed : Bool
  pub queue : List Job

pub data FlushAnswer : Type 0 where
  error_thrown : FlushAnswer
  store_closed : FlushAnswer
  waiting : FlushAnswer

abbrev pub is_absent : FlushPromise → Bool
is_absent absent = true
is_absent background = false
is_absent foreground = false
is_absent settled = false

module _ {J : Type 0} (json : JsonText J) where
  abbrev pub schedule : ℕ → Store J → Store J
  schedule maps s = if s.closed then s else record s {
    pending = some maps;
    queue = if s.flushing then s.queue else s.queue ++ (start ∷ []);
  }

  -- The `finally` of `runFlush`.
  abbrev pub finish : Store J → Store J
  finish s = record s { flushing = false; promise = absent }

  -- `save`: the transaction is carried out, or rolled back.
  abbrev pub save : Bool → ℕ → Store J → Dict String
  save true maps s = saved_rows json (s.heap maps) s.rows
  save false maps s = s.rows

  abbrev pub save_pending : Bool → Option ℕ → Store J → Store J
  save_pending saved none s = finish s
  save_pending saved (some next) s = record s {
    pending = none;
    rows = save saved next s;
    queue = s.queue ++ (resumed next saved ∷ []);
  }

  -- The loop of `runFlush` up to its next `await`.
  unfoldable pub run_loop : Bool → Store J → Store J
  unfolding saved_rows
  run_loop saved s = if s.closed then finish s else save_pending saved s.pending s

  abbrev pub run_flush : Bool → Store J → Store J
  run_flush saved s = run_loop saved (record s { flushing = true })

  -- `flushPromise ??= runFlush().catch(…)`: a flush that ends at once leaves a settled promise.
  abbrev pub start_flush : Bool → FlushPromise → Store J → Store J
  start_flush saved absent s =
      let after = run_flush saved s in
      record after { promise = if after.flushing then background else settled }
  start_flush saved background s = s
  start_flush saved foreground s = s
  start_flush saved settled s = s

  abbrev pub with_handler : FlushPromise → List Job → List Job
  with_handler background queue = queue ++ (caught ∷ [])
  with_handler absent queue = queue
  with_handler foreground queue = queue
  with_handler settled queue = queue

  -- The error of a foreground flush is thrown to its caller.
  abbrev pub fail_flush : ℕ → Store J → Store J
  fail_flush next s =
      finish (record s { pending = some next; queue = with_handler s.promise s.queue })

  abbrev pub run_job : Bool → List Job → Store J → Store J
  run_job saved [] s = s
  run_job saved (start ∷ q) s = start_flush saved s.promise (record s { queue = q })
  run_job saved (resumed next true ∷ q) s = run_loop saved (record s { queue = q })
  run_job saved (resumed next false ∷ q) s = fail_flush next (record s { queue = q })
  run_job saved (caught ∷ q) s = record s { queue = q; last_error = true }

  -- The first microtask runs; `saved` is what SQLite answers if it saves.
  unfoldable pub tick : Bool → Store J → Store J
  unfolding run_loop
  tick saved s = run_job saved s.queue s

  abbrev pub run_foreground : Bool → Option ℕ → FlushPromise → Store J → Store J
  run_foreground saved none p s = s
  run_foreground saved (some next) background s = s
  run_foreground saved (some next) foreground s = s
  run_foreground saved (some next) settled s = s
  run_foreground saved (some next) absent s = record (run_flush saved s) { promise = foreground }

  -- `flush` up to its `await`.
  unfoldable pub flush : Bool → Store J → Store J × FlushAnswer
  unfolding run_loop
  flush saved s =
      if s.last_error
      then (record s { last_error = false }, error_thrown)
      else if s.closed
      then (s, store_closed)
      else (run_foreground saved s.pending s.promise s, waiting)

  -- The end of `close`.
  abbrev pub close : Store J → Store J
  close s = record s { closed = true }

  -- The counters at a place change and are scheduled, a microtask runs, somebody calls `flush`, takes
  -- the error that its end throws, or closes the store.
  pub data Event : Type 0 where
    recorded : ℕ → UsageMaps J → Event
    ticked : Bool → Event
    flushed : Bool → Event
    error_taken : Event
    closing : Event

  -- The counters are one object, which `recorded` changes and schedules in one go.
  unfoldable pub step : Event → Store J → Store J
  unfolding tick flush
  step (recorded place maps) s =
      schedule place (record s { heap = λ k. if nat_eq k place then maps else s.heap k })
  step (ticked saved) s = tick saved s
  step (flushed saved) s = (flush saved s).0
  step error_taken s = record s { last_error = false }
  step closing s = close s

  unfoldable pub run : List Event → Store J → Store J
  unfolding step
  run [] s = s
  run (event ∷ events) s = run events (step event s)
