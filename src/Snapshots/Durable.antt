-- ===== src/Snapshots/Durable.antt =====
-- No change of the counters is lost: the machine of the flushes keeps what it has not written.
use molenkopf.Base.{
  ℕ, ◌≡◌, refl, sym, ap, ◌∙◌, Bool, true, false, not, Option, none, some, List, [], ◌∷◌, ◌++◌,
  arith, nat_eq, if◌then◌else◌, is_some, any, all,
}
use molenkopf.Base.{if-both, all-append, any-append}
use molenkopf.Snapshots.{JsonText, UsageMaps, saved_rows}
use molenkopf.Snapshots.Laws.{IsTable, rows_of, saved_rows-again}
use molenkopf.Snapshots.Flush.{
  Job, start, resumed, caught, FlushPromise, absent, background, foreground, settled, Store,
  FlushAnswer, waiting, store_closed, Event, recorded, ticked, flushed, error_taken, closing,
  finish, save_pending, run_loop, run_flush, start_flush, with_handler, run_job, tick,
  run_foreground, flush, step, run,
}

-- The job resumes after a failed save, and will mark the maps as pending again.
abbrev pub is_failed : Job → Bool
is_failed start = false
is_failed (resumed place saved) = not saved
is_failed caught = false

-- The job is about no other place.
abbrev pub is_job_of : ℕ → Job → Bool
is_job_of place start = true
is_job_of place (resumed p saved) = nat_eq p place
is_job_of place caught = true

abbrev pub is_place : ℕ → Option ℕ → Bool
is_place place none = true
is_place place (some p) = nat_eq p place

module _ {J : Type 0} (json : JsonText J) where
  -- The event changes no other counters.
  abbrev pub is_event_of : ℕ → Event json → Bool
  is_event_of place (recorded p maps) = nat_eq p place
  is_event_of place (ticked saved) = true
  is_event_of place (flushed saved) = true
  is_event_of place error_taken = true
  is_event_of place closing = true

  -- While the store is open, the counters are pending, or a failed save is about to mark them, or the
  -- rows hold them.
  pub data IsKept (place : ℕ) (s : Store J) : Type 0 where
    shut : s.closed ≡ true → IsKept place s
    waits : is_some s.pending ≡ true → IsKept place s
    retried : any is_failed s.queue ≡ true → IsKept place s
    durable : s.rows ≡ saved_rows json (s.heap place) [] → IsKept place s

  pub record IsSafe (place : ℕ) (s : Store J) : Type 0 where
    pub table : IsTable json s.rows
    pub pending_of : is_place place s.pending ≡ true
    pub queue_of : all (is_job_of place) s.queue ≡ true
    pub kept : IsKept place s

  IsKept-of :
      (place : ℕ) (s t : Store J)
      → s.closed ≡ t.closed
      → s.pending ≡ t.pending
      → (any is_failed s.queue ≡ true → any is_failed t.queue ≡ true)
      → s.rows ≡ t.rows
      → s.heap ≡ t.heap
      → IsKept place s
      → IsKept place t
  IsKept-of place s t c p q r h (shut e) = shut (sym c ∙ e)
  IsKept-of place s t c p q r h (waits e) = waits (ap is_some (sym p) ∙ e)
  IsKept-of place s t c p q r h (retried e) = retried (q e)
  IsKept-of place s t c p q r h (durable e) =
      durable (sym r ∙ e ∙ ap (λ f. saved_rows json (f place) []) h)

  save_pending-IsSafe :
      (saved : Bool) (place : ℕ) (p : Option ℕ) (s : Store J)
      → IsSafe place (record s { pending = p })
      → IsSafe place (save_pending json saved p (record s { pending = p }))
  save_pending-IsSafe saved place none s h = record {
    table = h.table;
    pending_of = refl;
    queue_of = h.queue_of;
    kept =
        IsKept-of place (record s { pending = none }) (finish json (record s { pending = none }))
          refl refl (λ e. e) refl refl h.kept;
  }
  save_pending-IsSafe true place (some n) s h = record {
    table = rw (saved_rows-again json (s.heap n) s.rows h.table) (rows_of (s.heap n));
    pending_of = refl;
    queue_of = ground (
      arith,
      all-append (is_job_of place) s.queue (resumed n true ∷ []),
      h.queue_of,
      h.pending_of,
    );
    kept = durable (
        saved_rows-again json (s.heap n) s.rows h.table
        ∙ ap (λ k. saved_rows json (s.heap k) []) (ground (arith, h.pending_of)));
  }
  save_pending-IsSafe false place (some n) s h = record {
    table = h.table;
    pending_of = refl;
    queue_of = ground (
      arith,
      all-append (is_job_of place) s.queue (resumed n false ∷ []),
      h.queue_of,
      h.pending_of,
    );
    kept = retried (ground (arith, any-append is_failed s.queue (resumed n false ∷ [])));
  }

  flags-IsSafe :
      (place : ℕ) (s : Store J) (flushing : Bool) (promise : FlushPromise) (last_error : Bool)
      → IsSafe place s
      → IsSafe place (record s { flushing = flushing; promise = promise; last_error = last_error })
  flags-IsSafe place s f p e h = record {
    table = h.table;
    pending_of = h.pending_of;
    queue_of = h.queue_of;
    kept =
        IsKept-of place s (record s { flushing = f; promise = p; last_error = e }) refl refl
          (λ e. e) refl refl h.kept;
  }

  run_loop-IsSafe :
      (saved : Bool) (place : ℕ) (s : Store J)
      → IsSafe place s
      → IsSafe place (run_loop json saved s)
  unfolding run_loop
  run_loop-IsSafe saved place s h =
      if-both (IsSafe place) s.closed (finish json s) (save_pending json saved s.pending s)
        (λ _. flags-IsSafe place s false absent s.last_error h)
        (λ _. save_pending-IsSafe saved place s.pending s h)

  start_flush-IsSafe :
      (saved : Bool) (place : ℕ) (p : FlushPromise) (s : Store J)
      → IsSafe place s
      → IsSafe place (start_flush json saved p s)
  start_flush-IsSafe saved place absent s h =
      let after = run_flush json saved s in
      flags-IsSafe place after after.flushing (if after.flushing then background else settled)
        after.last_error
        (run_loop-IsSafe saved place (record s { flushing = true })
          (flags-IsSafe place s true s.promise s.last_error h))
  start_flush-IsSafe saved place background s h = h
  start_flush-IsSafe saved place foreground s h = h
  start_flush-IsSafe saved place settled s h = h

  with_handler-jobs :
      (place : ℕ) (p : FlushPromise) (q : List Job)
      → all (is_job_of place) q ≡ true
      → all (is_job_of place) (with_handler json p q) ≡ true
  with_handler-jobs place background q h =
      ground (arith, all-append (is_job_of place) q (caught ∷ []))
  with_handler-jobs place absent q h = h
  with_handler-jobs place foreground q h = h
  with_handler-jobs place settled q h = h

  popped-IsSafe :
      (place : ℕ) (job : Job) (q : List Job) (s : Store J)
      → is_failed job ≡ false
      → IsSafe place (record s { queue = job ∷ q })
      → IsSafe place (record s { queue = q })
  popped-IsSafe place job q s e h = record {
    table = h.table;
    pending_of = h.pending_of;
    queue_of = ground (arith, h.queue_of);
    kept =
        IsKept-of place (record s { queue = job ∷ q }) (record s { queue = q }) refl refl
          (λ a. ground (arith)) refl refl h.kept;
  }

  run_job-IsSafe :
      (saved : Bool) (place : ℕ) (q : List Job) (s : Store J)
      → IsSafe place (record s { queue = q })
      → IsSafe place (run_job json saved q (record s { queue = q }))
  run_job-IsSafe saved place [] s h = h
  run_job-IsSafe saved place (start ∷ q) s h =
      start_flush-IsSafe saved place s.promise (record s { queue = q })
        (popped-IsSafe place start q s refl h)
  run_job-IsSafe saved place (resumed n true ∷ q) s h =
      run_loop-IsSafe saved place (record s { queue = q })
        (popped-IsSafe place (resumed n true) q s refl h)
  run_job-IsSafe saved place (resumed n false ∷ q) s h = record {
    table = h.table;
    pending_of = ground (arith, h.queue_of);
    queue_of = with_handler-jobs place s.promise q (ground (arith, h.queue_of));
    kept = waits refl;
  }
  run_job-IsSafe saved place (caught ∷ q) s h =
      flags-IsSafe place (record s { queue = q }) s.flushing s.promise true
        (popped-IsSafe place caught q s refl h)

  run_foreground-IsSafe :
      (saved : Bool) (place : ℕ) (pending : Option ℕ) (p : FlushPromise) (s : Store J)
      → IsSafe place s
      → IsSafe place (run_foreground json saved pending p s)
  run_foreground-IsSafe saved place none p s h = h
  run_foreground-IsSafe saved place (some n) background s h = h
  run_foreground-IsSafe saved place (some n) foreground s h = h
  run_foreground-IsSafe saved place (some n) settled s h = h
  run_foreground-IsSafe saved place (some n) absent s h =
      let after = run_flush json saved s in
      flags-IsSafe place after after.flushing foreground after.last_error (
        run_loop-IsSafe saved place (record s { flushing = true })
          (flags-IsSafe place s true s.promise s.last_error h))

  flush-IsSafe :
      (saved : Bool) (place : ℕ) (s : Store J)
      → IsSafe place s
      → IsSafe place (flush json saved s).0
  unfolding flush
  flush-IsSafe saved place s h =
      if-both (λ (r : Store J × FlushAnswer). IsSafe place r.0) s.last_error _ _
        (λ _. flags-IsSafe place s s.flushing s.promise false h)
        (λ _.
          if-both (λ (r : Store J × FlushAnswer). IsSafe place r.0) s.closed (s, store_closed)
            (run_foreground json saved s.pending s.promise s, waiting) (λ _. h)
            (λ _. run_foreground-IsSafe saved place s.pending s.promise s h))

  scheduled-jobs :
      (place : ℕ) (flushing : Bool) (q : List Job)
      → all (is_job_of place) q ≡ true
      → all (is_job_of place) (if flushing then q else q ++ (start ∷ [])) ≡ true
  scheduled-jobs place flushing q h = ground (arith, all-append (is_job_of place) q (start ∷ []))

  scheduled-IsSafe :
      (place p : ℕ) (maps : UsageMaps J) (s : Store J)
      → nat_eq p place ≡ true
      → IsSafe place s
      → IsSafe place (step json (recorded p maps) s)
  unfolding step
  scheduled-IsSafe place p maps s e h =
      if-both (IsSafe place) s.closed _ _
        (λ c. record {
          table = h.table;
          pending_of = h.pending_of;
          queue_of = h.queue_of;
          kept = shut c;
        })
        (λ _. record {
          table = h.table;
          pending_of = e;
          queue_of = scheduled-jobs place s.flushing s.queue h.queue_of;
          kept = waits refl;
        })

  pub step-IsSafe :
      (place : ℕ) (event : Event json) (s : Store J)
      → is_event_of place event ≡ true
      → IsSafe place s
      → IsSafe place (step json event s)
  unfolding step tick
  step-IsSafe place (recorded p maps) s e h = scheduled-IsSafe place p maps s e h
  step-IsSafe place (ticked saved) s e h = run_job-IsSafe saved place s.queue s h
  step-IsSafe place (flushed saved) s e h = flush-IsSafe saved place s h
  step-IsSafe place error_taken s e h = flags-IsSafe place s s.flushing s.promise false h
  step-IsSafe place closing s e h = record {
    table = h.table;
    pending_of = h.pending_of;
    queue_of = h.queue_of;
    kept = shut refl;
  }

  -- From a store where it is so, whatever sequence of changes of the counters, microtasks with failing
  -- and succeeding saves, flushes and closing follows, the counters are never lost while the store is
  -- open: they are pending, or a failed save is about to make them pending again, or the rows hold
  -- them.
  pub run-IsSafe :
      (place : ℕ) (events : List (Event json)) (s : Store J)
      → all (is_event_of place) events ≡ true
      → IsSafe place s
      → IsSafe place (run json events s)
  unfolding run
  run-IsSafe place [] s e h = h
  run-IsSafe place (event ∷ events) s e h =
      run-IsSafe place events (step json event s) (ground (arith))
        (step-IsSafe place event s (ground (arith)) h)
