-- ===== src/Snapshots/Settles.antt =====
-- The flushes come to an end: the queue and the promise fit each other, and without failing saves the
-- microtasks write the counters.
use molenkopf.Base.{
  ℕ, ◌≡◌, refl, ◌∙◌, inl, inr, Bool, true, false, ◌&&◌, ◌||◌, not, Option, none, some, List, [],
  ◌∷◌, ◌++◌, arith, if◌then◌else◌, Bool-cases, is_some, any,
}
use molenkopf.Base.{if-both, any-append}
use molenkopf.Snapshots.{JsonText, UsageMaps}
use molenkopf.Snapshots.Flush.{
  Job, start, resumed, caught, FlushPromise, absent, background, foreground, settled, Store,
  FlushAnswer, waiting, store_closed, Event, recorded, ticked, flushed, error_taken, closing,
  is_absent, save_pending, run_loop, start_flush, fail_flush, run_job, tick, run_foreground, flush,
  step, run,
}

abbrev pub is_start : Job → Bool
is_start start = true
is_start (resumed place saved) = false
is_start caught = false

abbrev pub is_resumed : Job → Bool
is_resumed start = false
is_resumed (resumed place saved) = true
is_resumed caught = false

-- One job resumes a flush, and it is the last.
abbrev pub is_busy_queue : List Job → Bool
is_busy_queue [] = false
is_busy_queue (start ∷ q) = is_busy_queue q
is_busy_queue (caught ∷ q) = is_busy_queue q
is_busy_queue (resumed place saved ∷ []) = true
is_busy_queue (resumed place saved ∷ job ∷ q) = false

abbrev pub is_running : FlushPromise → Bool
is_running absent = false
is_running background = true
is_running foreground = true
is_running settled = false

-- No job resumes a flush, and a job that starts one finds something pending.
abbrev is_idle_queue : List Job → Option ℕ → Bool
is_idle_queue q pending = not (any is_resumed q) && (is_some pending || not (any is_start q))

pub busy-append :
    (q : List Job) (place : ℕ) (saved : Bool)
    → any is_resumed q ≡ false
    → is_busy_queue (q ++ (resumed place saved ∷ [])) ≡ true
busy-append [] place saved h = refl
busy-append (start ∷ q) place saved h = busy-append q place saved h
busy-append (resumed p b ∷ q) place saved h = absurd (ground (arith))
busy-append (caught ∷ q) place saved h = busy-append q place saved h

module _ {J : Type 0} (json : JsonText J) where
  -- While the store is open, a flush is running just if its promise is there and one job, the last,
  -- resumes it; else a job that starts one finds something pending.
  abbrev pub is_well_formed : Store J → Bool
  is_well_formed s =
      s.closed
      || (if s.flushing
          then is_running s.promise && is_busy_queue s.queue
          else is_absent s.promise && is_idle_queue s.queue s.pending)

  run_loop-closed : (saved : Bool) (s : Store J) → (run_loop json saved s).closed ≡ s.closed
  unfolding run_loop
  run_loop-closed saved s =
      if-both (λ (t : Store J). t.closed ≡ s.closed) s.closed _ _ (λ _. refl)
        (λ _. save_pending-closed saved s.pending)
    where
      save_pending-closed :
          (saved : Bool) (p : Option ℕ) → (save_pending json saved p s).closed ≡ s.closed
      save_pending-closed saved none = refl
      save_pending-closed saved (some n) = refl

  start_flush-closed :
      (saved : Bool) (p : FlushPromise) (s : Store J)
      → (start_flush json saved p s).closed ≡ s.closed
  start_flush-closed saved absent s = run_loop-closed saved (record s { flushing = true })
  start_flush-closed saved background s = refl
  start_flush-closed saved foreground s = refl
  start_flush-closed saved settled s = refl

  run_job-closed :
      (saved : Bool) (q : List Job) (s : Store J) → (run_job json saved q s).closed ≡ s.closed
  run_job-closed saved [] s = refl
  run_job-closed saved (start ∷ q) s = start_flush-closed saved s.promise (record s { queue = q })
  run_job-closed saved (resumed n true ∷ q) s = run_loop-closed saved (record s { queue = q })
  run_job-closed saved (resumed n false ∷ q) s = refl
  run_job-closed saved (caught ∷ q) s = refl

  started :
      (saved : Bool) (n : ℕ) (q : List Job) (s : Store J)
      → s.closed ≡ false
      → any is_resumed q ≡ false
      → is_well_formed (start_flush json saved absent (record s { queue = q; pending = some n }))
        ≡ true
  unfolding run_loop
  started saved n q s c h = rw (c) (ground (arith, busy-append q n saved))

  start_flush-well_formed :
      (saved : Bool) (p : FlushPromise) (pending : Option ℕ) (q : List Job) (s : Store J)
      → s.closed ≡ false
      → is_well_formed (record s { queue = start ∷ q; pending = pending; promise = p }) ≡ true
      → is_well_formed
          (start_flush json saved p (record s { queue = q; pending = pending; promise = p }))
        ≡ true
  start_flush-well_formed saved absent none q s c h = absurd (ground (arith))
  start_flush-well_formed saved absent (some n) q s c h =
      started saved n q (record s { promise = absent }) c (ground (arith))
  start_flush-well_formed saved background pending q s c h = ground (arith)
  start_flush-well_formed saved foreground pending q s c h = ground (arith)
  start_flush-well_formed saved settled pending q s c h = absurd (ground (arith))

  resumed-well_formed :
      (saved : Bool) (n : ℕ) (pending : Option ℕ) (q : List Job) (s : Store J)
      → s.closed ≡ false
      → is_well_formed (record s { queue = resumed n true ∷ q; pending = pending }) ≡ true
      → is_well_formed (run_loop json saved (record s { queue = q; pending = pending })) ≡ true
  unfolding run_loop
  resumed-well_formed saved n none [] s c h = rw (c) refl
  resumed-well_formed saved n (some p) [] s c h = rw (c) (ground (arith))
  resumed-well_formed saved n pending (job ∷ q) s c h = absurd (ground (arith))

  failed-well_formed :
      (p : FlushPromise) (n : ℕ) (q : List Job) (s : Store J)
      → s.closed ≡ false
      → is_well_formed (record s { queue = resumed n false ∷ q }) ≡ true
      → is_well_formed (fail_flush json n (record s { queue = q; promise = p })) ≡ true
  failed-well_formed absent n [] s c h = rw (c) refl
  failed-well_formed background n [] s c h = rw (c) refl
  failed-well_formed foreground n [] s c h = rw (c) refl
  failed-well_formed settled n [] s c h = rw (c) refl
  failed-well_formed p n (job ∷ q) s c h = absurd (ground (arith))

  run_job-open :
      (saved : Bool) (q : List Job) (s : Store J)
      → s.closed ≡ false
      → is_well_formed (record s { queue = q }) ≡ true
      → is_well_formed (run_job json saved q (record s { queue = q })) ≡ true
  run_job-open saved [] s c h = h
  run_job-open saved (start ∷ q) s c h = start_flush-well_formed saved s.promise s.pending q s c h
  run_job-open saved (resumed n true ∷ q) s c h = resumed-well_formed saved n s.pending q s c h
  run_job-open saved (resumed n false ∷ q) s c h = failed-well_formed s.promise n q s c h
  run_job-open saved (caught ∷ q) s c h = ground (arith)

  shut-well_formed : (s : Store J) → s.closed ≡ true → is_well_formed s ≡ true
  shut-well_formed s e = ground (arith)

  tick-well_formed :
      (saved : Bool) (s : Store J)
      → is_well_formed s ≡ true
      → is_well_formed (tick json saved s) ≡ true
  unfolding tick
  tick-well_formed saved s h = elim (Bool-cases s.closed) [
    | inl c ↦ shut-well_formed (run_job json saved s.queue s) (run_job-closed saved s.queue s ∙ c)
    | inr c ↦ run_job-open saved s.queue s c h
  ]

  run_foreground-well_formed :
      (saved : Bool) (pending : Option ℕ) (p : FlushPromise) (s : Store J)
      → s.closed ≡ false
      → is_well_formed (record s { pending = pending; promise = p }) ≡ true
      → is_well_formed
          (run_foreground json saved pending p (record s { pending = pending; promise = p }))
        ≡ true
  unfolding run_loop
  run_foreground-well_formed saved none p s c h = h
  run_foreground-well_formed saved (some n) absent s c h =
      rw (c) (ground (arith, busy-append s.queue n saved))
  run_foreground-well_formed saved (some n) background s c h = h
  run_foreground-well_formed saved (some n) foreground s c h = h
  run_foreground-well_formed saved (some n) settled s c h = h

  flush-well_formed :
      (saved : Bool) (s : Store J)
      → is_well_formed s ≡ true
      → is_well_formed (flush json saved s).0 ≡ true
  unfolding flush
  flush-well_formed saved s h =
      if-both (λ (r : Store J × FlushAnswer). is_well_formed r.0 ≡ true) s.last_error _ _ (λ _. h)
        (λ _.
          if-both (λ (r : Store J × FlushAnswer). is_well_formed r.0 ≡ true) s.closed
            (s, store_closed) (run_foreground json saved s.pending s.promise s, waiting) (λ _. h)
            (λ c. run_foreground-well_formed saved s.pending s.promise s c h))

  recorded-well_formed :
      (p : ℕ) (maps : UsageMaps J) (s : Store J)
      → is_well_formed s ≡ true
      → is_well_formed (step json (recorded p maps) s) ≡ true
  unfolding step
  recorded-well_formed p maps s h = ground (arith, any-append is_resumed s.queue (start ∷ []))

  pub step-well_formed :
      (event : Event json) (s : Store J)
      → is_well_formed s ≡ true
      → is_well_formed (step json event s) ≡ true
  unfolding step
  step-well_formed (recorded p maps) s h = recorded-well_formed p maps s h
  step-well_formed (ticked saved) s h = tick-well_formed saved s h
  step-well_formed (flushed saved) s h = flush-well_formed saved s h
  step-well_formed error_taken s h = h
  step-well_formed closing s h = refl

  -- From a store where it is so, whatever sequence of changes, microtasks, flushes and closing follows,
  -- while the store is open a flush is running just if its promise is there and exactly one microtask,
  -- the last, resumes it, and where none runs a microtask that starts one finds something to save; so
  -- no settled promise stays behind, which would keep every later flush from starting.
  pub run-IsWellFormed :
      (events : List (Event json)) (s : Store J)
      → is_well_formed s ≡ true
      → is_well_formed (run json events s) ≡ true
  unfolding run
  run-IsWellFormed [] s h = h
  run-IsWellFormed (event ∷ events) s h =
      run-IsWellFormed events (step json event s) (step-well_formed event s h)
