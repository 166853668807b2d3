-- ===== src/Snapshots/Drains.antt =====
-- Without failing saves the microtasks write the counters.
use molenkopf.Base.{
  ℕ, zero, suc, ◌≡◌, refl, ap, ◌∙◌, inl, inr, Bool, true, false, Option, none, some, List, [], ◌∷◌,
  ◌++◌, arith, ltb, leb, nat_eq, if◌then◌else◌, Bool-cases, length, any, length-append,
}
use mathlib.Core.Path.{subst}
use molenkopf.Base.{if-both, any-append}
use molenkopf.Snapshots.{JsonText, UsageMaps, saved_rows}
use molenkopf.Snapshots.Flush.{
  Job, start, resumed, caught, FlushPromise, is_absent, absent, background, foreground, settled,
  Store, recorded, ticked, schedule, save_pending, run_loop, start_flush, run_job, tick, step,
}
use molenkopf.Snapshots.Durable.{
  is_failed, IsSafe, IsKept, shut, waits, retried, durable, step-IsSafe,
}
use molenkopf.Snapshots.Settles.{
  busy-append, is_start, is_resumed, is_busy_queue, is_running, is_well_formed,
}

failed-resumed : (q : List Job) → any is_resumed q ≡ false → any is_failed q ≡ false
failed-resumed [] h = refl
failed-resumed (start ∷ q) h = failed-resumed q h
failed-resumed (resumed p b ∷ q) h = absurd (ground (arith))
failed-resumed (caught ∷ q) h = failed-resumed q h

module _ {J : Type 0} (json : JsonText J) where
  -- `n` microtasks run, and each save succeeds.
  unfoldable pub drain : ℕ → Store J → Store J
  unfolding tick
  drain zero s = s
  drain (suc n) s = drain n (tick json true s)

  -- The store is open and nothing is left to do.
  record IsSettled (s : Store J) : Type 0 where
    queue_empty : s.queue ≡ []
    saved : s.pending ≡ none
    is_open : s.closed ≡ false

  idle-IsSettled :
      (n : ℕ) (s : Store J)
      → s.closed ≡ false
      → IsSettled (drain n (record s { queue = []; pending = none }))
  unfolding drain
  idle-IsSettled zero s c = record { queue_empty = refl; saved = refl; is_open = c }
  idle-IsSettled (suc n) s c = idle-IsSettled n s c

  start-running :
      (p : FlushPromise) (s : Store J) → is_running p ≡ true → start_flush json true p s ≡ s
  start-running absent s h = absurd (ground (arith))
  start-running background s h = refl
  start-running foreground s h = refl
  start-running settled s h = absurd (ground (arith))

  finished :
      (n : ℕ) (s : Store J)
      → s.closed ≡ false
      → IsSettled (drain n (run_loop json true (record s { queue = []; pending = none })))
  unfolding run_loop
  finished n s c =
      if-both (λ (t : Store J). IsSettled (drain n t)) s.closed _ _
        (λ _. idle-IsSettled n (record s { flushing = false; promise = absent }) c)
        (λ _. idle-IsSettled n (record s { flushing = false; promise = absent }) c)

  busy-IsSettled :
      (n : ℕ) (q : List Job) (s : Store J)
      → s.closed ≡ false
      → is_running s.promise ≡ true
      → is_busy_queue q ≡ true
      → any is_failed q ≡ false
      → leb (length q) n ≡ true
      → IsSettled (drain n (record s { queue = q; pending = none }))
  unfolding drain
  busy-IsSettled zero [] s c p b f l = absurd (ground (arith))
  busy-IsSettled zero (j ∷ q) s c p b f l = absurd (ground (arith))
  busy-IsSettled (suc n) [] s c p b f l = absurd (ground (arith))
  busy-IsSettled (suc n) (start ∷ q) s c p b f l =
      rw (start-running s.promise (record s { queue = q; pending = none }) p)
        (busy-IsSettled n q s c p b f (ground (arith)))
  busy-IsSettled (suc n) (caught ∷ q) s c p b f l =
      busy-IsSettled n q (record s { last_error = true }) c p b f (ground (arith))
  busy-IsSettled (suc n) (resumed place true ∷ []) s c p b f l = finished n s c
  busy-IsSettled (suc n) (resumed place true ∷ j ∷ q) s c p b f l = absurd (ground (arith))
  busy-IsSettled (suc n) (resumed place false ∷ q) s c p b f l = absurd (ground (arith))

  -- A loop that saves once more.
  saves-IsSettled :
      (n place : ℕ) (q : List Job) (s : Store J)
      → s.closed ≡ false
      → is_running s.promise ≡ true
      → any is_resumed q ≡ false
      → any is_failed q ≡ false
      → ltb (length q) n ≡ true
      → IsSettled (drain n (run_loop json true (record s { queue = q; pending = some place })))
  unfolding run_loop
  saves-IsSettled n place q s c p b f l =
      if-both (λ (t : Store J). IsSettled (drain n t)) s.closed _ _ (λ d. absurd (ground (arith)))
        (λ _.
          busy-IsSettled n (q ++ (resumed place true ∷ []))
            (record s { rows = saved_rows json (s.heap place) s.rows }) c p
            (busy-append q place true b)
            (ground (arith, any-append is_failed q (resumed place true ∷ [])))
            (ground (arith, length-append q (resumed place true ∷ []))))

  running-IsSettled :
      (n : ℕ) (pending : Option ℕ) (q : List Job) (s : Store J)
      → s.closed ≡ false
      → is_running s.promise ≡ true
      → is_busy_queue q ≡ true
      → any is_failed q ≡ false
      → ltb (length q) n ≡ true
      → IsSettled (drain n (record s { queue = q; pending = pending }))
  unfolding drain
  running-IsSettled zero pending q s c p b f l = absurd (ground (arith))
  running-IsSettled (suc n) pending [] s c p b f l = absurd (ground (arith))
  running-IsSettled (suc n) pending (start ∷ q) s c p b f l =
      rw (start-running s.promise (record s { queue = q; pending = pending }) p)
        (running-IsSettled n pending q s c p b f (ground (arith)))
  running-IsSettled (suc n) pending (caught ∷ q) s c p b f l =
      running-IsSettled n pending q (record s { last_error = true }) c p b f (ground (arith))
  running-IsSettled (suc n) none (resumed place true ∷ []) s c p b f l = finished n s c
  running-IsSettled (suc n) (some r) (resumed place true ∷ []) s c p b f l =
      saves-IsSettled n r [] s c p refl refl (ground (arith))
  running-IsSettled (suc n) pending (resumed place true ∷ j ∷ q) s c p b f l =
      absurd (ground (arith))
  running-IsSettled (suc n) pending (resumed place false ∷ q) s c p b f l = absurd (ground (arith))

  -- The first job that starts a flush finds no promise.
  starts-IsSettled :
      (n place : ℕ) (p : FlushPromise) (q : List Job) (s : Store J)
      → s.closed ≡ false
      → is_absent p ≡ true
      → any is_resumed q ≡ false
      → ltb (length q) n ≡ true
      → IsSettled (drain n (start_flush json true p (record s { queue = q; pending = some place })))
  unfolding run_loop
  starts-IsSettled n place absent q s c a b l =
      if-both
        (λ (t : Store J).
          IsSettled (drain n (record t { promise = if t.flushing then background else settled })))
        s.closed _ _ (λ d. absurd (ground (arith)))
        (λ _.
          busy-IsSettled n (q ++ (resumed place true ∷ []))
            (record s {
              rows = saved_rows json (s.heap place) s.rows;
              flushing = true;
              promise = background;
            })
            c refl (busy-append q place true b)
            (ground (arith, any-append is_failed q (resumed place true ∷ []), failed-resumed q b))
            (ground (arith, length-append q (resumed place true ∷ []))))
  starts-IsSettled n place background q s c a b l = absurd (ground (arith))
  starts-IsSettled n place foreground q s c a b l = absurd (ground (arith))
  starts-IsSettled n place settled q s c a b l = absurd (ground (arith))

  waiting-IsSettled :
      (n place : ℕ) (q : List Job) (s : Store J)
      → s.closed ≡ false
      → is_absent s.promise ≡ true
      → any is_resumed q ≡ false
      → any is_start q ≡ true
      → ltb (length q) n ≡ true
      → IsSettled (drain n (record s { queue = q; pending = some place }))
  unfolding drain
  waiting-IsSettled zero place q s c p b f l = absurd (ground (arith))
  waiting-IsSettled (suc n) place [] s c p b f l = absurd (ground (arith))
  waiting-IsSettled (suc n) place (start ∷ q) s c p b f l =
      starts-IsSettled n place s.promise q s c p b (ground (arith))
  waiting-IsSettled (suc n) place (caught ∷ q) s c p b f l =
      waiting-IsSettled n place q (record s { last_error = true }) c p b f (ground (arith))
  waiting-IsSettled (suc n) place (resumed r true ∷ q) s c p b f l = absurd (ground (arith))
  waiting-IsSettled (suc n) place (resumed r false ∷ q) s c p b f l = absurd (ground (arith))

  scheduled-IsSettled :
      (n place : ℕ) (s : Store J)
      → s.closed ≡ false
      → is_well_formed json s ≡ true
      → any is_failed s.queue ≡ false
      → ltb (suc (length s.queue)) n ≡ true
      → IsSettled (drain n (schedule json place s))
  scheduled-IsSettled n place s c w f l =
      if-both (λ (t : Store J). IsSettled (drain n t)) s.closed _ _ (λ d. absurd (ground (arith)))
        (λ _. elim (Bool-cases s.flushing) [
          | inl e ↦
              subst
                (λ (q : List Job).
                  IsSettled (drain n (record s { pending = some place; queue = q })))
                (ground (arith))
                (running-IsSettled n (some place) s.queue s c (ground (arith)) (ground (arith)) f
                  (ground (arith)))
          | inr e ↦
              subst
                (λ (q : List Job).
                  IsSettled (drain n (record s { pending = some place; queue = q })))
                (ground (arith))
                (waiting-IsSettled n place (s.queue ++ (start ∷ [])) s c (ground (arith))
                  (ground (arith, any-append is_resumed s.queue (start ∷ [])))
                  (ground (arith, any-append is_start s.queue (start ∷ [])))
                  (ground (arith, length-append s.queue (start ∷ []))))
        ])

  save_pending-heap :
      (saved : Bool) (p : Option ℕ) (s : Store J) → (save_pending json saved p s).heap ≡ s.heap
  save_pending-heap saved none s = refl
  save_pending-heap saved (some n) s = refl

  run_loop-heap : (saved : Bool) (s : Store J) → (run_loop json saved s).heap ≡ s.heap
  unfolding run_loop
  run_loop-heap saved s =
      if-both (λ (t : Store J). t.heap ≡ s.heap) s.closed _ _ (λ _. refl)
        (λ _. save_pending-heap saved s.pending s)

  start_flush-heap :
      (saved : Bool) (p : FlushPromise) (s : Store J) → (start_flush json saved p s).heap ≡ s.heap
  start_flush-heap saved absent s = run_loop-heap saved (record s { flushing = true })
  start_flush-heap saved background s = refl
  start_flush-heap saved foreground s = refl
  start_flush-heap saved settled s = refl

  run_job-heap :
      (saved : Bool) (q : List Job) (s : Store J) → (run_job json saved q s).heap ≡ s.heap
  run_job-heap saved [] s = refl
  run_job-heap saved (start ∷ q) s = start_flush-heap saved s.promise (record s { queue = q })
  run_job-heap saved (resumed n true ∷ q) s = run_loop-heap saved (record s { queue = q })
  run_job-heap saved (resumed n false ∷ q) s = refl
  run_job-heap saved (caught ∷ q) s = refl

  drain-heap : (n : ℕ) (s : Store J) → (drain n s).heap ≡ s.heap
  unfolding drain
  drain-heap zero s = refl
  drain-heap (suc n) s = drain-heap n (tick json true s) ∙ run_job-heap true s.queue s

  drain-IsSafe : (place n : ℕ) (s : Store J) → IsSafe json place s → IsSafe json place (drain n s)
  unfolding drain step
  drain-IsSafe place zero s h = h
  drain-IsSafe place (suc n) s h =
      drain-IsSafe place n (tick json true s) (step-IsSafe json place (ticked true) s refl h)

  settled-rows :
      (place : ℕ) (s : Store J)
      → IsSettled s
      → IsKept json place s
      → s.rows ≡ saved_rows json (s.heap place) []
  settled-rows place s h (shut e) = absurd (ground (arith, h.is_open))
  settled-rows place s h (waits e) = absurd (ground (arith, h.saved))
  settled-rows place s h (retried e) = absurd (ground (arith, h.queue_empty))
  settled-rows place s h (durable e) = e

  recorded-heap :
      (place : ℕ) (maps : UsageMaps J) (s : Store J)
      → (step json (recorded place maps) s).heap place ≡ maps
  unfolding step
  recorded-heap place maps s =
      if-both (λ (t : Store J). t.heap place ≡ maps) s.closed _ _ (λ _. ground (arith))
        (λ _. ground (arith))

  -- A change of the counters of an open store, which keeps them safe and whose queue fits its promise,
  -- is written: once as many microtasks have run as were waiting and two more, and no save has failed,
  -- the rows are those of the changed counters.
  pub recorded-settles :
      (place n : ℕ) (maps : UsageMaps J) (s : Store J)
      → IsSafe json place s
      → is_well_formed json s ≡ true
      → s.closed ≡ false
      → any is_failed s.queue ≡ false
      → ltb (suc (length s.queue)) n ≡ true
      → (drain n (step json (recorded place maps) s)).rows ≡ saved_rows json maps []
  unfolding step
  recorded-settles place n maps s h w c f l =
      let t = step json (recorded place maps) s in
      settled-rows place (drain n t)
        (scheduled-IsSettled n place
          (record s { heap = λ k. if nat_eq k place then maps else s.heap k }) c w f l)
        (drain-IsSafe place n t
          (step-IsSafe json place (recorded place maps) s (ground (arith)) h)).kept
      ∙ ap (λ m. saved_rows json m [])
          (ap (λ f. f place) (drain-heap n t) ∙ recorded-heap place maps s)
