-- ===== src/Timing/Marks.antt =====
-- What a snapshot says of the marks.
use molenkopf.Base.{
  ℕ, ◌-◌, String, ◌≡◌, refl, ap, ◌∙◌, Bool, true, false, Option, none, some, List, [], ◌∷◌, ◌==◌,
  if◌then◌else◌, or_option, ◌>>=◌, lookup, lookup-insert,
}
use molenkopf.Timing.{RequestTimer, new_timer, mark, snapshot, mark_all}

-- The time of the last mark with this name.
pub last_mark : String → List (ℕ × String) → Option ℕ
last_mark name [] = none
last_mark name ((now, n) ∷ ms) =
    or_option (last_mark name ms) (if n == name then some now else none)

or_option_assoc : (a b c : Option ℕ) → or_option a (or_option b c) ≡ or_option (or_option a b) c
or_option_assoc none b c = refl
or_option_assoc (some n) b c = refl

or_option-choice :
    (b : Bool) (n : ℕ) (o : Option ℕ)
    → (if b then some n else o) ≡ or_option (if b then some n else none) o
or_option-choice true n o = refl
or_option-choice false n o = refl

mark_all-lookup :
    (ms : List (ℕ × String)) (name : String) (t : RequestTimer)
    → lookup name (mark_all ms t).marks ≡ or_option (last_mark name ms) (lookup name t.marks)
unfolding mark last_mark
mark_all-lookup [] name t = refl
mark_all-lookup ((now, n) ∷ ms) name t =
    mark_all-lookup ms name (mark now n t)
    ∙ ap (or_option (last_mark name ms))
        (lookup-insert n name now t.marks ∙ or_option-choice (n == name) now (lookup name t.marks))
    ∙ or_option_assoc (last_mark name ms) (if n == name then some now else none)
        (lookup name t.marks)

mark_all-started_at :
    (ms : List (ℕ × String)) (t : RequestTimer) → (mark_all ms t).started_at ≡ t.started_at
unfolding mark
mark_all-started_at [] t = refl
mark_all-started_at ((now, n) ∷ ms) t = mark_all-started_at ms (mark now n t)

or_option-none : (o : Option ℕ) → or_option o none ≡ o
or_option-none none = refl
or_option-none (some n) = refl

-- Of a timer with any marks, the snapshot's time for the authentication is the time between the last
-- marks of its start and its end, where both are set, and nothing otherwise; the time to the first
-- byte is counted from the timer's start to the last mark of it.
pub snapshot-mark_all :
    (start now : ℕ) (ms : List (ℕ × String))
    → ((snapshot now (mark_all ms (new_timer start))).auth_ms
        ≡ (do a ← last_mark "auth:start" ms; b ← last_mark "auth:end" ms; some (b - a)))
      × ((snapshot now (mark_all ms (new_timer start))).first_byte_ms
          ≡ (do b ← last_mark "upstream:first-byte" ms; some (b - start)))
unfolding snapshot
snapshot-mark_all start now ms = (
  rw
      (
        mark_all-lookup ms "auth:start" (new_timer start),
        mark_all-lookup ms "auth:end" (new_timer start),
        or_option-none (last_mark "auth:start" ms),
        or_option-none (last_mark "auth:end" ms),
      )
      refl,
  rw
      (
        mark_all-lookup ms "upstream:first-byte" (new_timer start),
        mark_all-started_at ms (new_timer start),
        or_option-none (last_mark "upstream:first-byte" ms),
      )
      refl,
)
