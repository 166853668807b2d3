-- ===== src/Events.antt =====
-- The event bus, packages/core/src/events/event-bus.ts: who gets an event, and the history that a new
-- client is given. An event is given as the bus keeps it, with its secrets taken out. A client is a
-- number and a function that tells whether it takes an event or throws; clients do not emit events
-- themselves.
pub mod History
pub mod Tests
use molenkopf.Base.{
  ℕ, zero, suc, ◌+◌, ◌-◌, ◌*◌, ◌/◌, ◌≤◌, ◌<◌, String, ◌≡◌, refl, sym, ap, ◌∙◌, ◌≢◌, ◌↔◌, ◌⊎◌, inl,
  inr, Bool, true, false, ◌&&◌, ◌||◌, not, Option, none, some, List, [], ◌∷◌, ◌++◌, map, arith,
  ◌==◌, eq_iff, eq_refl, ltb, leb, nat_eq, if◌then◌else◌, Bool-cases, Option-cases, or_else,
  or_option, is_some, ◌>>=◌, Result, ok, fail, length, take, drop, filter, find, any, all, All,
  length-append, includes, includes-filter, includes-append, other_than, unique, includes-unique,
  IsUnique, filter-IsUnique, unique-IsUnique, all_mono, all-filter, all-of_includes,
  all-filter_self, all-const, filter-all, Dict, lookup, insert, erase, values, lookup-insert,
  lookup-erase, has, has-erase, all_rows, erase_all, map_values, is_empty, is_space, trim, size,
  every_char, is_digit, is_letter, is_id_char, is_slug,
}

pub record MolenkopfEvent : Type 0 where
  pub id : String
  pub kind : String
  pub timestamp : ℕ
  pub request_id : Option String

pub record Client : Type 0 where
  pub number : ℕ
  pub takes : MolenkopfEvent → Bool

-- With the calls of clients so far, in order.
pub record EventBus : Type 0 where
  pub clients : List Client
  pub history : List MolenkopfEvent
  pub calls : List (ℕ × MolenkopfEvent)

abbrev pub history_limit : ℕ
history_limit = 100

-- `xs.slice(-n)` for a positive `n`
abbrev pub last {ℓ} : {A : Type ℓ} → ℕ → List A → List A
last n xs = drop (length xs - n) xs

abbrev pub is_client : ℕ → Client → Bool
is_client n c = nat_eq c.number n

abbrev pub remove_client : ℕ → List Client → List Client
remove_client n cs = filter (λ c. not (is_client n c)) cs

-- `deliver`: the bus after the call, and whether the client took the event.
abbrev pub deliver : Client → MolenkopfEvent → EventBus → EventBus × Bool
deliver c e bus =
    let called = record bus { calls = bus.calls ++ (c.number, e) ∷ [] } in
    if c.takes e
    then (called, true)
    else (record called { clients = remove_client c.number bus.clients }, false)

unfoldable pub deliver_all : List Client → MolenkopfEvent → EventBus → EventBus
deliver_all [] e bus = bus
deliver_all (c ∷ cs) e bus = deliver_all cs e (deliver c e bus).0

-- The clients that are called are those of the time of the event.
unfoldable pub emit : MolenkopfEvent → EventBus → EventBus
unfolding deliver_all
emit e bus =
    deliver_all bus.clients e (record bus { history = last history_limit (bus.history ++ e ∷ []) })

abbrev pub emit_all : List MolenkopfEvent → EventBus → EventBus
emit_all [] bus = bus
emit_all (e ∷ es) bus = emit_all es (emit e bus)

-- The history for a new client, up to the first event that it throws on.
unfoldable pub replay : Client → List MolenkopfEvent → EventBus → EventBus
replay c [] bus = bus
replay c (e ∷ es) bus =
    let (next, took) = deliver c e bus in if took then replay c es next else next

abbrev add_client : Client → List Client → List Client
add_client c cs = if any (is_client c.number) cs then cs else cs ++ c ∷ []

unfoldable pub subscribe : Client → EventBus → EventBus
unfolding replay
subscribe c bus = replay c bus.history (record bus { clients = add_client c bus.clients })

unfoldable pub unsubscribe : ℕ → EventBus → EventBus
unsubscribe n bus = record bus { clients = remove_client n bus.clients }
