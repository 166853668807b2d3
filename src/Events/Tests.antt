-- ===== src/Events/Tests.antt =====
-- The theorem on the history at two events.
use molenkopf.Base.{String, ◌≡◌, none, [], ◌∷◌, arith, ◌==◌}
use molenkopf.Events.{MolenkopfEvent, EventBus, history_limit, last, emit_all}
use molenkopf.Events.History.{emit_all-history}

abbrev an_event : String → MolenkopfEvent
an_event id = record { id = id; kind = "warning"; timestamp = 0; request_id = none }

abbrev listened : EventBus
listened = record {
  clients = (record { number = 1; takes = λ e. e.id == "e1" }) ∷ [];
  history = an_event "e0" ∷ [];
  calls = [];
}

emit_all_example :
    (emit_all (an_event "e1" ∷ an_event "e2" ∷ []) listened).history
    ≡ last history_limit (an_event "e0" ∷ an_event "e1" ∷ an_event "e2" ∷ [])
emit_all_example = emit_all-history (an_event "e1" ∷ an_event "e2" ∷ []) listened (omega arith)
