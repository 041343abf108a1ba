-- ===== src/Processor/Order.antt =====
-- The order in which `process_result` of agent/services/event_processor_service.py takes the events:
-- Python's stable `sorted` by (sequence number or 0, time).
use atm_monitoring_agent.Prelude.{
  Bool, ◌&&◌, ◌||◌, List, [], ◌∷◌, leb, ltb, ◌==◌, if◌then◌else◌, get_or,
}
use atm_monitoring_agent.ParserModels.{AtmParsedEvent}

-- not (key b < key a), on the pairs (sequence number or 0, time)
unfoldable pub key_le : AtmParsedEvent → AtmParsedEvent → Bool
key_le a b =
    let m = get_or a.event_sequence_number 0 in
    let n = get_or b.event_sequence_number 0 in ltb m n || (m == n && leb a.event_time b.event_time)

unfoldable pub insert_sorted : AtmParsedEvent → List AtmParsedEvent → List AtmParsedEvent
insert_sorted e [] = e ∷ []
insert_sorted e (x ∷ xs) = if key_le e x then e ∷ x ∷ xs else x ∷ insert_sorted e xs

unfoldable pub sort_events : List AtmParsedEvent → List AtmParsedEvent
unfolding insert_sorted key_le
sort_events [] = []
sort_events (e ∷ es) = insert_sorted e (sort_events es)
