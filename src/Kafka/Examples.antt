-- ===== src/Kafka/Examples.antt =====
-- Runs of src/kafka-consumer.js at concrete inputs, and an instance of the theorem about it.
-- Records are numbers here.
use ichibi_lake.Base.{ℕ, String, ◌≡◌, refl, none, some, List, [], ◌∷◌, ◌++◌}
use ichibi_lake.Base.Dict.{lookup, insert}
use ichibi_lake.Base.Text.{split, trim, trim_start, after_prefix, same_word, fold_case, has_prefix}
use ichibi_lake.Kafka.Modes.{
  append, upsert, dedupe, table_name_of, span, mode_of, with_key_list, parse_entry, set_entries,
  parse_ingest_modes, topic_ingest_mode,
}
use ichibi_lake.Kafka.Consumer.{
  reserved, ingested, Event, arrives, timer_fires, destination_of, take_batch, flush_batch, buffer,
  taken, each_message, on_timer, handle_event, consume, initial,
}
use ichibi_lake.Kafka.Buffered.{accepted, flushed, IsWaiting, consume-accepted}

-- Everything that a run of the component computes with.
runs : Unit {0}
unfolding lookup insert split trim trim_start after_prefix same_word fold_case has_prefix
    table_name_of span mode_of with_key_list parse_entry set_entries parse_ingest_modes
    topic_ingest_mode destination_of take_batch flush_batch buffer taken each_message on_timer
    handle_event consume
runs = tt

abbrev modes : String
modes = "customers=upsert:customer_id, devices = DEDUPE:id+region, x=move, *=append:k+"

mode_tests :
    (topic_ingest_mode modes "customers"
      ≡ record { mode = upsert; keys = some ("customer_id" ∷ []) })
    × (topic_ingest_mode modes "devices"
        ≡ record { mode = dedupe; keys = some ("id" ∷ "region" ∷ []) })
    × (topic_ingest_mode modes "x" ≡ record { mode = append; keys = some ("k" ∷ []) })
    × (topic_ingest_mode "" "x" ≡ record { mode = append; keys = none })
    × (table_name_of "my.topic-1" ≡ "my_topic_1")
unfolding runs
mode_tests = (refl, refl, refl, refl, refl)

abbrev message : String → ℕ → Event ℕ
message topic n = arrives (record { topic = topic; source = none; content = some n })

-- Two topics in turns; the batch size is 2, and the timer of `b` fires.
abbrev events : List (Event ℕ)
events =
    message "a" 1
    ∷ message "b" 2
    ∷ arrives (record { topic = "a"; source = some "sse-republish"; content = some 3 })
    ∷ message "a" 4
    ∷ timer_fires "b"
    ∷ message "a" 5
    ∷ message "constructor" 6
    ∷ message "__offsets" 7
    ∷ message "_acl" 8
    ∷ timer_fires "_acl"
    ∷ []

consumer_tests :
    ((consume (some 2) events (initial "")).batches "a" ≡ 5 ∷ [])
    × ((consume (some 2) events (initial "")).batches "b" ≡ [])
    × ((consume (some 2) events (initial "")).flushes
        ≡ record { topic = "_acl"; destination = reserved; rows = 8 ∷ [] }
          ∷ record {
            topic = "b";
            destination = ingested "b" (record { mode = append; keys = none });
            rows = 2 ∷ [];
          }
          ∷ record {
            topic = "a";
            destination = ingested "a" (record { mode = append; keys = none });
            rows = 1 ∷ 4 ∷ [];
          }
          ∷ [])
unfolding runs
consumer_tests = (refl, refl, refl)

consume-accepted_example :
    (flushed "a" (consume (some 2) events (initial "")).flushes
        ++ (consume (some 2) events (initial "")).batches "a"
      ≡ accepted "a" events)
    × IsWaiting (some 2) (consume (some 2) events (initial "")) "a"
consume-accepted_example = consume-accepted (some 2) "" "a" events
