-- ===== src/Kafka/Consumer.antt =====
-- src/kafka-consumer.js: eachMessage, the timers and flushBatch. What runs between two awaits is
-- one event: flushBatch takes the batch before it waits for the write.
use ichibi_lake.Base.{
  ℕ, String, Bool, true, false, ◌||◌, Option, none, some, List, [], ◌∷◌, ◌++◌, ◌==◌, leb, length,
  includes, if◌then◌else◌,
}
use ichibi_lake.Base.Text.{has_prefix}
use ichibi_lake.Kafka.Modes.{TopicMode, table_name_of, topic_ingest_mode}

-- A message: the source header, and the record that its value becomes, with the columns
-- _ingest_timestamp and _kafka_key; `none` where the value is no JSON.
pub record Message (R : Type 0) : Type 0 where
  pub topic : String
  pub source : Option String
  pub content : Option R

-- What flushBatch does with a batch: it is skipped, since names with `_` are reserved, or given
-- to ingestRows for a table, with a mode.
pub data Destination : Type 0 where
  reserved : Destination
  ingested : String → TopicMode → Destination

pub record Flush (R : Type 0) : Type 0 where
  pub topic : String
  pub destination : Destination
  pub rows : List R

-- `batches`, `timeouts`, KAFKA_INGEST_MODES, and the flushes so far, the last one first.
pub record Consumer (R : Type 0) : Type 0 where
  pub batches : String → List R
  pub timeouts : String → Bool
  pub ingest_modes : String
  pub flushes : List (Flush R)

pub data Event (R : Type 0) : Type 0 where
  arrives : Message R → Event R
  timer_fires : String → Event R
  modes_change : String → Event R

abbrev pub set_at {ℓ} : {A : Type ℓ} → String → A → (String → A) → String → A
set_at key value f other = if key == other then value else f other

-- The names that a JavaScript object has before anything is stored in it (those that start with
-- `__` are left out): `batches[topic]` is then no array, and the push throws.
abbrev inherited_names : List String
inherited_names =
    "constructor" ∷ "hasOwnProperty" ∷ "isPrototypeOf" ∷ "propertyIsEnumerable" ∷ "toLocaleString"
    ∷ "toString" ∷ "valueOf" ∷ []

abbrev pub is_republished : Option String → Bool
is_republished none = false
is_republished (some source) = source == "sse-republish"

unfoldable pub destination_of : String → String → Destination
unfolding table_name_of has_prefix topic_ingest_mode
destination_of modes topic =
    if has_prefix "_" (table_name_of topic)
    then reserved
    else ingested (table_name_of topic) (topic_ingest_mode modes topic)

module _ {R : Type 0} where
  -- flushBatch, for the batch of the topic
  unfoldable pub take_batch : String → List R → Consumer R → Consumer R
  unfolding destination_of
  take_batch topic [] s = s
  take_batch topic (r ∷ rs) s = record s {
    batches = set_at topic [] s.batches;
    flushes =
        record { topic = topic; destination = destination_of s.ingest_modes topic; rows = r ∷ rs }
        ∷ s.flushes;
  }

  unfoldable pub flush_batch : String → Consumer R → Consumer R
  unfolding take_batch
  flush_batch topic s = take_batch topic (s.batches topic) s

  -- `batches[topic].length >= BATCH_SIZE`, where `none` is NaN
  abbrev pub is_full : Option ℕ → List R → Bool
  is_full none rows = false
  is_full (some size) rows = leb size (length rows)

  abbrev pub push_record : String → R → Consumer R → Consumer R
  push_record topic r s = record s { batches = set_at topic (s.batches topic ++ r ∷ []) s.batches }

  abbrev pub set_timer : String → Bool → Consumer R → Consumer R
  set_timer topic on s = record s { timeouts = set_at topic on s.timeouts }

  -- After the push: a full batch is flushed and its timer cleared, else a timer is set.
  unfoldable pub buffer : Option ℕ → String → R → Consumer R → Consumer R
  unfolding flush_batch
  buffer size topic r s =
      let pushed = push_record topic r s in
      if is_full size (pushed.batches topic)
      then flush_batch topic (set_timer topic false pushed)
      else set_timer topic true pushed

  -- The guards of eachMessage: what it takes from a message.
  unfoldable pub taken : Message R → Option R
  unfolding has_prefix
  taken message =
      if has_prefix "__" message.topic
        || is_republished message.source
        || includes message.topic inherited_names
      then none
      else message.content

  abbrev pub buffer_taken : Option ℕ → String → Option R → Consumer R → Consumer R
  buffer_taken size topic none s = s
  buffer_taken size topic (some r) s = buffer size topic r s

  unfoldable pub each_message : Option ℕ → Message R → Consumer R → Consumer R
  unfolding buffer taken
  each_message size message s = buffer_taken size message.topic (taken message) s

  -- The callback of a timer, which fires only while it is set.
  unfoldable pub on_timer : String → Consumer R → Consumer R
  unfolding flush_batch
  on_timer topic s = if s.timeouts topic then flush_batch topic (set_timer topic false s) else s

  unfoldable pub handle_event : Option ℕ → Event R → Consumer R → Consumer R
  unfolding each_message on_timer
  handle_event size (arrives message) s = each_message size message s
  handle_event size (timer_fires topic) s = on_timer topic s
  handle_event size (modes_change modes) s = record s { ingest_modes = modes }

  -- The events in their order.
  unfoldable pub consume : Option ℕ → List (Event R) → Consumer R → Consumer R
  unfolding handle_event
  consume size [] s = s
  consume size (event ∷ events) s = consume size events (handle_event size event s)

abbrev pub initial : {R : Type 0} → String → Consumer R
initial modes = record {
  batches = λ topic. [];
  timeouts = λ topic. false;
  ingest_modes = modes;
  flushes = [];
}
