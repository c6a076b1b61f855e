-- ===== src/Kafka/Buffered.antt =====
-- src/kafka-consumer.js: no message is lost before a flush, and none is stuck in a batch.
use mathlib.Core.Path.{subst}
use ichibi_lake.Base.{
  ℕ, ◌<◌, String, ◌≡◌, ◌⊎◌, inl, inr, refl, ap, sym, ◌∙◌, Bool, true, false, Option, none, some,
  List, [], ◌∷◌, ◌++◌, ◌==◌, eq_iff, eq_refl, arith, length, append-nil, append_assoc, Bool-cases,
  if◌then◌else◌,
}
use ichibi_lake.Base.Dict.{if_split}
use ichibi_lake.Kafka.Consumer.{
  Flush, Consumer, Event, arrives, timer_fires, modes_change, take_batch, flush_batch, is_full,
  push_record, set_timer, buffer, taken, buffer_taken, each_message, on_timer, handle_event,
  consume, initial,
}

module _ {R : Type 0} where
  -- The records of a topic that the guards let through, in the order of their messages.
  abbrev taken_of : String → String → Option R → List R
  taken_of topic other none = []
  taken_of topic other (some r) = if other == topic then r ∷ [] else []

  abbrev accepted_by : String → Event R → List R
  accepted_by topic (arrives message) = taken_of topic message.topic (taken message)
  accepted_by topic (timer_fires other) = []
  accepted_by topic (modes_change modes) = []

  abbrev pub accepted : String → List (Event R) → List R
  accepted topic [] = []
  accepted topic (event ∷ events) = accepted_by topic event ++ accepted topic events

  -- The rows of a topic in the flushes, the earliest first.
  abbrev pub flushed : String → List (Flush R) → List R
  flushed topic [] = []
  flushed topic (f ∷ fs) = flushed topic fs ++ (if f.topic == topic then f.rows else [])

  -- A batch that holds something has a timer, and is shorter than the size.
  abbrev pub IsShort : Option ℕ → List R → Type 0
  IsShort none rows = Unit
  IsShort (some size) rows = (rows ≡ []) ⊎ (length rows < size)

  abbrev pub Waits : Option ℕ → List R → Bool → Type 0
  Waits size rows timer = ((rows ≡ []) ⊎ (timer ≡ true)) × IsShort size rows

  abbrev pub IsWaiting : Option ℕ → Consumer R → String → Type 0
  IsWaiting size s topic = Waits size (s.batches topic) (s.timeouts topic)

  abbrev all_of : String → Consumer R → List R
  all_of topic s = flushed topic s.flushes ++ s.batches topic

  take_batch-all_of :
      (topic t : String) (rows : List R) (s : Consumer R)
      → s.batches topic ≡ rows
      → all_of t (take_batch topic rows s) ≡ all_of t s
  unfolding take_batch
  take_batch-all_of topic t [] s h = refl
  take_batch-all_of topic t (r ∷ rs) s h =
      if_split topic t
        (λ b.
          (flushed t s.flushes ++ (if b then r ∷ rs else [])) ++ (if b then [] else s.batches t)
          ≡ all_of t s)
        (λ same.
          append-nil _ ∙ ap (λ rows. flushed t s.flushes ++ rows) (sym h ∙ ap s.batches same))
        (λ apart. ap (λ rows. rows ++ s.batches t) (append-nil (flushed t s.flushes)))

  take_batch-empties :
      (topic : String) (rows : List R) (s : Consumer R)
      → s.batches topic ≡ rows
      → (take_batch topic rows s).batches topic ≡ []
  unfolding take_batch
  take_batch-empties topic [] s h = h
  take_batch-empties topic (r ∷ rs) s h = rw (eq_refl topic) refl

  take_batch-other :
      (topic t : String) (rows : List R) (s : Consumer R)
      → (topic == t) ≡ false
      → (take_batch topic rows s).batches t ≡ s.batches t
  unfolding take_batch
  take_batch-other topic t [] s apart = refl
  take_batch-other topic t (r ∷ rs) s apart = rw apart refl

  take_batch-timeouts :
      (topic : String) (rows : List R) (s : Consumer R)
      → (take_batch topic rows s).timeouts ≡ s.timeouts
  unfolding take_batch
  take_batch-timeouts topic [] s = refl
  take_batch-timeouts topic (r ∷ rs) s = refl

  push_record-all_of :
      (topic t : String) (r : R) (s : Consumer R)
      → all_of t (push_record topic r s) ≡ all_of t s ++ taken_of t topic (some r)
  push_record-all_of topic t r s =
      if_split topic t
        (λ b.
          flushed t s.flushes ++ (if b then s.batches topic ++ r ∷ [] else s.batches t)
          ≡ all_of t s ++ (if b then r ∷ [] else []))
        (λ same.
          ap (λ rows. flushed t s.flushes ++ (rows ++ r ∷ [])) (ap s.batches same)
          ∙ sym (append_assoc (flushed t s.flushes) (s.batches t) (r ∷ [])))
        (λ apart. sym (append-nil (all_of t s)))

  buffer-all_of :
      (size : Option ℕ) (topic t : String) (r : R) (s : Consumer R)
      → all_of t (buffer size topic r s) ≡ all_of t s ++ taken_of t topic (some r)
  unfolding buffer flush_batch
  buffer-all_of size topic t r s =
      let pushed = push_record topic r s in
      let off = set_timer topic false pushed in
      elim (is_full size (pushed.batches topic))
        as (λ b.
          all_of t (if b then flush_batch topic off else set_timer topic true pushed)
          ≡ all_of t s ++ taken_of t topic (some r)) [
            | true ↦
                take_batch-all_of topic t (off.batches topic) off refl
                ∙ push_record-all_of topic t r s
            | false ↦ push_record-all_of topic t r s
          ]

  handle_event-all_of :
      (size : Option ℕ) (t : String) (event : Event R) (s : Consumer R)
      → all_of t (handle_event size event s) ≡ all_of t s ++ accepted_by t event
  unfolding handle_event each_message on_timer flush_batch
  handle_event-all_of size t (modes_change modes) s = sym (append-nil (all_of t s))
  handle_event-all_of size t (timer_fires topic) s =
      let off = set_timer topic false s in
      elim (s.timeouts topic)
        as (λ b. all_of t (if b then flush_batch topic off else s) ≡ all_of t s ++ []) [
          | true ↦
              take_batch-all_of topic t (off.batches topic) off refl ∙ sym (append-nil (all_of t s))
          | false ↦ sym (append-nil (all_of t s))
        ]
  handle_event-all_of size t (arrives message) s =
      elim (taken message)
        as (λ o.
          all_of t (buffer_taken size message.topic o s)
          ≡ all_of t s ++ taken_of t message.topic o) [
            | none ↦ sym (append-nil (all_of t s))
            | some r ↦ buffer-all_of size message.topic t r s
          ]

  consume-all_of :
      (size : Option ℕ) (t : String) (events : List (Event R)) (s : Consumer R)
      → all_of t (consume size events s) ≡ all_of t s ++ accepted t events
  unfolding consume
  consume-all_of size t [] s = sym (append-nil (all_of t s))
  consume-all_of size t (event ∷ events) s =
      consume-all_of size t events (handle_event size event s)
      ∙ ap (λ rows. rows ++ accepted t events) (handle_event-all_of size t event s)
      ∙ append_assoc (all_of t s) (accepted_by t event) (accepted t events)

  Waits-nil : (size : Option ℕ) (timer : Bool) → Waits size [] timer
  Waits-nil none timer = (inl refl, tt)
  Waits-nil (some n) timer = (inl refl, inl refl)

  Waits-short : (size : Option ℕ) (rows : List R) → is_full size rows ≡ false → Waits size rows true
  Waits-short none rows h = (inr refl, tt)
  Waits-short (some n) rows h = (inr refl, inr (ground (arith, h)))

  flush_batch-IsWaiting :
      (size : Option ℕ) (topic t : String) (s : Consumer R)
      → ((topic == t) ≡ false → IsWaiting size s t)
      → IsWaiting size (flush_batch topic (set_timer topic false s)) t
  unfolding flush_batch
  flush_batch-IsWaiting size topic t s h =
      let off = set_timer topic false s in
      let rows = s.batches topic in
      let done = take_batch topic rows off in
      elim (Bool-cases (topic == t)) [
        | inl same ↦
            let e : topic ≡ t = (eq_iff topic t).0 same in
            let empty : done.batches t ≡ [] =
              ap done.batches (sym e) ∙ take_batch-empties topic rows off refl in
            subst (λ r. Waits size r (done.timeouts t)) (sym empty)
              (Waits-nil size (done.timeouts t))
        | inr apart ↦
            let rows_kept = take_batch-other topic t rows off apart in
            let timer_kept : done.timeouts t ≡ s.timeouts t =
              ap (λ f. f t) (take_batch-timeouts topic rows off) ∙ rw apart refl in
            rw (rows_kept, timer_kept) (h apart)
      ]

  buffer-IsWaiting :
      (size : Option ℕ) (topic t : String) (r : R) (s : Consumer R)
      → IsWaiting size s t
      → IsWaiting size (buffer size topic r s) t
  unfolding buffer
  buffer-IsWaiting size topic t r s h =
      let pushed = push_record topic r s in
      let other : (topic == t) ≡ false → IsWaiting size pushed t = λ apart. rw apart h in
      elim (is_full size (pushed.batches topic))
          as (λ b.
            is_full size (pushed.batches topic) ≡ b
            → IsWaiting size
                (if b
                  then flush_batch topic (set_timer topic false pushed)
                  else set_timer topic true pushed)
                t) [
                  | true ↦ λ full. flush_batch-IsWaiting size topic t pushed other
                  | false ↦ λ short.
                      if_split topic t
                        (λ b. Waits size (pushed.batches t) (if b then true else s.timeouts t))
                        (λ same.
                          subst (λ x. Waits size (pushed.batches x) true) same
                            (Waits-short size (pushed.batches topic) short))
                        other
                ]
        refl

  handle_event-IsWaiting :
      (size : Option ℕ) (t : String) (event : Event R) (s : Consumer R)
      → IsWaiting size s t
      → IsWaiting size (handle_event size event s) t
  unfolding handle_event each_message on_timer
  handle_event-IsWaiting size t (modes_change modes) s h = h
  handle_event-IsWaiting size t (timer_fires topic) s h =
      elim (s.timeouts topic)
        as (λ b. IsWaiting size (if b then flush_batch topic (set_timer topic false s) else s) t) [
          | true ↦ flush_batch-IsWaiting size topic t s (λ apart. h)
          | false ↦ h
        ]
  handle_event-IsWaiting size t (arrives message) s h =
      elim (taken message) as (λ o. IsWaiting size (buffer_taken size message.topic o s) t) [
        | none ↦ h
        | some r ↦ buffer-IsWaiting size message.topic t r s h
      ]

  consume-IsWaiting :
      (size : Option ℕ) (t : String) (events : List (Event R)) (s : Consumer R)
      → IsWaiting size s t
      → IsWaiting size (consume size events s) t
  unfolding consume
  consume-IsWaiting size t [] s h = h
  consume-IsWaiting size t (event ∷ events) s h =
      consume-IsWaiting size t events (handle_event size event s)
        (handle_event-IsWaiting size t event s h)

  -- Whatever arrives, whichever timers fire and however the modes change: the rows that were
  -- flushed from a topic's batches, followed by its batch, are the records of the topic that the
  -- guards let through, each once and in their order; and a batch that holds something has a
  -- timer that will flush it and is shorter than the batch size.
  pub consume-accepted :
      (size : Option ℕ) (modes topic : String) (events : List (Event R))
      → (flushed topic (consume size events (initial modes)).flushes
            ++ (consume size events (initial modes)).batches topic
          ≡ accepted topic events)
        × IsWaiting size (consume size events (initial modes)) topic
  consume-accepted size modes topic events = (
    consume-all_of size topic events (initial modes),
    consume-IsWaiting size topic events (initial modes) (Waits-nil size false),
  )
