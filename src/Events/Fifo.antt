-- ===== src/Events/Fifo.antt =====
-- The event ring against a plain queue of at most four events.
use hil_rig_protocol.Common.{
  ℕ, zero, suc, ◌+◌, ◌-◌, ◌%◌, ◌<◌, ◌≡◌, ◌≢◌, refl, sym, ap, ap₂, ◌∙◌, arith, List, [], ◌∷◌, ◌++◌,
  true, not, ◌⊎◌,
}
use hil_rig_protocol.Common.{
  get_or, set, length, length-set, ◌==◌, if◌then◌else◌, Option, none, some,
}
use hil_rig_protocol.Types.{Status, Event}
use hil_rig_protocol.Root.{Root, event_queue_capacity}
use hil_rig_protocol.Events.{value_is_valid, no_event, publish, read, check_capacity}
use hil_rig_protocol.Events.Entries.{entries, contents, all_valid, IsValid, validate_state-IsValid}
use hil_rig_protocol.Events.Entries.{length-entries, all_valid-append, entries-set, entries_shift}

-- A queue that refuses what is no event and what it has no room for.
unfoldable pub offer : List Event → Event → Status × List Event
offer queue e =
    if not (value_is_valid e)
    then (Status.invalid_argument, queue)
    else if length queue == event_queue_capacity
    then (Status.capacity_exhausted, queue)
    else (Status.ok, queue ++ (e ∷ []))

unfoldable pub poll : List Event → Status × Option Event × List Event
poll [] = (Status.not_ready, none, [])
poll (e ∷ queue) = (Status.ok, some e, queue)

pub length-contents : (r : Root) → length (contents r) ≡ r.event_count
unfolding contents
length-contents r = length-entries r.event_queue r.event_read_index 0 r.event_count

-- On a well-formed ring `publish` answers as `offer` does on the events owned, leaves those that
-- `offer` leaves, and keeps the ring well formed.
pub publish_refines :
    {r : Root} (e : Event)
    → IsValid r
    → let (status, r') = publish r e in ((status, contents r') ≡ offer (contents r) e) × IsValid r'
unfolding publish offer contents
publish_refines {r} e v = ground (
  arith,
  validate_state-IsValid v,
  length-contents r,
  all_valid-append (contents r) e,
  length-set r.event_queue ((r.event_read_index + r.event_count) % event_queue_capacity) e,
  entries-set r.event_queue r.event_read_index 0 r.event_count
      ((r.event_read_index + r.event_count) % event_queue_capacity) e,
)

entries-suc :
    (queue : List Event) (head n : ℕ)
    → head < event_queue_capacity
    → n ≢ 0
    → entries queue head 0 n
      ≡ get_or queue head no_event ∷ entries queue ((head + 1) % event_queue_capacity) 0 (n - 1)
unfolding entries
entries-suc queue head zero h p = absurd (p refl)
entries-suc queue head (suc n) h p = ap₂ ◌∷◌ (ap (λ i. get_or queue i no_event) (omega arith)) (
    sym (entries_shift queue head 0 n)
    ∙ ap (entries queue ((head + 1) % event_queue_capacity) 0) (omega arith))

entries_none : (queue : List Event) (head n : ℕ) → n ≡ 0 → entries queue head 0 n ≡ []
unfolding entries
entries_none queue head zero e = refl
entries_none queue head (suc n) e = absurd (omega arith)

-- On a well-formed ring `read` hands out the oldest event exactly when there is one, leaves the
-- others in order, and keeps the ring well formed.
pub read_refines :
    {r : Root}
    → IsValid r
    → let (status, out, r') = read r in
      ((status, out, contents r') ≡ poll (contents r)) × IsValid r'
unfolding read poll contents all_valid
read_refines {r} v = ground (
  arith,
  validate_state-IsValid v,
  entries_none r.event_queue r.event_read_index r.event_count,
  entries_none r.event_queue 0 (r.event_count - 1),
  entries_none r.event_queue ((r.event_read_index + 1) % event_queue_capacity) (r.event_count - 1),
  entries-suc r.event_queue r.event_read_index r.event_count,
)

-- What an endpoint and its caller do with the ring.
pub data Call : Type 0 where
  put : Event → Call
  get : Call

pub run : Root → List Call → List (Status × Option Event)
run r [] = []
run r (put e ∷ calls) = let (status, r') = publish r e in (status, none) ∷ run r' calls
run r (get ∷ calls) = let (status, out, r') = read r in (status, out) ∷ run r' calls

pub run_queue : List Event → List Call → List (Status × Option Event)
run_queue queue [] = []
run_queue queue (put e ∷ calls) =
    let (status, queue') = offer queue e in (status, none) ∷ run_queue queue' calls
run_queue queue (get ∷ calls) =
    let (status, out, queue') = poll queue in (status, out) ∷ run_queue queue' calls

-- No sequence of calls tells the ring of a well-formed root from the queue of its events.
pub run_refines :
    (calls : List Call) {r : Root} → IsValid r → run r calls ≡ run_queue (contents r) calls
unfolding run run_queue
run_refines [] v = refl
run_refines (put e ∷ calls) {r} v =
    let (same, v') = publish_refines e v in rw (run_refines calls v', ← same)
run_refines (get ∷ calls) {r} v =
    let (same, v') = read_refines v in rw (run_refines calls v', ← same)

-- An event that is one is appended, or refused for want of room.
pub publish-cases :
    {r : Root} (e : Event)
    → IsValid r
    → value_is_valid e ≡ true
    → (publish r e ≡ (Status.capacity_exhausted, r))
      ⊎ (publish r e ≡ (
        Status.ok,
        record r {
          event_queue =
              set r.event_queue ((r.event_read_index + r.event_count) % event_queue_capacity) e;
          event_count = r.event_count + 1;
        },
      ))
unfolding publish
publish-cases {r} e v ok = ground (arith, validate_state-IsValid v)

-- The endpoint once an event is queued.
unfoldable pub queued : Event → Root → Root
queued e r = record r {
  event_queue = set r.event_queue ((r.event_read_index + r.event_count) % event_queue_capacity) e;
  event_count = r.event_count + 1;
}

pub publish-queued :
    {r : Root} (e : Event)
    → IsValid r
    → value_is_valid e ≡ true
    → r.event_count < event_queue_capacity
    → publish r e ≡ (Status.ok, queued e r)
unfolding publish queued
publish-queued {r} e v ok room = ground (arith, validate_state-IsValid v)

pub check_capacity-free :
    {r : Root}
    → IsValid r
    → r.event_count < event_queue_capacity
    → check_capacity r ≡ (Status.ok, r)
unfolding check_capacity
check_capacity-free {r} v room = ground (arith, validate_state-IsValid v)

-- The invariant reads the ring alone.
pub IsValid-ring :
    {r : Root} (r' : Root)
    → IsValid r
    → r'.event_queue ≡ r.event_queue
    → r'.event_read_index ≡ r.event_read_index
    → r'.event_count ≡ r.event_count
    → IsValid r'
unfolding contents
IsValid-ring {r} r' v queue head count = record {
  slots = ap length queue ∙ v.slots;
  head_in = ground (arith, v.head_in);
  count_in = ground (arith, v.count_in);
  sound = rw (queue, head, count) v.sound;
}
