-- ===== src/Events/Entries.antt =====
-- The events that a root owns, oldest first, and what the operations on the ring do to them.
use hil_rig_protocol.Common.{
  ℕ, zero, suc, ◌+◌, ◌%◌, ◌≤◌, ◌<◌, ◌≡◌, refl, arith, List, [], ◌∷◌, ◌++◌, Bool, true, ◌&&◌,
}
use hil_rig_protocol.Common.{get_or, set, ap₂, ap, length, get_or-set_self, get_or-set_ne}
use hil_rig_protocol.Types.{Status, Event}
use hil_rig_protocol.Root.{Root, event_queue_capacity}
use hil_rig_protocol.Events.{value_is_valid, no_event, slots_are_valid, validate_state}

-- The `n` events from the slot `offset` places behind `head` on, round the ring.
unfoldable pub entries : List Event → ℕ → ℕ → ℕ → List Event
entries queue head offset zero = []
entries queue head offset (suc n) =
    get_or queue ((head + offset) % event_queue_capacity) no_event
    ∷ entries queue head (offset + 1) n

unfoldable pub contents : Root → List Event
unfolding entries
contents r = entries r.event_queue r.event_read_index 0 r.event_count

unfoldable pub all_valid : List Event → Bool
all_valid [] = true
all_valid (e ∷ es) = value_is_valid e && all_valid es

pub record IsValid (r : Root) : Type 0 where
  pub slots : length r.event_queue ≡ event_queue_capacity
  pub head_in : r.event_read_index < event_queue_capacity
  pub count_in : r.event_count ≤ event_queue_capacity
  pub sound : all_valid (contents r) ≡ true

slots_are_valid-entries :
    (queue : List Event) (head offset n : ℕ)
    → slots_are_valid queue head offset n ≡ all_valid (entries queue head offset n)
unfolding slots_are_valid all_valid entries
slots_are_valid-entries queue head offset zero = refl
slots_are_valid-entries queue head offset (suc n) =
    ap (λ b. value_is_valid (get_or queue ((head + offset) % event_queue_capacity) no_event) && b)
      (slots_are_valid-entries queue head (offset + 1) n)

-- A state that is well formed passes the code's own check, which then changes nothing.
pub validate_state-IsValid : {r : Root} → IsValid r → validate_state r ≡ (Status.ok, r)
unfolding validate_state contents
validate_state-IsValid {r} v =
    ground (arith, slots_are_valid-entries r.event_queue r.event_read_index 0 r.event_count)

pub length-entries :
    (queue : List Event) (head offset n : ℕ) → length (entries queue head offset n) ≡ n
unfolding entries
length-entries queue head offset zero = refl
length-entries queue head offset (suc n) = ap suc (length-entries queue head (offset + 1) n)

pub all_valid-append :
    (es : List Event) (e : Event) → all_valid (es ++ (e ∷ [])) ≡ (all_valid es && value_is_valid e)
unfolding all_valid
all_valid-append [] e = ground arith
all_valid-append (x ∷ es) e = ground (arith, all_valid-append es e)

-- A write to the slot behind the last one adds the event at the end.
pub entries-set :
    (queue : List Event) (head offset n i : ℕ) (e : Event)
    → length queue ≡ event_queue_capacity
    → offset + n < event_queue_capacity
    → i ≡ (head + offset + n) % event_queue_capacity
    → entries (set queue i e) head offset (suc n) ≡ entries queue head offset n ++ (e ∷ [])
unfolding entries
entries-set queue head offset zero i e hl hn hi =
    ap₂ ◌∷◌ (rw slot (get_or-set_self queue i e no_event (omega arith))) refl
  where
    slot : (head + offset) % event_queue_capacity ≡ i
    slot = omega arith
entries-set queue head offset (suc n) i e hl hn hi =
    ap₂ ◌∷◌ (get_or-set_ne queue e no_event (omega arith))
      (entries-set queue head (offset + 1) n i e hl (omega arith) (omega arith))

-- Moving the head by one drops the first event.
pub entries_shift :
    (queue : List Event) (head offset n : ℕ)
    → entries queue ((head + 1) % event_queue_capacity) offset n ≡ entries queue head (offset + 1) n
unfolding entries
entries_shift queue head offset zero = refl
entries_shift queue head offset (suc n) =
    ap₂ ◌∷◌ (ap (λ i. get_or queue i no_event) (omega arith))
      (entries_shift queue head (offset + 1) n)
