-- ===== src/Channels/ReliableReceiver.antt =====
-- shared/src/messages/channels/receivers/reliable_receiver.rs: ReliableReceiver, which takes every
-- message once. It records from the oldest index on which of them it has.
pub mod Record
pub mod ExactlyOnce
use naia.Base.{
  ℕ, zero, suc, ◌+◌, ◌-◌, ◌*◌, ◌/◌, ◌%◌, ◌^◌, ◌≤◌, ◌<◌, min, max, bit_and, bit_or, ◌≡◌, refl, sym,
  ap, ◌∙◌, ◌≢◌, ◌↔◌, ◌⊎◌, inl, inr, Bool, true, false, not, ◌&&◌, ◌||◌, Option, none, some, List,
  [], ◌∷◌, ◌++◌, map, append_assoc, append-nil, arith, ltb, leb, ◌==◌, if◌then◌else◌, length,
  get_elem?, set, get_or, take, drop, replicate, All,
}
use naia.Sequence.{wrapping_add, sequence_less_than}

pub record ReliableReceiver (M : Type 0) : Type 0 where
  pub oldest_received_message_index : ℕ
  pub message_record : List (ℕ × Bool)
  pub incoming_messages : List (ℕ × M)

-- The loop of `buffer_message`: the message was there, or the record with the message put in. It
-- does not end if the index never comes up.
pub data Placement : Type 0 where
  already endless : Placement
  placed : List (ℕ × Bool) → Placement

abbrev pub behind : ℕ × Bool → Placement → Placement
behind slot already = already
behind slot endless = endless
behind slot (placed slots) = placed (slot ∷ slots)

-- Past the end of the record, on fuel: a slot for each index up to the message's. The index is a
-- u16, so that 65536 rounds reach each.
unfoldable pub extend : ℕ → ℕ → ℕ → ℕ → Placement
extend zero oldest current_index message_index = endless
extend (suc fuel) oldest current_index message_index =
    let rest = extend fuel oldest (current_index + 1) message_index in
    let next_message_index = wrapping_add oldest (current_index % 65536) in
    if next_message_index == message_index
    then placed ((next_message_index, true) ∷ [])
    else behind (next_message_index, false) rest

unfoldable pub place : List (ℕ × Bool) → ℕ → ℕ → ℕ → Placement
place [] oldest current_index message_index = extend 65536 oldest current_index message_index
place ((old_message_index, old_message) ∷ slots) oldest current_index message_index =
    let rest = place slots oldest (current_index + 1) message_index in
    if old_message_index == message_index
    then (if old_message then already else placed ((old_message_index, true) ∷ slots))
    else behind (old_message_index, old_message) rest

-- The loop of `clear_old_messages`, over the oldest index and the record.
unfoldable pub clear_loop : ℕ → List (ℕ × Bool) → ℕ × List (ℕ × Bool)
clear_loop oldest [] = (oldest, [])
clear_loop oldest ((i, true) ∷ slots) = clear_loop (wrapping_add oldest 1) slots
clear_loop oldest ((i, false) ∷ slots) = (oldest, (i, false) ∷ slots)

module _ {M : Type 0} where
  unfoldable pub new : ReliableReceiver M
  new = record { oldest_received_message_index = 0; message_record = []; incoming_messages = [] }

  unfoldable pub clear_old_messages : ReliableReceiver M → ReliableReceiver M
  unfolding clear_loop
  clear_old_messages r =
      let (oldest, slots) = clear_loop r.oldest_received_message_index r.message_record in
      record r { oldest_received_message_index = oldest; message_record = slots }

  -- None where the loop does not end.
  unfoldable pub buffer_message : ℕ → M → ReliableReceiver M → Option (ReliableReceiver M)
  unfolding place clear_old_messages
  buffer_message message_index message r =
      if sequence_less_than message_index r.oldest_received_message_index
      then some r
      else elim (place r.message_record r.oldest_received_message_index 0 message_index) [
        | already ↦ some r
        | endless ↦ none
        | placed slots ↦ some (
            clear_old_messages (record r {
              message_record = slots;
              incoming_messages = r.incoming_messages ++ ((message_index, message) ∷ []);
            }))
      ]

  unfoldable pub receive_messages : ReliableReceiver M → List (ℕ × M) × ReliableReceiver M
  receive_messages r = (r.incoming_messages, record r { incoming_messages = [] })
