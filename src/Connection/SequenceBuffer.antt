-- ===== src/Connection/SequenceBuffer.antt =====
-- shared/src/connection/sequence_buffer.rs: SequenceBuffer, entries stored by their u16 sequence
-- number modulo the capacity. A buffer has one slot at least.
pub mod Removal
pub mod Received
pub mod Advance
pub mod Insert
pub mod Present
use naia.Base.{
  ℕ, zero, suc, ◌+◌, ◌-◌, ◌*◌, ◌/◌, ◌%◌, ◌^◌, ◌≤◌, ◌<◌, min, max, bit_and, bit_or, ◌≡◌, refl, sym,
  ap, ◌∙◌, ◌≢◌, ◌↔◌, ◌⊎◌, inl, inr, Bool, true, false, not, ◌&&◌, ◌||◌, Option, none, some, List,
  [], ◌∷◌, ◌++◌, map, append_assoc, append-nil, arith, ltb, leb, ◌==◌, if◌then◌else◌, length,
  get_elem?, set, get_or, take, drop, replicate, All,
}
use naia.Sequence.{wrapping_add, wrapping_sub, sequence_greater_than, sequence_less_than}

pub record SequenceBuffer (T : Type 0) : Type 0 where
  pub sequence_num : ℕ
  pub entry_sequences : List (Option ℕ)
  pub entries : List (Option T)

abbrev pub is_sequence : ℕ → Option ℕ → Bool
is_sequence s none = false
is_sequence s (some t) = t == s

module _ {T : Type 0} where
  unfoldable pub with_capacity : ℕ → SequenceBuffer T
  with_capacity size = record {
    sequence_num = 0;
    entry_sequences = replicate size none;
    entries = replicate size none;
  }

  abbrev pub index : SequenceBuffer T → ℕ → ℕ
  index b sequence = sequence % length b.entry_sequences

  unfoldable pub exists : SequenceBuffer T → ℕ → Bool
  exists b sequence_num =
      is_sequence sequence_num (get_or b.entry_sequences (index b sequence_num) none)

  -- The value that was there, and the buffer that is left.
  unfoldable pub remove : SequenceBuffer T → ℕ → Option T × SequenceBuffer T
  unfolding exists
  remove b sequence_num =
      if exists b sequence_num
      then (
        get_or b.entries (index b sequence_num) none,
        record b {
          entries = set b.entries (index b sequence_num) none;
          entry_sequences = set b.entry_sequences (index b sequence_num) none;
        },
      )
      else (none, b)

  -- The loop over `start..=finish`, of `count` rounds.
  unfoldable pub remove_range : ℕ → ℕ → SequenceBuffer T → SequenceBuffer T
  unfolding remove
  remove_range zero sequence b = b
  remove_range (suc count) sequence b =
      remove_range count (sequence + 1) (remove b (sequence % 65536)).1

  unfoldable pub clear : SequenceBuffer T → SequenceBuffer T
  clear b = record b {
    entries = replicate (length b.entry_sequences) none;
    entry_sequences = replicate (length b.entry_sequences) none;
  }

  unfoldable pub remove_entries : ℕ → SequenceBuffer T → SequenceBuffer T
  unfolding remove_range clear
  remove_entries finish_sequence b =
      let start = b.sequence_num in
      let finish = if ltb finish_sequence start then finish_sequence + 65536 else finish_sequence in
      if ltb (finish - start) (length b.entry_sequences)
      then remove_range (finish - start + 1) start b
      else clear b

  unfoldable pub advance_sequence : ℕ → SequenceBuffer T → SequenceBuffer T
  unfolding remove_entries
  advance_sequence sequence_num b =
      if sequence_greater_than (wrapping_add sequence_num 1) b.sequence_num
      then record (remove_entries sequence_num b) { sequence_num = wrapping_add sequence_num 1 }
      else b

  unfoldable pub store : ℕ → T → SequenceBuffer T → SequenceBuffer T
  store sequence_num entry b = record b {
    entry_sequences = set b.entry_sequences (index b sequence_num) (some sequence_num);
    entries = set b.entries (index b sequence_num) (some entry);
  }

  unfoldable pub insert : ℕ → T → SequenceBuffer T → Bool × SequenceBuffer T
  unfolding advance_sequence store
  insert sequence_num entry b =
      if sequence_less_than sequence_num
        (wrapping_sub b.sequence_num (length b.entry_sequences % 65536))
      then (false, b)
      else (true, store sequence_num entry (advance_sequence sequence_num b))
