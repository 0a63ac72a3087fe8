-- ===== src/Connection/SequenceBuffer/Present.antt =====
-- Which numbers a SequenceBuffer has after an insertion.
use naia.Base.{
  ℕ, ◌+◌, ◌-◌, ◌%◌, ◌≤◌, ◌<◌, ◌≡◌, ap, ◌∙◌, ◌≢◌, ◌⊎◌, inl, inr, true, false, max, none, some, arith,
  ltb, length, set, get_or, length-set, get_or-set_self, get_or-set_ne, Bool-cases,
}
use naia.Sequence.{wrapping_sub, sequence_less_than}
use naia.Connection.SequenceBuffer.{
  SequenceBuffer, index, exists, remove_range, advance_sequence, store, insert,
}
use naia.Connection.SequenceBuffer.Removal.{exists-slot, slot-exists, remove_range-Leaves}
use naia.Connection.SequenceBuffer.Received.{Tracks}
use naia.Connection.SequenceBuffer.Insert.{insert-Tracks}
use naia.Connection.SequenceBuffer.Advance.{
  advance-cases, remove_entries-split, remove_entries-from,
}

store-exists :
    {T : Type 0} (b : SequenceBuffer T) (s : ℕ) (entry : T)
    → 0 < length b.entry_sequences
    → exists (store s entry b) s ≡ true
unfolding store
store-exists b s entry pos = slot-exists (store s entry b) s (
    ap (λ (c : ℕ). get_or (set b.entry_sequences (index b s) (some s)) (s % c) none)
      (length-set b.entry_sequences (index b s) (some s))
    ∙ get_or-set_self b.entry_sequences (index b s) (some s) none (omega arith))

store-keeps :
    {T : Type 0} (b : SequenceBuffer T) (s t : ℕ) (entry : T)
    → index b s ≢ index b t
    → exists b t ≡ true
    → exists (store s entry b) t ≡ true
unfolding store
store-keeps b s t entry apart e = slot-exists (store s entry b) t (
    ap (λ (c : ℕ). get_or (set b.entry_sequences (index b s) (some s)) (t % c) none)
      (length-set b.entry_sequences (index b s) (some s))
    ∙ get_or-set_ne b.entry_sequences (index b s) (index b t) (some s) none apart
    ∙ exists-slot b t e)

module _ {T : Type 0} (Received : ℕ → Type 0) (top : ℕ) (b : SequenceBuffer T)
    (h : Tracks Received top b) (n : ℕ) (near : n < top + 32767) (late : top ≤ n + 32768) where
  advance-length :
      length (advance_sequence (n % 65536) b).entry_sequences ≡ length b.entry_sequences
  advance-length = elim (advance-cases Received top b h n near late) [
    | inl (le, e) ↦ rw e (remove_entries-from Received top b h n near le).0
    | inr (lt, e) ↦ rw e
  ]

  -- A number below the top, by less than a turn, stays when the top moves by less than the capacity.
  advance-keeps :
      (m : ℕ)
      → n < top + length b.entry_sequences
      → m < top
      → n < m + 65536
      → exists b (m % 65536) ≡ true
      → exists (advance_sequence (n % 65536) b) (m % 65536) ≡ true
  advance-keeps m close below turn e = elim (advance-cases Received top b h n near late) [
    | inl (le, e1) ↦
        let c : ltb (n - top) (length b.entry_sequences) ≡ true = ground arith in
        let l = remove_range-Leaves (n - top + 1) (top % 65536) b h.indexed h.some_slots in
        let kept = l.keep _ _ (exists-slot b (m % 65536) e) (λ j lt p. omega arith) in
        let e2 : advance_sequence (n % 65536) b
            ≡ record (remove_range (n - top + 1) (top % 65536) b) {
              sequence_num = (n + 1) % 65536;
            } =
          e1 ∙ rw (remove_entries-split Received top b h n near le, c) in
        rw e2 (
          slot-exists _ (m % 65536) (
            ap
              (λ (c : ℕ).
                get_or (remove_range (n - top + 1) (top % 65536) b).entry_sequences (m % 65536 % c)
                  none)
              l.same_slots
            ∙ kept))
    | inr (lt, e1) ↦ rw e1 e
  ]

pub insert-length :
    {T : Type 0} (Received : ℕ → Type 0) (top : ℕ) (b : SequenceBuffer T) (n : ℕ) (entry : T)
    → Tracks Received top b
    → n < top + 32767
    → top ≤ n + 32768
    → length (insert (n % 65536) entry b).1.entry_sequences ≡ length b.entry_sequences
unfolding insert store
insert-length Received top b n entry h near late =
    elim (Bool-cases (
      sequence_less_than (n % 65536)
        (wrapping_sub b.sequence_num (length b.entry_sequences % 65536)))) [
          | inl old ↦ rw old
          | inr fresh ↦ rw (fresh, length-set, advance-length Received top b h n near late)
        ]

accepted-Present :
    {T : Type 0} (Received : ℕ → Type 0) (top : ℕ) (b : SequenceBuffer T) (n : ℕ) (entry : T)
    → Tracks Received top b
    → n < top + 32767
    → top ≤ n + 32768
    → (insert (n % 65536) entry b).0 ≡ true
    → (exists (insert (n % 65536) entry b).1 (n % 65536) ≡ true)
      × ((m : ℕ)
          → n < top + length b.entry_sequences
          → m < top
          → n < m + 65536
          → index b (n % 65536) ≢ index b (m % 65536)
          → exists b (m % 65536) ≡ true
          → exists (insert (n % 65536) entry b).1 (m % 65536) ≡ true)
unfolding insert
accepted-Present {T} Received top b n entry h near late accepted =
    elim (Bool-cases (
      sequence_less_than (n % 65536)
        (wrapping_sub b.sequence_num (length b.entry_sequences % 65536)))) [
          | inl old ↦ cc (rw old at accepted)
          | inr fresh ↦
              let size = advance-length Received top b h n near late in
              let moved : SequenceBuffer T = advance_sequence (n % 65536) b in
              rw fresh (
                store-exists moved (n % 65536) entry (rw size h.some_slots),
                λ m close below turn apart e.
                    store-keeps moved (n % 65536) (m % 65536) entry (rw size apart)
                      (advance-keeps Received top b h n near late m close below turn e),
              )
        ]

-- A number is told by the insertion to be too old: then nothing is changed.
rejected-same :
    {T : Type 0} (b : SequenceBuffer T) (s : ℕ) (entry : T)
    → (insert s entry b).0 ≡ false
    → (insert s entry b).1 ≡ b
unfolding insert
rejected-same b s entry rejected =
    elim (Bool-cases
      (sequence_less_than s (wrapping_sub b.sequence_num (length b.entry_sequences % 65536)))) [
        | inl old ↦ rw old
        | inr fresh ↦ cc (rw fresh at rejected)
      ]

-- A number is inserted in a buffer of 1 to 32767 slots that has no numbers but received ones, all
-- below `top` (which is at least 65536) by at most a turn, each in its slot, and that expects `top`
-- next. The number is below `top` plus half the range less the capacity, and at most half the range
-- below `top`. Afterwards the buffer has no numbers but received ones and the new one. If the number
-- is rejected the buffer is as before. If it is accepted the buffer has it right after the insertion
-- (a later insertion may evict it); and each number below `top`, by less than a turn below the new
-- one, is kept if it has another slot and the new one is below `top` plus the capacity.
pub insert-Present :
    {T : Type 0} (Received : ℕ → Type 0) (top : ℕ) (b : SequenceBuffer T) (n : ℕ) (entry : T)
    → Tracks Received top b
    → n + length b.entry_sequences < top + 32768
    → top ≤ n + 32768
    → Tracks (λ m. Received m ⊎ (m ≡ n)) (max top (n + 1)) (insert (n % 65536) entry b).1
      × ((insert (n % 65536) entry b).0 ≡ false → (insert (n % 65536) entry b).1 ≡ b)
      × ((insert (n % 65536) entry b).0 ≡ true
          → (exists (insert (n % 65536) entry b).1 (n % 65536) ≡ true)
            × ((m : ℕ)
                → n < top + length b.entry_sequences
                → m < top
                → n < m + 65536
                → index b (n % 65536) ≢ index b (m % 65536)
                → exists b (m % 65536) ≡ true
                → exists (insert (n % 65536) entry b).1 (m % 65536) ≡ true))
insert-Present Received top b n entry h close late = (
  insert-Tracks Received top b n entry h close late,
  rejected-same b (n % 65536) entry,
  accepted-Present Received top b n entry h (omega (arith, h.some_slots)) late,
)
