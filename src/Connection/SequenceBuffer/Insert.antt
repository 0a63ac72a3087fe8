-- ===== src/Connection/SequenceBuffer/Insert.antt =====
-- What an insertion does to a SequenceBuffer.
use naia.Base.{
  ℕ, ◌+◌, ◌%◌, ◌≤◌, ◌<◌, max, ◌≡◌, refl, sym, ap, ◌∙◌, ◌⊎◌, inl, inr, none, some, arith, length,
  set, get_or, Bool-cases, length-set, ℕ_discrete, get_or-set_self, get_or-set_ne,
}
use naia.Sequence.{wrapping_sub, sequence_less_than}
use naia.Connection.SequenceBuffer.{SequenceBuffer, index, store, insert}
use naia.Connection.SequenceBuffer.Removal.{slot}
use naia.Connection.SequenceBuffer.Received.{Tracks}
use naia.Connection.SequenceBuffer.Advance.{advance-Tracks, not_advanced, rejected-old}

module _ {T : Type 0} (Received : ℕ → Type 0) (top : ℕ) (b : SequenceBuffer T) (n : ℕ)
    (entry : T) where
  store-Tracks :
      Tracks Received top b
      → Received n
      → n < top
      → top ≤ n + 65536
      → Tracks Received top (store (n % 65536) entry b)
  unfolding store
  store-Tracks h received below old = record {
    some_slots = rw size h.some_slots;
    few_slots = rw size h.few_slots;
    first_turn = h.first_turn;
    number = h.number;
    indexed = λ i s e. (slot_cases i s e).0 ∙ ap (λ (c : ℕ). s % c) (sym size);
    slots = λ i s e. (slot_cases i s e).1;
  }
    where
      size :
          length (set b.entry_sequences (index b (n % 65536)) (some (n % 65536)))
          ≡ length b.entry_sequences
      size = length-set b.entry_sequences (index b (n % 65536)) (some (n % 65536))

      slot_cases :
          (i s : ℕ)
          → get_or (set b.entry_sequences (index b (n % 65536)) (some (n % 65536))) i none ≡ some s
          → (i ≡ index b s)
            × ((m : ℕ) × Received m × (m % 65536 ≡ s) × (top ≤ m + 65536) × (m < top))
      slot_cases i s e = elim (ℕ_discrete i (index b (n % 65536))) [
        | yes here ↦
            let at =
              get_or-set_self b.entry_sequences (index b (n % 65536)) (some (n % 65536)) none
                (omega (arith, h.some_slots)) in
            let p : n % 65536 ≡ s = cc in (here ∙ ap (index b) p, (n, received, p, old, below))
        | no there ↦
            let kept =
              get_or-set_ne b.entry_sequences (index b (n % 65536)) i (some (n % 65536)) none
                (λ p. there (sym p)) in
            let e1 : slot b i ≡ some s = sym kept ∙ e in (h.indexed i s e1, h.slots i s e1)
      ]

-- Whatever is inserted, near `top`, accepted or not: the buffer then has no number but those received
-- before and the new one. The new number may be too old by less than half the range.
pub insert-Tracks :
    {T : Type 0} (Received : ℕ → Type 0) (top : ℕ) (b : SequenceBuffer T) (n : ℕ) (entry : T)
    → Tracks Received top b
    → n + length b.entry_sequences < top + 32768
    → top ≤ n + 32768
    → Tracks (λ m. Received m ⊎ (m ≡ n)) (max top (n + 1)) (insert (n % 65536) entry b).1
unfolding insert
insert-Tracks Received top b n entry h close late =
    let near : n < top + 32767 = omega (arith, h.some_slots) in
    elim (Bool-cases (
      sequence_less_than (n % 65536)
        (wrapping_sub b.sequence_num (length b.entry_sequences % 65536)))) [
          | inl old ↦ rw old (
              not_advanced Received top b h n near
                (rejected-old Received top b h n near close late old))
          | inr fresh ↦ rw fresh (
              store-Tracks (λ m. Received m ⊎ (m ≡ n)) (max top (n + 1)) _ n entry
                (advance-Tracks Received top b h n near late) (inr refl) (omega arith)
                (omega arith))
        ]
