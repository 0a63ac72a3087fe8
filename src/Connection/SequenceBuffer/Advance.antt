-- ===== src/Connection/SequenceBuffer/Advance.antt =====
-- What an advance of the top does to a SequenceBuffer.
use naia.Base.{
  ℕ, ◌+◌, ◌-◌, ◌%◌, ◌≤◌, ◌<◌, max, ◌≡◌, refl, sym, ap, ◌∙◌, ◌≢◌, ◌⊎◌, inl, inr, true, false, Option,
  none, some, arith, ltb, if◌then◌else◌, length, length-replicate, get_or-replicate, dec_lt,
  Bool-cases, dec_le, ltb→lt,
}
use naia.Sequence.{wrapping_add, wrapping_sub, sequence_greater_than, sequence_less_than}
use naia.Sequence.Order.{greater-unwrapped}
use naia.Connection.SequenceBuffer.{
  SequenceBuffer, remove_range, clear, remove_entries, advance_sequence,
}
use mathlib.Core.Path.{ap₂}
use naia.Connection.SequenceBuffer.Removal.{Leaves, slot, remove_range-Leaves}
use naia.Connection.SequenceBuffer.Received.{Tracks}

module _ {T : Type 0} (Received : ℕ → Type 0) (top : ℕ) (b : SequenceBuffer T)
    (h : Tracks Received top b) (n : ℕ) (near : n < top + 32767) where
  -- The distance that the loop of `remove_entries` goes.
  pub remove_entries-split :
      top ≤ n
      → remove_entries (n % 65536) b ≡ (
          if ltb (n - top) (length b.entry_sequences)
          then remove_range (n - top + 1) (top % 65536) b
          else clear b)
  unfolding remove_entries
  remove_entries-split le =
      let d : (if ltb (n % 65536) (top % 65536) then n % 65536 + 65536 else n % 65536) - top % 65536
          ≡ n - top =
        ground arith in
      rw (h.number, d)

  clear-Leaves : Leaves (λ t. ⊥) b (clear b)
  unfolding clear
  clear-Leaves = record {
    same_slots = length-replicate {A = Option ℕ} _ none;
    same_number = refl;
    from = λ i t e. cc (get_or-replicate {A = Option ℕ} (length b.entry_sequences) i none);
    keep = λ i t e p. elim p [ ];
  }

  -- A stored number that stays has not come round again.
  abbrev pub Stays : ℕ → Type 0
  Stays t = (m : ℕ) → m % 65536 ≡ t → top ≤ m + 65536 → m < top → n < m + 65536

  range-Stays : (t : ℕ) → ((j : ℕ) → j < n - top + 1 → t ≢ (top % 65536 + j) % 65536) → Stays t
  range-Stays t apart m at old below = elim (dec_lt n (m + 65536)) [
    | yes lt ↦ lt
    | no again ↦ absurd (apart (m + 65536 - top) (omega arith) (omega arith))
  ]

  pub remove_entries-from :
      top ≤ n
      → (length (remove_entries (n % 65536) b).entry_sequences ≡ length b.entry_sequences)
        × ((i t : ℕ)
            → slot (remove_entries (n % 65536) b) i ≡ some t
            → (slot b i ≡ some t) × Stays t)
  remove_entries-from le = elim (Bool-cases (ltb (n - top) (length b.entry_sequences))) [
    | inl close ↦
        let l = remove_range-Leaves (n - top + 1) (top % 65536) b h.indexed h.some_slots in
        rw (remove_entries-split le, close)
          (l.same_slots, λ i t e. ((l.from i t e).0, range-Stays t (l.from i t e).1))
    | inr far ↦
        rw (remove_entries-split le, far)
          (clear-Leaves.same_slots, λ i t e. absurd (clear-Leaves.from i t e).1)
  ]

  -- The top after the insertion of `n`.
  abbrev pub next_top : ℕ
  next_top = max top (n + 1)

  abbrev pub Received' : ℕ → Type 0
  Received' m = Received m ⊎ (m ≡ n)

  advanced :
      (b1 : SequenceBuffer T)
      → top ≤ n
      → length b1.entry_sequences ≡ length b.entry_sequences
      → b1.sequence_num ≡ (n + 1) % 65536
      → ((i t : ℕ) → slot b1 i ≡ some t → (slot b i ≡ some t) × Stays t)
      → Tracks Received' (n + 1) b1
  advanced b1 le size number from = record {
    some_slots = rw size h.some_slots;
    few_slots = rw size h.few_slots;
    first_turn = omega (arith, h.first_turn);
    number = number;
    indexed = λ i s e. h.indexed i s (from i s e).0 ∙ ap (λ (c : ℕ). s % c) (sym size);
    slots = λ i s e.
        let (m, received, at, old, below) = h.slots i s (from i s e).0 in
        let stays : n < m + 65536 = (from i s e).1 m at old below in
        (m, inl received, at, omega arith, omega arith);
  }

  pub not_advanced : n < top → Tracks Received' next_top b
  not_advanced lt = record {
    some_slots = h.some_slots;
    few_slots = h.few_slots;
    first_turn = omega (arith, h.first_turn);
    number = h.number ∙ ap (λ (m : ℕ). m % 65536) (omega arith);
    indexed = h.indexed;
    slots = λ i s e.
        let (m, received, at, old, below) = h.slots i s e in
        (m, inl received, at, omega arith, omega arith);
  }

  -- The buffer advances exactly to a number that is not below its top.
  pub advance-cases :
      top ≤ n + 32768
      → ((top ≤ n)
          × (advance_sequence (n % 65536) b
              ≡ record (remove_entries (n % 65536) b) { sequence_num = (n + 1) % 65536 }))
        ⊎ ((n < top) × (advance_sequence (n % 65536) b ≡ b))
  unfolding advance_sequence
  advance-cases late =
      let next : wrapping_add (n % 65536) 1 ≡ (n + 1) % 65536 = omega arith in
      let test : sequence_greater_than (wrapping_add (n % 65536) 1) b.sequence_num
          ≡ ltb top (n + 1) =
        ap₂ sequence_greater_than next h.number
        ∙ greater-unwrapped (n + 1) top (omega arith) (omega arith) in
      elim (dec_le top n) [
        | yes le ↦
            let t : ltb top (n + 1) ≡ true = ground arith in
            inl (
              le,
              rw (test, t)
                  (ap (λ (c : ℕ). record (remove_entries (n % 65536) b) { sequence_num = c }) next),
            )
        | no lt ↦ let t : ltb top (n + 1) ≡ false = ground arith in inr (omega arith, rw (test, t))
      ]

  pub advance-Tracks : top ≤ n + 32768 → Tracks Received' next_top (advance_sequence (n % 65536) b)
  advance-Tracks late = elim (advance-cases late) [
    | inl (le, e) ↦
        let m : next_top ≡ n + 1 = omega arith in
        let (size, from) = remove_entries-from le in
        rw (e, m)
          (advanced (record (remove_entries (n % 65536) b) { sequence_num = (n + 1) % 65536 }) le
            size refl from)
    | inr (lt, e) ↦ rw e (not_advanced lt)
  ]

  -- A number that is too old lies below the top.
  pub rejected-old :
      n + length b.entry_sequences < top + 32768
      → top ≤ n + 32768
      → sequence_less_than
          (n % 65536)
          (wrapping_sub b.sequence_num (length b.entry_sequences % 65536))
        ≡ true
      → n < top
  unfolding sequence_less_than
  rejected-old close late e =
      let base : wrapping_sub b.sequence_num (length b.entry_sequences % 65536)
          ≡ (top - length b.entry_sequences) % 65536 =
        omega (arith, h.number, h.few_slots, h.first_turn) in
      let test : sequence_greater_than ((top - length b.entry_sequences) % 65536) (n % 65536)
          ≡ ltb n (top - length b.entry_sequences) =
        greater-unwrapped (top - length b.entry_sequences) n (omega arith)
          (omega (arith, h.few_slots, h.first_turn)) in
      let lt : ltb n (top - length b.entry_sequences) ≡ true =
        sym test ∙ ap (λ (c : ℕ). sequence_greater_than c (n % 65536)) (sym base) ∙ e in
      omega (arith, ltb→lt _ _ lt)
