-- ===== src/Connection/SequenceBuffer/Received.antt =====
-- What a SequenceBuffer says of the numbers that were inserted. The numbers are followed without
-- wrapping: `top` is one more than the highest of them, 65536 being the first, and a number is
-- stored as itself modulo 65536.
use naia.Base.{
  ℕ, ◌+◌, ◌%◌, ◌≤◌, ◌<◌, ◌≡◌, refl, true, Option, none, some, arith, length, length-replicate,
  get_or-replicate,
}
use naia.Connection.SequenceBuffer.{SequenceBuffer, with_capacity, exists}
use mathlib.Core.Path.{subst}
use naia.Connection.SequenceBuffer.Removal.{IsIndexed, exists-slot, slot}

-- The slots hold none but numbers of `Received`, not older than a turn of 65536 below `top`.
pub record Tracks {T : Type 0} (Received : ℕ → Type 0) (top : ℕ) (b : SequenceBuffer T)
    : Type 0 where
  pub some_slots : 0 < length b.entry_sequences
  pub few_slots : length b.entry_sequences < 32768
  pub first_turn : 65536 ≤ top
  pub number : b.sequence_num ≡ top % 65536
  pub indexed : IsIndexed b
  pub slots :
      (i s : ℕ)
      → slot b i ≡ some s
      → (n : ℕ) × Received n × (n % 65536 ≡ s) × (top ≤ n + 65536) × (n < top)

pub with_capacity-Tracks :
    {T : Type 0} (Received : ℕ → Type 0) (size : ℕ)
    → 0 < size
    → size < 32768
    → Tracks {T = T} Received 65536 (with_capacity size)
unfolding with_capacity
with_capacity-Tracks Received size pos small = record {
  some_slots = omega (arith, length-replicate {A = Option ℕ} size none);
  few_slots = omega (arith, length-replicate {A = Option ℕ} size none);
  first_turn = omega arith;
  number = refl;
  indexed = λ i s e. cc (get_or-replicate {A = Option ℕ} size i none);
  slots = λ i s e. cc (get_or-replicate {A = Option ℕ} size i none);
}

-- A number that a buffer says to exist was received.
pub exists-Received :
    {T : Type 0} (Received : ℕ → Type 0) (top : ℕ) (b : SequenceBuffer T) (n : ℕ)
    → Tracks Received top b
    → top ≤ n + 65536
    → n < top
    → exists b (n % 65536) ≡ true
    → Received n
exists-Received Received top b n h old below e =
    let (m, received, at, older, under) = h.slots _ _ (exists-slot b (n % 65536) e) in
    let p : m ≡ n = omega arith in subst Received p received
