-- ===== src/Serde/Interface.antt =====
-- shared/serde/src/bit_writer.rs: the trait BitWrite, with the law that its byte operation has to
-- meet, and what it means that a piece of code emits given bits.
use mathlib.Core.Path.{subst}
use naia.Base.{ℕ, ◌≡◌, ◌++◌, refl, sym, ◌∙◌, Bool, List, [], ◌∷◌, All}
use naia.Base.Outcome.{Outcome, ok, ◌>>=◌, >>=-ok, >>=_assoc, >>=_congr, >>=-eq-ok}
use naia.Serde.Bits.{IsByte, to_bits, byte_bits}

pub record BitWrite (W : Type 0) : Type 0 where
  pub write_bit : Bool → W → Outcome W
  pub write_byte : ℕ → W → Outcome W
  pub is_counter : W → Bool
  pub count_bits : ℕ → W → Outcome W

-- One `write_bit` for each bit of a list, and one `write_byte` for each byte.
module _ {W : Type 0} (o : BitWrite W) where
  unfoldable pub write_bits : List Bool → W → Outcome W
  write_bits [] w = ok w
  write_bits (b ∷ bs) w = o.write_bit b w >>= write_bits bs

  unfoldable pub write_bytes : List ℕ → W → Outcome W
  write_bytes [] w = ok w
  write_bytes (b ∷ bs) w = o.write_byte b w >>= write_bytes bs

  pub write_bits-append :
      (xs ys : List Bool) (w : W) → write_bits (xs ++ ys) w ≡ (write_bits xs w >>= write_bits ys)
  unfolding write_bits
  write_bits-append [] ys w = refl
  write_bits-append (x ∷ xs) ys w =
      >>=_congr (o.write_bit x w) _ _ (λ a _. write_bits-append xs ys a)
      ∙ sym (>>=_assoc (o.write_bit x w) (write_bits xs) (write_bits ys))

-- Writing a byte is writing its eight bits, the lowest first. `Valid` is the implementation's
-- invariant, which writing a bit keeps.
pub record IsBitWrite {W : Type 0} (o : BitWrite W) : Type 1 where
  pub Valid : W → Type 0
  pub write_bit-Valid : (b : Bool) (w w' : W) → Valid w → o.write_bit b w ≡ ok w' → Valid w'
  pub write_byte-bits :
      (n : ℕ) (w : W) → IsByte n → Valid w → o.write_byte n w ≡ write_bits o (to_bits 8 n) w

module _ {W : Type 0} {o : BitWrite W} (l : IsBitWrite o) where
  pub write_bits-Valid :
      (bs : List Bool) (w w' : W) → l.Valid w → write_bits o bs w ≡ ok w' → l.Valid w'
  unfolding write_bits
  write_bits-Valid [] w w' v e = let p : w ≡ w' = cc in subst l.Valid p v
  write_bits-Valid (b ∷ bs) w w' v e =
      let (u, p, q) = >>=-eq-ok (o.write_bit b w) (write_bits o bs) e in
      write_bits-Valid bs u w' (l.write_bit-Valid b w u v p) q

  -- From every valid writer, `f` does what writing the bits `bs` does.
  abbrev pub Emits : (W → Outcome W) → List Bool → Type 0
  Emits f bs = (w : W) → l.Valid w → f w ≡ write_bits o bs w

  pub Emits-nil : Emits ok []
  unfolding write_bits
  Emits-nil w v = refl

  pub Emits-bit : (b : Bool) → Emits (o.write_bit b) (b ∷ [])
  unfolding write_bits
  Emits-bit b w v = sym (>>=-ok (o.write_bit b w))

  pub Emits-byte : (n : ℕ) → IsByte n → Emits (o.write_byte n) (to_bits 8 n)
  Emits-byte n h w v = l.write_byte-bits n w h v

  pub Emits-seq :
      (f g : W → Outcome W) (xs ys : List Bool)
      → Emits f xs
      → Emits g ys
      → Emits (λ w. f w >>= g) (xs ++ ys)
  Emits-seq f g xs ys hf hg w v =
      rw (hf w v, write_bits-append o xs ys w)
        (>>=_congr (write_bits o xs w) _ _ (λ u e. hg u (write_bits-Valid xs w u v e)))

  pub Emits-bytes : (bs : List ℕ) → All IsByte bs → Emits (write_bytes o bs) (byte_bits bs)
  unfolding write_bytes byte_bits
  Emits-bytes [] h = Emits-nil
  Emits-bytes (b ∷ bs) h =
      Emits-seq (o.write_byte b) (write_bytes o bs) (to_bits 8 b) (byte_bits bs) (Emits-byte b h.0)
        (Emits-bytes bs h.1)
