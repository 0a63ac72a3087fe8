-- ===== src/Serde/Codec.antt =====
-- shared/serde/src/serde.rs: the trait Serde, with the laws of a round trip, and
-- shared/serde/src/impls: its implementations for bool, the unsigned integers, Option, and Vec and
-- VecDeque.
pub mod Primitives
pub mod Lists
pub mod Wire
use naia.Base.{ℕ, ◌≡◌, ◌++◌, List, Bool, length}
use naia.Base.Outcome.{Outcome}
use naia.Serde.Interface.{BitWrite, IsBitWrite, Emits}
use naia.Serde.Reader.{BitReader}
use naia.Serde.Reader.Remaining.{IsValid, remaining, Reads}

pub record Serde (T : Type 0) : Type 1 where
  pub ser : {W : Type 0} → BitWrite W → T → W → Outcome W
  pub de : BitReader → Outcome (T × BitReader)
  pub bit_length : T → ℕ

-- `bits` is what a value is on the wire, for the values that `Fits` admits: every BitWrite gets
-- these bits, and a reader takes exactly them and returns the value.
pub record IsSerde {T : Type 0} (s : Serde T) : Type 1 where
  pub Fits : T → Type 0
  pub bits : T → List Bool
  pub ser-Emits :
      {W : Type 0} {o : BitWrite W} (l : IsBitWrite o) (x : T)
      → Fits x
      → Emits l (s.ser o x) (bits x)
  pub de-Reads :
      (x : T) (r : BitReader) (rest : List Bool)
      → Fits x
      → IsValid r
      → remaining r ≡ bits x ++ rest
      → Reads (s.de r) x rest

-- `bit_length` tells how many bits are written.
abbrev pub IsMeasured : {T : Type 0} (s : Serde T) → IsSerde s → Type 0
IsMeasured {T} s l = (x : T) → l.Fits x → s.bit_length x ≡ length (l.bits x)
