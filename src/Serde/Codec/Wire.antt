-- ===== src/Serde/Codec/Wire.antt =====
-- Values of any type with a lawful Serde over the wire: BitWriter, `to_bytes`, BitReader; and their
-- measurement with a BitCounter.
use naia.Base.{ℕ, ◌+◌, ◌≤◌, ◌<◌, max, ◌≡◌, ◌↔◌, true, false, List, length, replicate}
use naia.Base.Outcome.{ok}
use naia.Serde.Writer
use naia.Serde.Writer.{BitWriter, mtu_size_bits, to_bytes, bit_writer}
use naia.Serde.Writer.Bytes.{bit_writer-IsBitWrite}
use naia.Serde.Reader
use naia.Serde.Reader.{BitReader}
use naia.Serde.Reader.Remaining.{new-IsValid}
use naia.Serde.Counter
use naia.Serde.Counter.{
  BitCounter, bit_counter, bit_counter-IsBitWrite, emitted-counted, bits_needed, overflowed,
}
use naia.Serde.Wire.{emitted-received}
use naia.Serde.Codec.{Serde, IsSerde}
use naia.Serde.Codec.Lists.{list_serde, list_serde-IsSerde, ListFits, list_bits}

-- The value, written into a new BitWriter, handed on as bytes and read from them, is the same.
abbrev pub Arrives : {T : Type 0} → Serde T → T → Type 0
Arrives s x =
    (w : BitWriter) × (bytes : List ℕ) × (r : BitReader) × (s.ser bit_writer x Writer.new ≡ ok w)
    × (to_bytes w ≡ ok bytes)
    × (s.de (Reader.new bytes) ≡ ok (x, r))

pub codec_over_wire :
    {T : Type 0} (s : Serde T) (l : IsSerde s) (x : T)
    → l.Fits x
    → length (l.bits x) ≤ mtu_size_bits
    → Arrives s x
codec_over_wire s l x fits short =
    let (w, bytes, pad, written, handed, left) =
      emitted-received (s.ser bit_writer x) (l.bits x) (l.ser-Emits bit_writer-IsBitWrite x fits)
        short in
    let (r, read, _, _) =
      l.de-Reads x (Reader.new bytes) (replicate pad false) fits (new-IsValid bytes) left in
    (w, bytes, r, written, handed, read)

-- A list whose items fit, whose memory stays below isize::MAX, and whose bits fit one packet
-- arrives over the wire as it was sent.
pub list_over_wire :
    {T : Type 0} (size : ℕ) (s : Serde T) (l : IsSerde s) (xs : List T)
    → ListFits size l xs
    → length (list_bits size l xs) ≤ mtu_size_bits
    → Arrives (list_serde size s) xs
unfolding list_serde-IsSerde
list_over_wire size s l xs fits short =
    codec_over_wire (list_serde size s) (list_serde-IsSerde size l) xs fits short

-- A counter that measures a value needs the bits that are written for it.
pub codec_counted :
    {T : Type 0} (s : Serde T) (l : IsSerde s) (x : T) (start max : ℕ)
    → l.Fits x
    → (c : BitCounter) × (s.ser bit_counter x (Counter.new start start max) ≡ ok c)
      × (bits_needed c ≡ ok (length (l.bits x)))
      × ((overflowed c ≡ true) ↔ (max < start + length (l.bits x)))
codec_counted s l x start max fits =
    emitted-counted (s.ser bit_counter x) (l.bits x) start max
      (l.ser-Emits bit_counter-IsBitWrite x fits)
