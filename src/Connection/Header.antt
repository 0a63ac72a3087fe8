-- ===== src/Connection/Header.antt =====
-- shared/src/connection/standard_header.rs: StandardHeader. Its serialization is the derived one,
-- field by field.
use naia.Base.{
  ℕ, ◌+◌, ◌^◌, ◌≤◌, ◌<◌, ◌≡◌, ◌∙◌, Bool, List, ◌++◌, append_assoc, arith, length, length-append,
}
use naia.Base.Outcome.{Outcome, ok, ◌>>=◌}
use naia.Serde.Interface.{BitWrite, IsBitWrite, Emits, Emits-seq}
use naia.Serde.Reader.{BitReader}
use naia.Serde.Reader.Remaining.{IsValid, remaining, Reads}
use naia.Serde.Codec.{Serde, IsSerde}
use naia.Serde.Codec.Primitives.{uint_serde, uint_serde-IsSerde, uint-Fits, uint_bits-length}
use naia.Connection.PacketType.{
  PacketType, packet_type_serde, packet_type_serde-IsSerde, any_type, packet_type-short,
}
use naia.Serde.Codec.Wire.{Arrives, codec_over_wire}

pub record StandardHeader : Type 0 where
  pub packet_type : PacketType
  pub sender_packet_index : ℕ
  pub sender_ack_index : ℕ
  pub sender_ack_bitfield : ℕ

unfoldable pub ser : {W : Type 0} → BitWrite W → StandardHeader → W → Outcome W
ser o h w = do
  w1 ← packet_type_serde.ser o h.packet_type w
  w2 ← (uint_serde 2).ser o h.sender_packet_index w1
  w3 ← (uint_serde 2).ser o h.sender_ack_index w2
  (uint_serde 4).ser o h.sender_ack_bitfield w3

unfoldable pub de : BitReader → Outcome (StandardHeader × BitReader)
de r = do
  (packet_type, r1) ← packet_type_serde.de r
  (packet_index, r2) ← (uint_serde 2).de r1
  (ack_index, r3) ← (uint_serde 2).de r2
  (ack_bitfield, r4) ← (uint_serde 4).de r3
  ok (
    record {
      packet_type = packet_type;
      sender_packet_index = packet_index;
      sender_ack_index = ack_index;
      sender_ack_bitfield = ack_bitfield;
    },
    r4,
  )

unfoldable pub bit_length : StandardHeader → ℕ
bit_length h =
    packet_type_serde.bit_length h.packet_type
    + (uint_serde 2).bit_length h.sender_packet_index
    + (uint_serde 2).bit_length h.sender_ack_index
    + (uint_serde 4).bit_length h.sender_ack_bitfield

unfoldable pub header_serde : Serde StandardHeader
unfolding ser de bit_length
header_serde = record { ser = ser; de = de; bit_length = bit_length }

-- The indices are u16 and the bitfield is u32.
pub record IsHeader (h : StandardHeader) : Type 0 where
  pub packet_index : h.sender_packet_index < 2 ^ 16
  pub ack_index : h.sender_ack_index < 2 ^ 16
  pub ack_bitfield : h.sender_ack_bitfield < 2 ^ 32

abbrev header_bits : StandardHeader → List Bool
header_bits h =
    packet_type_serde-IsSerde.bits h.packet_type
    ++ ((uint_serde-IsSerde 2).bits h.sender_packet_index
        ++ ((uint_serde-IsSerde 2).bits h.sender_ack_index
            ++ (uint_serde-IsSerde 4).bits h.sender_ack_bitfield))

header-Emits :
    {W : Type 0} {o : BitWrite W} (l : IsBitWrite o) (h : StandardHeader)
    → IsHeader h
    → Emits l (ser o h) (header_bits h)
unfolding ser
header-Emits {o = o} l h fits =
    Emits-seq l (packet_type_serde.ser o h.packet_type) _ _ _
      (packet_type_serde-IsSerde.ser-Emits l h.packet_type (any_type h.packet_type))
      (Emits-seq l ((uint_serde 2).ser o h.sender_packet_index) _ _ _
        ((uint_serde-IsSerde 2).ser-Emits l h.sender_packet_index (uint-Fits 2 _ fits.packet_index))
        (Emits-seq l ((uint_serde 2).ser o h.sender_ack_index)
          ((uint_serde 4).ser o h.sender_ack_bitfield) _ _
          ((uint_serde-IsSerde 2).ser-Emits l h.sender_ack_index (uint-Fits 2 _ fits.ack_index))
          ((uint_serde-IsSerde 4).ser-Emits l h.sender_ack_bitfield
            (uint-Fits 4 _ fits.ack_bitfield))))

header-Reads :
    (h : StandardHeader) (r : BitReader) (rest : List Bool)
    → IsHeader h
    → IsValid r
    → remaining r ≡ header_bits h ++ rest
    → Reads (de r) h rest
unfolding de
header-Reads h r rest fits valid e =
    let b1 = packet_type_serde-IsSerde.bits h.packet_type in
    let b2 = (uint_serde-IsSerde 2).bits h.sender_packet_index in
    let b3 = (uint_serde-IsSerde 2).bits h.sender_ack_index in
    let b4 = (uint_serde-IsSerde 4).bits h.sender_ack_bitfield in
    let (r1, p1, h1, e1) =
      packet_type_serde-IsSerde.de-Reads h.packet_type r ((b2 ++ (b3 ++ b4)) ++ rest)
        (any_type h.packet_type) valid (e ∙ append_assoc b1 (b2 ++ (b3 ++ b4)) rest) in
    let (r2, p2, h2, e2) =
      (uint_serde-IsSerde 2).de-Reads h.sender_packet_index r1 ((b3 ++ b4) ++ rest)
        (uint-Fits 2 _ fits.packet_index) h1 (e1 ∙ append_assoc b2 (b3 ++ b4) rest) in
    let (r3, p3, h3, e3) =
      (uint_serde-IsSerde 2).de-Reads h.sender_ack_index r2 (b4 ++ rest)
        (uint-Fits 2 _ fits.ack_index) h2 (e2 ∙ append_assoc b3 b4 rest) in
    let (r4, p4, h4, e4) =
      (uint_serde-IsSerde 4).de-Reads h.sender_ack_bitfield r3 rest
        (uint-Fits 4 _ fits.ack_bitfield) h3 e3 in
    (r4, rw (p1, p2, p3, p4), h4, e4)

-- A header of u16 indices and a u32 bitfield is read back from what is written for it.
pub header_serde-IsSerde : IsSerde header_serde
unfolding header_serde
header_serde-IsSerde = record {
  Fits = IsHeader;
  bits = header_bits;
  ser-Emits = header-Emits;
  de-Reads = header-Reads;
}

header_bits_short : (h : StandardHeader) → length (header_bits h) ≤ 67
header_bits_short h =
    let b1 = packet_type_serde-IsSerde.bits h.packet_type in
    let b2 = (uint_serde-IsSerde 2).bits h.sender_packet_index in
    let b3 = (uint_serde-IsSerde 2).bits h.sender_ack_index in
    let b4 = (uint_serde-IsSerde 4).bits h.sender_ack_bitfield in
    omega (
      arith,
      packet_type-short h.packet_type,
      length-append b1 (b2 ++ (b3 ++ b4)),
      length-append b2 (b3 ++ b4),
      length-append b3 b4,
      uint_bits-length 2 h.sender_packet_index,
      uint_bits-length 2 h.sender_ack_index,
      uint_bits-length 4 h.sender_ack_bitfield,
    )

-- Every header of u16 indices and a u32 bitfield arrives over the wire as it was sent.
pub header_over_wire : (h : StandardHeader) → IsHeader h → Arrives header_serde h
unfolding header_serde-IsSerde
header_over_wire h fits =
    codec_over_wire header_serde header_serde-IsSerde h fits (omega (arith, header_bits_short h))
