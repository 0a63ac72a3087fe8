-- ===== src/Serde/Number/Decode.antt =====
-- Decoding a number from its bits.
use naia.Base.{
  ℕ, zero, suc, ◌+◌, ◌*◌, ◌/◌, ◌%◌, ◌^◌, ◌≤◌, ◌<◌, ◌≡◌, refl, ap, ◌∙◌, inl, inr, Bool, true, false,
  List, [], ◌∷◌, ◌++◌, append_assoc, append-nil, arith, ltb, leb, length, Bool-cases, dec_lt,
  leb→le, length-append, dec_le,
}
use naia.Base.Outcome.{ok}
use naia.Serde.Bits.{to_bits, to_bits-split, length-to_bits, from_bits-to_bits}
use naia.Serde.Reader.{BitReader, read_lsb}
use naia.Serde.Reader.Remaining.{IsValid, remaining, Reads, read_bit-Reads}
use naia.Serde.Reader.Loops.{read_lsb_value}
use naia.Serde.Number.{or_shifted, de_chunks, de_fixed, de_wide}
use naia.Serde.Number.Encode.{chunk_bits, fuel_left, one_round}
use naia.Serde.Number.Wide.{de_wide-Reads}
use native.Mathlib.Nat.{
  mod-eq_of_lt, mod-lt, div-add-mod, one-le-pow, pow-le-pow_right, mul-le-mul_right,
}
use naia.Base.Bits.{bit_or_shifted, pow_add, fields-lt, div-pow-lt}
use mathlib.Core.Path.{subst}

to_bits-mod : (w n : ℕ) → to_bits w n ≡ to_bits w (n % 2 ^ w)
to_bits-mod w n =
    let e : w + 0 ≡ w = omega arith in (rw e at (to_bits-split w 0 n)) ∙ rw (none_left, append-nil)
  where
    none_left : to_bits 0 (n / 2 ^ w) ≡ []
    none_left = unfold to_bits in refl

or_shifted-ok :
    (output chunk shift : ℕ)
    → shift < 128
    → output < 2 ^ shift
    → chunk * 2 ^ shift < 2 ^ 128
    → or_shifted output chunk shift ≡ ok (output + chunk * 2 ^ shift)
unfolding or_shifted
or_shifted-ok output chunk shift hs ho hc =
    let t : ltb shift 128 ≡ true = ground arith in
    rw (t, mod-eq_of_lt hc, bit_or_shifted shift chunk output ho)

-- A chunk of up to 32 bits.
chunk-Reads :
    (bits value : ℕ) (r : BitReader) (rest : List Bool)
    → bits ≤ 32
    → IsValid r
    → remaining r ≡ to_bits bits value ++ rest
    → Reads (read_lsb 32 bits 0 0 r) (value % 2 ^ bits) rest
chunk-Reads bits value r rest fits h e =
    read_lsb_value 32 bits (value % 2 ^ bits) r rest fits
      (mod-lt value (one-le-pow bits 2 (omega arith))) h
      (e ∙ ap (λ (l : List Bool). l ++ rest) (to_bits-mod bits value))

-- The lowest chunk and the rest, both shifted by `s`.
split_chunk :
    (value s bits : ℕ)
    → value * 2 ^ s ≡ value % 2 ^ bits * 2 ^ s + value / 2 ^ bits * 2 ^ (s + bits)
split_chunk value s bits = omega (
  arith,
  ap (λ (t : ℕ). t * 2 ^ s) (div-add-mod value (2 ^ bits)),
  ap (λ (t : ℕ). value / 2 ^ bits * t) (pow_add s bits),
)

pow-lt-pow_inv : (a b : ℕ) → 2 ^ a < 2 ^ b → a < b
pow-lt-pow_inv a b h = elim (dec_lt a b) [
  | yes lt ↦ lt
  | no ge ↦
      let le : 2 ^ b ≤ 2 ^ a =
        pow-le-pow_right {n = 2} (omega arith) {i = b} {j = a} (omega arith) in
      absurd (omega (arith, le))
]

quotient_pos : (v m : ℕ) → 0 < m → m ≤ v → 1 ≤ v / m
quotient_pos v m some_m le = elim (dec_lt 0 (v / m)) [
  | yes lt ↦ lt
  | no none_fit ↦
      let z : v / m ≡ 0 = omega arith in
      absurd (omega (arith, div-add-mod v m, mod-lt v some_m, ap (λ (t : ℕ). m * t) z))
]

-- One round of the loop takes the bit that announces another chunk, and a chunk.
chunk_round :
    (g bits value output shift : ℕ) (proceed : Bool) (r : BitReader) (rest : List Bool)
    → bits ≤ 32
    → shift < 128
    → output < 2 ^ shift
    → output + value * 2 ^ shift < 2 ^ 127
    → IsValid r
    → remaining r ≡ proceed ∷ (to_bits bits value ++ rest)
    → let output' = output + value % 2 ^ bits * 2 ^ shift in
      (r' : BitReader) × (de_chunks (suc g) bits output shift r ≡ (elim proceed [
        | true ↦ de_chunks g bits output' (shift + bits) r'
        | false ↦ ok (output', r')
      ]))
      × IsValid r'
      × (remaining r' ≡ rest)
unfolding de_chunks
chunk_round g bits value output shift proceed r rest hb hs ho ht h e =
    let (r', got, h', e') = read_bit-Reads r proceed (to_bits bits value ++ rest) h e in
    let (r'', chunk, h'', e'') = chunk-Reads bits value r' rest hb h' e' in
    let small : value % 2 ^ bits * 2 ^ shift < 2 ^ 128 =
      omega (arith, ht, split_chunk value shift bits) in
    (r'', rw (got, chunk, or_shifted-ok output (value % 2 ^ bits) shift hs ho small), h'', e'')

-- What the sender writes in chunks of at most 32 bits is what the receiver reads.
pub de_chunks-Reads :
    (fuel g bits value output shift : ℕ) (r : BitReader) (rest : List Bool)
    → 0 < bits
    → bits ≤ 32
    → 0 < fuel
    → value < 2 ^ (fuel * bits)
    → length (chunk_bits fuel bits value ++ rest) < g
    → shift < 128
    → output < 2 ^ shift
    → output + value * 2 ^ shift < 2 ^ 127
    → IsValid r
    → remaining r ≡ chunk_bits fuel bits value ++ rest
    → Reads (de_chunks g bits output shift r) (output + value * 2 ^ shift) rest
unfolding chunk_bits
de_chunks-Reads zero g bits value output shift r rest hb0 hb hf hv hg hs ho ht h e =
    absurd (omega arith)
de_chunks-Reads (suc fuel) zero bits value output shift r rest hb0 hb hf hv hg hs ho ht h e =
    absurd (omega arith)
de_chunks-Reads (suc fuel) (suc g) bits value output shift r rest hb0 hb hf hv hg hs ho ht h e =
    elim (Bool-cases (leb (2 ^ bits) value)) [
      | inl more ↦
          let e1 : remaining r ≡ true ∷ (to_bits bits value ++ (tail ++ rest)) =
            rw (more, append_assoc) at e in
          let (r', step, h', e') =
            chunk_round g bits value output shift true r (tail ++ rest) hb hs ho ht h e1 in
          let le : 2 ^ bits ≤ value = leb→le _ _ more in
          let hg' : suc (length ((to_bits bits value ++ tail) ++ rest)) < suc g = rw more at hg in
          let len : length (tail ++ rest) < g = omega (
            arith,
            hg',
            ap length (append_assoc (to_bits bits value) tail rest),
            length-append (to_bits bits value) (tail ++ rest),
          ) in
          let one : 1 ≤ value / 2 ^ bits =
            quotient_pos value (2 ^ bits) (one-le-pow bits 2 (omega arith)) le in
          let some : 1 * 2 ^ (shift + bits) ≤ value / 2 ^ bits * 2 ^ (shift + bits) =
            mul-le-mul_right (2 ^ (shift + bits)) one in
          let (r'', done, h'', e'') =
            de_chunks-Reads fuel g bits (value / 2 ^ bits) output' (shift + bits) r' rest hb0 hb
              (fuel_left fuel bits value hv le)
              (div-pow-lt bits (fuel * bits) value (one_round fuel bits value hv)) len
              (omega (
                arith,
                pow-lt-pow_inv (shift + bits) 127
                    (omega (arith, some, split_chunk value shift bits)),
              ))
              out-lt (omega (arith, split_chunk value shift bits)) h' e' in
          (
            r'',
            step ∙ done ∙ ap (λ (n : ℕ). ok (n, r'')) (omega (arith, split_chunk value shift bits)),
            h'',
            e'',
          )
      | inr last ↦
          let e1 : remaining r ≡ false ∷ (to_bits bits value ++ rest) =
            rw (last, append-nil) at e in
          let (r', step, h', e') =
            chunk_round g bits value output shift false r rest hb hs ho ht h e1 in
          let small : value % 2 ^ bits ≡ value = mod-eq_of_lt (ground (arith, last)) in
          (r', step ∙ ap (λ (n : ℕ). ok (output + n * 2 ^ shift, r')) small, h', e')
    ]
  where
    output' : ℕ
    output' = output + value % 2 ^ bits * 2 ^ shift

    out-lt : output' < 2 ^ (shift + bits)
    out-lt =
        fields-lt output shift (value % 2 ^ bits) bits ho
          (mod-lt value (one-le-pow bits 2 (omega arith)))

    tail : List Bool
    tail = chunk_bits fuel bits (value / 2 ^ bits)

pub fixed-Reads :
    (bits v : ℕ) (r : BitReader) (rest : List Bool)
    → bits ≤ 128
    → v < 2 ^ bits
    → IsValid r
    → remaining r ≡ to_bits bits v ++ rest
    → Reads (de_fixed bits r) v rest
unfolding de_fixed
fixed-Reads bits v r rest fits hv h e = elim (dec_le bits 32) [
  | yes narrow ↦
      let t : leb bits 32 ≡ true = ground arith in
      rw t (read_lsb_value 32 bits v r rest narrow hv h e)
  | no wider ↦ elim (dec_le bits 64) [
    | yes middle ↦
        let t : leb bits 32 ≡ false = ground arith in
        let u : leb bits 64 ≡ true = ground arith in
        rw (t, u) (read_lsb_value 64 bits v r rest middle hv h e)
    | no wide ↦
        let t : leb bits 32 ≡ false = ground arith in
        let u : leb bits 64 ≡ false = ground arith in
        rw (t, u)
          (subst (λ (k : ℕ). Reads (de_wide k r) v rest) (length-to_bits bits v)
            (subst (λ (x : ℕ). Reads (de_wide (length (to_bits bits v)) r) x rest)
              (from_bits-to_bits bits v hv)
              (de_wide-Reads (to_bits bits v) r rest (omega (arith, length-to_bits bits v)) h e)))
  ]
]
