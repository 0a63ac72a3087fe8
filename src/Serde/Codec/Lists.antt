-- ===== src/Serde/Codec/Lists.antt =====
-- Vec and VecDeque: a length in variable chunks of five bits, then the items. Both have the same
-- code. `size` is std::mem::size_of of an item.
use naia.Base.{
  ℕ, zero, suc, ◌+◌, ◌*◌, ◌%◌, ◌^◌, ◌≤◌, ◌<◌, ◌≡◌, refl, ◌∙◌, Bool, true, false, List, [], ◌∷◌,
  ◌++◌, append_assoc, arith, ltb, if◌then◌else◌, length, All, length-append,
}
use naia.Base.Int.{ℤ, pos, as_u128}
use naia.Base.Outcome.{Outcome, ok, panic, ◌>>=◌}
use naia.Serde.Interface.{BitWrite, IsBitWrite, Emits, Emits-seq, Emits-nil}
use naia.Serde.Reader.{BitReader}
use naia.Serde.Reader.Remaining.{IsValid, remaining, Reads}
use naia.Serde.Number
use naia.Serde.Number.{SerdeNumberInner, new_unchecked}
use naia.Serde.Number.Encode.{number_bits, IsNumber, ser-Emits}
use naia.Serde.Number.Construct.{new_iff}
use naia.Serde.Number.RoundTrip.{number_round_trip, length-number_bits, IsReadable}
use naia.Serde.Codec.{Serde, IsSerde, IsMeasured}

-- `UnsignedVariableInteger::<BITS>::new(n)` and `get() as usize`.
abbrev pub unsigned_variable : ℕ → ℕ → Outcome SerdeNumberInner
unsigned_variable bits n = Number.new false true bits 0 (pos n)

abbrev pub as_usize : ℤ → ℕ
as_usize z = as_u128 z % 2 ^ 64

-- `with_capacity(n)` of items of `size` bytes, which panics beyond isize::MAX bytes.
abbrev pub checked_capacity : ℕ → ℕ → Outcome ℕ
checked_capacity size n = if ltb (size * n) (2 ^ 63) then ok n else panic

abbrev pub length_number : ℕ → ℕ → SerdeNumberInner
length_number bits n = record {
  inner_value = pos n;
  signed = false;
  variable = true;
  bits = bits;
  fraction_digits = 0;
}

pub unsigned_variable-ok :
    (bits n : ℕ) → 0 < bits → bits ≤ 127 → unsigned_variable bits n ≡ ok (length_number bits n)
unfolding new_unchecked
unsigned_variable-ok bits n some_bits few_bits =
    (new_iff false true bits 0 (pos n) (length_number bits n)).1 (
      record { some_bits = some_bits; few_bits = few_bits; sign = λ _. refl; range = λ e. cc },
      refl,
    )

pub length_number-IsNumber :
    (bits n : ℕ)
    → 0 < bits
    → bits ≤ 32
    → n < 2 ^ 63
    → IsNumber (length_number bits n) × IsReadable (length_number bits n)
length_number-IsNumber bits n some_bits few_bits small = (
  record { some_bits = some_bits; sign = λ _. refl; small = omega arith; fits = λ e. cc },
  (omega arith, λ _. few_bits),
)

module _ {T : Type 0} (size : ℕ) (s : Serde T) where
  unfoldable pub ser_items : {W : Type 0} → BitWrite W → List T → W → Outcome W
  ser_items o [] w = ok w
  ser_items o (x ∷ xs) w = do w' ← s.ser o x w; ser_items o xs w'

  unfoldable pub ser_list : {W : Type 0} → BitWrite W → List T → W → Outcome W
  unfolding ser_items
  ser_list o xs w = do
    count ← unsigned_variable 5 (length xs)
    w' ← Number.ser o count w
    ser_items o xs w'

  unfoldable pub de_items : ℕ → BitReader → Outcome (List T × BitReader)
  de_items zero r = ok ([], r)
  de_items (suc n) r = do (x, r') ← s.de r; (xs, r'') ← de_items n r'; ok (x ∷ xs, r'')

  unfoldable pub de_list : BitReader → Outcome (List T × BitReader)
  unfolding de_items
  de_list r = do
    (count, r') ← Number.de false true 5 0 r
    n ← checked_capacity size (as_usize count.inner_value)
    de_items n r'

  unfoldable pub items_length : List T → ℕ
  items_length [] = 0
  items_length (x ∷ xs) = s.bit_length x + items_length xs

  -- `new` takes every length here.
  unfoldable pub list_length : List T → ℕ
  unfolding items_length
  list_length xs =
      Number.bit_length (Number.new_unchecked false true 5 0 (pos (length xs))) + items_length xs

  unfoldable pub list_serde : Serde (List T)
  unfolding ser_list de_list list_length
  list_serde = record { ser = ser_list; de = de_list; bit_length = list_length }

module _ {T : Type 0} (size : ℕ) {s : Serde T} (l : IsSerde s) where
  -- The items together take less than isize::MAX bytes of memory.
  abbrev pub ListFits : List T → Type 0
  ListFits xs = All l.Fits xs × (size * length xs < 2 ^ 63) × (length xs < 2 ^ 63)

  unfoldable pub items_bits : List T → List Bool
  items_bits [] = []
  items_bits (x ∷ xs) = l.bits x ++ items_bits xs

  abbrev pub list_bits : List T → List Bool
  list_bits xs = number_bits (length_number 5 (length xs)) ++ items_bits xs

  ser_items-Emits :
      {W : Type 0} {o : BitWrite W} (k : IsBitWrite o) (xs : List T)
      → All l.Fits xs
      → Emits k (ser_items size s o xs) (items_bits xs)
  unfolding ser_items items_bits
  ser_items-Emits k [] h = Emits-nil k
  ser_items-Emits {o = o} k (x ∷ xs) h =
      Emits-seq k (s.ser o x) (ser_items size s o xs) _ _ (l.ser-Emits k x h.0)
        (ser_items-Emits k xs h.1)

  pub ser_list-Emits :
      {W : Type 0} {o : BitWrite W} (k : IsBitWrite o) (xs : List T)
      → ListFits xs
      → Emits k (ser_list size s o xs) (list_bits xs)
  unfolding ser_list
  ser_list-Emits {o = o} k xs h =
      rw (unsigned_variable-ok 5 (length xs) (omega arith) (omega arith)) (
        Emits-seq k (Number.ser o (length_number 5 (length xs))) (ser_items size s o xs) _ _
          (ser-Emits k (length_number 5 (length xs))
            (length_number-IsNumber 5 (length xs) (omega arith) (omega arith) h.2).0)
          (ser_items-Emits k xs h.0))

  de_items-Reads :
      (xs : List T) (r : BitReader) (rest : List Bool)
      → All l.Fits xs
      → IsValid r
      → remaining r ≡ items_bits xs ++ rest
      → Reads (de_items size s (length xs) r) xs rest
  unfolding de_items items_bits
  de_items-Reads [] r rest fits h e = (r, refl, h, e)
  de_items-Reads (x ∷ xs) r rest fits h e =
      let (r1, p1, h1, e1) =
        l.de-Reads x r (items_bits xs ++ rest) fits.0 h
          (e ∙ append_assoc (l.bits x) (items_bits xs) rest) in
      let (r2, p2, h2, e2) = de_items-Reads xs r1 rest fits.1 h1 e1 in (r2, rw (p1, p2), h2, e2)

  pub de_list-Reads :
      (xs : List T) (r : BitReader) (rest : List Bool)
      → ListFits xs
      → IsValid r
      → remaining r ≡ list_bits xs ++ rest
      → Reads (de_list size s r) xs rest
  unfolding de_list
  de_list-Reads xs r rest (fits, room, short) h e =
      let (number, readable) =
        length_number-IsNumber 5 (length xs) (omega arith) (omega arith) short in
      let (r1, p1, h1, e1) =
        number_round_trip (length_number 5 (length xs)) r (items_bits xs ++ rest) number readable h
          (e ∙ append_assoc (number_bits (length_number 5 (length xs))) (items_bits xs) rest) in
      let (r2, p2, h2, e2) = de_items-Reads xs r1 rest fits h1 e1 in
      let small : length xs % 2 ^ 64 ≡ length xs = omega arith in
      let capacity : ltb (size * length xs) (2 ^ 63) ≡ true = ground (arith, room) in
      (r2, rw (p1, small, capacity, p2), h2, e2)

  -- A Vec over a type that meets the laws of a round trip meets them.
  unfoldable pub list_serde-IsSerde : IsSerde (list_serde size s)
  unfolding list_serde
  list_serde-IsSerde = record {
    Fits = ListFits;
    bits = list_bits;
    ser-Emits = ser_list-Emits;
    de-Reads = de_list-Reads;
  }

  items_bits-length :
      IsMeasured s l
      → (xs : List T) → All l.Fits xs
      → items_length size s xs ≡ length (items_bits xs)
  unfolding items_length items_bits
  items_bits-length m [] h = refl
  items_bits-length m (x ∷ xs) h =
      omega (arith, length-append (l.bits x) (items_bits xs), m x h.0, items_bits-length m xs h.1)

  -- `bit_length` of a Vec is the number of bits that it is written as, if that of each item is.
  pub list_serde-IsMeasured : IsMeasured s l → IsMeasured (list_serde size s) list_serde-IsSerde
  unfolding list_serde list_serde-IsSerde list_length new_unchecked
  list_serde-IsMeasured m xs h = omega (
    arith,
    length-append (number_bits (length_number 5 (length xs))) (items_bits xs),
    length-number_bits (length_number 5 (length xs)),
    items_bits-length m xs h.0,
  )
