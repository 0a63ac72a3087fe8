-- ===== src/Channels/ReliableReceiver/Record.antt =====
-- The record of a ReliableReceiver against the set of numbers that it has.
use naia.Base.{
  ℕ, zero, suc, ◌+◌, ◌-◌, ◌%◌, ◌≤◌, ◌<◌, max, ◌≡◌, refl, sym, ap, ◌∙◌, inl, inr, Bool, true, false,
  ◌||◌, List, [], ◌∷◌, arith, ◌==◌, if◌then◌else◌, ==_false, ==_iff, ℕ_discrete, Bool-cases,
}
use naia.Sequence.{wrapping_add}
use naia.Channels.ReliableReceiver.{Placement, already, placed, extend, place, clear_loop}

-- The slots of the numbers from `from` on, `count` of them, for the set `got`.
unfoldable pub slots_of : (ℕ → Bool) → ℕ → ℕ → List (ℕ × Bool)
slots_of got from zero = []
slots_of got from (suc count) = (from % 65536, got from) ∷ slots_of got (from + 1) count

-- The set with one number more.
abbrev pub with_number : ℕ → (ℕ → Bool) → ℕ → Bool
with_number n got k = k == n || got k

slots_of-above :
    (got : ℕ → Bool) (n from count : ℕ)
    → n < from
    → slots_of (with_number n got) from count ≡ slots_of got from count
unfolding slots_of
slots_of-above got n from zero lt = refl
slots_of-above got n from (suc count) lt =
    rw (==_false from n (omega arith), slots_of-above got n (from + 1) count (omega arith))

extend-slots :
    (distance fuel : ℕ) (got : ℕ → Bool) (oldest base i n : ℕ)
    → distance < fuel
    → fuel ≤ 65536
    → oldest ≡ base % 65536
    → n ≡ base + i + distance
    → ((k : ℕ) → base + i ≤ k → got k ≡ false)
    → extend fuel oldest i (n % 65536)
      ≡ placed (slots_of (with_number n got) (base + i) (suc distance))
unfolding extend slots_of
extend-slots zero zero got oldest base i n lt few o at none_yet = elim lt [ ]
extend-slots (suc distance) zero got oldest base i n lt few o at none_yet = elim lt [ ]
extend-slots zero (suc fuel) got oldest base i n lt few o at none_yet =
    let here : wrapping_add oldest (i % 65536) ≡ (base + i) % 65536 = omega arith in
    let same : ((base + i) % 65536 == n % 65536) ≡ true = (==_iff _ _).1 (omega arith) in
    let new_one : (base + i == n) ≡ true = (==_iff _ _).1 (omega arith) in rw (here, same, new_one)
extend-slots (suc distance) (suc fuel) got oldest base i n lt few o at none_yet =
    let here : wrapping_add oldest (i % 65536) ≡ (base + i) % 65536 = omega arith in
    let apart : ((base + i) % 65536 == n % 65536) ≡ false = ==_false _ _ (λ p. omega arith) in
    let other : (base + i == n) ≡ false = ==_false _ _ (omega arith) in
    let next : base + (i + 1) ≡ base + i + 1 = omega arith in
    let ih =
      extend-slots distance fuel got oldest base (i + 1) n (omega arith) (omega arith) o
        (omega arith) (λ k le. none_yet k (omega arith)) in
    rw (here, apart, other, none_yet (base + i) (omega arith), rw next at ih)

-- The record after the number `n` has been put into the record of the numbers from `from` on.
pub place-slots :
    (count : ℕ) (got : ℕ → Bool) (oldest base i n : ℕ)
    → oldest ≡ base % 65536
    → base + i ≤ n
    → n < base + i + 65536
    → base + i + count ≤ n + 65536
    → ((k : ℕ) → base + i + count ≤ k → got k ≡ false)
    → place (slots_of got (base + i) count) oldest i (n % 65536) ≡ (
        if got n
        then already
        else placed (slots_of (with_number n got) (base + i) (max count (suc (n - (base + i))))))
unfolding place slots_of
place-slots zero got oldest base i n o ge near far beyond =
    let e =
      extend-slots (n - (base + i)) 65536 got oldest base i n (omega arith) (omega arith) o
        (omega arith) (λ k le. beyond k (omega arith)) in
    let none_yet : got n ≡ false = beyond n (omega arith) in
    let c : max 0 (suc (n - (base + i))) ≡ suc (n - (base + i)) = omega arith in rw (none_yet, c, e)
place-slots (suc count) got oldest base i n o ge near far beyond = elim (ℕ_discrete (base + i) n) [
  | yes here ↦
      let same : ((base + i) % 65536 == n % 65536) ≡ true = (==_iff _ _).1 (omega arith) in
      let new_one : (base + i == n) ≡ true = (==_iff _ _).1 here in
      let c : max (suc count) (suc (n - (base + i))) ≡ suc count = omega arith in
      let g : got (base + i) ≡ got n = ap got here in
      let above = slots_of-above got n (base + i + 1) count (omega arith) in
      rw (same, c, g) (ap (λ (p : Placement). if got n then already else p) (rw (new_one, above)))
  | no ahead ↦
      let apart : ((base + i) % 65536 == n % 65536) ≡ false = ==_false _ _ (λ p. omega arith) in
      let other : (base + i == n) ≡ false = ==_false _ _ ahead in
      let next : base + (i + 1) ≡ base + i + 1 = omega arith in
      let ih =
        place-slots count got oldest base (i + 1) n o (omega arith) (omega arith) (omega arith)
          (λ k le. beyond k (omega arith)) in
      rw (apart, rw next at ih)
        (elim (Bool-cases (got n)) [
          | inl had ↦ rw had
          | inr fresh ↦
              let c : max (suc count) (suc (n - (base + i)))
                  ≡ suc (max count (suc (n - (base + i + 1)))) =
                omega arith in
              rw (fresh, c, other)
        ])
]

-- Clearing moves the oldest number over the numbers that are there.
pub clear-slots :
    (count : ℕ) (got : ℕ → Bool) (base : ℕ)
    → (moved : ℕ) × (moved ≤ count)
      × (clear_loop (base % 65536) (slots_of got base count)
          ≡ ((base + moved) % 65536, slots_of got (base + moved) (count - moved)))
      × ((k : ℕ) → base ≤ k → k < base + moved → got k ≡ true)
unfolding clear_loop slots_of
clear-slots zero got base =
    let e : base + 0 ≡ base = omega arith in (0, omega arith, rw e, λ k le lt. absurd (omega arith))
clear-slots (suc count) got base = elim (Bool-cases (got base)) [
  | inr missing ↦
      let e : base + 0 ≡ base = omega arith in
      let all_left : suc count - 0 ≡ suc count = omega arith in
      (0, omega arith, rw (e, all_left, missing), λ k le lt. absurd (omega arith))
  | inl there ↦
      let (moved, le, e, all) = clear-slots count got (base + 1) in
      let next : wrapping_add (base % 65536) 1 ≡ (base + 1) % 65536 = omega arith in
      let left : suc count - suc moved ≡ count - moved = omega arith in
      let sum : base + 1 + moved ≡ base + suc moved = omega arith in
      (
        suc moved,
        omega arith,
        rw (there, next, e, sum, left),
        λ k ge lt. elim (ℕ_discrete base k) [
          | yes p ↦ ap got (sym p) ∙ there
          | no ne ↦ all k (omega arith) (omega arith)
        ],
      )
]

pub slots_of-same :
    (got had : ℕ → Bool) (from count : ℕ)
    → ((k : ℕ) → got k ≡ had k)
    → slots_of got from count ≡ slots_of had from count
unfolding slots_of
slots_of-same got had from zero h = refl
slots_of-same got had from (suc count) h = rw (h from, slots_of-same got had (from + 1) count h)
