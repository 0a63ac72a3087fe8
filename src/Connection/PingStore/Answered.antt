-- ===== src/Connection/PingStore/Answered.antt =====
-- A PingStore finds the pings that are answered, and stays small.
use naia.Base.{
  ℕ, ◌+◌, ◌%◌, ◌≤◌, ◌<◌, ◌≡◌, ◌≢◌, refl, ap, ◌∙◌, some, List, [], ◌∷◌, ◌++◌, map, arith, ltb-false,
  ◌==◌, ==_refl, ==_false, length, length-take, All, Bool-cases, inl, inr,
}
use naia.Sequence.{sequence_greater_than}
use naia.Sequence.Order.{greater-unwrapped}
use naia.Connection.PingStore.{
  PingStore, new_pings, push_new, Scan, passed, gave_up, found, scan_next, scan_pings,
  remove_scanned, remove_ping, clear_pings,
}

-- Pings are counted without end; the store has the wrapped numbers.
abbrev pub wrap : ℕ × ℕ → ℕ × ℕ
wrap (n, instant) = (n % 65536, instant)

abbrev pub Older : ℕ → ℕ × ℕ → Type 0
Older n p = (p.0 < n) × (n < p.0 + 32768)

wrapped_ne : (m n : ℕ) → m < n → n < m + 32768 → m % 65536 ≢ n % 65536
wrapped_ne m n less near = λ same. omega arith

Older-passed :
    (n : ℕ) (ps : List (ℕ × ℕ)) → All (Older n) ps → scan_pings (n % 65536) (map wrap ps) ≡ passed
unfolding scan_pings scan_next
Older-passed n [] old = refl
Older-passed n ((m, instant) ∷ ps) ((less, near), old) = rw (
  Older-passed n ps old,
  ==_false (m % 65536) (n % 65536) (wrapped_ne m n less near),
  greater-unwrapped m n (omega arith) near,
  ltb-false n m (omega arith),
)

scan_pings-found :
    (n instant : ℕ) (before after : List (ℕ × ℕ))
    → All (Older n) after
    → scan_pings (n % 65536) (map wrap (before ++ ((n, instant) ∷ after)))
      ≡ found instant (map wrap (before ++ after))
unfolding scan_pings scan_next
scan_pings-found n instant [] after old = rw (Older-passed n after old, ==_refl (n % 65536))
scan_pings-found n instant (p ∷ before) after old = rw (scan_pings-found n instant before after old)

-- A ping that is in the store, where those behind it are older by less than 32768: `remove` returns
-- when it was sent, and takes this entry out and no other.
pub remove_ping-found :
    (n instant : ℕ) (before after : List (ℕ × ℕ)) (s : PingStore)
    → All (Older n) after
    → s.buffer ≡ map wrap (before ++ ((n, instant) ∷ after))
    → remove_ping (n % 65536) s ≡ (some instant, record s { buffer = map wrap (before ++ after) })
unfolding remove_ping
remove_ping-found n instant before after s old is =
    ap (λ b. remove_scanned s (scan_pings (n % 65536) b)) is
    ∙ ap (remove_scanned s) (scan_pings-found n instant before after old)

-- The stores that calls lead to.
pub data PingRun : PingStore → Type 0 where
  begins : PingRun new_pings
  pushes : (now : ℕ) (s : PingStore) → PingRun s → PingRun (push_new now s).1
  removes : (index : ℕ) (s : PingStore) → PingRun s → PingRun (remove_ping index s).1
  clears : (s : PingStore) → PingRun s → PingRun (clear_pings s)

abbrev Within : ℕ → Scan → Type 0
Within n (found instant rest) = length rest ≤ n
Within n gave_up = Unit
Within n passed = Unit

scan_next-Within :
    (index : ℕ) (p : ℕ × ℕ) (ps : List (ℕ × ℕ)) (o : Scan)
    → Within (length ps) o
    → Within (length (p ∷ ps)) (scan_next index p ps o)
unfolding scan_next
scan_next-Within index p ps (found instant rest) h = omega arith
scan_next-Within index p ps gave_up h = tt
scan_next-Within index (i, instant) ps passed h = elim (Bool-cases (i == index)) [
  | inl same ↦ rw same (omega arith)
  | inr ne ↦ elim (Bool-cases (sequence_greater_than i index)) [
    | inl big ↦ rw (ne, big) tt
    | inr small ↦ rw (ne, small) tt
  ]
]

scan_pings-Within : (index : ℕ) (ps : List (ℕ × ℕ)) → Within (length ps) (scan_pings index ps)
unfolding scan_pings
scan_pings-Within index [] = tt
scan_pings-Within index (p ∷ ps) =
    scan_next-Within index p ps (scan_pings index ps) (scan_pings-Within index ps)

removed-length :
    (s : PingStore) (o : Scan)
    → Within (length s.buffer) o
    → length (remove_scanned s o).1.buffer ≤ length s.buffer
removed-length s (found instant rest) h = h
removed-length s gave_up h = omega arith
removed-length s passed h = omega arith

-- After any calls a PingStore has 32 entries at most.
pub PingRun-bounded : (s : PingStore) → PingRun s → length s.buffer ≤ 32
unfolding push_new remove_ping clear_pings
PingRun-bounded _ begins = omega arith
PingRun-bounded _ (pushes now s run) =
    let h = length-take 32 ((s.ping_index, now) ∷ s.buffer) in omega arith
PingRun-bounded _ (removes index s run) =
    let before = PingRun-bounded s run in
    let h = removed-length s (scan_pings index s.buffer) (scan_pings-Within index s.buffer) in
    omega arith
PingRun-bounded _ (clears s run) = omega arith
