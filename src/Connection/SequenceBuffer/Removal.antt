-- ===== src/Connection/SequenceBuffer/Removal.antt =====
-- What is left in the slots of a SequenceBuffer when numbers are removed from it.
use naia.Base.{
  ℕ, zero, suc, ◌+◌, ◌%◌, ◌<◌, ◌≡◌, refl, sym, ap, ◌∙◌, ◌≢◌, inl, inr, true, false, Option, none,
  some, arith, ◌==◌, length, set, get_or, Option-cases, ==_refl, length-set, Bool-cases, ==_iff,
  ℕ_discrete, get_or-set_self, get_or-set_ne,
}
use naia.Connection.SequenceBuffer.{SequenceBuffer, index, exists, remove, remove_range}

-- The number in a slot.
abbrev pub slot : {T : Type 0} → SequenceBuffer T → ℕ → Option ℕ
slot b i = get_or b.entry_sequences i none

-- Every number stands in its slot.
abbrev pub IsIndexed : {T : Type 0} → SequenceBuffer T → Type 0
IsIndexed b = (i s : ℕ) → slot b i ≡ some s → i ≡ index b s

-- `b'` is `b` without the numbers that `P` excludes.
pub record Leaves {T : Type 0} (P : ℕ → Type 0) (b b' : SequenceBuffer T) : Type 0 where
  pub same_slots : length b'.entry_sequences ≡ length b.entry_sequences
  pub same_number : b'.sequence_num ≡ b.sequence_num
  pub from : (i t : ℕ) → slot b' i ≡ some t → (slot b i ≡ some t) × P t
  pub keep : (i t : ℕ) → slot b i ≡ some t → P t → slot b' i ≡ some t

pub exists-slot :
    {T : Type 0} (b : SequenceBuffer T) (s : ℕ) → exists b s ≡ true → slot b (index b s) ≡ some s
unfolding exists
exists-slot b s e = elim (Option-cases (slot b (index b s))) [
  | inl empty ↦ cc
  | inr (t, e1) ↦
      let p : (t == s) ≡ true = rw e1 at e in e1 ∙ ap (λ (n : ℕ). some n) ((==_iff t s).0 p)
]

pub slot-exists :
    {T : Type 0} (b : SequenceBuffer T) (s : ℕ) → slot b (index b s) ≡ some s → exists b s ≡ true
unfolding exists
slot-exists b s e = rw (e, ==_refl s)

module _ {T : Type 0} (b : SequenceBuffer T) (s : ℕ) where
  abbrev cleared : SequenceBuffer T
  cleared = record b {
    entries = set b.entries (index b s) none;
    entry_sequences = set b.entry_sequences (index b s) none;
  }

  cleared-from :
      (i t : ℕ)
      → IsIndexed b
      → 0 < length b.entry_sequences
      → slot cleared i ≡ some t
      → (slot b i ≡ some t) × (t ≢ s)
  cleared-from i t h pos e = elim (ℕ_discrete i (index b s)) [
    | yes here ↦
        let gone : slot cleared i ≡ none =
          rw here (get_or-set_self b.entry_sequences (index b s) none none (omega arith)) in
        cc
    | no there ↦
        let kept : slot cleared i ≡ slot b i =
          get_or-set_ne b.entry_sequences (index b s) i none none (λ p. there (sym p)) in
        let e1 : slot b i ≡ some t = sym kept ∙ e in
        (e1, λ same. there (h i t e1 ∙ ap (index b) same))
  ]

  cleared-keep :
      (i t : ℕ) → slot b (index b s) ≡ some s → slot b i ≡ some t → t ≢ s → slot cleared i ≡ some t
  cleared-keep i t found e ne = elim (ℕ_discrete i (index b s)) [
    | yes here ↦ let e1 : slot b (index b s) ≡ some t = rw here at e in absurd (ne (cc))
    | no there ↦ get_or-set_ne b.entry_sequences (index b s) i none none (λ p. there (sym p)) ∙ e
  ]

  remove-Leaves : IsIndexed b → 0 < length b.entry_sequences → Leaves (λ t. t ≢ s) b (remove b s).1
  unfolding remove
  remove-Leaves h pos = elim (Bool-cases (exists b s)) [
    | inl found ↦ rw found (record {
      same_slots = length-set b.entry_sequences (index b s) none;
      same_number = refl;
      from = λ i t. cleared-from i t h pos;
      keep = λ i t. cleared-keep i t (exists-slot b s found);
    })
    | inr missing ↦ rw missing (record {
      same_slots = refl;
      same_number = refl;
      from = λ i t e. (e, λ same. not_missing missing i t e same);
      keep = λ i t e _. e;
    })
  ]
    where
      not_missing : exists b s ≡ false → (i t : ℕ) → slot b i ≡ some t → t ≡ s → ⊥
      not_missing missing i t e same =
          let at : i ≡ index b s = h i t e ∙ ap (index b) same in
          let here : slot b (index b s) ≡ some s = rw (at, same) at e in cc (slot-exists b s here)

pub Leaves-IsIndexed :
    {T : Type 0} (P : ℕ → Type 0) (b b' : SequenceBuffer T)
    → Leaves P b b'
    → IsIndexed b
    → IsIndexed b'
Leaves-IsIndexed P b b' l h i t e =
    h i t (l.from i t e).0 ∙ ap (λ (n : ℕ). t % n) (sym l.same_slots)

-- The loop removes the numbers from `start` on, `count` of them, and no other.
pub remove_range-Leaves :
    {T : Type 0} (count start : ℕ) (b : SequenceBuffer T)
    → IsIndexed b
    → 0 < length b.entry_sequences
    → Leaves (λ t. (j : ℕ) → j < count → t ≢ (start + j) % 65536) b (remove_range count start b)
unfolding remove_range
remove_range-Leaves zero start b h pos = record {
  same_slots = refl;
  same_number = refl;
  from = λ i t e. (e, λ j lt _. elim lt [ ]);
  keep = λ i t e _. e;
}
remove_range-Leaves (suc count) start b h pos =
    let one = remove-Leaves b (start % 65536) h pos in
    let b1 = (remove b (start % 65536)).1 in
    let h1 = Leaves-IsIndexed _ b b1 one h in
    let more = remove_range-Leaves count (start + 1) b1 h1 (rw one.same_slots pos) in
    record {
      same_slots = more.same_slots ∙ one.same_slots;
      same_number = more.same_number ∙ one.same_number;
      from = λ i t e.
          let (e1, rest) = more.from i t e in
          let (e2, first) = one.from i t e1 in (e2, all_of t first rest);
      keep = λ i t e ne.
          more.keep i t
            (one.keep i t e (λ p. ne 0 (omega arith) (p ∙ ap (λ (n : ℕ). n % 65536) (omega arith))))
            (λ j lt p. ne (suc j) (omega arith) (p ∙ ap (λ (n : ℕ). n % 65536) (omega arith)));
    }
  where
    all_of :
        (t : ℕ)
        → t ≢ start % 65536
        → ((j : ℕ) → j < count → t ≢ (start + 1 + j) % 65536)
        → (j : ℕ) → j < suc count
        → t ≢ (start + j) % 65536
    all_of t first rest zero lt p = first (p ∙ ap (λ (n : ℕ). n % 65536) (omega arith))
    all_of t first rest (suc j) lt p =
        rest j (omega arith) (p ∙ ap (λ (n : ℕ). n % 65536) (omega arith))
