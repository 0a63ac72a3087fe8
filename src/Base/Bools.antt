-- ===== src/Base/Bools.antt =====
-- Laws of the Booleans and of options, and `let Some(x) = o else { return y }`.
use mathlib.Core.Path.{◌≡◌, refl}
use mathlib.Core.Bool.{Bool, true, false, not, ◌&&◌, ◌||◌}
use mathlib.Core.Option.{Option, none, some}

abbrev pub let_some {ℓ κ} : {A : Type ℓ} {B : Type κ} → Option A → B → (A → B) → B
let_some none y next = y
let_some (some x) y next = next x

pub some-injective {ℓ} : {A : Type ℓ} {a b : A} → some a ≡ some b → a ≡ b
some-injective h = cc

pub and-true : (a : Bool) → a ≡ (a && true)
and-true true = refl
and-true false = refl

pub and-false : (a : Bool) → (a && false) ≡ false
and-false true = refl
and-false false = refl

pub and_comm : (a b : Bool) → (a && b) ≡ (b && a)
and_comm true true = refl
and_comm true false = refl
and_comm false true = refl
and_comm false false = refl

pub and-merge :
    (p q r b : Bool) → (not (p && r) && (not (p && q) && b)) ≡ (not (p && (q || r)) && b)
and-merge true true true b = refl
and-merge true true false b = refl
and-merge true false true b = refl
and-merge true false false b = refl
and-merge false q r b = refl

pub or-true : (a b : Bool) → b ≡ true → (a || b) ≡ true
or-true true b h = refl
or-true false b h = h

pub or-false : (a b : Bool) → (a || b) ≡ false → (a ≡ false) × (b ≡ false)
or-false true b h = cc
or-false false b h = (refl, h)

pub not-and : (b : Bool) → (not b && b) ≡ false
not-and true = refl
not-and false = refl

pub swap : (p q : Bool) {x y : Bool} → x ≡ y → ((p && q) || x) ≡ ((q && p) || y)
swap true true h = refl
swap true false h = h
swap false true h = h
swap false false h = h
