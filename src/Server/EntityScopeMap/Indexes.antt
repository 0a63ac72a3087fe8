-- ===== src/Server/EntityScopeMap/Indexes.antt =====
-- What holds of the indexes of EntityScopeMap.
use naia.Base.{ℕ, ◌≡◌, refl, Bool, true, false, ◌&&◌, ◌||◌, Option, none, some, List, if◌then◌else◌}
use naia.Base.Assoc.{contains}
use naia.Server.EntityScopeMap.{EntityScopeMap, set_of}
use naia.Server.EntityScopeMap.Strip.{is_some}

-- The two indexes agree, and they have what a scope was set for.
pub record Consistent (m : EntityScopeMap) : Type 0 where
  pub linked :
      (u e : ℕ)
      → contains e (set_of (m.entities_of_user u)) ≡ contains u (set_of (m.users_of_entity e))
  pub recorded : (u e : ℕ) → is_some (m.main_map u e) ≡ contains e (set_of (m.entities_of_user u))

pub if-merge :
    (p q r : Bool) (x : Option Bool)
    → (if p && r then none else (if p && q then none else x)) ≡ (if p && (q || r) then none else x)
if-merge true true true x = refl
if-merge true true false x = refl
if-merge true false true x = refl
if-merge true false false x = refl
if-merge false q r x = refl

pub none-of : (o : Option Bool) → is_some o ≡ false → o ≡ none
none-of none h = refl
none-of (some b) h = cc

pub some-of : (o : Option (List ℕ)) (x : ℕ) → contains x (set_of o) ≡ true → is_some o ≡ true
unfolding contains
some-of none x h = cc
some-of (some js) x h = refl
