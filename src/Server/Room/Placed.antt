-- ===== src/Server/Room/Placed.antt =====
-- The rooms have the entities that the EntityRoomMap has them for, through every operation.
use naia.Base.Bools.{and-false, some-injective, let_some}
use naia.Base.{
  ℕ, ◌≡◌, refl, sym, ap, ◌∙◌, inl, inr, Bool, true, false, not, ◌&&◌, some, List, [], ◌∷◌, ◌++◌,
  map, ◌==◌, Bool-cases, Option-cases, ℕ_discrete, ==_false, ==_iff,
}
use mathlib.Core.Path.{subst}
use naia.Base.Outcome.{ok}
use naia.Base.Assoc.{contains, insert_member, remove_member, contains-remove_member}
use naia.Server.EntityScopeMap.{put, set_of}
use naia.Server.Room.{Room, Rooms, leave_room, take_out}

-- A set has no element twice.
abbrev pub Distinct : List ℕ → Type 0
Distinct [] = Unit
Distinct (j ∷ js) = (contains j js ≡ false) × Distinct js

abbrev pub in_room : ℕ → ℕ → Rooms → Bool
in_room k e w = let_some (w.rooms k) false (λ r. contains e r.entities)

pub record Placed (w : Rooms) : Type 0 where
  pub agree : (k e : ℕ) → in_room k e w ≡ contains k (set_of (w.entity_room_map e))
  pub rooms_distinct : (k : ℕ) (r : Room) → w.rooms k ≡ some r → Distinct r.entities
  pub map_distinct : (e : ℕ) → Distinct (set_of (w.entity_room_map e))

pub remove_member-Distinct : (i : ℕ) (js : List ℕ) → Distinct js → Distinct (remove_member i js)
unfolding remove_member
remove_member-Distinct i [] d = tt
remove_member-Distinct i (j ∷ js) (fresh, d) = elim (Bool-cases (j == i)) [
  | inl same ↦ rw same (remove_member-Distinct i js d)
  | inr ne ↦ rw ne (
    contains-remove_member i j js ∙ ap (λ b. not (i == j) && b) fresh ∙ and-false (not (i == j)),
    remove_member-Distinct i js d,
  )
]

pub insert_member-Distinct : (i : ℕ) (js : List ℕ) → Distinct js → Distinct (insert_member i js)
unfolding insert_member
insert_member-Distinct i js d = elim (Bool-cases (contains i js)) [
  | inl there ↦ rw there d
  | inr missing ↦ rw missing (missing, d)
]

-- What is in the rooms after some entities have left: the rooms stay sets.
pub record Leaves (p : ℕ → ℕ → Bool) (w w' : Rooms) : Type 0 where
  pub places : (k e : ℕ) → in_room k e w' ≡ (not (p k e) && in_room k e w)
  pub still_distinct :
      ((k : ℕ) (r : Room) → w.rooms k ≡ some r → Distinct r.entities)
      → (k : ℕ) (r : Room) → w'.rooms k ≡ some r
      → Distinct r.entities

left_room-entities :
    (e : ℕ) (despawned : Bool) (r : Room)
    → contains e r.entities ≡ true
    → (r' : Room) × (leave_room e despawned r ≡ ok r') × (r'.entities ≡ remove_member e r.entities)
unfolding leave_room
left_room-entities e true r has = (record r { entities = remove_member e r.entities }, rw has, refl)
left_room-entities e false r has = (
  record r {
    entities = remove_member e r.entities;
    entity_removal_queue = r.entity_removal_queue ++ map (λ user. (user, e)) r.users;
  },
  rw has,
  refl,
)

pub take_out-Leaves :
    (k e : ℕ) (despawned : Bool) (r : Room) (w : Rooms)
    → w.rooms k ≡ some r
    → contains e r.entities ≡ true
    → (w' : Rooms) × (take_out k e despawned r w ≡ ok w')
      × (w'.entity_room_map ≡ w.entity_room_map)
      × Leaves (λ k' e'. k == k' && e == e') w w'
unfolding take_out
take_out-Leaves k e despawned r w there has =
    let (r', left, is) = left_room-entities e despawned r has in
    (
      record w { rooms = put k r' w.rooms },
      rw left,
      refl,
      record {
        places = λ k' e'. elim (ℕ_discrete k k') [
          | no ne ↦ rw (==_false k k' ne)
          | yes same ↦
              rw ((==_iff k k').1 same, sym same, there)
                (ap (contains e') is ∙ contains-remove_member e e' r.entities)
        ];
        still_distinct = λ before j q at_j. elim (ℕ_discrete k j) [
          | no ne ↦ before j q (rw (==_false k j ne) at at_j)
          | yes same ↦
              let is_q : some r' ≡ some q = rw ((==_iff k j).1 same) at at_j in
              subst (λ (x : Room). Distinct x.entities) (some-injective is_q)
                (subst Distinct (sym is) (remove_member-Distinct e r.entities (before k r there)))
        ];
      },
    )

pub room_of :
    (k e : ℕ) (w : Rooms)
    → in_room k e w ≡ true
    → (r : Room) × (w.rooms k ≡ some r) × (contains e r.entities ≡ true)
room_of k e w here = elim (Option-cases (w.rooms k)) [
  | inl missing ↦ let f = rw missing at here in cc
  | inr (r, there) ↦ (r, there, rw there at here)
]
