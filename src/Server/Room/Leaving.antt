-- ===== src/Server/Room/Leaving.antt =====
-- Entities leave rooms one after the other.
use naia.Base.Bools.{and-true, and-false, and-merge, and_comm, or-true}
use naia.Base.{
  ℕ, ◌≡◌, refl, sym, ap, ◌∙◌, inl, inr, Bool, true, false, not, ◌&&◌, none, some, List, [], ◌∷◌,
  ◌==◌, if◌then◌else◌, Bool-cases, Option-cases, ℕ_discrete, ==_refl, ==_false, ==_iff,
}
use mathlib.Core.Path.{subst}
use naia.Base.Outcome.{ok}
use naia.Base.Assoc.{contains, remove_member, contains-remove_member}
use naia.Server.EntityScopeMap.{set_of}
use naia.Server.Room.{
  EntityRoomMap, put_rooms, remove_from_room, Rooms, remove_entity_from, empty_room, leave_rooms,
}
use naia.Server.Room.Placed.{
  Distinct, in_room, remove_member-Distinct, Leaves, take_out-Leaves, room_of,
}

-- What an EntityRoomMap has after some entities have left: its sets stay sets.
pub record Unmaps (p : ℕ → ℕ → Bool) (m m' : EntityRoomMap) : Type 0 where
  pub mapped : (k e : ℕ) → contains k (set_of (m' e)) ≡ (not (p k e) && contains k (set_of (m e)))
  pub still_distinct : ((e : ℕ) → Distinct (set_of (m e))) → (e : ℕ) → Distinct (set_of (m' e))

-- An element that is not in a set differs from those that are.
fresh_ne : (e j : ℕ) (es : List ℕ) → contains e es ≡ false → contains j es ≡ true → (e == j) ≡ false
fresh_ne e j es fresh has = ==_false e j (λ same. let f = ap (λ i. contains i es) same in cc)

set_of-put_rooms :
    (e : ℕ) (ks : List ℕ) (m : EntityRoomMap) (e' : ℕ)
    → set_of (put_rooms e ks m e') ≡ (if e == e' then ks else set_of (m e'))
set_of-put_rooms e [] m e' = elim (Bool-cases (e == e')) [ inl same ↦ rw same | inr ne ↦ rw ne ]
set_of-put_rooms e (k ∷ ks) m e' = elim (Bool-cases (e == e')) [
  | inl same ↦ rw same
  | inr ne ↦ rw ne
]

-- The set of an entity, without the room.
remove_from_room-set :
    (e k : ℕ) (m : EntityRoomMap) (e' : ℕ)
    → set_of (remove_from_room e k m e')
      ≡ (if e == e' then remove_member k (set_of (m e')) else set_of (m e'))
unfolding remove_from_room remove_member
remove_from_room-set e k m e' = elim (Option-cases (m e)) [
  | inl missing ↦ elim (ℕ_discrete e e') [
    | no ne ↦ rw (missing, ==_false e e' ne)
    | yes same ↦
        let at_e' : m e' ≡ none = ap m (sym same) ∙ missing in
        rw (missing, (==_iff e e').1 same, at_e')
  ]
  | inr (ks, there) ↦ elim (ℕ_discrete e e') [
    | no ne ↦ rw there (set_of-put_rooms e (remove_member k ks) m e' ∙ rw (==_false e e' ne) refl)
    | yes same ↦
        let at_e' : m e' ≡ some ks = ap m (sym same) ∙ there in
        rw (there, at_e', (==_iff e e').1 same)
          (set_of-put_rooms e (remove_member k ks) m e' ∙ rw ((==_iff e e').1 same) refl)
  ]
]

pub remove_from_room-Unmaps :
    (e k : ℕ) (m : EntityRoomMap) → Unmaps (λ k' e'. k == k' && e == e') m (remove_from_room e k m)
remove_from_room-Unmaps e k m = record {
  mapped = λ k' e'. ap (contains k') (remove_from_room-set e k m e') ∙ elim (ℕ_discrete e e') [
    | no ne ↦ rw (==_false e e' ne, and-false (k == k'))
    | yes same ↦
        rw ((==_iff e e').1 same, sym (and-true (k == k')))
          (contains-remove_member k k' (set_of (m e')))
  ];
  still_distinct = λ before e'.
      subst Distinct (sym (remove_from_room-set e k m e')) (elim (Bool-cases (e == e')) [
        | inl same ↦ rw same (remove_member-Distinct k (set_of (m e')) (before e'))
        | inr ne ↦ rw ne (before e')
      ]);
}

pub remove_entity_from-Leaves :
    (k e : ℕ) (w : Rooms)
    → in_room k e w ≡ true
    → (w' : Rooms) × (remove_entity_from k e w ≡ ok w')
      × (w'.entity_room_map ≡ remove_from_room e k w.entity_room_map)
      × Leaves (λ k' e'. k == k' && e == e') w w'
unfolding remove_entity_from
remove_entity_from-Leaves k e w here =
    let (r, there, has) = room_of k e w here in
    let (w1, taken, same_map, l) = take_out-Leaves k e false r w there has in
    (
      record w1 { entity_room_map = remove_from_room e k w1.entity_room_map },
      rw (there, taken),
      ap (remove_from_room e k) same_map,
      record { places = l.places; still_distinct = l.still_distinct },
    )

-- All the entities of a list leave a room.
pub empty_room-Leaves :
    (k : ℕ) (es : List ℕ) (w : Rooms)
    → Distinct es
    → ((e : ℕ) → contains e es ≡ true → in_room k e w ≡ true)
    → (w' : Rooms) × (empty_room k es w ≡ ok w')
      × Unmaps (λ k' e'. k == k' && contains e' es) w.entity_room_map w'.entity_room_map
      × Leaves (λ k' e'. k == k' && contains e' es) w w'
unfolding empty_room contains
empty_room-Leaves k [] w d all = (
  w,
  refl,
  record { mapped = λ k' e'. rw (and-false (k == k')) refl; still_distinct = λ before. before },
  record { places = λ k' e'. rw (and-false (k == k')) refl; still_distinct = λ before. before },
)
empty_room-Leaves k (e ∷ es) w (fresh, d) all =
    let (w1, one, map1, l1) = remove_entity_from-Leaves k e w (all e (rw (==_refl e))) in
    let u1 = remove_from_room-Unmaps e k w.entity_room_map in
    let (w2, rest, u2, l2) = empty_room-Leaves k es w1 d (λ j has.
      l1.places k j
      ∙ rw (==_refl k, fresh_ne e j es fresh has) (all j (or-true (e == j) (contains j es) has))) in
    (
      w2,
      rw one rest,
      record {
        mapped = λ k' e'.
            u2.mapped k' e'
            ∙ ap (λ m. not (k == k' && contains e' es) && contains k' (set_of (m e'))) map1
            ∙ ap (λ b. not (k == k' && contains e' es) && b) (u1.mapped k' e')
            ∙ and-merge (k == k') (e == e') (contains e' es)
                (contains k' (set_of (w.entity_room_map e')));
        still_distinct = λ before.
            u2.still_distinct (
              subst (λ m. (j : ℕ) → Distinct (set_of (m j))) (sym map1) (u1.still_distinct before));
      },
      record {
        places = λ k' e'.
            l2.places k' e'
            ∙ ap (λ b. not (k == k' && contains e' es) && b) (l1.places k' e')
            ∙ and-merge (k == k') (e == e') (contains e' es) (in_room k' e' w);
        still_distinct = λ before. l2.still_distinct (l1.still_distinct before);
      },
    )

-- An entity leaves all the rooms of a list.
pub leave_rooms-Leaves :
    (e : ℕ) (ks : List ℕ) (w : Rooms)
    → Distinct ks
    → ((k : ℕ) → contains k ks ≡ true → in_room k e w ≡ true)
    → (w' : Rooms) × (leave_rooms e ks w ≡ ok w')
      × (w'.entity_room_map ≡ w.entity_room_map)
      × Leaves (λ k' e'. e == e' && contains k' ks) w w'
unfolding leave_rooms contains
leave_rooms-Leaves e [] w d all = (
  w,
  refl,
  refl,
  record { places = λ k' e'. rw (and-false (e == e')) refl; still_distinct = λ before. before },
)
leave_rooms-Leaves e (k ∷ ks) w (fresh, d) all =
    let (r, there, has) = room_of k e w (all k (rw (==_refl k))) in
    let (w1, taken, map1, l1) = take_out-Leaves k e true r w there has in
    let (w2, rest, map2, l2) = leave_rooms-Leaves e ks w1 d (λ j has.
      l1.places j e
      ∙ rw (fresh_ne k j ks fresh has) (all j (or-true (k == j) (contains j ks) has))) in
    (
      w2,
      rw (there, taken) rest,
      map2 ∙ map1,
      record {
        places = λ k' e'.
            l2.places k' e'
            ∙ ap (λ b. not (e == e' && contains k' ks) && b)
                (l1.places k' e'
                  ∙ ap (λ b. not b && in_room k' e' w) (and_comm (k == k') (e == e')))
            ∙ and-merge (e == e') (k == k') (contains k' ks) (in_room k' e' w);
        still_distinct = λ before. l2.still_distinct (l1.still_distinct before);
      },
    )
