-- ===== src/Server/Room/Going.antt =====
-- A room goes with its entities, and an entity with its places.
use naia.Base.Bools.{not-and, let_some}
use naia.Base.{
  ℕ, ◌≡◌, refl, sym, ap, ◌∙◌, inl, inr, false, not, ◌&&◌, none, some, List, [], ◌∷◌, ◌==◌,
  Option-cases, ℕ_discrete, ==_refl, ==_false, ==_iff,
}
use mathlib.Core.Path.{subst}
use naia.Base.Outcome.{ok}
use naia.Base.Assoc.{contains}
use naia.Server.EntityScopeMap.{drop, set_of}
use naia.Server.Room.{
  Room, EntityRoomMap, Rooms, remove_all_entities, destroy, remove_from_all_rooms, unless_empty,
  leave_rooms, leave_all_rooms,
}
use naia.Server.Room.Placed.{in_room, Placed, Leaves}
use naia.Server.Room.Leaving.{Unmaps, empty_room-Leaves, leave_rooms-Leaves}
use naia.Server.Room.Places.{destroys, despawns, room_call, place_after, Places}
use naia.Server.Room.Entering.{cleared-Placed}

-- The room has nothing after all its entities have left it.
emptied :
    (k : ℕ) (r : Room) (w w1 : Rooms)
    → w.rooms k ≡ some r
    → Leaves (λ k' e'. k == k' && contains e' r.entities) w w1
    → (k' e' : ℕ) → in_room k' e' w1 ≡ (not (k == k') && in_room k' e' w)
emptied k r w w1 there l k' e' = l.places k' e' ∙ elim (ℕ_discrete k k') [
  | no ne ↦ rw (==_false k k' ne)
  | yes same ↦
      let at_k' : w.rooms k' ≡ some r = ap w.rooms (sym same) ∙ there in
      rw ((==_iff k k').1 same, at_k') (not-and (contains e' r.entities))
]

-- A room is dropped after its entities have left it.
dropped-Placed :
    (k : ℕ) (w : Rooms)
    → Placed w
    → ((e : ℕ) → in_room k e w ≡ false)
    → Placed (record w { rooms = drop k w.rooms })
      × ((k' e' : ℕ) → in_room k' e' (record w { rooms = drop k w.rooms }) ≡ in_room k' e' w)
dropped-Placed k w placed gone =
    let same_places : (k' e' : ℕ)
        → in_room k' e' (record w { rooms = drop k w.rooms }) ≡ in_room k' e' w =
      λ k' e'. elim (ℕ_discrete k k') [
        | no ne ↦ rw (==_false k k' ne)
        | yes same ↦ rw ((==_iff k k').1 same) (sym (gone e') ∙ ap (λ j. in_room j e' w) same)
      ] in
    (
      record {
        agree = λ k' e'. same_places k' e' ∙ placed.agree k' e';
        rooms_distinct = λ j q at_j. elim (ℕ_discrete k j) [
          | no ne ↦ placed.rooms_distinct j q (rw (==_false k j ne) at at_j)
          | yes same ↦ let f = rw ((==_iff k j).1 same) at at_j in cc
        ];
        map_distinct = placed.map_distinct;
      },
      same_places,
    )

pub destroys-Places : (k : ℕ) (w : Rooms) → Placed w → Places (destroys k) w
unfolding room_call place_after destroy remove_all_entities
destroys-Places k w placed = elim (Option-cases (w.rooms k)) [
  | inl missing ↦ record {
    after = w;
    returned = rw (missing, missing);
    placed = placed;
    places = λ k' e'. elim (ℕ_discrete k k') [
      | no ne ↦ rw (==_false k k' ne)
      | yes same ↦
          let at_k' : w.rooms k' ≡ none = ap w.rooms (sym same) ∙ missing in
          rw ((==_iff k k').1 same, at_k')
    ];
  }
  | inr (r, there) ↦
      let (w1, empties, u, l) =
        empty_room-Leaves k r.entities w (placed.rooms_distinct k r there)
          (λ e has. rw there has) in
      let p1 = cleared-Placed (λ k' e'. k == k' && contains e' r.entities) w w1 placed l u in
      let places1 = emptied k r w w1 there l in
      elim (Option-cases (w1.rooms k)) [
        | inl gone ↦ record {
          after = w1;
          returned = rw (there, empties, gone);
          placed = p1;
          places = places1;
        }
        | inr (r1, still) ↦
            let d = dropped-Placed k w1 p1 (λ e. places1 k e ∙ rw (==_refl k)) in
            record {
              after = record w1 { rooms = drop k w1.rooms };
              returned = rw (there, empties, still);
              placed = d.0;
              places = λ k' e'. d.1 k' e' ∙ places1 k' e';
            }
      ]
]

unless_empty-leave :
    (e : ℕ) (ks : List ℕ) (w : Rooms)
    → let_some (unless_empty ks) (ok w) (λ keys. leave_rooms e keys w) ≡ leave_rooms e ks w
unfolding leave_rooms
unless_empty-leave e [] w = refl
unless_empty-leave e (k ∷ ks) w = refl

drop-Unmaps :
    (e : ℕ) (m : EntityRoomMap)
    → Unmaps (λ k' e'. e == e' && contains k' (set_of (m e))) m (drop e m)
unfolding contains
drop-Unmaps e m = record {
  mapped = λ k' e'. elim (ℕ_discrete e e') [
    | no ne ↦ rw (==_false e e' ne)
    | yes same ↦ rw ((==_iff e e').1 same) (
        sym (not-and (contains k' (set_of (m e))))
        ∙ ap (λ j. not (contains k' (set_of (m e))) && contains k' (set_of (m j))) same)
  ];
  still_distinct = λ before e'. elim (ℕ_discrete e e') [
    | no ne ↦ rw (==_false e e' ne) (before e')
    | yes same ↦ rw ((==_iff e e').1 same) tt
  ];
}

pub despawns-Places : (e : ℕ) (w : Rooms) → Placed w → Places (despawns e) w
unfolding room_call place_after leave_all_rooms remove_from_all_rooms
despawns-Places e w placed =
    let ks = set_of (w.entity_room_map e) in
    let w1 : Rooms = record w { entity_room_map = drop e w.entity_room_map } in
    let (w2, leaves, same_map, l) =
      leave_rooms-Leaves e ks w1 (placed.map_distinct e) (λ k has. placed.agree k e ∙ has) in
    let l2 : Leaves (λ k' e'. e == e' && contains k' ks) w w2 = record {
      places = l.places;
      still_distinct = l.still_distinct;
    } in
    let u =
      subst (Unmaps (λ k' e'. e == e' && contains k' ks) w.entity_room_map) (sym same_map)
        (drop-Unmaps e w.entity_room_map) in
    record {
      after = w2;
      returned = unless_empty-leave e ks w1 ∙ leaves;
      placed = cleared-Placed (λ k' e'. e == e' && contains k' ks) w w2 placed l2 u;
      places = λ k' e'. l.places k' e' ∙ elim (ℕ_discrete e e') [
        | no ne ↦ rw (==_false e e' ne)
        | yes same ↦ rw ((==_iff e e').1 same) (
            ap (λ b. not (contains k' ks) && b)
              (placed.agree k' e' ∙ ap (λ j. contains k' (set_of (w.entity_room_map j))) (sym same))
            ∙ not-and (contains k' ks))
      ];
    }
