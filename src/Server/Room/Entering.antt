-- ===== src/Server/Room/Entering.antt =====
-- A room is opened, and an entity enters it or leaves it.
use naia.Base.Bools.{swap, some-injective}
use naia.Base.{
  ℕ, ◌≡◌, refl, sym, ap, ◌∙◌, inl, inr, Bool, true, not, ◌&&◌, ◌||◌, none, some, ◌==◌, Option-cases,
  ℕ_discrete, ==_false, ==_iff,
}
use mathlib.Core.Path.{subst}
use naia.Base.Assoc.{contains, contains-insert_member}
use naia.Server.EntityScopeMap.{put, set_of}
use naia.Server.EntityScopeMap.Scopes.{put-contains}
use naia.Server.Room.{Room, new_room, enter_room, entity_add_room, Rooms, insert_room, add_entity}
use naia.Server.Room.Placed.{Distinct, in_room, Placed, Leaves, insert_member-Distinct}
use naia.Server.Room.Leaving.{Unmaps, remove_entity_from-Leaves, remove_from_room-Unmaps}
use naia.Server.Room.Places.{opens, adds, removes, room_call, place_after, Places}

pub cleared-Placed :
    (p : ℕ → ℕ → Bool) (w w' : Rooms)
    → Placed w
    → Leaves p w w'
    → Unmaps p w.entity_room_map w'.entity_room_map
    → Placed w'
cleared-Placed p w w' placed l u = record {
  agree = λ k e. l.places k e ∙ ap (λ b. not (p k e) && b) (placed.agree k e) ∙ sym (u.mapped k e);
  rooms_distinct = l.still_distinct placed.rooms_distinct;
  map_distinct = u.still_distinct placed.map_distinct;
}

pub opens-Places : (k : ℕ) (w : Rooms) → Placed w → w.rooms k ≡ none → Places (opens k) w
unfolding room_call place_after insert_room contains
opens-Places k w placed fresh =
    let same_places : (k' e' : ℕ) → in_room k' e' (insert_room k new_room w) ≡ in_room k' e' w =
      λ k' e'. elim (ℕ_discrete k k') [
        | no ne ↦ rw (==_false k k' ne)
        | yes same ↦
            let at_k' : w.rooms k' ≡ none = ap w.rooms (sym same) ∙ fresh in
            rw ((==_iff k k').1 same, at_k')
      ] in
    record {
      after = insert_room k new_room w;
      returned = refl;
      placed = record {
        agree = λ k' e'. same_places k' e' ∙ placed.agree k' e';
        rooms_distinct = λ j q at_j. elim (ℕ_discrete k j) [
          | no ne ↦ placed.rooms_distinct j q (rw (==_false k j ne) at at_j)
          | yes same ↦
              let is_q : some new_room ≡ some q = rw ((==_iff k j).1 same) at at_j in
              subst (λ (x : Room). Distinct x.entities) (some-injective is_q) tt
        ];
        map_distinct = placed.map_distinct;
      };
      places = same_places;
    }

pub removes-Places :
    (k e : ℕ) (w : Rooms) → Placed w → in_room k e w ≡ true → Places (removes k e) w
unfolding room_call place_after
removes-Places k e w placed here =
    let (w', removed, same_map, l) = remove_entity_from-Leaves k e w here in
    let u =
      subst (Unmaps (λ k' e'. k == k' && e == e') w.entity_room_map) (sym same_map)
        (remove_from_room-Unmaps e k w.entity_room_map) in
    record {
      after = w';
      returned = removed;
      placed = cleared-Placed (λ k' e'. k == k' && e == e') w w' placed l u;
      places = l.places;
    }

-- An entity enters a room that is there.
enters-Places :
    (k e : ℕ) (r : Room) (w : Rooms) → Placed w → w.rooms k ≡ some r → Places (adds k e) w
unfolding room_call place_after add_entity enter_room entity_add_room
enters-Places k e r w placed there =
    let after : Rooms = record {
      rooms = put k (enter_room e r) w.rooms;
      entity_room_map = entity_add_room e k w.entity_room_map;
    } in
    let new_places : (k' e' : ℕ) → in_room k' e' after ≡ ((k == k' && e == e') || in_room k' e' w) =
      λ k' e'. elim (ℕ_discrete k k') [
        | no ne ↦ rw (==_false k k' ne)
        | yes same ↦
            let at_k' : w.rooms k' ≡ some r = ap w.rooms (sym same) ∙ there in
            rw ((==_iff k k').1 same, at_k') (contains-insert_member e e' r.entities)
      ] in
    record {
      after = after;
      returned = rw there;
      placed = record {
        agree = λ k' e'.
            new_places k' e'
            ∙ swap (k == k') (e == e') (placed.agree k' e')
            ∙ sym (put-contains e k w.entity_room_map e' k');
        rooms_distinct = λ j q at_j. elim (ℕ_discrete k j) [
          | no ne ↦ placed.rooms_distinct j q (rw (==_false k j ne) at at_j)
          | yes same ↦
              let is_q : some (enter_room e r) ≡ some q = rw ((==_iff k j).1 same) at at_j in
              subst (λ (x : Room). Distinct x.entities) (some-injective is_q)
                (insert_member-Distinct e r.entities (placed.rooms_distinct k r there))
        ];
        map_distinct = λ e'. elim (ℕ_discrete e e') [
          | no ne ↦ rw (==_false e e' ne) (placed.map_distinct e')
          | yes same ↦
              rw ((==_iff e e').1 same)
                (insert_member-Distinct k (set_of (w.entity_room_map e)) (placed.map_distinct e))
        ];
      };
      places = λ k' e'. rw there (new_places k' e');
    }

pub adds-Places : (k e : ℕ) (w : Rooms) → Placed w → Places (adds k e) w
unfolding room_call place_after add_entity
adds-Places k e w placed = elim (Option-cases (w.rooms k)) [
  | inr (r, there) ↦ enters-Places k e r w placed there
  | inl missing ↦ record {
    after = w;
    returned = rw missing;
    placed = placed;
    places = λ k' e'. rw missing;
  }
]
