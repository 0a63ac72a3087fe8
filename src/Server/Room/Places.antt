-- ===== src/Server/Room/Places.antt =====
-- What the operations on rooms place_after where, as an abstract view.
use naia.Base.Bools.{let_some}
use naia.Base.{ℕ, ◌≡◌, Bool, true, false, not, ◌&&◌, ◌||◌, none, ◌==◌}
use naia.Base.Outcome.{Outcome, ok, ◌>>=◌}
use naia.Server.Room.{
  new_room, Rooms, insert_room, add_entity, remove_entity_from, destroy, leave_all_rooms,
}
use naia.Server.Room.Placed.{in_room, Placed}

-- The calls that place_after entities: of a new room, of an entity in a room, and of a room or an entity
-- that goes.
pub data RoomCall : Type 0 where
  opens destroys despawns : ℕ → RoomCall
  adds removes : ℕ → ℕ → RoomCall

unfoldable pub room_call : RoomCall → Rooms → Outcome Rooms
room_call (opens k) w = ok (insert_room k new_room w)
room_call (adds k e) w = ok (add_entity k e w)
room_call (removes k e) w = remove_entity_from k e w
room_call (destroys k) w = destroy k w >>= λ p. ok p.1
room_call (despawns e) w = leave_all_rooms e w

-- A new room has a key of its own, and an entity leaves a room that it is in.
abbrev pub MayCall : RoomCall → Rooms → Type 0
MayCall (opens k) w = w.rooms k ≡ none
MayCall (removes k e) w = in_room k e w ≡ true
MayCall _ w = Unit

abbrev pub is_open : ℕ → Rooms → Bool
is_open k w = let_some (w.rooms k) false (λ r. true)

-- The abstract view: which room has which entity.
unfoldable pub place_after : RoomCall → Rooms → ℕ → ℕ → Bool
place_after (opens k) w k' e' = in_room k' e' w
place_after (adds k e) w k' e' = (is_open k w && (k == k' && e == e')) || in_room k' e' w
place_after (removes k e) w k' e' = not (k == k' && e == e') && in_room k' e' w
place_after (destroys k) w k' e' = not (k == k') && in_room k' e' w
place_after (despawns e) w k' e' = not (e == e') && in_room k' e' w

pub record Places (c : RoomCall) (w : Rooms) : Type 0 where
  pub after : Rooms
  pub returned : room_call c w ≡ ok after
  pub placed : Placed after
  pub places : (k e : ℕ) → in_room k e after ≡ place_after c w k e
