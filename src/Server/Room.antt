-- ===== src/Server/Room.antt =====
-- server/src/room.rs, server/src/world/entity_room_map.rs and the part of server/src/server/room_store.rs
-- that places entities in rooms: Room, EntityRoomMap and RoomStore. The caches that the store keeps
-- up to date beside them, and the users' own lists of rooms, are left out.
pub mod Placed
pub mod Leaving
pub mod Places
pub mod Entering
pub mod Going
pub mod Calls
use naia.Base.Bools.{let_some}
use naia.Base.{
  ℕ, Bool, true, false, Option, none, some, List, [], ◌∷◌, ◌++◌, map, length, if◌then◌else◌,
}
use naia.Base.Outcome.{Outcome, ok, panic, ◌>>=◌}
use naia.Base.Assoc.{contains, insert_member, remove_member}
use naia.Server.EntityScopeMap.{put, drop, set_of}

pub record Room : Type 0 where
  pub users : List ℕ
  pub entities : List ℕ
  pub entity_removal_queue : List (ℕ × ℕ)

abbrev pub new_room : Room
new_room = record { users = []; entities = []; entity_removal_queue = [] }

unfoldable pub has_user : ℕ → Room → Bool
has_user user r = contains user r.users

unfoldable pub subscribe_user : ℕ → Room → Room
subscribe_user user r = record r { users = insert_member user r.users }

-- Each entity of the room is queued to be removed for the user.
unfoldable pub unsubscribe_user : ℕ → Room → Room
unsubscribe_user user r = record r {
  users = remove_member user r.users;
  entity_removal_queue = r.entity_removal_queue ++ map (λ entity. (user, entity)) r.entities;
}

unfoldable pub users_count : Room → ℕ
users_count r = length r.users

unfoldable pub enter_room : ℕ → Room → Room
enter_room entity r = record r { entities = insert_member entity r.entities }

unfoldable pub leave_room : ℕ → Bool → Room → Outcome Room
leave_room entity entity_is_despawned r =
    if contains entity r.entities
    then ok (
        if entity_is_despawned
        then record r { entities = remove_member entity r.entities }
        else record r {
          entities = remove_member entity r.entities;
          entity_removal_queue = r.entity_removal_queue ++ map (λ user. (user, entity)) r.users;
        })
    else panic

unfoldable pub room_has_entity : ℕ → Room → Bool
room_has_entity entity r = contains entity r.entities

abbrev pub pop_queue : List (ℕ × ℕ) → Room → Option (ℕ × ℕ) × Room
pop_queue [] r = (none, r)
pop_queue (pair ∷ pairs) r = (some pair, record r { entity_removal_queue = pairs })

unfoldable pub pop_entity_removal_queue : Room → Option (ℕ × ℕ) × Room
pop_entity_removal_queue r = pop_queue r.entity_removal_queue r

unfoldable pub entities_count : Room → ℕ
entities_count r = length r.entities

-- EntityRoomMap is a function.
abbrev pub EntityRoomMap : Type 0
EntityRoomMap = ℕ → Option (List ℕ)

unfoldable pub entity_get_rooms : ℕ → EntityRoomMap → Option (List ℕ)
entity_get_rooms entity m = m entity

unfoldable pub entity_add_room : ℕ → ℕ → EntityRoomMap → EntityRoomMap
entity_add_room entity room_key m = put entity (insert_member room_key (set_of (m entity))) m

abbrev pub put_rooms : ℕ → List ℕ → EntityRoomMap → EntityRoomMap
put_rooms entity [] m = drop entity m
put_rooms entity (room ∷ rooms) m = put entity (room ∷ rooms) m

unfoldable pub remove_from_room : ℕ → ℕ → EntityRoomMap → EntityRoomMap
remove_from_room entity room_key m =
    let_some (m entity) m (λ rooms. put_rooms entity (remove_member room_key rooms) m)

abbrev pub unless_empty : List ℕ → Option (List ℕ)
unless_empty [] = none
unless_empty (room ∷ rooms) = some (room ∷ rooms)

unfoldable pub remove_from_all_rooms : ℕ → EntityRoomMap → Option (List ℕ) × EntityRoomMap
remove_from_all_rooms entity m = (unless_empty (set_of (m entity)), drop entity m)

-- A RoomStore beside the EntityRoomMap that its operations are given.
pub record Rooms : Type 0 where
  pub rooms : ℕ → Option Room
  pub entity_room_map : EntityRoomMap

-- A room under a key that is not in use.
unfoldable pub insert_room : ℕ → Room → Rooms → Rooms
insert_room room_key r w = record w { rooms = put room_key r w.rooms }

unfoldable pub add_entity : ℕ → ℕ → Rooms → Rooms
add_entity room_key entity w = let_some (w.rooms room_key) w (λ r. record {
  rooms = put room_key (enter_room entity r) w.rooms;
  entity_room_map = entity_add_room entity room_key w.entity_room_map;
})

unfoldable pub take_out : ℕ → ℕ → Bool → Room → Rooms → Outcome Rooms
take_out room_key entity despawned r w = do
  left ← leave_room entity despawned r
  ok (record w { rooms = put room_key left w.rooms })

unfoldable pub remove_entity_from : ℕ → ℕ → Rooms → Outcome Rooms
remove_entity_from room_key entity w = let_some (w.rooms room_key) (ok w) (λ r.
    take_out room_key entity false r w >>= λ w'.
    ok (record w' { entity_room_map = remove_from_room entity room_key w'.entity_room_map }))

-- The entities of a room leave it one after the other.
unfoldable pub empty_room : ℕ → List ℕ → Rooms → Outcome Rooms
empty_room room_key [] w = ok w
empty_room room_key (entity ∷ entities) w =
    remove_entity_from room_key entity w >>= empty_room room_key entities

unfoldable pub remove_all_entities : ℕ → Rooms → Outcome Rooms
remove_all_entities room_key w =
    let_some (w.rooms room_key) (ok w) (λ r. empty_room room_key r.entities w)

unfoldable pub destroy : ℕ → Rooms → Outcome (Bool × Rooms)
destroy room_key w = do
  emptied ← remove_all_entities room_key w
  let_some (emptied.rooms room_key) (ok (false, emptied))
      (λ r. ok (true, record emptied { rooms = drop room_key emptied.rooms }))

-- A despawned entity leaves the rooms that the EntityRoomMap has for it (`cleanup_entity_replication`
-- of server/src/server/world_server.rs).
unfoldable pub leave_rooms : ℕ → List ℕ → Rooms → Outcome Rooms
leave_rooms entity [] w = ok w
leave_rooms entity (room_key ∷ room_keys) w =
    let_some (w.rooms room_key) (ok w) (λ r. take_out room_key entity true r w)
    >>= leave_rooms entity room_keys

unfoldable pub leave_all_rooms : ℕ → Rooms → Outcome Rooms
leave_all_rooms entity w =
    let removed = remove_from_all_rooms entity w.entity_room_map in
    let w' = record w { entity_room_map = removed.1 } in
    let_some removed.0 (ok w') (λ room_keys. leave_rooms entity room_keys w')
