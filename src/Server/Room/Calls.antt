-- ===== src/Server/Room/Calls.antt =====
-- The operations on rooms place entities as their abstract view says, and never find the EntityRoomMap
-- at odds with the rooms.
use naia.Server.Room.Placed.{Placed}
use naia.Server.Room.Places.{Places}
