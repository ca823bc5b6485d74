-- ===== src/Lib.antt =====
-- A verification library for the game server in the folder source 7.6: parts of it as definitions
-- that follow the C++ code, and the theorems that make them correct.
--
-- The server runs a dispatcher thread that executes tasks one at a time and a scheduler thread that
-- hands a task to the dispatcher when its time has come. A connection is first checked against the
-- login attempts and connections of its address, then a player logs in or waits in the login queue.
-- What client and server say to each other goes through a packet buffer, what is stored on disk
-- through property streams and files of nested nodes. Items lie in containers, which carry one
-- another's weight, and the tiles of the map in the leaves of a quad tree. Players trade, form
-- parties and talk in channels; damage that a condition spreads over time is stored with them.
--
-- WaitList: source 7.6/waitlist.h and waitlist.cpp. client_login, find_client, get_client_slot and
--   clean_up_list are the methods of WaitingList of those names on the queue as a list; the time of
--   the call and the counts of Status are arguments. Places are counted from 1, as slots are.
-- Dispatcher: source 7.6/tasks.h and tasks.cpp. The state is the task list and the thread's
--   state; a task is what it adds to the list when it runs. `round` is one pass of the loop of
--   dispatcherThread, and flush goes through the list, to which nothing is added meanwhile, since
--   no task is accepted while the thread is closing.
-- Scheduler: source 7.6/scheduler.h and scheduler.cpp. addEvent, stopEvent, stop, shutdown and
--   one pass of schedulerThread; the heap is the list of its events in the order in which they
--   leave it, the set of active ids a list.
-- Ban: source 7.6/ban.h and ban.cpp. isIpDisabled, acceptConnection and addLoginAttempt with the
--   two maps by address. The bans that the class asks of a database are not modelled.
-- PropStream: source 7.6/fileloader.h. PropStream and PropWriteStream over bytes; a read beyond the
--   buffer is a result of its own. GET_STRUCT is not modelled.
-- NetworkMessage: source 7.6/networkmessage.h and networkmessage.cpp. The getters and the Add
--   functions over memory with its bounds; a write outside the buffer has the answer `none`.
-- Container: source 7.6/container.h and container.cpp, with item.h, item.cpp and items.h. The
--   operations of a container as a Cylinder on its items, its total weight and the totals of the
--   containers around it. Container/Query holds the __query functions and
--   Container/Iterator the walk through nested containers, on one unit of fuel for each item.
--   Weights are integers.
-- FileLoader: source 7.6/fileloader.h and fileloader.cpp, the nodes in which maps are stored.
--   `scan` is parseNode behind the type of a node; it runs on fuel, of which the bytes that are
--   left give enough (FileLoader/Fuel), one unit being used up with each byte or escape.
--   FileLoader/Tree says what a tree of nodes is and how it is written with the operations of the
--   loader.
-- Trade: source 7.6/game.cpp, the trade between two players, with its fields of player.h. The
--   players are a function of their numbers, the answers of the item moves are arguments.
-- Party: source 7.6/party.cpp, the calls of source 7.6/game.cpp on parties, and the invitations
--   of a player in source 7.6/player.cpp. Pointers are numbers, and reading a deleted party is a
--   fault.
-- Player: source 7.6/player.h and player.cpp. Experience, level and strength with addExperience and
--   preSave, of which the first runs on fuel, one unit for a level; Player/Level goes through gains
--   and deaths, below level 2^19, and Player/Vip has the VIP list. Health and mana are the bit
--   patterns of an int32_t, the capacity, a double, is a number.
-- Condition: source 7.6/condition.h and condition.cpp. ConditionDamage with serialize, unserialize and
--   createCondition, and the loops over them in savePlayer and loadPlayer of ioplayer.cpp;
--   Condition/Bytes and Condition/Stored go from a player's conditions to the bytes and back.
--   unserialize runs on fuel, one more than the bytes, and load on fuel for the conditions.
--   Condition/Damage has addDamage and startCondition, Condition/Course executeCondition. The random
--   list of init, which is computed with float, and what doDamage does are left out.
--   Condition/Generic has ConditionGeneric and the list of conditions of source 7.6/creature.cpp.
--   Condition/Resumed follows a condition through saving, loading and its further course.
-- Map: source 7.6/map.h and map.cpp. The quad tree with setTile and getTile, the floors of a leaf
--   and its links to the leaves in the south and in the east. A leaf is a number, a tile its
--   pointer; Map/Tree says what createLeaf does to the tree as a function from positions to leaves,
--   Map/Key which positions have one leaf, Map/Links what the links are, and Map/Refine what a
--   series of calls comes to. createLeaf goes down by its level, which is enough since it begins
--   with 15 and ends at 3. How an item is cloned is an argument.
--   Map/PathFinding holds the nodes of the search for a way and canWalkTo, its child Search
--   getPathTo. A node is its index in the array; what the search asks of the creature and of the
--   tiles is an argument. The loop runs on fuel, and Map/PathFinding/Ends finds how much is
--   enough; the loop over the parents gets two more than the cost of the node it starts from, which
--   is enough since a parent costs less. getPathMatching and the sight lines are not modelled.
-- Tile: source 7.6/tile.h and tile.cpp, the things on a tile, with the types of items of items.h
--   and the properties of items of item.cpp. A thing is the number of its pointer, and what is known
--   of it (its id, its count, whether the tile is its parent) is a function of that number.
--   Tile/Operations holds the functions of a Cylinder that change a tile, Tile/Flags the flags that
--   items set, Tile/Query what may be added and removed. Tile/Reach goes through calls in any order,
--   with Tile/Apart for what holds whatever the types of things become.
--   What spectators are told and the movement scripts are left out.
-- Chat: source 7.6/chat.h and chat.cpp, with the calls on channels of source 7.6/game.cpp. A
--   pointer to a channel is the map in which it stands and its key, and the loop over pointers at a
--   logout has the answer `none` if it reads a channel that has been deleted. Chat/Rooms holds the
--   operations, Chat/Talk talkToChannel, Chat/Calls the calls in any order. The names of channels
--   and the texts are left out; the ids and what else a channel asks of a player are an argument.
-- Base holds what these share: numbers, Boolean tests, lists, maps, bytes and integers.
-- The search for a free private channel goes through its 9900 slots. The loops that are not named
-- here go through a list or a string once, and need no fuel.
--
-- Threads are not interleaved inside an operation: each of them holds its lock throughout. Unsigned
-- numbers of the source that wrap around have the remainder written out. Not modelled are the
-- creatures and where they may go, combat and spells, the conditions of other classes than
-- ConditionDamage and ConditionGeneric, houses, spawns and raids, the Lua interface, the database and
-- the sockets.
pub mod Base
pub mod WaitList
pub mod Dispatcher
pub mod Scheduler
pub mod Ban
pub mod PropStream
pub mod NetworkMessage
pub mod Container
pub mod FileLoader
pub mod Trade
pub mod Party
pub mod Map
pub mod Tile
pub mod Player
pub mod Condition
pub mod Chat
