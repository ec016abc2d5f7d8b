-- ===== src/Lib.antt =====
-- The Sauerbraten server spaghettimod: its wire encoding, its player state and its game modes.
--
-- The program parses messages of clients (fpsgame/server.cpp) with the encodings of shared/tools.cpp
-- over the buffers of shared/tools.h, and hands them to the game mode in play, which keeps its own
-- state beside the clients' and answers with messages to all clients.
--
-- - Prelude: numbers, lists, bits and loops that the other modules share.
-- - Wire: `databuf` (Wire/Buffer, from shared/tools.h), integers (Wire/Ints) and strings (Wire/Text,
--   both from shared/tools.cpp). An int is its 32-bit pattern, a number below 2^32.
-- - Game: what the modes share. Game/Modes is the table of modes and its macros, Game/Items
--   `itemstats`, Game/Player `fpsstate` with Game/Player/Spawn for `spawnstate` (fpsgame/game.h);
--   Game/World holds the clients, the clock, the random numbers and the messages sent
--   (fpsgame/server.cpp); Game/Geometry the cylinder test; Game/ReadVec positions in messages;
--   Game/Samples values for the tests.
-- - Ctf: fpsgame/ctf.h under SERVMODE. Ctf/Flag is `struct flag` with `reset`, `ownflag` (own),
--   `dropflag` of an index (drop), `returnflag` (return_home), `deadflag` (penalise); Ctf/State the
--   state and its small members; Ctf/Play `dropflag` of a client, `leavegame`, `died`, `spawnflag`,
--   `scoreflag`, `takeflag`, `update`; Ctf/Setup `setup`, `parseitems`, `initclient` and what they
--   call; Ctf/Parse `parseflags` and `changeteam`.
-- - Collect: fpsgame/collect.h under SERVMODE. Collect/Token is `struct token` and the array of
--   tokens, Collect/State the state and its small members, Collect/Play `droptokens`, `leavegame`,
--   `deposittokens`, `taketoken`, `update`; Collect/Parse `parsebases` and `initclient`.
-- - Capture: fpsgame/capture.h under SERVMODE. Capture/Base is `baseinfo`, Capture/State the state,
--   the scores and `addbase`, Capture/Play `movebases` and the members that call it,
--   `replenishammo` and `addscore`, Capture/Clock `update` with `endcheck` and `regenowners`, and
--   `setup`; Capture/Parse `parsebases` and `initclient`.
-- - Sort: `insertionsort` and `quicksort` of shared/tools.h. Sort/Insertion, Sort/Partition and
--   Sort/Quick are about their proofs, Sort/Hole about arrays of which the pivot is held outside.
-- - Bots: fpsgame/aiman.h. Bots/Member is the state, where a pointer to a client is its number,
--   Bots/Assign `findaiclient`, `shiftai`, `removeai`, `reassignai` and its loop, Bots/Teams
--   `calcteams`, `balanceteams` and `chooseteam` with `teamscore` of fpsgame/game.h, Bots/Roster
--   `addai` and both `deleteai`, Bots/Ticks the rest, with `numclients`, `sendspawn` and
--   `sendresume` of fpsgame/server.cpp. The mode in play and `spawnstate` (spawn) are the record `Host`.
-- - Admission: fpsgame/server.cpp. Admission/Bans is `addban`, the loop of `serverupdate` that ends
--   bans (end_bans) and that of `checkbans` (is_banned), Admission/Bans/History their history as a
--   step relation; Admission/Teamkills `addteamkill`, `checkteamkills` and `kickclients`;
--   Admission/Door `checkbans`, `verifybans` and `allowconnect`, with `ipmask::check` of
--   shared/tools.h.
-- - Votes: `checkvotes` of fpsgame/server.cpp, whose change of the map is the outcome.
-- - Scores: `savescore` and `restorescore` of fpsgame/server.cpp, with `findscore`.
-- - Vectors: how `vector` of shared/tools.h grows: `growbuf`, `add`, `shrink` and `operator=`. The
--   loop of `growbuf` takes one unit of fuel for each test, at most the size that it needs and one.
--
-- A member that changes the state is a function from the state, which holds the world, to the state;
-- a `sendf` to all clients appends to the messages of the world. A loop over an array is
-- `for_each` with the length read first (no body changes it), or recursion on the list. Times and
-- counters are natural numbers, team and client numbers integers; the server's clock stays far
-- below 2^31, so sums of times do not wrap. Float arithmetic is the parameter `Floats`.
-- The second gun of the tactics modes is drawn until it differs from the first: `other_gun` takes
-- fuel, and a draw that differs within the fuel is enough. `quicksort` takes one unit of fuel for each
-- level of its recursion, of which there are at most as many as elements and one more; its inner
-- loops get the length of what is left to scan. The loops of `balanceteams` and of `checkai` take
-- one unit for each test: at most the number of bots and teams, and the number of pairs of bots of
-- the same owner, and one more. A loop over a number of entries that a
-- message names recurses on that number, and stops where the message ends.
--
-- Not modelled: sockets and files, the Lua hooks (taken to be unset), the client's half of the modes
-- (not under SERVMODE), the copies of enet and LuaBridge, the interpreter of configuration scripts,
-- maps, cryptography, and the packet switch of the server.
pub mod Prelude
pub mod Wire
pub mod Game
pub mod Ctf
pub mod Collect
pub mod Capture
pub mod Sort
pub mod Bots
pub mod Admission
pub mod Votes
pub mod Scores
pub mod Vectors
