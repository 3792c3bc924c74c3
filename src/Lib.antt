-- ===== src/Lib.antt =====
-- Verification of mm_server, the servers of an online game of cats, written in Go.
--
-- The game server (src/game_server) keeps a player as a row of generated database columns
-- (a_db_tables.go, extended in a_db_ext.go) behind locks. Messages of a client call handlers
-- (C2S...Handler), which call methods of Player; these read tables of game data (src/tables), change
-- the columns, and send replies. This library models the parts of a player through which all wealth
-- passes, each as functions on a record:
--
-- - Player/State: the columns Info, Items, Sign, Mails and MailCommon, the rows of the tables, and the
--   replies as a trace of effects. A handler is a function from a player to a player and the handler's
--   return value; `Option` around it stands for a panic (Prelude/Fault).
-- - Player/Values: the counters and the spirit (player_item.go, AddGold ... SubCharmMedal,
--   CalcSpirit). Values/Bounds and Values/Spirit say what they do.
-- - Player/Level: AddExp, with the rounds of its loop as fuel: MaxLevel less the level, the number of
--   rounds that the loop of the code makes at most, so the fuel ends with the loop.
-- - Player/Items: ChkAddItemByNum, ChkRemoveItem, AddItem, RemoveItem, item_update.
-- - Player/Resources: a resource by its id, prices, sell_item, use_item. Resources/Total
--   is about the panics of giving resources.
-- - Player/SignIn: player_sign.go. SignIn/Frame is about what giving resources does to
--   the sign-in and the mails; SignIn/Requests compares any sequence of requests
--   with a description of what each one gives.
-- - Player/Mail: player_mail.go on one box, Mail/Steps any sequence of its changes; Mail/Send
--   sends a mail in a world of players by id, where the sender and the receiver may be one.
-- - Player/Draw: player_draw_card.go and its tables. The loop of drop_item sets its index back, so it
--   runs on fuel: three rounds for each entry of the library are enough for the picks of
--   Draw/Choice and Draw/Ends; Draw/Hangs is about rounds without an end. Draw/Cards is what a draw
--   gives and costs, Draw/Free about its price.
-- - Player/Shop: player_shop.go, the limits of goods and their refresh, and what is bought;
--   Shop/Buy and Shop/Unpaid are about purchases.
--
-- The login server announces accounts to it:
--
-- - LoginTokens: login_token.go, the maps from a unique id to its token and from an account to its
--   unique id, as operations and as steps, of which a restart is one. LoginTokens/Agreement and
--   LoginTokens/Names are about the maps, LoginTokens/Saved about the hash in Redis,
--   LoginTokens/Loading about the loop that reads it, and LoginTokens/Restart about what a restart
--   gives back.
--
-- Shared by the servers:
--
-- - Ranks: libs/utils/short_ranklist.go, the array with its index by key, over an interface of
--   items; Ranks/Items has the items of src/common/rank_item.go. Order and Search are about ranked
--   lists, Raise, Lower, Insert, Update and Delete about one call, Runs about sequences of calls.
-- - PlayerIds: src/share_data/server_player_id.go (the binary digits are in Prelude/Bits).
--
-- The login server keeps accounts, and sends a new player to a game server:
--
-- - Accounts: src/login_server/account_mgr.go, the states of the accounts; Accounts/History compares
--   them with the requests that were served.
-- - Servers: src/share_data/server_list.go, the list of servers with their weights. Servers/Choice
--   says which server a random number chooses; Servers/Config what a file leaves when it is read.
--   What `json.Unmarshal` leaves in the fields, whether it reports an error, and what `rand.Int31n`
--   returns are arguments.
--
-- int32 is the integers with wrap-around written out (Prelude/Int32), a Go map an association list
-- in some order of iteration (Prelude/Dict), a Go string its bytes. The lock on a row or a receiver
-- makes a handler one step. Time is an argument; a calendar day is one in a zone at a fixed distance
-- from UTC.
--
-- Not modelled: the network, the database, the parsing of the tables, the generated protocol, and
-- what tasks, announcements, cats and buildings do with the calls that they get, which are effects of
-- the trace; of a mail the sender's name; of a reply to the client whatever is computed from the
-- modelled state alone.
pub mod Prelude
pub mod Player
pub mod Servers
pub mod Ranks
pub mod PlayerIds
pub mod LoginTokens
pub mod Accounts
pub mod Tests
