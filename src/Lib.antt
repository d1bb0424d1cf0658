-- ===== src/Lib.antt =====
-- A verification library of bspd, a server that runs Lua hooks on what its clients send.
--
-- A chunk that arrives at a connection goes through `_bspd_on_data` (src/server/main.c): a
-- protocol (src/protocol) fills a frame from it, the packet code turns the frame into a script
-- task, and the task goes to the queue (src/server/script.c) from which the worker threads take
-- it. The senders (src/server/main.c) go the other way. Objects travel as JSON
-- (src/serialization/json.c).
--
-- The parts:
--  Common    numbers, lists and byte strings, shared by all
--  Json      src/serialization/json.c. Json/Value has the values of libbsp by their contents,
--            Json/Encode `_append_string_to_json`, `_append_value_to_json`,
--            `_append_object_to_json` and `json_nd_encode`, Json/Decode `_get_value_from_json`,
--            `_traverse_json_array`, `_traverse_json_hash` and `json_nd_decode`; Json/RoundTrip
--            relates them
--  Protocol  src/protocol. Protocol/Frame has the frame, `BSPD_BARED`, and normal.c, internal.c
--            and websocket.c, Protocol/Http the functions of http.c
--  Server    src/server. Server/Task and Server/Queue have the task queue of script.c,
--            Server/Packet `_proc_raw` and `_proc_packet`, Server/Send `_real_send`,
--            `send_string`, `send_object` and `send_command`, Server/Input `_bspd_on_data`, all of
--            main.c; Server/Clients and Server/Sessions have the channels and
--            sessions of clients.c, Server/Connect how a client comes and goes, of clients.c and
--            main.c, Server/Conf `_parse_conf_server` and `parse_conf` of conf.c, Server/Workers
--            the scripts of the worker threads and the callbacks of the signals, Server/Clock
--            `_on_base_clock`, and Server/Startup `bspd_startup`, all of main.c, with
--            `clients_init` of clients.c, `get_conf_from_file` of conf.c and the options of
--            src/bspd.c
--  Script    src/server/script.c at Lua's side. Script/Lua has Lua's values, tables and stack,
--            Script/Push `_push_value_to_lua` and `object_to_lua`, Script/Read
--            `_lua_value_to_value`, `_lua_table_to_object` and `lua_to_object`, which
--            Script/RoundTrip relates; Script/Call has `call_script`, Script/Worker
--            `_worker_on_poke` of main.c, and Script/Container the containers of scripts with
--            the functions that src/wrapper registers there
--  Utils     src/utils. Utils/Trace has `show_trace`, `append_log` and `close_log`, Utils/Hex
--            `debug_hex`, Utils/Dump `debug_object`, `debug_value` and `debug_lua_stack`, of
--            debug.c
--  Wrapper   src/wrapper. Wrapper/Global has `global_set` and `global_get` of global.c,
--            Wrapper/Sessions the functions of standard.c for sessions and channels, Wrapper/Send
--            `standard_net_send` of standard.c, Wrapper/Channel `standard_net_send_channel` and
--            `standard_list_channel`, Wrapper/Timer `standard_new_timer`, and of misc.c
--            Wrapper/Misc `misc_random_int` and the Base64 functions, Wrapper/Dump
--            `misc_var_dump`
--  Tests     concrete runs
--
-- How the code is modelled. A buffer is the list of its bytes from the cursor on, a pointer a
-- number with 0 for NULL, and a field that may be NULL an Option. An unsigned or signed C integer
-- is the number that it stands for, or its bit pattern where the code only moves it. What is
-- called in libbsp and in the C library is a parameter: the escapes and the UTF-8 reader of the
-- JSON text (TextLib), `strtod` and its companions (NumLib, and NumLaws for what the round trip
-- needs of them), `bsp_get_value` (Wire), `bsp_socket_append` (SendLib), the hashes of channels
-- (HashLib), the readers of configured values (ConfLib), the tables, lengths and numbers of Lua
-- (LuaLib, and LuaLaws for what its manual says of them), its globals (ScriptEnv), the hashes of the
-- store that scripts share (StoreLib, StoreLaws), the tests of Lua arguments (ArgLib), `bsp_str_toupper`
-- (a section parameter), the states of Lua (LuaVm, GlobalLaws), the sockets and threads (NetLib), what
-- the start meets (Machine, ClientsAlloc), doubles as times (TimeLib, TimeLaws), and how C prints
-- numbers and pointers (PrintLib).
-- The memory pools hand out a block with whatever it holds. Allocation does not fail. Data that
-- C searches with string functions is taken to end with a NUL. A string of libbsp stands for one
-- with a buffer. Lua's stack is taken to have room: call_script pushes without asking for it, so
-- that what it does on a full stack is left out; for the dump of a variable and the registration
-- of the functions the answer of `lua_checkstack` is a parameter. An `int` that counts the bytes
-- of a dump in hexadecimal holds less than 2 ^ 31 of them; for more the model has no result.
--
-- Loops whose end is not structural are on fuel. The decoder runs on twice the length of its input
-- and one more, the loop over the header lines on the length of the data, the loop of the string
-- encoder on the length of the text, the doubling of a joined list on its length and one more.
-- Reading a Lua value takes its fuel as an argument, which has to exceed the depth of its tables; a
-- table stands by its contents, so one that contains itself is left out. The data path keeps its
-- fuel as an argument, since it need not end.
--
-- Worker threads that run at the same time are modelled where they meet, at the queue; that a signal
-- changes a script while it runs is not.
--
-- Not modelled: what a timer prints when it fires, the calls of the operating system in misc.c,
-- session.c, which is not built, and the libraries under deps. compress.c has only functions that
-- return NULL.
pub mod Common
pub mod Json
pub mod Protocol
pub mod Script
pub mod Server
pub mod Tests
pub mod Utils
pub mod Wrapper
