-- ===== src/Lib.antt =====
-- oddjob-gpupdate: a D-Bus service that runs the group policy applier for a user or for the
-- computer, and a PAM module that calls it.
--
-- The parts of the program, and the files that model them:
-- - Prelude: shared names; byte strings and the lists of a block of memory (Prelude/Tests,
--   Prelude/Lists); what a C function does besides returning (Prelude/Outcome): `exit`, `aborted`,
--   `fault` for undefined behaviour and `waiting` for a loop whose environment gives no more
--   answers; C's `int` (Prelude/Int).
-- - Buffer (src/buffer.c): `struct oddjob_buffer` as a record; `oddjob_buffer_new`, `_prepend`,
--   `_append`, `_consume`, `_clear`, `_length`, `_data` and `_free` as functions on it.
-- - Util (src/util.c): the allocation helpers (Util/Memory), `oddjob_resize_array` (Util/Resize),
--   `oddjob_parse_args` (Util/Args: the scanner loop, the checks and the two passes over `bigbuf`),
--   `oddjob_collect_args` and the walks of `oddjob_free_args` and `oddjob_freev` (Util/Collect),
--   `oddjob_strndup`, `oddjob_strdup_printf` and `retry_write` (Util/Strings).
-- - Registry (src/oddjob_dbus.c): the tree of services, objects, interfaces and methods
--   (Registry/Types), the search and resize code that its operations repeat (Registry/Table),
--   `service_connect` and `service_disconnect` (Registry/Bus),
--   `oddjob_dbus_listeners_add_method` (Registry/Add) and `..._remove_method` (Registry/Remove), and
--   the functions on a whole context, `oddjob_dbus_listeners_new`, `..._set_reconnect_timeout`,
--   `..._reconnect_if_needed` and `..._free` (Registry/Listeners). Registry/Life is the relation of
--   the contexts that calls of these lead to, with a table from four names to methods, which is what
--   a daemon offers, and with the log of the calls of libdbus, in which Registry/Attached counts how
--   often a connection is attached to the main loop. The registry stands on Util's
--   `oddjob_resize_array`.
-- - Dispatch (src/oddjob_dbus.c): a message from libdbus into a `struct oddjob_dbus_message`
--   (Dispatch/Message, which also has `oddjob_dbus_message_dup` and `..._free`), `guess_interface` (Dispatch/Guess) and `oddjob_dbus_filter`
--   (Dispatch/Filter), which searches the registry's tree and calls the handler that was added; Dispatch/Offered
--   says so of the table in Registry/Life. `oddjob_dbus_main_iterate` (Dispatch/Iterate) follows an
--   iteration of Mainloop by the messages of each service of Registry. The replies of the handlers (Dispatch/Reply) take their texts from Buffer's buffers; the callers'
--   side, `oddjob_dbus_call_bus_methodv` and `oddjob_dbus_call_method` (Dispatch/Client), reads the
--   reply as the daemon reads a call; Dispatch/Exchange composes the two.
-- - Gpupdate (src/gpupdate.c): the program behind the daemon's methods, which reads the user from its
--   standard input by `oddjob_collect_args`, checks the account and the applier, and runs the applier
--   in a child process; a run is that of one of the two processes.
-- - Mainloop (src/mainloop.c): the lists of watches, timeouts and child processes as lists of nodes
--   with addresses (Mainloop/Linked), the functions that change them (Mainloop/Lists), the arguments
--   of `select` (Mainloop/Time, Mainloop/Prepare), `handle` and `mainloop_iterate`
--   (Mainloop/Handle), what is handed to libdbus for a connection and the reset of the signals
--   (Mainloop/Setup). The functions that the loop calls are parameters which may change the lists;
--   a walk follows the pointers through the list as it is by then. Its fuel is the length of the list
--   at its start, which is enough where these functions leave in place the nodes still to visit.
-- - Pam (src/pam_oddjob_gpupdate.c): the options of the module, its search for the account, and its
--   three entry points, which call the daemon through Dispatch/Client. The fuel of the search is its
--   number of rounds; each round asks for 4 bytes more, so that an entry that needs at most
--   8192 + 4 k bytes is found with k + 1.
-- - Selinux (src/selinux.c): `oddjob_selinux_mkdir` and the label for what it creates, on a file
--   system that is a parameter.
--
-- Memory is modelled where it can go wrong: a block is a list, a store or a load outside of it is a
-- `fault`, and the `size_t` sums wrap at 2^64. `malloc` is a parameter; its hypotheses say that a
-- block has the length asked for and that no object has 2^63 bytes. libdbus is a parameter too: its
-- answers are arguments, the calls made for their effect are a log. Each loop recurs on the list or
-- string that the C code walks, so no fuel is needed but for the two named above and
-- for `oddjob_dbus_main_iterate`, whose loops go on for as long as libdbus has messages: where the fuel,
-- a bound on the services and one on the calls for each of them, ends before they do, it is `waiting`;
-- `service_connect`'s loop recurs on the answers of the bus, and is `waiting` where they end.
--
-- Not modelled: that memory is given back, apart from `oddjob_dbus_message_free` and the walks of
-- `oddjob_free_args` and `oddjob_freev` (so not the loops of `oddjob_dbus_listeners_free` over the
-- arrays), printed messages, the constant default names of src/oddjob_dbus.c, and the branches for
-- older versions of libdbus and for builds without SELinux.
pub mod Prelude
pub mod Buffer
pub mod Util
pub mod Registry
pub mod Dispatch
pub mod Mainloop
pub mod Gpupdate
pub mod Pam
pub mod Selinux
