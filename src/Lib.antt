-- ===== src/Lib.antt =====
-- The dataplane plugin of FRR's zebra, in C under src/. Zebra hands the plugin contexts
-- (routes, addresses, MACs) through a dataplane provider; the plugin turns each that is of
-- interest into a request of the dplane-rpc protocol, sends the requests over a unix datagram
-- socket, matches the responses with the requests in flight, and gives every context back to
-- zebra with a result.
--
-- Parts, and the files that model them:
-- - src/hh_dp_comm.c: Comm.Socket (paths, opening, closing and connecting the socket, the write
--   event), Comm.Send (do_send_rpc_msg, send_pending_rpc_msgs, send_rpc_msg, dp_sock_send_cb),
--   Comm.Connect (dp_connect, dp_send_keepalive, init_dplane_rpc, fini_dplane_rpc), Comm.Recv
--   (sock_recv, dp_rpc_recv). Its statics are the record Comm of World.State.
-- - src/hh_dp_msg_cache.c: Cache, with the pool, the queue of unsent messages and that of
--   requests in flight as lists, the record Cache of World.State. A list of pointers is a list
--   of messages, since a message is in one list at most. The contexts that the end frees with
--   the messages (dp_msg_del) are in the list freed of the record Zebra.
-- - src/hh_dp_msg.c: Msg.Request (dp_request_new, the Connect request, control messages),
--   Msg.Build (the requests built from a context), Msg.Response (responses, the purge after a
--   restart, control messages, handle_rpc_msg). Its static seqnum is a field of State.
-- - src/hh_dp_process.c: Process (hh_process and its handlers, zd_hh_process_update).
-- - src/hh_dp_plugin.c: Plugin (the callbacks of the provider) and Plugin.Module (module_init,
--   and init_hh_dplane_plugin, which registers the provider).
-- - src/hh_dp_rpc_stats.c and .h: Stats (the counters, which wrap at 2 ^ 64). Stats.Show is
--   what hh_vty_show_stats prints of them, as the list of its code points (Base.Text has the
--   formats of numbers and columns).
-- - src/hh_dp_internal.h: the macro BUG, `bug` in World.Monad: an abort in a debug build, an
--   early return in a release build.
-- - src/hh_dp_utils.c: Options (plugin_args_tokenize) and Options.Getopts (plugin_getopts,
--   plugin_args_parse), with the options and their callback from src/hh_dp_plugin.c.
--   getopt_long is a parameter, and so is what strdup finds (Supply); Heap counts the texts
--   that are allocated and freed. The loop over the arguments has k rounds: 62 are enough if
--   each copy finds memory, and no number is once the words find none (Options.Starved). The
--   loop over the options has n rounds, enough if getopt_long comes to its end in n calls.
-- - src/hh_dp_vty.c, src/hh_dp_vty_common.h and src/vtysh_hhdplane.c: Vty (the commands, what
--   they print, their installation in FRR's table).
--
-- How it is modelled. A function of the source that only changes state is a function on State;
-- one that may abort or that may run without end is a function into Outcome (World.Monad): it
-- returns, aborts, or is out of fuel. What the plugin calls and does not implement is the
-- record Env of World.Env: the codec and constructors of dplane-rpc, the build, and the kernel,
-- whose answer to the k-th call of a kind is a function of k; any sequence of successes and
-- errors is such a function. World.Frr and Rpc have the types of FRR and dplane-rpc as far as
-- the source reads or writes them. Log messages (and the two functions that only log,
-- log_dp_msg_lists and zd_hh_ret_str) and time are left out; a timer or a callback is scheduled
-- or not, and the descriptor that the read event waits on is not kept. FRR's own loop, its
-- parser of commands and the build are not modelled: they call what is.
--
-- The parts interact in a circle: do_send_rpc_msg calls dp_connect once a connection is lost,
-- dp_connect sends a Connect request through send_rpc_msg, and so back to do_send_rpc_msg. In
-- Comm.Send that call is a parameter, and Comm.Connect ties the knot on fuel: `n` bounds how
-- many connections in a row may be accepted and lost at once. The proofs follow the same line:
-- what dp_connect does (Calm, in Comm.Send.Calm) is a hypothesis of the lemmas on sending, and
-- Comm.Connect.Calm proves it from those lemmas. The fuel is enough unless n connections in a
-- row are accepted and lost (Storm, Settles). The loops of send_pending_rpc_msgs and of the
-- purge have as much fuel as the queue is long, which always is enough; that of dp_rpc_recv has
-- k rounds, enough unless k datagrams in a row decode (Flood). That a peer could keep either
-- going forever is in the code, not in the model.
--
-- Post F G P of World.Monad says what a call does: P if it returns, G if it aborts, F if the
-- fuel runs out. A theorem with ⊥ for F says that the call ends. IsDebug for G says that only a
-- debug build aborts.
--
-- The invariant (Inv, in Invariant): the provider is registered; a message of the pool has no
-- context; the queue of unsent messages holds requests with a context and control messages
-- only; the requests in flight are Connect requests without and others with a context; and the
-- requests with a context that wait, those in flight before those unsent, have consecutive
-- numbers that end just before seqnum. `in_hand k` (in Queues) counts how often zebra's two
-- queues and the plugin's lists hold the context k. Keeps says that a step keeps the invariant
-- and each of these counts, Loses that it keeps the invariant and raises none, Adds that it
-- takes one more context. The lemmas go by the part of the program: Invariant.Sending,
-- Invariant.Submit (queueing a message), Invariant.Response, Invariant.Purge, Invariant.Handle
-- and Invariant.Incoming (messages from the dataplane), Process.Placed and Plugin.Rounds
-- (contexts from zebra), Events.Callbacks. Events is the event loop as a step relation. Stays
-- has rules for what the actions keep of a View of the state: the socket's descriptor, the
-- flags of the connection and of the timer, the calls on it, the statistics of requests and the
-- requests in flight. The lemmas go with the parts (Comm.Send.Stays, Msg.Stays, Plugin.Stays
-- and so on). What has to be shown of a property of the view is collected in two records, for
-- which the rest of the code is then checked once: Linked (Comm.Connect.Stays), that an attempt
-- to connect keeps it, and Counts (Stays.Counts), that the book-keeping of requests does.
-- Comm.Connect.Links has three properties of the socket, that of descriptors one for each
-- number of a descriptor, and Stats.Tally one of the statistics; Events.Links and Events.Tally
-- have what they say of a run of the event loop, and Msg.Response.Matched and
-- Guarantees.Counted what the statistics say of a message that matches. Events.Life goes from
-- the loading of the module to the end of the provider. Guarantees states the results on the
-- callbacks; the others stand with the part that they are about. Examples has them at a
-- concrete plugin.
pub mod Base
pub mod Rpc
pub mod World
pub mod Stats
pub mod Cache
pub mod Comm
pub mod Msg
pub mod Process
pub mod Plugin
pub mod Options
pub mod Vty
pub mod Queues
pub mod Invariant
pub mod Events
pub mod Stays
pub mod Guarantees
pub mod Examples
