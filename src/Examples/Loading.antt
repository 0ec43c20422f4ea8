-- ===== src/Examples/Loading.antt =====
-- The plugin's life on the example, from its loading to its end.
use dplane_plugin.Base.{◌≡◌, refl, [], ◌∷◌, none, some, true, false, arith}
use dplane_plugin.World.State.{State}
use dplane_plugin.World.Monad.{returns}
use dplane_plugin.Plugin.{zd_hh_start, zd_hh_fini}
use dplane_plugin.Plugin.Module.{
  Module, hh_provider, module_init, init_hh_dplane_plugin, after_parse,
}
use dplane_plugin.Options.{
  plugin_args_tokenize, split_dup, strdup, free_dup, push_tokens, push_next, plugin_args_init,
  plugin_args_push, push_found, strtok, token_of, skip_delims, split_token, plugin_args_free,
}
use dplane_plugin.Options.Getopts.{
  plugin_args_parse, parse_args, plugin_getopts, process_opt, after_callback, find_opt,
  finish_parse, process_hit, process_plugin_opt, set_path, build_short_opts,
}
use dplane_plugin.Stats.{rpc_count_request_sent, rpc_count_tx}
use dplane_plugin.Cache.{init_dp_msg_cache, dp_msg_new, dp_msg_cache_inflight}
use dplane_plugin.Comm.Send.{
  send_rpc_msg, do_send_rpc_msg, after_connect_sent, settle_sent, can_send_rpc_request,
}
use dplane_plugin.Comm.Connect.{
  dp_connect, connect_sock, on_connect_result, dp_send_keepalive, init_dplane_rpc,
}
use dplane_plugin.Msg.Request.{send_rpc_request_connect, dp_request_new, send_with_object}
use dplane_plugin.Comm.Socket.{
  set_dp_sock_local_path, dp_unix_sock_open, dp_unix_connect, after_connect,
}
use dplane_plugin.Comm.Connect.Links.{Retries}
use dplane_plugin.Invariant.{Inv}
use dplane_plugin.Events.{Event, fire, here, next, hand_in}
use dplane_plugin.Events.Life.{IsOver, load-to-end}
use dplane_plugin.Stays.{view_of}
use dplane_plugin.Examples.{env, state, comm, kernel, route}
use dplane_plugin.Examples.Runs.{state_of}
use dplane_plugin.Examples.Arguments.{text, plenty, heap, getopt_long}

-- Nothing is open, and the provider is not registered.
abbrev unloaded : State
unloaded = record state {
  comm = record comm {
    dp_sock = none;
    fb = false;
    dp_sock_connected = false;
    dplane_is_ready = false;
  };
  kernel = record kernel { opens = 0 };
  zebra = record state.zebra { registered = false };
}

abbrev blank : Module
blank = record { late_init = false; provider = none; extra_info = false; heap = heap }

-- The local path is that of the option, and the four texts were freed.
abbrev parsed : Module
parsed = record blank { late_init = true; heap = record { calls = 4; allocs = 4; frees = 4 } }

abbrev loaded : State
loaded = record unloaded { comm = record unloaded.comm { plugin_sock_path = b'a' ∷ [] } }

abbrev hooked : Module
hooked = record parsed { provider = some (hh_provider env 1); extra_info = true }

abbrev registered : State
registered = record loaded { zebra = state.zebra }

abbrev up : State
up = state_of registered (zd_hh_start env 1 registered)

module_init-parsed :
    module_init env plenty 62 getopt_long 2 (some text) blank unloaded ≡ returns (0, parsed) loaded
unfolding module_init after_parse plugin_args_parse parse_args plugin_args_tokenize split_dup strdup
    free_dup push_tokens push_next plugin_args_init plugin_args_push push_found strtok token_of
    skip_delims split_token plugin_getopts process_opt set_dp_sock_local_path after_callback
    find_opt finish_parse process_hit process_plugin_opt set_path plugin_args_free build_short_opts
module_init-parsed = refl

init-hooked : init_hh_dplane_plugin env 1 0 parsed loaded ≡ returns (0, hooked) registered
unfolding init_hh_dplane_plugin
init-hooked = refl

start-up : zd_hh_start env 1 registered ≡ returns tt up
unfolding zd_hh_start init_dplane_rpc dp_unix_sock_open dp_connect connect_sock init_dp_msg_cache
    on_connect_result dp_unix_connect send_rpc_request_connect send_rpc_msg do_send_rpc_msg
    dp_msg_new rpc_count_request_sent dp_msg_cache_inflight dp_send_keepalive rpc_count_tx
    after_connect_sent settle_sent after_connect can_send_rpc_request dp_request_new
    send_with_object
start-up = refl

load-to-end_example :
    Inv (hand_in (route 3) up)
    × Retries (view_of (hand_in (route 3) up))
    × IsOver env (hand_in (route 3) up) (zd_hh_fini false (hand_in (route 3) up))
load-to-end_example =
    load-to-end env 1 plenty 62 getopt_long 2 (some text) 0 2 (hh_provider env 1) blank parsed
      hooked unloaded loaded registered up (hand_in (route 3) up)
      (record { dp_sock = refl; fb = refl; tidy = λ fd. omega arith }) module_init-parsed
      init-hooked refl start-up
      (next {t = up} (Event.handed (route 3)) here (fire {s = up} (Event.handed (route 3)) tt refl))
