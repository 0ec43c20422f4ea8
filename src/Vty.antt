-- ===== src/Vty.antt =====
-- src/hh_dp_vty.c and .h, src/hh_dp_vty_common.h, and src/vtysh_hhdplane.c: the commands that the plugin
-- adds to zebra's terminal, and those that the shell vtysh forwards to zebra. FRR's parser of commands
-- is left out: a command is its text and the function that runs it.
pub mod Commands
use dplane_plugin.Base.{ℕ, List, [], ◌∷◌, ◌++◌, Bool, true, false, not, ◌==◌, length, if◌then◌else◌}
use dplane_plugin.Base.Text.{text, text_eq}
use dplane_plugin.World.Env.{Env}
use dplane_plugin.World.State.{State, on_comm}
use dplane_plugin.Stats.Show.{Tags, hh_vty_show_stats}

-- The macros of the plugin's build.
pub record Build : Type 0 where
  pub ver_string : List ℕ
  pub build_date : List ℕ
  pub build_type : List ℕ
  pub git_commit : List ℕ
  pub git_branch : List ℕ
  pub git_tag : List ℕ

unfoldable pub hh_vty_show_version : Build → List ℕ
hh_vty_show_version b =
    text "\n Hedgehog-GW plugin "
    ++ (b.ver_string
        ++ (b'\n'
            ∷ (text "  Built on "
                ++ (b.build_date
                    ++ (text " ("
                        ++ (b.build_type
                            ++ (text ")\n"
                                ++ (text "   Commit: "
                                    ++ (b.git_commit
                                        ++ (b'\n'
                                            ∷ (text "   Branch: "
                                                ++ (b.git_branch
                                                    ++ (b'\n'
                                                        ∷ (text "   Tag   : "
                                                            ++ ((if not (length b.git_tag == 0)
                                                            then b.git_tag
                                                            else text "none")
                                                            ++ text "\n\n")))))))))))))))

abbrev pub hh_cmd_show_plugin_version : List ℕ
hh_cmd_show_plugin_version = text "show hedgehog plugin version"

abbrev pub hh_cmd_show_rpc_stats : List ℕ
hh_cmd_show_rpc_stats = text "show hedgehog rpc stats"

abbrev pub hh_cmd_debug_rpc : List ℕ
hh_cmd_debug_rpc = text "[no] debug hedgehog rpc"

-- A command returns what it prints, and the state.
unfoldable pub hh_dp_show_plugin_version : Build → State → List ℕ × State
hh_dp_show_plugin_version b s = (hh_vty_show_version b, s)

unfoldable pub hh_dp_show_rpc_stats : Env → Tags → State → List ℕ × State
hh_dp_show_rpc_stats e tags s = (hh_vty_show_stats e tags s, s)

abbrev pub enabled_text : Bool → List ℕ
enabled_text true = text "enabled"
enabled_text false = text "disabled"

-- `word` is the first word of the command as it was typed.
unfoldable pub hh_dp_debug_rpc_msg : List ℕ → State → List ℕ × State
hh_dp_debug_rpc_msg word s =
    let on = not (text_eq word (text "no")) in
    (
      text "Hedgehog RPC debugging is now " ++ (enabled_text on ++ b'\n' ∷ []),
      on_comm (λ c. record c { log_dataplane_msg = on }) s,
    )

-- The nodes of the terminal at which commands are installed.
pub data Node : Type 0 where
  view_node enable_node : Node

-- `install_element`: the table of commands, the latest first.
abbrev pub Elements : Type 0
Elements = List (Node × List ℕ)

abbrev pub install_element : Node → List ℕ → Elements → Elements
install_element node cmd els = (node, cmd) ∷ els

unfoldable pub hh_dp_vty_init : Elements → Elements
hh_dp_vty_init els = install_element enable_node hh_cmd_debug_rpc (
    install_element view_node hh_cmd_show_rpc_stats
      (install_element view_node hh_cmd_show_plugin_version els))

-- What vtysh does with a command: the text that it has for the command, or the words that were typed,
-- go to a daemon.
pub data Forwarded : Type 0 where
  execute_name : List ℕ → List ℕ → Forwarded
  one_daemon : List ℕ → List (List ℕ) → Forwarded

unfoldable pub vtysh_show_hedgehog_plugin_version : Forwarded
vtysh_show_hedgehog_plugin_version = execute_name (text "zebra") hh_cmd_show_plugin_version

unfoldable pub vtysh_show_hedgehog_rpc_stats : Forwarded
vtysh_show_hedgehog_rpc_stats = execute_name (text "zebra") hh_cmd_show_rpc_stats

unfoldable pub vtysh_debug_hh_rpc_msg : List (List ℕ) → Forwarded
vtysh_debug_hh_rpc_msg argv = one_daemon (text "zebra") argv

unfoldable pub vtysh_extension : Elements → ℕ × Elements
vtysh_extension els = (
  0,
  install_element enable_node hh_cmd_debug_rpc (
      install_element view_node hh_cmd_show_plugin_version
        (install_element view_node hh_cmd_show_rpc_stats els)),
)
