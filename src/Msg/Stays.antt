-- ===== src/Msg/Stays.antt =====
-- Requests, from src/hh_dp_msg.c: they keep what a lost connection keeps.
use dplane_plugin.Base.{ℕ, ◌%◌, Option, none, some, not, ◌&&◌, is_some}
use dplane_plugin.Rpc.{RpcMsg, RpcOp, RpcObject, is_connect}
use dplane_plugin.World.Env.{Env}
use dplane_plugin.World.Frr.{Ctx}
use dplane_plugin.World.State.{DpMsg}
use dplane_plugin.World.Monad.{M, ◌>>=◌}
use dplane_plugin.Cache.{dp_msg_new}
use dplane_plugin.Comm.Send.{lost_connection}
use dplane_plugin.Comm.Send.Stays.{send_rpc_msg-Stays}
use dplane_plugin.Msg.Request.{
  dp_request_new, send_with_object, send_rpc_request_connect, send_rpc_control, our_conn_info,
}
use dplane_plugin.Msg.Build.{
  send_rpc_request_ifaddress, send_rpc_request_rmac, send_rpc_request_iproute, is_add_del,
  is_add_del_update,
}
use dplane_plugin.Stays.Counts.{Books}
use dplane_plugin.Stays.{View, Stays, Stays-abort, Stays-if, Stays-bug, Stays-bind, Ends-if}

module _ (e : Env) {P : View → Type 0} where
  dp_request_new-Stays : (op : RpcOp) (ctx : Option Ctx) → Stays P (dp_request_new e op ctx)
  unfolding dp_request_new dp_msg_new
  dp_request_new-Stays op ctx = record {
    at = λ s h.
        Ends-if P (not (is_some ctx) && not (is_connect op)) _ _ ((Stays-bug {P = P} e none).at s h)
          (Ends-if P (is_connect op) _ _ h h);
  }

module _ (e : Env) (reconnect : M (Unit {0})) {P : View → Type 0} (books : Books e P)
    (lost : Stays P (lost_connection e reconnect)) where
  send_with_object-Stays :
      (o : RpcObject) (m : Option DpMsg) → Stays P (send_with_object e reconnect o m)
  unfolding send_with_object
  send_with_object-Stays o none = Stays-abort
  send_with_object-Stays o (some m) = send_rpc_msg-Stays e reconnect books lost _

  -- A new request, and its sending.
  pub submit-Stays :
      (op : RpcOp) (ctx : Option Ctx) (o : RpcObject)
      → Stays P (dp_request_new e op ctx >>= send_with_object e reconnect o)
  submit-Stays op ctx o = Stays-bind _ _ (dp_request_new-Stays e op ctx) (send_with_object-Stays o)

  pub send_rpc_request_connect-Stays : Stays P (send_rpc_request_connect e reconnect)
  unfolding send_rpc_request_connect
  send_rpc_request_connect-Stays = record {
    at = λ s. (submit-Stays RpcOp.connect none (e.conninfo_as_object (our_conn_info e s))).at s;
  }

  pub send_rpc_control-Stays : (refresh : ℕ) → Stays P (send_rpc_control e reconnect refresh)
  unfolding send_rpc_control dp_msg_new
  send_rpc_control-Stays refresh = record {
    at = λ s h.
        let (m, t) = dp_msg_new s in
        (send_rpc_msg-Stays e reconnect books lost
            (record m { msg = RpcMsg.control (refresh % 256) })).at
          t h;
  }

  pub send_rpc_request_ifaddress-Stays :
      (op : RpcOp) (ctx : Ctx) → Stays P (send_rpc_request_ifaddress e reconnect op ctx)
  unfolding send_rpc_request_ifaddress
  send_rpc_request_ifaddress-Stays op ctx =
      Stays-if (not (is_add_del op)) _ _ (Stays-bug e _) (submit-Stays op (some ctx) _)

  pub send_rpc_request_rmac-Stays :
      (op : RpcOp) (ctx : Ctx) → Stays P (send_rpc_request_rmac e reconnect op ctx)
  unfolding send_rpc_request_rmac
  send_rpc_request_rmac-Stays op ctx =
      Stays-if (not (is_add_del op)) _ _ (Stays-bug e _) (submit-Stays op (some ctx) _)

  pub send_rpc_request_iproute-Stays :
      (op : RpcOp) (ctx : Ctx) → Stays P (send_rpc_request_iproute e reconnect op ctx)
  unfolding send_rpc_request_iproute
  send_rpc_request_iproute-Stays op ctx =
      Stays-if (not (is_add_del_update op)) _ _ (Stays-bug e _) (submit-Stays op (some ctx) _)
