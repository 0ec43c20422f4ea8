-- ===== src/Comm/Still.antt =====
-- Steps that leave the queues, the provider and the wire alone: every step on the socket, every
-- counter, every scheduled event.
use dplane_plugin.Base.{ℕ, ◌≡◌, ◌∙◌, List, Option, arith}
use dplane_plugin.World.Env.{Env, ConnectResult}
use dplane_plugin.World.State.{State, Syscall, on_comm}
use dplane_plugin.Comm.Socket.{
  dp_unix_sock_close, dp_unix_sock_open, dp_unix_sock_reopen, dp_unix_connect, after_connect,
  count_connect, log_call, wakeon_dp_write_avail,
}

pub record Still (s t : State) : Type 0 where
  pub cache : t.cache ≡ s.cache
  pub seqnum : t.seqnum ≡ s.seqnum
  pub zebra : t.zebra ≡ s.zebra
  pub wire : t.kernel.wire ≡ s.kernel.wire
  pub sends : t.kernel.sends ≡ s.kernel.sends
  pub synt : t.comm.synt ≡ s.comm.synt
  pub finalizing : t.comm.finalizing ≡ s.comm.finalizing
  pub recvs : t.kernel.recvs ≡ s.kernel.recvs
  pub requests : t.stats.requests ≡ s.stats.requests

pub Still-refl : (s : State) → Still s s
Still-refl s = ground arith

pub Still-trans : {s t u : State} → Still s t → Still t u → Still s u
Still-trans h k = record {
  cache = k.cache ∙ h.cache;
  seqnum = k.seqnum ∙ h.seqnum;
  zebra = k.zebra ∙ h.zebra;
  wire = k.wire ∙ h.wire;
  sends = k.sends ∙ h.sends;
  synt = k.synt ∙ h.synt;
  finalizing = k.finalizing ∙ h.finalizing;
  recvs = k.recvs ∙ h.recvs;
  requests = k.requests ∙ h.requests;
}

pub dp_unix_sock_close-Still : (s : State) → Still s (dp_unix_sock_close s)
unfolding dp_unix_sock_close
dp_unix_sock_close-Still s = ground arith

pub dp_unix_sock_open-Still :
    (e : Env) (p : List ℕ) (s : State) → Still s (dp_unix_sock_open e p s).1
unfolding dp_unix_sock_open
dp_unix_sock_open-Still e p s = ground arith

set_sock-Still : (o : Option ℕ) (s : State) → Still s (on_comm (λ c. record c { dp_sock = o }) s)
set_sock-Still o s = ground arith

pub dp_unix_sock_reopen-Still : (e : Env) (s : State) → Still s (dp_unix_sock_reopen e s)
unfolding dp_unix_sock_reopen
dp_unix_sock_reopen-Still e s =
    let t = dp_unix_sock_close s in
    let (sock, u) = dp_unix_sock_open e t.comm.plugin_sock_path t in
    Still-trans (dp_unix_sock_close-Still s)
      (Still-trans (dp_unix_sock_open-Still e t.comm.plugin_sock_path t) (set_sock-Still sock u))

after_connect-Still : (e : Env) (r : ConnectResult) (s : State) → Still s (after_connect e r s).1
unfolding after_connect
after_connect-Still e r s = ground (arith, dp_unix_sock_reopen-Still e s)

pub dp_unix_connect-Still : (e : Env) (p : List ℕ) (s : State) → Still s (dp_unix_connect e p s).1
unfolding dp_unix_connect
dp_unix_connect-Still e p s = ground (
  arith,
  after_connect-Still e (e.connect_result s.kernel.connects)
      (count_connect (log_call (Syscall.connect_call p) s)),
)

pub wakeon-Still : (s : State) → Still s (wakeon_dp_write_avail s)
unfolding wakeon_dp_write_avail
wakeon-Still s = ground arith
