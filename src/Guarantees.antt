-- ===== src/Guarantees.antt =====
-- What the callbacks of the plugin guarantee, with the call of `dp_connect` that sending may lead to.
pub mod Counted
use mathlib.Core.Bool.{true≢false}
use dplane_plugin.Base.{
  All, List, ◌++◌, ◌||◌, ℕ, suc, ◌≡◌, refl, ◌∙◌, sym, [], ◌⊎◌, inl, inr, true, false, length, some,
  none, arith,
}
use dplane_plugin.Rpc.{RpcMsg, RpcOp, RpcResponse, RpcObject, is_connect}
use dplane_plugin.World.Env.{Env}
use dplane_plugin.World.Frr.{Ctx}
use dplane_plugin.World.State.{State, DpMsg}
use dplane_plugin.World.Monad.{success, Post, Post-weaken, ◌>>=◌}
use dplane_plugin.Cache.{dp_msg_in_flight_count}
use dplane_plugin.Queues.{Carries, IsConnectMsg, requests, datagrams}
use dplane_plugin.Comm.Send.{is_connect_request, send_pending_rpc_msgs, dp_sock_send_cb}
use dplane_plugin.Comm.Send.Calm.{Calm}
use dplane_plugin.Comm.Send.Drain.{Drained, send_pending-Drained}
use dplane_plugin.Comm.Connect.{dp_connect, init_dplane_rpc}
use dplane_plugin.Comm.Connect.Calm.{Storm, dp_connect-Calm}
use dplane_plugin.Comm.Connect.Start.{Started, init_dplane_rpc-Started}
use dplane_plugin.Comm.Recv.{dp_rpc_recv}
use dplane_plugin.Comm.Recv.Loop.{Flood, Refused, Runs, dp_rpc_recv-Runs}
use dplane_plugin.Msg.Request.{dp_request_new, send_with_object}
use dplane_plugin.Msg.Response.{handle_rpc_msg, purge, is_ok}
use dplane_plugin.Process.{hh_process}
use dplane_plugin.Process.Classes.{class_by, Is, hh_process-class}
use dplane_plugin.Plugin.{zd_hh_process}
use dplane_plugin.Plugin.Rounds.{zd_hh_process-Keeps}
use dplane_plugin.Events.Callbacks.{dp_sock_send_cb-armed}
use dplane_plugin.Invariant.{Inv, Keeps}
use dplane_plugin.Invariant.Submit.{Adds, submit-Adds}
use dplane_plugin.Invariant.Purge.{purge-Keeps}
use dplane_plugin.Invariant.Handle.{Fate, Sound, Loses}
use dplane_plugin.Invariant.Incoming.{IsMatched, IsRefusalMsg, handle_rpc_msg-Fate}

-- A build that aborts at what the code calls a bug.
abbrev pub IsDebug : Env → Type 0
IsDebug e = e.debug_build ≡ true

-- Never are `n` connections in a row accepted and lost at once.
abbrev pub Settles : Env → ℕ → Type 0
Settles e n = (c t : ℕ) → ¬ Storm e n c t

-- What a connection attempt does: it sends Connect requests, which join the requests in flight, and
-- leaves the rest alone.
pub record Connects (e : Env) (s t : State) : Type 0 where
  pub fresh : List DpMsg
  pub connects : All IsConnectMsg fresh
  pub in_flight : t.cache.in_flight ≡ s.cache.in_flight ++ fresh
  pub unsent : t.cache.unsent ≡ s.cache.unsent
  pub wire : t.kernel.wire ≡ s.kernel.wire ++ datagrams e fresh
  pub seqnum : t.seqnum ≡ s.seqnum
  pub zebra : t.zebra ≡ s.zebra

-- What a run over the queue does: `sent` is the first part of the queue, which is on the wire, and
-- whose requests are in flight; `fresh` are Connect requests of a new connection.
pub record Sends (e : Env) (s t : State) : Type 0 where
  pub sent : List DpMsg
  pub fresh : List DpMsg
  pub connects : All IsConnectMsg fresh
  pub unsent : s.cache.unsent ≡ sent ++ t.cache.unsent
  pub in_flight : t.cache.in_flight ≡ s.cache.in_flight ++ (requests sent ++ fresh)
  pub wire : t.kernel.wire ≡ s.kernel.wire ++ (datagrams e sent ++ datagrams e fresh)
  pub allowed : All (λ m. (is_connect_request m.msg || s.comm.dplane_is_ready) ≡ true) sent
  pub seqnum : t.seqnum ≡ s.seqnum
  pub zebra : t.zebra ≡ s.zebra

Calm-Connects : (e : Env) {s t : State} → Calm e s t → Connects e s t
Calm-Connects e c = record {
  fresh = c.fresh;
  connects = c.connects;
  in_flight = c.in_flight;
  unsent = c.unsent;
  wire = c.wire;
  seqnum = c.seqnum;
  zebra = c.zebra;
}

Drained-Sends : (e : Env) {s t : State} → Drained e s t → Sends e s t
Drained-Sends e d = record {
  sent = d.sent;
  fresh = d.fresh;
  connects = d.connects;
  unsent = d.unsent;
  in_flight = d.in_flight;
  wire = d.wire;
  allowed = d.allowed;
  seqnum = d.seqnum;
  zebra = d.zebra;
}

-- A connection attempt ends if it does not begin where n connections in a row are accepted and lost at
-- once. It sends Connect requests, which join the requests in flight, and leaves the queue of unsent
-- messages, the numbering and zebra's queues alone. It aborts only in a debug build.
pub connect-ends :
    (e : Env) (n : ℕ) (s : State)
    → ¬ Storm e n s.kernel.connects s.kernel.sends
    → Post ⊥ (IsDebug e) (λ _ t. Connects e s t) (dp_connect e n s)
connect-ends e n s ends =
    Post-weaken _ _ (dp_connect e n s) ends (λ g. g) (λ _ t c. Calm-Connects e c)
      (dp_connect-Calm e (IsDebug e) (λ d. d) n s)

module _ (e : Env) (n : ℕ) (settles : Settles e n) where
  calm :
      (G : Type 0) → (IsDebug e → G) → (s : State) → Post ⊥ G (λ _ t. Calm e s t) (dp_connect e n s)
  calm G dbg s =
      Post-weaken _ _ (dp_connect e n s) (settles s.kernel.connects s.kernel.sends) (λ g. g)
        (λ _ t c. c) (dp_connect-Calm e G dbg n s)

  -- If there are never n connections in a row that are accepted and lost at once, a run over the queue
  -- ends. It sends a first part of the queue in order and keeps the rest in order; what it sent is on
  -- the wire, and the requests among it are in flight behind the others; a message other than a Connect
  -- is sent only if the dataplane was ready. It aborts only in a debug build.
  pub send_pending-Sends :
      (s : State)
      → Post ⊥ (IsDebug e) (λ _ t. Sends e s t) (send_pending_rpc_msgs e (dp_connect e n) s)
  send_pending-Sends s =
      Post-weaken _ _ (send_pending_rpc_msgs e (dp_connect e n) s) (λ f. f) (λ g. g)
        (λ _ t d. Drained-Sends e d)
        (send_pending-Drained e (dp_connect e n) ⊥ (IsDebug e) (λ d. d) (calm (IsDebug e) (λ d. d))
          s)

  -- From a state of the invariant, and if there are never n connections in a row that are accepted and
  -- lost at once, a new Add, Del or Update for a context is accepted: it succeeds, the plugin holds the
  -- context once more, and the invariant holds, with consecutive numbers of requests. It aborts only in
  -- a debug build.
  pub submit-accepts :
      (op : RpcOp) (o : RpcObject) (c : Ctx) (s : State)
      → Carries op
      → Inv s
      → Post ⊥
          (IsDebug e)
          (λ r t. (r ≡ success) × Adds c s t)
          ((dp_request_new e op (some c) >>= send_with_object e (dp_connect e n) o) s)
  submit-accepts = submit-Adds e (dp_connect e n) ⊥ (IsDebug e) (λ d. d) (calm (IsDebug e) (λ d. d))

  fate :
      (msg : RpcMsg) (s : State)
      → Inv s
      → Post ⊥
          (IsDebug e ⊎ IsRefusalMsg msg)
          (λ _ t. Fate (Sound e (IsMatched e msg s)) s t)
          (handle_rpc_msg e (dp_connect e n) msg s)
  fate msg s h =
      handle_rpc_msg-Fate e (dp_connect e n) ⊥ (IsDebug e ⊎ IsRefusalMsg msg) inl
        (calm (IsDebug e ⊎ IsRefusalMsg msg) inl) msg s inr h

  -- From a state of the invariant, and if there are never n connections in a row that are accepted and
  -- lost at once, the handling of a message that is no response, of a response to the first request in
  -- flight, and of one that shows a restart of the dataplane ends. It keeps the invariant and every
  -- context: each is still held, or given back to zebra. It aborts only in a debug build or if the
  -- message refuses a Connect.
  pub handle_rpc_msg-Keeps :
      (msg : RpcMsg) (s : State)
      → Inv s
      → IsMatched e msg s
      → Post ⊥
          (IsDebug e ⊎ IsRefusalMsg msg)
          (λ _ t. Keeps s t)
          (handle_rpc_msg e (dp_connect e n) msg s)
  handle_rpc_msg-Keeps msg s h matched =
      Post-weaken _ _ (handle_rpc_msg e (dp_connect e n) msg s) (λ f. f) (λ g. g)
        (λ _ t f. f.0 (inr matched)) (fate msg s h)

  -- From a state of the invariant, and if there are never n connections in a row that are accepted and
  -- lost at once, the handling of any message ends, keeps the invariant, and leaves no context held or
  -- given back more often than before. It aborts only in a debug build or if the message refuses a
  -- Connect.
  pub handle_rpc_msg-Loses :
      (msg : RpcMsg) (s : State)
      → Inv s
      → Post ⊥
          (IsDebug e ⊎ IsRefusalMsg msg)
          (λ _ t. Loses s t)
          (handle_rpc_msg e (dp_connect e n) msg s)
  handle_rpc_msg-Loses msg s h =
      Post-weaken _ _ (handle_rpc_msg e (dp_connect e n) msg s) (λ f. f) (λ g. g) (λ _ t f. f.1)
        (fate msg s h)

  -- From a state of the invariant, and if there are never n connections in a row that are accepted and
  -- lost at once, the purge for a Connect response with the result Ok ends: no request is in flight
  -- after it, no message that waits is touched, and every context is still held or given back. It aborts
  -- only in a debug build.
  pub purge-empties :
      (resp : RpcResponse) (s : State)
      → is_connect resp.op ≡ true
      → is_ok resp.rescode ≡ true
      → Inv s
      → Post ⊥
          (IsDebug e)
          (λ _ t. Keeps s t × (t.cache.in_flight ≡ []) × (t.cache.unsent ≡ s.cache.unsent))
          (purge e (dp_connect e n) (suc (dp_msg_in_flight_count s)) resp s)
  purge-empties resp s conn ok h =
      purge-Keeps e (dp_connect e n) ⊥ (IsDebug e) (λ d. d) (calm (IsDebug e) (λ d. d))
        (suc (dp_msg_in_flight_count s)) resp s.cache.in_flight s refl (omega arith) conn
        (λ bad. absurd (true≢false (sym ok ∙ bad))) h

  -- From a state of the invariant, if there are never n connections in a row that are accepted and lost
  -- at once, and if no k datagrams in a row decode from here on, the read callback ends, and keeps the
  -- invariant without multiplying a context, or losing one in a debug build. It aborts only in a debug
  -- build or once a Connect is refused.
  pub recv-Runs :
      (k : ℕ) (s : State)
      → ¬ Flood e k s.kernel.recvs
      → Inv s
      → Post ⊥ (IsDebug e ⊎ Refused e) (λ _ t. Runs e s t) (dp_rpc_recv e n k s)
  recv-Runs k s ends h =
      Post-weaken _ _ (dp_rpc_recv e n k s) (λ f. elim f [ inl bad ↦ bad | inr flood ↦ ends flood ])
        (λ g. g) (λ _ t r. r)
        (dp_rpc_recv-Runs e n ⊥ (IsDebug e ⊎ Refused e) inl inr (calm (IsDebug e ⊎ Refused e) inl) k
          s h)

  -- If there are never n connections in a row that are accepted and lost at once, the write callback
  -- ends. After it the queue of unsent messages is empty, or the callback is scheduled again. It aborts
  -- only in a debug build.
  pub send_cb-armed :
      (s : State)
      → Post ⊥
          (IsDebug e)
          (λ _ t. (length t.cache.unsent ≡ 0) ⊎ (t.comm.ev_send ≡ true))
          (dp_sock_send_cb e (dp_connect e n) s)
  send_cb-armed = dp_sock_send_cb-armed e n ⊥ (IsDebug e) (λ d. d) (calm (IsDebug e) (λ d. d))

  -- From a state of the invariant, and if there are never n connections in a row that are accepted and
  -- lost at once, the work callback ends and keeps the invariant, and each context that it takes from
  -- zebra is queued for the dataplane or given back, once. It aborts only in a debug build.
  pub work-conserves :
      (s : State) → Inv s → Post ⊥ (IsDebug e) (λ _ t. Keeps s t) (zd_hh_process e n s)
  work-conserves = zd_hh_process-Keeps e n ⊥ (IsDebug e) (λ d. d) (calm (IsDebug e) (λ d. d))

  -- From a state of the invariant, and if there are never n connections in a row that are accepted and
  -- lost at once, the result for a context is that of its class in a table of the operations and, for
  -- routes, of the address families: IPv4 and L2VPN routes that are unicast or EVPN, IPv4 addresses and
  -- router MACs are queued, an unlisted operation fails and anything else is ignored. An abort is that
  -- of a debug build.
  pub process-class :
      (c : Ctx) (s : State)
      → Inv s
      → Post ⊥ (IsDebug e) (λ a _. Is (class_by c.op c) a) (hh_process e (dp_connect e n) c s)
  process-class =
      hh_process-class e (dp_connect e n) ⊥ (IsDebug e) (λ d. d) (calm (IsDebug e) (λ d. d))

  -- If there are never n connections in a row that are accepted and lost at once, then from a plugin that
  -- is registered and has no socket and no buffer for formatting yet, the start ends in the invariant, or
  -- in a failure that leaves no socket and no buffer for formatting. It aborts only in a debug build.
  pub init-starts :
      (s : State)
      → s.zebra.registered ≡ true
      → s.comm.dp_sock ≡ none
      → s.comm.fb ≡ false
      → Post ⊥ (IsDebug e) Started (init_dplane_rpc e n s)
  init-starts = init_dplane_rpc-Started e n ⊥ (IsDebug e) (λ d. d) (calm (IsDebug e) (λ d. d))
