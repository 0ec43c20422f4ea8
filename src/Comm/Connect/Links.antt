-- ===== src/Comm/Connect/Links.antt =====
-- Three properties of the socket that connecting keeps, and what the start and the end of the RPC make
-- of them, from src/hh_dp_comm.c.
use dplane_plugin.Base.{
  ℕ, ◌+◌, ◌≡◌, refl, List, none, true, ◌⊎◌, inl, inr, ◌&&◌, not, is_some, if◌then◌else◌, Bool,
  false,
}
use dplane_plugin.World.Env.{Env}
use dplane_plugin.World.State.{State, Syscall, on_comm}
use dplane_plugin.World.Monad.{
  Rc, success, failure, Outcome, returns, aborts, no_fuel, pure, Post, Post-ite, ◌>>◌,
}
use dplane_plugin.Cache.{init_dp_msg_cache, fini_dp_msg_cache}
use dplane_plugin.Comm.Socket.{dp_unix_connect, dp_unix_sock_open}
use dplane_plugin.Comm.Socket.Descriptors.{
  NoLeak, opened_by, closed_in, held, sock-NoLeak, dp_unix_sock_open-NoLeak,
  dp_unix_sock_close-NoLeak,
}
use dplane_plugin.Comm.Connect.{
  dp_connect, dp_send_keepalive, fini_dplane_rpc, init_rpc_buffers, fail_init, start_rpc,
  after_buffers, init_dplane_rpc, new_buffer,
}
use dplane_plugin.Comm.Connect.Stays.{tried, Linked, dp_connect-Ends, dp_send_keepalive-Stays}
use dplane_plugin.Stays.Counts.{Books, Counts, IsBlind-Counts}
use dplane_plugin.Stays.{View, view_of, Ends, Stays-pure, Stays-then, Ends-bind}

-- Every descriptor is closed but the one in use.
abbrev pub Tidy : Env → View → Type 0
Tidy e k = (fd : ℕ) → opened_by e fd k.opens ≡ closed_in fd k.calls + held fd k.dp_sock

-- There is no socket, the socket is connected, or the timer for the next attempt runs.
abbrev pub Retries : View → Type 0
Retries k = (k.dp_sock ≡ none) ⊎ ((k.connected ≡ true) ⊎ (k.timer ≡ true))

-- There is no socket, and no call has been made on one since.
abbrev pub Stranded : ℕ → List Syscall → View → Type 0
Stranded o c k = (k.dp_sock ≡ none) × (k.opens ≡ o) × (k.calls ≡ c)

-- They read nothing of the statistics.
pub Tidy-Counts : (e : Env) → Counts e (Tidy e) (Tidy e) (λ _. Tidy e) (λ _. Tidy e)
Tidy-Counts e = IsBlind-Counts e (λ k r f n h. h)

pub Retries-Counts : (e : Env) → Counts e Retries Retries (λ _. Retries) (λ _. Retries)
Retries-Counts e = IsBlind-Counts e (λ k r f n h. h)

pub Stranded-Counts :
    (e : Env) (o : ℕ) (c : List Syscall)
    → Counts e (Stranded o c) (Stranded o c) (λ _. Stranded o c) (λ _. Stranded o c)
Stranded-Counts e o c = IsBlind-Counts e (λ k r f n h. h)

pub Tidy-Linked : (e : Env) → Linked e (Tidy e) (Tidy e)
Tidy-Linked e = record {
  idle = λ k is h. h;
  attempt = λ fd s is h.
      let r = dp_unix_connect e s.comm.dp_sock_path s in
      left r.0 (view_of r.1) (sock-NoLeak e s.comm.dp_sock_path s h).2;
  await = λ k t h. h;
  retry = λ k h. h;
}
  where
    left : (r : Rc) (k : View) → Tidy e k → Tidy e (tried r k)
    left success k h = h
    left failure k h = h

pub Retries-Linked : (e : Env) → Linked e (λ _. Unit {0}) Retries
Retries-Linked e = record {
  idle = λ k is h. inl is;
  attempt = λ fd s is h. let r = dp_unix_connect e s.comm.dp_sock_path s in left r.0 (view_of r.1);
  await = λ k t h. inr (inr t);
  retry = λ k h. tt;
}
  where
    left : (r : Rc) (k : View) → Retries (tried r k)
    left success k = inr (inl refl)
    left failure k = inr (inr refl)

pub Stranded-Linked : (e : Env) (o : ℕ) (c : List Syscall) → Linked e (Stranded o c) (Stranded o c)
Stranded-Linked e o c = record {
  idle = λ k is h. h;
  attempt = λ fd s is h. cc;
  await = λ k t h. h;
  retry = λ k h. h;
}

module _ (e : Env) {Before After : View → Type 0} (link : Linked e Before After)
    (books : Books e After) (n : ℕ) where
  -- The last steps of the start, with a first attempt to connect among them.
  start_rpc-Ends :
      (s : State) → Before (view_of (init_dp_msg_cache s)) → Ends After (start_rpc e n s)
  unfolding start_rpc
  start_rpc-Ends s h =
      Ends-bind After (dp_connect e n) (λ _. dp_send_keepalive e n >> pure success)
        (init_dp_msg_cache s) (dp_connect-Ends e link books n (init_dp_msg_cache s) h)
        (λ _. Stays-then _ _ (dp_send_keepalive-Stays e link books n) (Stays-pure success))

-- The end of the RPC closes the socket.
pub fini_dplane_rpc-NoLeak : (e : Env) (s : State) → NoLeak e s → NoLeak e (fini_dplane_rpc s)
unfolding fini_dplane_rpc fini_dp_msg_cache
fini_dplane_rpc-NoLeak e s h = dp_unix_sock_close-NoLeak e s h

either-NoLeak :
    (e : Env) (b : Bool) (x y : Rc × State)
    → NoLeak e x.1
    → NoLeak e y.1
    → NoLeak e (if b then x else y).1
either-NoLeak e true x y h j = h
either-NoLeak e false x y h j = j

init_rpc_buffers-NoLeak : (e : Env) (s : State) → NoLeak e s → NoLeak e (init_rpc_buffers e s).1
unfolding init_rpc_buffers
init_rpc_buffers-NoLeak e s h =
    let t =
      on_comm
        (λ c. record c { tx_buff = new_buffer e.tx_buff_ok; rx_buff = new_buffer e.rx_buff_ok })
        s in
    either-NoLeak e (not (e.tx_buff_ok && e.rx_buff_ok)) (failure, fini_dplane_rpc t) (success, t)
      (fini_dplane_rpc-NoLeak e t h) h

-- What the start leaves, by its result.
abbrev pub LinkedBy : Env → Rc → State → Type 0
LinkedBy e success t = NoLeak e t × Retries (view_of t)
LinkedBy e failure t = NoLeak e t

module _ (e : Env) (n : ℕ) where
  fail_init-NoLeak :
      (s : State) → NoLeak e s → Post (Unit {0}) (Unit {0}) (LinkedBy e) (fail_init s)
  unfolding fail_init
  fail_init-NoLeak s h = dp_unix_sock_close-NoLeak e s h

  started : (s : State) → NoLeak e s → Post (Unit {0}) (Unit {0}) (LinkedBy e) (start_rpc e n s)
  unfolding init_dp_msg_cache
  started s h =
      both (start_rpc e n s) (start_rpc-Ends e (Tidy-Linked e) (Tidy-Counts e).books n s h)
        (start_rpc-Ends e (Retries-Linked e) (Retries-Counts e).books n s tt)
    where
      both :
          (o : Outcome Rc)
          → Ends (Tidy e) o
          → Ends Retries o
          → Post (Unit {0}) (Unit {0}) (LinkedBy e) o
      both (returns success t) h j = (h, j)
      both (returns failure t) h j = h
      both (aborts t) h j = tt
      both no_fuel h j = tt

  after_buffers-Linked :
      (r : Rc) (s : State)
      → NoLeak e s
      → Post (Unit {0}) (Unit {0}) (LinkedBy e) (after_buffers e n r s)
  unfolding after_buffers
  after_buffers-Linked failure s h = fail_init-NoLeak s h
  after_buffers-Linked success s h = started s h

  -- The start, where there is no socket yet: every descriptor is closed but the one in use, and after a
  -- success the socket is connected or will be tried again.
  pub init_dplane_rpc-Linked :
      (s : State)
      → s.comm.dp_sock ≡ none
      → NoLeak e s
      → Post (Unit {0}) (Unit {0}) (LinkedBy e) (init_dplane_rpc e n s)
  unfolding init_dplane_rpc
  init_dplane_rpc-Linked s free h =
      let t = on_comm (λ c. record c { fb = true }) s in
      let o = dp_unix_sock_open e t.comm.plugin_sock_path t in
      let v = on_comm (λ c. record c { dp_sock = o.0 }) o.1 in
      let hv = dp_unix_sock_open-NoLeak e t.comm.plugin_sock_path t free h in
      Post-ite (Unit {0}) (Unit {0}) (LinkedBy e) (not e.fmt_buff_ok) _ _ (λ _. h)
        (λ _.
          Post-ite (Unit {0}) (Unit {0}) (LinkedBy e) (not (is_some o.0)) (fail_init v)
            (after_buffers e n (init_rpc_buffers e v).0 (init_rpc_buffers e v).1)
            (λ _. fail_init-NoLeak v hv)
            (λ _.
              after_buffers-Linked (init_rpc_buffers e v).0 (init_rpc_buffers e v).1
                (init_rpc_buffers-NoLeak e v hv)))
