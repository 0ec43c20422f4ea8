-- ===== src/Comm/Socket/Descriptors.antt =====
-- The descriptors that the plugin opens, from src/hh_dp_comm.c: each but the one in use is closed.
use native.Mathlib.Numerals.{add-one}
use dplane_plugin.Base.{
  ℕ, zero, suc, ◌+◌, ◌≡◌, refl, ◌∙◌, sym, ap, subst, arith, List, [], ◌∷◌, ◌++◌, Option, Bool, none,
  some, if◌then◌else◌, true, false, not, ◌||◌, leb, length, ◌==◌,
}
use dplane_plugin.World.Env.{Env, Errno, ConnectResult}
use dplane_plugin.World.State.{State, Syscall}
use dplane_plugin.World.Monad.{Rc, failure}
use dplane_plugin.Comm.Socket.{
  dp_unix_sock_close, dp_unix_sock_open, dp_unix_sock_reopen, dp_unix_connect, close_sock,
  bind_sock, fail_open, count_open, max_sun_path, after_connect, count_connect, log_call,
  dplane_set_ready,
}

-- How often the descriptor `fd` is closed in the log, and how often the first k calls of `socket`
-- yielded it.
abbrev pub held : ℕ → Option ℕ → ℕ
held fd none = 0
held fd (some g) = if g == fd then 1 else 0

abbrev is_close : ℕ → Syscall → ℕ
is_close fd (Syscall.close_call g) = if g == fd then 1 else 0
is_close fd _ = 0

abbrev pub closed_in : ℕ → List Syscall → ℕ
closed_in fd [] = 0
closed_in fd (c ∷ cs) = is_close fd c + closed_in fd cs

abbrev pub opened_by : Env → ℕ → ℕ → ℕ
opened_by e fd zero = 0
opened_by e fd (suc k) = held fd (e.socket_result k) + opened_by e fd k

-- Every descriptor was closed as often as it was opened, but the one in `dp_sock`, which was opened once
-- more.
abbrev pub NoLeak : Env → State → Type 0
NoLeak e s =
    (fd : ℕ) → opened_by e fd s.kernel.opens ≡ closed_in fd s.kernel.calls + held fd s.comm.dp_sock

closed_in-snoc :
    (fd : ℕ) (cs : List Syscall) (c : Syscall)
    → closed_in fd (cs ++ c ∷ []) ≡ closed_in fd cs + is_close fd c
closed_in-snoc fd [] c = omega arith
closed_in-snoc fd (x ∷ cs) c = omega (arith, closed_in-snoc fd cs c)

-- No descriptor is open but that of `o`, if there is one.
abbrev Open : Env → Option ℕ → State → Type 0
Open e o s = (fd : ℕ) → opened_by e fd s.kernel.opens ≡ closed_in fd s.kernel.calls + held fd o

-- A call that closes nothing, and one that closes the descriptor.
log-Open :
    (e : Env) (o : Option ℕ) (c : Syscall) (s : State)
    → ((fd : ℕ) → is_close fd c ≡ 0)
    → Open e o s
    → Open e o (log_call c s)
log-Open e o c s none_closed h fd =
    omega (arith, h fd, none_closed fd, closed_in-snoc fd s.kernel.calls c)

log_close-Open :
    (e : Env) (g : ℕ) (s : State)
    → Open e (some g) s
    → Open e none (log_call (Syscall.close_call g) s)
log_close-Open e g s h fd =
    omega (arith, h fd, closed_in-snoc fd s.kernel.calls (Syscall.close_call g))

close-Open :
    (e : Env) (o : Option ℕ) (s : State)
    → s.comm.dp_sock ≡ o
    → Open e o s
    → Open e none (close_sock o s) × ((close_sock o s).comm.dp_sock ≡ none)
unfolding close_sock dplane_set_ready
close-Open e none s is h = (h, is)
close-Open e (some fd) s is h = (log_close-Open e fd s h, refl)

close_sock-none :
    (o : Option ℕ) (s : State) → s.comm.dp_sock ≡ o → (close_sock o s).comm.dp_sock ≡ none
unfolding close_sock dplane_set_ready
close_sock-none none s is = is
close_sock-none (some fd) s is = refl

pub dp_unix_sock_close-none : (s : State) → (dp_unix_sock_close s).comm.dp_sock ≡ none
unfolding dp_unix_sock_close
dp_unix_sock_close-none s = close_sock-none s.comm.dp_sock s refl

-- Closing leaves none open and no socket in use.
close_unlink-Open :
    (e : Env) (s : State)
    → NoLeak e s
    → Open e none (dp_unix_sock_close s) × ((dp_unix_sock_close s).comm.dp_sock ≡ none)
unfolding dp_unix_sock_close
close_unlink-Open e s h =
    let t = close_sock s.comm.dp_sock s in
    let j = close-Open e s.comm.dp_sock s refl h in
    (log-Open e none (Syscall.unlink_call t.comm.plugin_sock_path) t (λ fd. refl) j.0, j.1)

-- What an attempt to open yields: a descriptor, or none left open.
record Opened (e : Env) (r : Option ℕ × State) : Type 0 where
  left : Open e r.0 r.1

fail_open-Opened : (e : Env) (fd : ℕ) (s : State) → Open e (some fd) s → Opened e (fail_open fd s)
unfolding fail_open
fail_open-Opened e fd s h = record { left = log_close-Open e fd s h }

if-Opened :
    (e : Env) (b : Bool) (x y : Option ℕ × State)
    → Opened e x
    → Opened e y
    → Opened e (if b then x else y)
if-Opened e true x y h j = h
if-Opened e false x y h j = j

bind_sock-Opened :
    (e : Env) (k fd : ℕ) (p : List ℕ) (s : State)
    → Open e (some fd) s
    → Opened e (bind_sock e k fd p s)
unfolding bind_sock
bind_sock-Opened e k fd p s h =
    let t = log_call (Syscall.bind_call p) (log_call (Syscall.unlink_call p) s) in
    let u = log_call (Syscall.chmod_call p) t in
    let ht =
      log-Open e (some fd) (Syscall.bind_call p) (log_call (Syscall.unlink_call p) s) (λ g. refl)
        (log-Open e (some fd) (Syscall.unlink_call p) s (λ g. refl) h) in
    let hu = log-Open e (some fd) (Syscall.chmod_call p) t (λ g. refl) ht in
    if-Opened e (length p == 0 || leb max_sun_path (length p)) _ _ (fail_open-Opened e fd s h) (
      if-Opened e (not (e.bind_result k)) _ _ (fail_open-Opened e fd t ht) (
        if-Opened e (not (e.chmod_result k)) _ (some fd, u) (fail_open-Opened e fd u hu)
          (record { left = hu })))

dp_unix_sock_open-Opened :
    (e : Env) (p : List ℕ) (s : State) → Open e none s → Opened e (dp_unix_sock_open e p s)
unfolding dp_unix_sock_open
dp_unix_sock_open-Opened e p s h = by_result (e.socket_result s.kernel.opens) refl
  where
    t : State
    t = count_open (log_call Syscall.socket_call s)

    counted : Open e (e.socket_result s.kernel.opens) t
    counted fd =
        ap (opened_by e fd) (add-one s.kernel.opens)
        ∙ omega (arith, h fd, closed_in-snoc fd s.kernel.calls Syscall.socket_call)

    by_result :
        (o : Option ℕ)
        → e.socket_result s.kernel.opens ≡ o
        → Opened e (elim o [ none ↦ (none, t) | some fd ↦ bind_sock e s.kernel.opens fd p t ])
    by_result none is = record { left = subst (λ o. Open e o t) is counted }
    by_result (some fd) is =
        bind_sock-Opened e s.kernel.opens fd p t (subst (λ o. Open e o t) is counted)

-- Opening a socket where there is none.
pub dp_unix_sock_open-NoLeak :
    (e : Env) (p : List ℕ) (s : State)
    → s.comm.dp_sock ≡ none
    → NoLeak e s
    → let r = dp_unix_sock_open e p s in
      (fd : ℕ) → opened_by e fd r.1.kernel.opens ≡ closed_in fd r.1.kernel.calls + held fd r.0
dp_unix_sock_open-NoLeak e p s free h =
    (dp_unix_sock_open-Opened e p s (subst (λ o. Open e o s) free h)).left

pub dp_unix_sock_close-NoLeak : (e : Env) (s : State) → NoLeak e s → NoLeak e (dp_unix_sock_close s)
dp_unix_sock_close-NoLeak e s h =
    let (closed, is) = close_unlink-Open e s h in
    subst (λ o. Open e o (dp_unix_sock_close s)) (sym is) closed

dp_unix_sock_reopen-NoLeak : (e : Env) (s : State) → NoLeak e s → NoLeak e (dp_unix_sock_reopen e s)
unfolding dp_unix_sock_reopen
dp_unix_sock_reopen-NoLeak e s h =
    let t = dp_unix_sock_close s in
    (dp_unix_sock_open-Opened e t.comm.plugin_sock_path t (close_unlink-Open e s h).0).left

after_connect-NoLeak :
    (e : Env) (r : ConnectResult) (s : State) → NoLeak e s → NoLeak e (after_connect e r s).1
unfolding after_connect
after_connect-NoLeak e ConnectResult.connected s h = h
after_connect-NoLeak e (ConnectResult.connect_error Errno.eisconn) s h = h
after_connect-NoLeak e (ConnectResult.connect_error _) s h = dp_unix_sock_reopen-NoLeak e s h

-- If each descriptor was closed as often as it was opened, but the one in use, which was opened once
-- more, then so it is after closing the socket, after reopening it, and after connecting it, with the
-- reopening that a failure leads to; after closing none is in use.
pub sock-NoLeak :
    (e : Env) (p : List ℕ) (s : State)
    → NoLeak e s
    → (NoLeak e (dp_unix_sock_close s) × ((dp_unix_sock_close s).comm.dp_sock ≡ none))
      × NoLeak e (dp_unix_sock_reopen e s)
      × NoLeak e (dp_unix_connect e p s).1
unfolding dp_unix_connect
sock-NoLeak e p s h = (
  (dp_unix_sock_close-NoLeak e s h, (close_unlink-Open e s h).1),
  dp_unix_sock_reopen-NoLeak e s h,
  if-NoLeak (length p == 0 || leb max_sun_path (length p)) (failure, s)
      (after_connect e (e.connect_result s.kernel.connects)
        (count_connect (log_call (Syscall.connect_call p) s)))
      h
      (after_connect-NoLeak e _ (count_connect (log_call (Syscall.connect_call p) s))
        (log-Open e s.comm.dp_sock (Syscall.connect_call p) s (λ fd. refl) h)),
)
  where
    if-NoLeak :
        (b : Bool) (x y : Rc × State)
        → NoLeak e x.1
        → NoLeak e y.1
        → NoLeak e (if b then x else y).1
    if-NoLeak true x y h j = h
    if-NoLeak false x y h j = j
