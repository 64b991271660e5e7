-- ===== src/Connect.antt =====
-- How connections come to be in main.cpp: `cli_connect_cb`, `bootstrap` and `proxy_run`, and the
-- descriptors that they open and close.
pub mod Owners
pub mod Lifecycle
use rfx.Prelude.{
  set, take_nth, ℕ, zero, suc, Bool, true, false, Option, none, some, List, [], ◌∷◌, ◌++◌, ◌==◌,
  ◌>>=◌, if◌then◌else◌,
}

-- `struct bootstrap`: `io` and `timeout` say whether its watchers are active.
pub record Bootstrap : Type 0 where
  pub cli : ℕ
  pub srv : ℕ
  pub io : Bool
  pub timeout : Bool

-- The descriptors of a session.
pub record Ends : Type 0 where
  pub cli : ℕ
  pub srv : ℕ

-- The open descriptors but the listening one, the connections being established, and the sessions.
pub record Proxy : Type 0 where
  pub fds : List ℕ
  pub boots : List Bootstrap
  pub sessions : List Ends

abbrev pub idle : Proxy
idle = record { fds = []; boots = []; sessions = [] }

abbrev pub remove : ℕ → List ℕ → Option (List ℕ)
remove x [] = none
remove x (y ∷ ys) =
    let rest = remove x ys in
    if x == y then some ys else elim rest [ none ↦ none | some r ↦ some (y ∷ r) ]

abbrev pub open_fd : ℕ → Proxy → Proxy
open_fd fd p = record p { fds = fd ∷ p.fds }

-- A `close` of what is not open is a fault.
unfoldable pub close : ℕ → Proxy → Option Proxy
close fd p = elim (remove fd p.fds) [ none ↦ none | some fds ↦ some (record p { fds = fds }) ]

-- `close(cli); close(srv);`
unfoldable pub close_both : ℕ → ℕ → Proxy → Option Proxy
unfolding close
close_both cli srv p = do p' ← close cli p; close srv p'

unfoldable pub bootstrap : ℕ → ℕ → Bootstrap
bootstrap cli srv = record { cli = cli; srv = srv; io = false; timeout = false }

-- The new session runs.
unfoldable pub proxy_run : ℕ → ℕ → Proxy → Proxy
proxy_run cli srv p = record p { sessions = p.sessions ++ record { cli = cli; srv = srv } ∷ [] }

-- What becomes of an accepted client: no socket for the server, one that does not take the
-- non-blocking mode, or a `connect` that is in progress, fails, or succeeds at once.
pub data Attempt : Type 0 where
  no_socket : Attempt
  no_nonblock in_progress refused connected : ℕ → Attempt

-- The body of the loop around `accept`.
unfoldable pub accepted : ℕ → Attempt → Proxy → Option Proxy
unfolding close_both bootstrap proxy_run
accepted fd no_socket p = close fd (open_fd fd p)
accepted fd (no_nonblock srv) p = close_both fd srv (open_fd srv (open_fd fd p))
accepted fd (in_progress srv) p =
    let q = open_fd srv (open_fd fd p) in
    some
      (record q { boots = q.boots ++ record (bootstrap fd srv) { io = true; timeout = true } ∷ [] })
accepted fd (refused srv) p = close_both fd srv (open_fd srv (open_fd fd p))
accepted fd (connected srv) p = some (proxy_run fd srv (open_fd srv (open_fd fd p)))

-- `accept` returns the descriptors of the clients that wait, then -1.
unfoldable pub cli_connect_cb : List (ℕ × Attempt) → Proxy → Option Proxy
unfolding accepted
cli_connect_cb [] p = some p
cli_connect_cb ((fd, a) ∷ more) p = do p' ← accepted fd a p; cli_connect_cb more p'

-- `bootstrap::io_cb` of the connection at place `i`, which is deleted: `ok` says that SO_ERROR could be
-- read and is 0.
unfoldable pub connect_cb : ℕ → Bool → Proxy → Option Proxy
unfolding close_both proxy_run
connect_cb i ok p = do
  (b, boots) ← take_nth i p.boots
  let q = record p { boots = boots }
  if ok then some (proxy_run b.cli b.srv q) else close_both b.cli b.srv q

-- `bootstrap::tmr_cb`: `pending` says that the other watcher's event waits to be handled. The timer has
-- run out and is not active then.
unfoldable pub tmr_cb : ℕ → Bool → Proxy → Option Proxy
unfolding close_both
tmr_cb i pending p = do
  (b, boots) ← take_nth i p.boots
  if pending
      then some (record p { boots = set p.boots i (record b { timeout = false }) })
      else close_both b.cli b.srv (record p { boots = boots })

-- `delete r` of the session at place `i`: the destructor closes its descriptors.
unfoldable pub delete_session : ℕ → Proxy → Option Proxy
unfolding close_both
delete_session i p = do
  (s, sessions) ← take_nth i p.sessions
  close_both s.cli s.srv (record p { sessions = sessions })
