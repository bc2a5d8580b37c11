-- ===== src/Xvc/Clients.antt =====
-- software/app/tprxvc.cc: the last loop of `main`, which accepts clients and serves them.
use evr_card_g.Base.{
  ℕ, zero, suc, ◌+◌, Bool, true, false, List, [], ◌∷◌, Option, none, some, ◌==◌, ltb, if◌then◌else◌,
  update,
}
use evr_card_g.Base.Run.{Run, done, ◌>>=◌}
use evr_card_g.Bus.{Bus}
use evr_card_g.Xvc.Socket.{Link}
use evr_card_g.Xvc.Serve.{Replay, Server, handle_data}

-- `conn` and `maxfd`, the connection of each descriptor, the card, and the replay file.
pub record Clients (S C : Type 0) : Type 0 where
  pub conn : ℕ → Bool
  pub maxfd : ℕ
  pub socks : ℕ → S
  pub card : C
  pub replay : Option (List Replay)

-- What `select` leaves in `read` and `except`, and what `accept` answers in this round.
pub record Ready (S : Type 0) : Type 0 where
  pub readable : ℕ → Bool
  pub excepted : ℕ → Bool
  pub accepted : Option (ℕ × S)

-- After a descriptor the pass goes on, or it is left by `break`.
pub data Visit (S C : Type 0) : Type 0 where
  next : Clients S C → Visit S C
  leaves : Clients S C → Visit S C

module _ {S C : Type 0} where
  -- `close(fd); FD_CLR(fd, &conn)`
  unfoldable pub forget : ℕ → Clients S C → Clients S C
  forget fd h = record h { conn = update h.conn fd false }

  -- `accept`, where a failure changes nothing.
  unfoldable pub accept_client : Option (ℕ × S) → Clients S C → Clients S C
  accept_client none h = h
  accept_client (some (newfd, sock)) h = record h {
    conn = update h.conn newfd true;
    maxfd = if ltb h.maxfd newfd then newfd else h.maxfd;
    socks = update h.socks newfd sock;
  }

  -- What a call of `handle_data` leaves.
  abbrev pub after_call : ℕ → Server S C → Clients S C → Clients S C
  after_call fd v h = record h {
    socks = update h.socks fd v.sock;
    card = v.card;
    replay = v.replay;
  }

  unfoldable pub kept_or_forgotten : ℕ → Clients S C → ℕ × Server S C → Clients S C
  unfolding forget
  kept_or_forgotten fd h (status, v) =
      if status == 0 then after_call fd v h else forget fd (after_call fd v h)

module _ {S C : Type 0} (link : Link S) (bus : Bus C) (polls commands : ℕ) (listener : ℕ) where
  -- `if (handle_data(fd,jptr,ffd))`
  unfoldable pub serve_client : ℕ → Clients S C → Run (Clients S C)
  unfolding kept_or_forgotten
  serve_client fd h =
      handle_data link bus polls commands
        (record { sock = h.socks fd; card = h.card; replay = h.replay })
      >>= (λ r. done (kept_or_forgotten fd h r))

  -- The body of the loop over the descriptors. The socket of the listener is `listener`.
  unfoldable pub visit : Ready S → ℕ → Clients S C → Run (Visit S C)
  unfolding accept_client serve_client forget
  visit ready fd h =
      let served = serve_client fd h >>= (λ h₁. done (Visit.next h₁)) in
      if ready.readable fd
      then if fd == listener then done (Visit.next (accept_client ready.accepted h)) else served
      else if ready.excepted fd
      then done (if fd == listener then Visit.leaves (forget fd h) else Visit.next (forget fd h))
      else done (Visit.next h)

  -- `for (fd = 0; fd <= maxfd; ++fd)`, one round of fuel for each descriptor.
  unfoldable pub visit_all : ℕ → Ready S → ℕ → Clients S C → Run (Clients S C)
  unfolding visit
  visit_all zero ready fd h = none
  visit_all (suc n) ready fd h =
      let round = (do
        v ← visit ready fd h
        elim v [ next h₁ ↦ visit_all n ready (fd + 1) h₁ | leaves h₁ ↦ done h₁ ]) in
      if ltb h.maxfd fd then done h else round

  -- `while (1)`, on what `select` answers in each round, with `none` for an error, which ends the
  -- loop. After the last one the program goes on.
  unfoldable pub serve_clients : ℕ → List (Option (Ready S)) → Clients S C → Run (Clients S C)
  unfolding visit_all
  serve_clients descriptors [] h = none
  serve_clients descriptors (none ∷ later) h = done h
  serve_clients descriptors (some ready ∷ later) h = do
    h₁ ← visit_all descriptors ready 0 h
    serve_clients descriptors later h₁
