-- ===== src/Xvc/Main.antt =====
-- software/app/tprxvc.cc: the options of `main`, and the way to its last loop.
use evr_card_g.Base.{
  ℕ, ◌%◌, ◌^◌, ℤ, Bool, true, false, not, List, [], Option, none, some, ◌==◌, if◌then◌else◌,
}
use evr_card_g.Base.Run.{Run, done, ◌>>=◌}
use evr_card_g.Bus.{Bus}
use evr_card_g.Regs.Version.{build_stamp}
use evr_card_g.Text.Numbers.{unsigned_of}
use evr_card_g.Apps.Options.{
  Answer, Parse, go, leave, Options, device_option, misused, with_settings, start_options, parse,
  System, on_device, End, exits, exit_ok,
}
use evr_card_g.Xvc.Socket.{Link}
use evr_card_g.Xvc.Serve.{Replay}
use evr_card_g.Xvc.Clients.{Ready, serve_clients}

-- The port is an `int`; `htons` takes its lowest 16 bits.
pub record XvcSettings : Type 0 where
  pub addr : ℕ
  pub port : ℕ
  pub path : Option (List ℕ)
  pub verbose : Bool

abbrev pub xvc_defaults : XvcSettings
xvc_defaults = record { addr = 0; port = 2542; path = none; verbose = false }

-- The switch over getopt's answer.
unfoldable pub xvc_option : Answer → Options XvcSettings → Run (Parse (Options XvcSettings))
xvc_option a o =
    let s = o.settings in
    if a.char == b'a'
    then done (go (with_settings (record s { addr = (unsigned_of a.optarg).0 }) o))
    else if a.char == b'd'
    then done (go (device_option a.optarg o))
    else if a.char == b'p'
    then done (go (with_settings (record s { port = (unsigned_of a.optarg).0 }) o))
    else if a.char == b'P'
    then done (go (with_settings (record s { path = some a.optarg }) o))
    else if a.char == b'v'
    then done (go (with_settings (record s { verbose = true }) o))
    else if a.char == b'h'
    then done (leave (ℤ.pos 0))
    else done (go (misused o))

-- What the system answers: the descriptor of the listener, unless `socket` fails; whether `bind` to
-- an address and a port and `listen` succeed; and whether a path can be opened.
pub record Network : Type 0 where
  pub listener : Option ℕ
  pub binds : ℕ → ℕ → Bool
  pub listens : Bool
  pub opens_path : List ℕ → Bool

-- `if (path)`: the replay file, which `-P` asks for; the outer `none` is a failed `open`.
abbrev pub replay_file : Network → Option (List ℕ) → Option (Option (List Replay))
replay_file net none = some none
replay_file net (some path) = if net.opens_path path then some (some []) else none

module _ {S C : Type 0} (link : Link S) (bus : Bus C) (polls commands descriptors : ℕ) where
  -- `FD_ZERO(&conn); FD_SET(s, &conn)`, and the loop.
  unfoldable pub run_server :
      ℕ → (ℕ → S) → Option (List Replay) → List (Option (Ready S)) → C → Run (End × C)
  run_server s socks replay rounds c =
      serve_clients link bus polls commands s descriptors rounds
        (record { conn = λ fd. fd == s; maxfd = s; socks = socks; card = c; replay = replay })
      >>= (λ h. done (exit_ok, h.card))

  -- From the socket on.
  unfoldable pub listen_on :
      Network → XvcSettings → (ℕ → S) → List (Option (Ready S)) → C → Run (End × C)
  unfolding run_server
  listen_on net s socks rounds c = elim net.listener [
    | none ↦ done (exits (ℤ.pos 1), c)
    | some fd ↦
        let served : Run (End × C) = elim (replay_file net s.path) [
          | none ↦ done (exits (ℤ.pos 1), c)
          | some replay ↦ run_server fd socks replay rounds c
        ] in
        if not (net.binds s.addr (s.port % 2 ^ 16))
        then done (exits (ℤ.pos 1), c)
        else if not net.listens
        then done (exits (ℤ.pos 1), c)
        else served
  ]

  -- The build stamp is printed, then the server starts.
  unfoldable pub xvc_work :
      Network → (ℕ → S) → List (Option (Ready S)) → XvcSettings → C → Run (End × C)
  unfolding listen_on
  xvc_work net socks rounds s c = do
    let (stamp, c₁) = build_stamp bus c
    _ ← some stamp
    listen_on net s socks rounds c₁

  unfoldable pub xvc_main :
      System → Network → (ℕ → S) → List (Option (Ready S)) → List Answer → Bool → C → Run (End × C)
  unfolding xvc_option xvc_work
  xvc_main sys net socks rounds answers left c =
      parse xvc_option answers (start_options xvc_defaults)
      >>= on_device sys left (xvc_work net socks rounds) c
