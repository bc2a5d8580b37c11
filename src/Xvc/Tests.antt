-- ===== src/Xvc/Tests.antt =====
-- The server on a connection of given bytes and a JTAG that counts its clocks.
use evr_card_g.Base.{
  ℕ, zero, suc, ◌+◌, ◌≤◌, ◌≡◌, refl, true, Option, none, some, List, [], ◌∷◌, length, take, drop,
  replicate, ◌⊎◌, length-take, length-drop, map, ◌++◌, false, ◌==◌, if◌then◌else◌, arith, pos,
}
use evr_card_g.Base.Outcome.{undefined}
use evr_card_g.Base.Run.{done}
use evr_card_g.Bus.{Bus}
use evr_card_g.Xvc.Socket.{Link, sread_loop, sread}
use evr_card_g.Xvc.Shift.{length_offset, ctrl_offset, wait_ctrl, shift_word, shift_loop}
use evr_card_g.Xvc.Serve.{Server, handle_data, handle_command, set_tck, shift_length}
use evr_card_g.Xvc.Clocks.{Counts, shift_loop-Counts}
use evr_card_g.Xvc.Clients.{Clients, Ready, serve_clients}
use evr_card_g.Xvc.Finite.{IsFinite}
use evr_card_g.Xvc.Watched.{Watched, serve_clients-Watched}
use evr_card_g.Xvc.Overflow.{shift_length_overflow}

-- The bytes that the client will send.
abbrev take_bytes : ℕ → List ℕ → Option (List ℕ) × List ℕ
take_bytes zero s = (none, s)
take_bytes (suc n) [] = (none, [])
take_bytes (suc n) (b ∷ bs) = (some (b ∷ take n bs), drop n bs)

abbrev bytes : Link (List ℕ)
bytes = record { recv = take_bytes; send = λ bs s. (true, s) }

-- The length of the next shift, and the clocks so far.
abbrev counter : Bus (ℕ × ℕ)
counter = record {
  store = λ offset v c.
      (if offset == ctrl_offset
        then (c.0, c.1 + c.0)
        else if offset == length_offset
        then (v, c.1)
        else c);
  load = λ offset c. (if offset == ctrl_offset then (0, c) else (7, c));
  sleep_us = λ n c. c;
}

counter-Counts : Counts (λ (c : ℕ × ℕ). c.1) (shift_word counter 1)
unfolding shift_word wait_ctrl
counter-Counts bits tms tdi c = ((7, (bits, c.1 + bits)), refl, refl)

abbrev server : List ℕ → Server (List ℕ) (ℕ × ℕ)
server s = record { sock = s; card = (0, 0); replay = some [] }

-- 30 bits are clocked as 32.
shift_loop-Counts_example :
    (out : List ℕ × (ℕ × ℕ)) × (shift_loop
        (shift_word counter 1)
        4
        (replicate 8 1)
        5
        4
        30
        0
        []
        (0, 0)
      ≡ some out)
    × (length out.0 ≡ 4)
    × (out.1.1 ≡ 32)
shift_loop-Counts_example =
    shift_loop-Counts (λ (c : ℕ × ℕ). c.1) (shift_word counter 1) counter-Counts 4 (replicate 8 1) 5
      4 30 0 [] (0, 0) (omega arith) (omega arith) (omega arith)

received : sread bytes 2050 (replicate 2050 0) ≡ some (some (replicate 2050 0), [])
unfolding sread_loop
received = refl

shift_length_overflow_example :
    shift_length bytes counter 1 (pos 8200) [] (server (replicate 2050 0)) ≡ some undefined
shift_length_overflow_example =
    shift_length_overflow bytes counter 1 8200 [] (replicate 2050 0) (server (replicate 2050 0)) []
      (omega arith) (omega arith) received

-- A whole session: "settck:" with its period is answered and ends the call.
settck_status :
    handle_data bytes counter 1 2
      (record (server (115 ∷ 101 ∷ 116 ∷ 116 ∷ 99 ∷ 107 ∷ 58 ∷ 1 ∷ 2 ∷ 3 ∷ 4 ∷ [])) {
        replay = none;
      })
    ≡ done (0, record { sock = []; card = (0, 0); replay = none })
unfolding handle_data handle_command set_tck sread_loop
settck_status = refl

-- `left` for clients that are the bytes they will send.
bytes-IsFinite : IsFinite bytes length
bytes-IsFinite = record { some_bytes = sized; no_bytes = empty; sends = λ bs s. omega arith }
  where
    sized :
        (n : ℕ) (s bs : List ℕ)
        → (take_bytes n s).0 ≡ some bs
        → (1 ≤ length bs) × (length bs ≤ n) × (length (take_bytes n s).1 + length bs ≤ length s)
    sized zero s bs e = cc
    sized (suc n) [] bs e = cc
    sized (suc n) (x ∷ xs) bs e = (
      ground (arith, e),
      ground (arith, e, length-take n xs),
      ground (arith, e, length-take n xs, length-drop n xs),
    )

    empty : (n : ℕ) (s : List ℕ) → (take_bytes n s).0 ≡ none → length (take_bytes n s).1 ≤ length s
    empty zero s e = omega arith
    empty (suc n) [] e = omega arith
    empty (suc n) (x ∷ xs) e = cc

-- "getinfo:"
abbrev asking : List ℕ
asking = 103 ∷ 101 ∷ 116 ∷ 105 ∷ 110 ∷ 102 ∷ 111 ∷ 58 ∷ []

-- The listener is descriptor 3.
abbrev listening : Clients (List ℕ) (ℕ × ℕ)
listening = record {
  conn = λ fd. fd == 3;
  maxfd = 3;
  socks = λ fd. [];
  card = (0, 0);
  replay = none;
}

-- A round in which a client gets descriptor 4, and one in which it is served.
abbrev two_rounds : List (Ready (List ℕ))
two_rounds =
    record { readable = λ fd. fd == 3; excepted = λ fd. false; accepted = some (4, asking) }
    ∷ record { readable = λ fd. fd == 4; excepted = λ fd. false; accepted = none }
    ∷ []

serve_clients-Watched_example :
    ((h : Clients (List ℕ) (ℕ × ℕ)) × (serve_clients bytes counter 1 9 3 6
          (map some two_rounds ++ none ∷ [])
          listening
        ≡ done h)
      × Watched length 9 5 h)
    ⊎ (serve_clients bytes counter 1 9 3 6 (map some two_rounds ++ none ∷ []) listening
        ≡ some undefined)
serve_clients-Watched_example =
    serve_clients-Watched bytes length bytes-IsFinite counter 1 (λ c. c.1) counter-Counts 9 3 5
      two_rounds [] listening ((omega arith, omega arith), (tt, tt))
      (omega arith, (λ fd e. ground (arith, e)), (λ fd. omega arith))
