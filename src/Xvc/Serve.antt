-- ===== src/Xvc/Serve.antt =====
-- `handle_data`: the commands of a client.
use evr_card_g.Base.{
  ℕ, zero, suc, ◌+◌, ◌-◌, ◌*◌, ◌/◌, ◌^◌, ℤ, pos, negsuc, Bool, Option, none, some, List, [], ◌∷◌,
  ◌++◌, length, take, drop, ◌==◌, ◌&&◌, ltb, if◌then◌else◌, get_or,
}
use evr_card_g.Base.Outcome.{undefined}
use evr_card_g.Base.Run.{Run, done, ◌>>=◌}
use evr_card_g.Bus.{Bus}
use evr_card_g.Xvc.Socket.{Link, sread}
use evr_card_g.Xvc.Shift.{int_of, shift_word, shift_loop}

-- A line of the replay file.
pub data Replay : Type 0 where
  request : List ℕ → Replay
  response : List ℕ → Replay

-- The connection, the card, and the replay file, if there is one.
pub record Server (S C : Type 0) : Type 0 where
  pub sock : S
  pub card : C
  pub replay : Option (List Replay)

-- What is left of a server: the value that `handle_data` returns, or a next round.
pub data Step (S C : Type 0) : Type 0 where
  returns : ℕ → Server S C → Step S C
  again : Server S C → Step S C

-- "xvcServer_v1.0:2048\n"
abbrev pub xvc_info : List ℕ
xvc_info =
    120 ∷ 118 ∷ 99 ∷ 83 ∷ 101 ∷ 114 ∷ 118 ∷ 101 ∷ 114 ∷ 95 ∷ 118 ∷ 49 ∷ 46 ∷ 48 ∷ 58 ∷ 50 ∷ 48 ∷ 52
    ∷ 56 ∷ 10 ∷ []

-- `memcmp(cmd, "..", 2) == 0`
abbrev pub is_command : ℕ → ℕ → List ℕ → Bool
is_command a b cmd = (get_or cmd 0 0 == a) && (get_or cmd 1 0 == b)

-- `sizeof(buffer)` and `sizeof(result)`
abbrev pub buffer_size : ℕ
buffer_size = 8192

abbrev pub result_size : ℕ
result_size = 1024

-- Four bytes as a signed `int`.
abbrev pub signed : ℕ → ℤ
signed u = if ltb u (2 ^ 31) then pos u else negsuc (2 ^ 32 - 1 - u)

-- `(len + 7) / 8`, where a division of C rounds to 0: `none` is a negative number, and a sum that
-- does not fit in an `int` is undefined.
abbrev pub nr_bytes_of : ℤ → Run (Option ℕ)
nr_bytes_of (pos n) = if ltb (n + 7) (2 ^ 31) then done (some ((n + 7) / 8)) else some undefined
nr_bytes_of (negsuc n) = if ltb n 14 then done (some 0) else done none

-- The bits of a length; of a negative one none is read.
abbrev pub bits_of : ℤ → ℕ
bits_of (pos n) = n
bits_of (negsuc n) = 0

module _ {S C : Type 0} where
  -- The request and the response go to the replay file, each if it is not empty.
  abbrev pub record_both : List ℕ → List ℕ → Server S C → Server S C
  record_both req res v = elim v.replay [
    | none ↦ v
    | some lines ↦
        let with_req = if length req == 0 then lines else lines ++ (request req ∷ []) in
        let with_res = if length res == 0 then with_req else with_req ++ (response res ∷ []) in
        record v { replay = some with_res }
  ]

module _ {S C : Type 0} (link : Link S) where
  -- `sread` on the server's connection, where a failure returns 1.
  abbrev pub receive : ℕ → Server S C → (List ℕ → Server S C → Run (Step S C)) → Run (Step S C)
  receive len v rest = elim (sread link len v.sock) [
    | none ↦ none
    | some (none, s) ↦ done (returns 1 (record v { sock = s }))
    | some (some bs, s) ↦ rest bs (record v { sock = s })
  ]

  -- `write` of a reply, where a failure returns 1.
  abbrev pub reply : List ℕ → Server S C → (Server S C → Step S C) → Run (Step S C)
  reply bs v rest =
      let (sent, s) = link.send bs v.sock in
      if sent then done (rest (record v { sock = s })) else done (returns 1 (record v { sock = s }))

  unfoldable pub get_info : List ℕ → Server S C → Run (Step S C)
  get_info req v =
      receive 6 v
        (λ bs v1. reply xvc_info v1 (λ v2. returns 0 (record_both (req ++ bs) xvc_info v2)))

  unfoldable pub set_tck : List ℕ → Server S C → Run (Step S C)
  set_tck req v = receive 9 v (λ bs v1.
      let period = take 4 (drop 5 bs) in
      reply period v1 (λ v2. returns 0 (record_both (req ++ bs) period v2)))

module _ {S C : Type 0} (link : Link S) (bus : Bus C) (polls : ℕ) where
  -- After the two vectors were read: the result is cleared, filled and sent.
  unfoldable pub shift_vectors : ℕ → ℕ → List ℕ → List ℕ → Server S C → Run (Step S C)
  shift_vectors nr_bytes len req buffer v =
      if ltb result_size nr_bytes
      then some undefined
      else elim (shift_loop (shift_word bus polls) nr_bytes buffer (suc nr_bytes) nr_bytes len 0 []
          v.card) [
            | none ↦ none
            | some (result, c) ↦
                reply link result (record v { card = c }) (λ v2. again (record_both req result v2))
          ]

  -- After the length was read.
  unfoldable pub shift_length : ℤ → List ℕ → Server S C → Run (Step S C)
  shift_length len req v = do
    nr ← nr_bytes_of len
    elim nr [
      | none ↦ done (returns 1 v)
      | some nr_bytes ↦
          if ltb buffer_size (nr_bytes * 2)
          then done (returns 1 v)
          else receive link (nr_bytes * 2) v
              (λ buffer v1. shift_vectors nr_bytes (bits_of len) (req ++ buffer) buffer v1)
    ]

  unfoldable pub shift_command : List ℕ → Server S C → Run (Step S C)
  shift_command req v = receive link 4 v (λ name v1.
      receive link 4 v1 (λ size v2. shift_length (signed (int_of size)) (req ++ (name ++ size)) v2))

  -- One round of the loop.
  unfoldable pub handle_command : Server S C → Run (Step S C)
  handle_command v = receive link 2 v (λ cmd v1.
      if is_command 103 101 cmd
      then get_info link cmd v1
      else if is_command 115 101 cmd
      then set_tck link cmd v1
      else if is_command 115 104 cmd
      then shift_command cmd v1
      else done (returns 1 v1))

  -- The loop, one round of fuel for each command.
  unfoldable pub handle_data : ℕ → Server S C → Run (ℕ × Server S C)
  handle_data zero v = none
  handle_data (suc n) v = do
    step ← handle_command v
    elim step [ returns status v1 ↦ done (status, v1) | again v1 ↦ handle_data n v1 ]
