-- ===== src/Xvc/Ends.antt =====
-- When `handle_data` ends: for a client that sends finitely many bytes, on a card that ends each
-- shift.
use evr_card_g.Base.{
  ℕ, zero, suc, ◌+◌, ◌*◌, ◌/◌, ◌≤◌, ◌<◌, ◌≡◌, ◌⊎◌, inl, inr, refl, Option, none, some, List, [],
  ◌++◌, ltb, if◌then◌else◌, arith, Bool-cases, ℤ, pos, negsuc, ◌^◌,
}
use evr_card_g.Base.Outcome.{undefined}
use evr_card_g.Base.Run.{Run, done}
use evr_card_g.Bus.{Bus}
use evr_card_g.Xvc.Socket.{Link, sread}
use evr_card_g.Xvc.Shift.{int_of, shift_word}
use evr_card_g.Xvc.Serve.{
  Server, Step, returns, again, is_command, result_size, buffer_size, signed, receive, get_info,
  set_tck, shift_vectors, shift_length, shift_command, handle_command, handle_data,
}
use evr_card_g.Xvc.Clocks.{Counts, shift_loop-Counts}
use evr_card_g.Xvc.Finite.{
  IsFinite, Reads, sread_loop-Reads, sock_of, Fine, receive-Fine, noted-Fine, get_info-Fine,
  set_tck-Fine,
}

module _ {S C : Type 0} (link : Link S) (left : S → ℕ) (finite : IsFinite link left) (bus : Bus C)
    (polls : ℕ) (clocks : C → ℕ) (counts : Counts clocks (shift_word bus polls)) where
  abbrev Ends : ℕ → Run (Step S C) → Type 0
  Ends = Fine link left finite

  shift_vectors-Ends :
      (b nr len : ℕ) (req buffer : List ℕ) (v : Server S C)
      → left v.sock ≤ b
      → len ≤ 8 * nr
      → 8 * nr < len + 8
      → Ends b (shift_vectors link bus polls nr len req buffer v)
  unfolding shift_vectors
  shift_vectors-Ends b nr len req buffer v l small large = elim (Bool-cases (ltb result_size nr)) [
    | inl many ↦ inr (rw many refl)
    | inr few ↦
        let ((result, c), e, g, k) =
          shift_loop-Counts clocks (shift_word bus polls) counts nr buffer (suc nr) nr len 0 []
            v.card (omega arith) small large in
        rw (few, e)
          (noted-Fine link left finite b result req result (record v { card = c }) again l
            (λ v'. refl))
  ]

  shift_nr-Ends :
      (b nr len : ℕ) (req : List ℕ) (v : Server S C)
      → left v.sock ≤ b
      → len ≤ 8 * nr
      → 8 * nr < len + 8
      → Ends b (
          if ltb buffer_size (nr * 2)
          then done (returns 1 v)
          else receive link
              (nr * 2)
              v
              (λ buffer v1. shift_vectors link bus polls nr len (req ++ buffer) buffer v1))
  shift_nr-Ends b nr len req v l small large = elim (Bool-cases (ltb buffer_size (nr * 2))) [
    | inl many ↦ rw many (inl (returns 1 v, refl, l))
    | inr few ↦ rw few (
        receive-Fine link left finite b (nr * 2) v
          (λ buffer v1. shift_vectors link bus polls nr len (req ++ buffer) buffer v1) l
          (λ bs s e.
            shift_vectors-Ends b nr len (req ++ bs) bs (record v { sock = s }) (omega (arith, e, l))
              small large))
  ]

  shift_length-Ends :
      (b : ℕ) (len : ℤ) (req : List ℕ) (v : Server S C)
      → left v.sock ≤ b
      → Ends b (shift_length link bus polls len req v)
  unfolding shift_length
  shift_length-Ends b (pos n) req v l = elim (Bool-cases (ltb (n + 7) (2 ^ 31))) [
    | inl fits ↦ rw fits (shift_nr-Ends b ((n + 7) / 8) n req v l (omega arith) (omega arith))
    | inr over ↦ rw over (inr refl)
  ]
  shift_length-Ends b (negsuc n) req v l = elim (Bool-cases (ltb n 14)) [
    | inl near ↦ rw near (shift_nr-Ends b 0 0 req v l (omega arith) (omega arith))
    | inr far ↦ rw far (inl (returns 1 v, refl, l))
  ]

  shift_command-Ends :
      (b : ℕ) (req : List ℕ) (v : Server S C)
      → left v.sock ≤ b
      → Ends b (shift_command link bus polls req v)
  unfolding shift_command
  shift_command-Ends b req v l =
      receive-Fine link left finite b 4 v
        (λ name v1. receive link 4 v1 (λ size v2.
          shift_length link bus polls (signed (int_of size)) (req ++ (name ++ size)) v2))
        l
        (λ name s e.
          receive-Fine link left finite b 4 (record v { sock = s })
            (λ size v2.
              shift_length link bus polls (signed (int_of size)) (req ++ (name ++ size)) v2)
            (omega (arith, e, l))
            (λ size s' e'.
              shift_length-Ends b (signed (int_of size)) (req ++ (name ++ size))
                (record v { sock = s' }) (omega (arith, e, e', l))))

  -- What follows the two bytes of a command.
  abbrev chosen : List ℕ → Server S C → Run (Step S C)
  chosen cmd v =
      if is_command 103 101 cmd
      then get_info link cmd v
      else if is_command 115 101 cmd
      then set_tck link cmd v
      else if is_command 115 104 cmd
      then shift_command link bus polls cmd v
      else done (returns 1 v)

  chosen-Ends : (cmd : List ℕ) (v : Server S C) → Ends (left v.sock) (chosen cmd v)
  chosen-Ends cmd v = elim (Bool-cases (is_command 103 101 cmd)) [
    | inl g ↦ rw g (get_info-Fine link left finite (left v.sock) cmd v (omega arith))
    | inr g ↦ elim (Bool-cases (is_command 115 101 cmd)) [
      | inl s ↦ rw (g, s) (set_tck-Fine link left finite (left v.sock) cmd v (omega arith))
      | inr s ↦ elim (Bool-cases (is_command 115 104 cmd)) [
        | inl h ↦ rw (g, s, h) (shift_command-Ends (left v.sock) cmd v (omega arith))
        | inr h ↦ rw (g, s, h) (inl (returns 1 v, refl, omega arith))
      ]
    ]
  ]

  -- A next round has two bytes less to read.
  abbrev Spent : Server S C → Step S C → Type 0
  Spent v (returns n v') = left v'.sock ≤ left v.sock
  Spent v (again v') = left v'.sock + 2 ≤ left v.sock

  Spent-of :
      (v v₁ : Server S C) (step : Step S C)
      → left v₁.sock + 2 ≤ left v.sock
      → left (sock_of link left finite step) ≤ left v₁.sock
      → Spent v step
  Spent-of v v₁ (returns n v') e l = omega (arith, e, l)
  Spent-of v v₁ (again v') e l = omega (arith, e, l)

  handle_command-Spent :
      (v : Server S C)
      → ((step : Step S C) × (handle_command link bus polls v ≡ done step) × Spent v step)
        ⊎ (handle_command link bus polls v ≡ some undefined)
  unfolding handle_command
  handle_command-Spent v =
      let (r, e, g) = sread_loop-Reads link left finite 3 2 [] v.sock (omega arith) in got r e g
    where
      got :
          (r : Option (List ℕ) × S)
          → sread link 2 v.sock ≡ some r
          → Reads link left finite 2 v.sock r
          → ((step : Step S C) × (receive link 2 v chosen ≡ done step) × Spent v step)
            ⊎ (receive link 2 v chosen ≡ some undefined)
      got (none, s) e g = inl (returns 1 (record v { sock = s }), rw (receive, e) refl, g)
      got (some bs, s) e g = elim (chosen-Ends bs (record v { sock = s })) [
        | inl (step, f, l) ↦
            inl (step, rw (receive, e) f, Spent-of v (record v { sock = s }) step g l)
        | inr f ↦ inr (rw (receive, e) f)
      ]

  -- A call of `handle_data` with more rounds than the bytes that the client will still send returns,
  -- and leaves no more of them, or it meets a fault.
  pub handle_data-Ends :
      (fuel : ℕ) (v : Server S C)
      → left v.sock < fuel
      → ((r : ℕ × Server S C) × (handle_data link bus polls fuel v ≡ done r)
          × (left r.1.sock ≤ left v.sock))
        ⊎ (handle_data link bus polls fuel v ≡ some undefined)
  unfolding handle_data
  handle_data-Ends zero v h = elim h [ ]
  handle_data-Ends (suc fuel) v h = elim (handle_command-Spent v) [
    | inr f ↦ inr (rw f refl)
    | inl (step, e, l) ↦ goes_on step (λ v' k. handle_data-Ends fuel v' k) e l
  ]
    where
      goes_on :
          (step : Step S C)
          → ((v' : Server S C)
              → left v'.sock < fuel
              → ((r : ℕ × Server S C) × (handle_data link bus polls fuel v' ≡ done r)
                  × (left r.1.sock ≤ left v'.sock))
                ⊎ (handle_data link bus polls fuel v' ≡ some undefined))
          → handle_command link bus polls v ≡ done step
          → Spent v step
          → ((r : ℕ × Server S C) × (handle_data link bus polls (suc fuel) v ≡ done r)
              × (left r.1.sock ≤ left v.sock))
            ⊎ (handle_data link bus polls (suc fuel) v ≡ some undefined)
      goes_on (returns n v') later e l = inl ((n, v'), rw e refl, l)
      goes_on (again v') later e l = elim (later v' (omega (arith, l, h))) [
        | inl (r, f, k) ↦ inl (r, rw e f, omega (arith, k, l))
        | inr f ↦ inr (rw e f)
      ]
