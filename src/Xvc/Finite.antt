-- ===== src/Xvc/Finite.antt =====
-- Clients that send finitely many bytes, and what a command leaves of these.
use evr_card_g.Base.{
  ℕ, zero, suc, ◌+◌, ◌-◌, ◌≤◌, ◌<◌, ◌≡◌, ◌⊎◌, inl, inr, refl, Option, none, some, List, [], ◌++◌,
  length, ◌==◌, arith, ap, Bool-cases, Option-cases, take, drop, ◌∙◌,
}
use evr_card_g.Base.Outcome.{undefined}
use evr_card_g.Base.Run.{Run, done}
use evr_card_g.Xvc.Socket.{Link, sread_loop, sread}
use evr_card_g.Xvc.Serve.{
  Server, Step, xvc_info, returns, again, record_both, receive, reply, get_info, set_tck,
}

-- What a client of finitely many bytes promises: `left` bounds the bytes that it will still send.
pub record IsFinite {S : Type 0} (link : Link S) (left : S → ℕ) : Type 0 where
  pub some_bytes :
      (n : ℕ) (s : S) (bs : List ℕ)
      → (link.recv n s).0 ≡ some bs
      → (1 ≤ length bs) × (length bs ≤ n) × (left (link.recv n s).1 + length bs ≤ left s)
  pub no_bytes : (n : ℕ) (s : S) → (link.recv n s).0 ≡ none → left (link.recv n s).1 ≤ left s
  pub sends : (bs : List ℕ) (s : S) → left (link.send bs s).1 ≤ left s

module _ {S : Type 0} (link : Link S) (left : S → ℕ) (finite : IsFinite link left) where
  -- What a read of `len` bytes leaves.
  abbrev pub Reads : ℕ → S → Option (List ℕ) × S → Type 0
  Reads len s (none, s') = left s' ≤ left s
  Reads len s (some bs, s') = left s' + len ≤ left s

  pub sread_loop-Reads :
      (n len : ℕ) (got : List ℕ) (s : S)
      → len < n
      → (r : Option (List ℕ) × S) × (sread_loop link n len got s ≡ some r) × Reads len s r
  unfolding sread_loop
  sread_loop-Reads zero len got s h = elim h [ ]
  sread_loop-Reads (suc n) len got s h = elim (Bool-cases (len == 0)) [
    | inl e ↦ ((some got, s), rw e refl, ground (arith, e))
    | inr more ↦ elim (Option-cases (link.recv len s).0) [
      | inl e ↦ ((none, (link.recv len s).1), rw (more, e) refl, finite.no_bytes len s e)
      | inr (bs, e) ↦
          let (one, few, spent) = finite.some_bytes len s bs e in
          let ((o, s'), f, g) =
            sread_loop-Reads n (len - length bs) (got ++ bs) (link.recv len s).1
              (omega (arith, h, one, few)) in
          ((o, s'), rw (more, e) f, later o s' (len - length bs) bs spent few g)
    ]
  ]
    where
      later :
          (o : Option (List ℕ)) (s' : S) (k : ℕ) (bs : List ℕ)
          → left (link.recv len s).1 + length bs ≤ left s
          → length bs ≤ len
          → Reads (len - length bs) (link.recv len s).1 (o, s')
          → Reads len s (o, s')
      later none s' k bs spent few g = omega (arith, g, spent)
      later (some x) s' k bs spent few g = omega (arith, g, spent, few)

module _ {S C : Type 0} (link : Link S) (left : S → ℕ) (finite : IsFinite link left) where
  abbrev pub sock_of : Step S C → S
  sock_of (returns n v) = v.sock
  sock_of (again v) = v.sock

  -- A step that leaves the client at most `b` bytes, or a fault.
  abbrev pub Fine : ℕ → Run (Step S C) → Type 0
  Fine b m =
      ((step : Step S C) × (m ≡ done step) × (left (sock_of step) ≤ b)) ⊎ (m ≡ some undefined)

  pub receive-Fine :
      (b len : ℕ) (v : Server S C) (rest : List ℕ → Server S C → Run (Step S C))
      → left v.sock ≤ b
      → ((bs : List ℕ) (s : S)
          → left s + len ≤ left v.sock
          → Fine b (rest bs (record v { sock = s })))
      → Fine b (receive link len v rest)
  receive-Fine b len v rest l next =
      let (r, e, g) = sread_loop-Reads link left finite (suc len) len [] v.sock (omega arith) in
      got r e g
    where
      got :
          (r : Option (List ℕ) × S)
          → sread link len v.sock ≡ some r
          → Reads link left finite len v.sock r
          → Fine b (receive link len v rest)
      got (none, s) e g =
          inl (returns 1 (record v { sock = s }), rw (receive, e) refl, omega (arith, g, l))
      got (some bs, s) e g = rw (receive, e) (next bs s g)

  reply-Fine :
      (b : ℕ) (bs : List ℕ) (v : Server S C) (rest : Server S C → Step S C)
      → left v.sock ≤ b
      → ((s : S) → left (sock_of (rest (record v { sock = s }))) ≡ left s)
      → Fine b (reply link bs v rest)
  reply-Fine b bs v rest l same =
      let s = (link.send bs v.sock).1 in
      elim (Bool-cases (link.send bs v.sock).0) [
        | inl e ↦ inl (
          rest (record v { sock = s }),
          rw e refl,
          omega (arith, same s, finite.sends bs v.sock, l),
        )
        | inr e ↦
            inl (
              returns 1 (record v { sock = s }),
              rw e refl,
              omega (arith, finite.sends bs v.sock, l),
            )
      ]

  sock-record_both : (req res : List ℕ) (v : Server S C) → (record_both req res v).sock ≡ v.sock
  sock-record_both req res v = elim (Option-cases v.replay) [
    | inl e ↦ rw e refl
    | inr (lines, e) ↦ rw e refl
  ]

  -- A reply that is noted in the replay file.
  pub noted-Fine :
      (b : ℕ) (bs req res : List ℕ) (v : Server S C) (step : Server S C → Step S C)
      → left v.sock ≤ b
      → ((v' : Server S C) → sock_of (step v') ≡ v'.sock)
      → Fine b (reply link bs v (λ v2. step (record_both req res v2)))
  noted-Fine b bs req res v step l same =
      reply-Fine b bs v (λ v2. step (record_both req res v2)) l
        (λ s. ap left (same _ ∙ sock-record_both req res (record v { sock = s })))

  pub get_info-Fine :
      (b : ℕ) (req : List ℕ) (v : Server S C) → left v.sock ≤ b → Fine b (get_info link req v)
  unfolding get_info
  get_info-Fine b req v l =
      receive-Fine b 6 v
        (λ bs v1. reply link xvc_info v1 (λ v2. returns 0 (record_both (req ++ bs) xvc_info v2))) l
        (λ bs s e.
          noted-Fine b xvc_info (req ++ bs) xvc_info (record v { sock = s }) (returns 0)
            (omega (arith, e, l)) (λ v'. refl))

  pub set_tck-Fine :
      (b : ℕ) (req : List ℕ) (v : Server S C) → left v.sock ≤ b → Fine b (set_tck link req v)
  unfolding set_tck
  set_tck-Fine b req v l =
      receive-Fine b 9 v
        (λ bs v1.
          reply link (take 4 (drop 5 bs)) v1
            (λ v2. returns 0 (record_both (req ++ bs) (take 4 (drop 5 bs)) v2)))
        l
        (λ bs s e.
          noted-Fine b (take 4 (drop 5 bs)) (req ++ bs) (take 4 (drop 5 bs)) (record v { sock = s })
            (returns 0) (omega (arith, e, l)) (λ v'. refl))
