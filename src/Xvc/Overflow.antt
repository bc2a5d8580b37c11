-- ===== src/Xvc/Overflow.antt =====
-- Which lengths a request may have.
use evr_card_g.Base.{
  ℕ, ◌+◌, ◌*◌, ◌/◌, ◌^◌, ◌≤◌, ◌<◌, ◌≡◌, refl, true, false, some, List, ltb, arith, pos,
}
use evr_card_g.Base.Outcome.{undefined}
use evr_card_g.Base.Run.{done}
use evr_card_g.Bus.{Bus}
use evr_card_g.Xvc.Socket.{Link, sread}
use evr_card_g.Xvc.Serve.{
  Server, returns, result_size, buffer_size, receive, shift_vectors, shift_length,
}

small : (n : ℕ) → n ≤ 32768 → ltb (n + 7) (2 ^ 31) ≡ true
small n h = ground arith

accepted : (n : ℕ) → n ≤ 32768 → ltb buffer_size ((n + 7) / 8 * 2) ≡ false
accepted n h = ground arith

module _ {S C : Type 0} (link : Link S) (bus : Bus C) (polls : ℕ) where
  -- A request of 8193 to 32768 bits, of which the vectors arrive, is accepted, and overruns the
  -- 1024 bytes of the result.
  pub shift_length_overflow :
      (n : ℕ) (req buffer : List ℕ) (v : Server S C) (s : S)
      → 8192 < n
      → n ≤ 32768
      → sread link ((n + 7) / 8 * 2) v.sock ≡ some (some buffer, s)
      → shift_length link bus polls (pos n) req v ≡ some undefined
  unfolding shift_length shift_vectors
  shift_length_overflow n req buffer v s h l e =
      rw (shift_length, small n l, accepted n l, receive, e, too_many) refl
    where
      too_many : ltb result_size ((n + 7) / 8) ≡ true
      too_many = ground arith

  -- A request of more bits than the buffer takes returns 1, and nothing more is read.
  pub shift_length_refused :
      (n : ℕ) (req : List ℕ) (v : Server S C)
      → 32768 < n
      → n + 7 < 2 ^ 31
      → shift_length link bus polls (pos n) req v ≡ done (returns 1 v)
  unfolding shift_length
  shift_length_refused n req v h l = rw (shift_length, no_overflow, too_many) refl
    where
      no_overflow : ltb (n + 7) (2 ^ 31) ≡ true
      no_overflow = ground arith

      too_many : ltb buffer_size ((n + 7) / 8 * 2) ≡ true
      too_many = ground arith
