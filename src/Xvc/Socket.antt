-- ===== src/Xvc/Socket.antt =====
-- The connection of a client, and `sread`.
use evr_card_g.Base.{
  ℕ, zero, suc, ◌-◌, ◌≤◌, ◌≡◌, Bool, Option, none, some, List, [], ◌++◌, length, ◌==◌,
  if◌then◌else◌,
}

-- `read` and `write` of the system: at most so many bytes, or none at the end or on an error; and
-- whether all bytes were written.
pub record Link (S : Type 0) : Type 0 where
  pub recv : ℕ → S → Option (List ℕ) × S
  pub send : List ℕ → S → Bool × S

-- What `read` promises: a read that gives bytes gives one at least and no more than were asked for.
pub record IsSocket {S : Type 0} (link : Link S) : Type 0 where
  pub some_bytes :
      (n : ℕ) (s : S) (bs : List ℕ)
      → (link.recv n s).0 ≡ some bs
      → (1 ≤ length bs) × (length bs ≤ n)

-- The loop of `sread`, one round of fuel for each read: `len` bytes are wanted, `got` are there.
-- The outer `none` is out of fuel, the inner one a read that gave nothing.
unfoldable pub sread_loop :
    {S : Type 0} → Link S → ℕ → ℕ → List ℕ → S → Option (Option (List ℕ) × S)
sread_loop link zero len got s = none
sread_loop link (suc n) len got s =
    if len == 0
    then some (some got, s)
    else (let (r, s1) = link.recv len s in
        elim r [
          | none ↦ some (none, s1)
          | some bs ↦ sread_loop link n (len - length bs) (got ++ bs) s1
        ])

-- Each read gives a byte, so that one round more than bytes is enough.
abbrev pub sread : {S : Type 0} → Link S → ℕ → S → Option (Option (List ℕ) × S)
sread link len s = sread_loop link (suc len) len [] s
