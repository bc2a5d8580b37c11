-- ===== src/Mcs/Stream.antt =====
-- What McsRead uses of `std::ifstream`: the bytes of the file, those not read yet, and `good()`.
use evr_card_g.Base.{ℕ, Bool, true, false, List, [], ◌∷◌, ◌==◌, if◌then◌else◌}

pub record Stream : Type 0 where
  pub is_open : Bool
  pub contents : List ℕ
  pub rest : List ℕ
  pub good : Bool

-- The bytes up to a newline, those behind it, and whether a newline was met.
unfoldable pub take_line : List ℕ → List ℕ × List ℕ × Bool
take_line [] = ([], [], false)
take_line (c ∷ cs) =
    let (line, rest, found) = take_line cs in
    if c == b'\n' then ([], cs, true) else (c ∷ line, rest, found)

-- `getline(file, line)` on a good stream: the end of the file without a newline sets `eofbit`.
unfoldable pub getline : Stream → List ℕ × Stream
unfolding take_line
getline s =
    let (line, rest, found) = take_line s.rest in (line, record s { rest = rest; good = found })

-- `file.clear(); file.seekg(0, ios::beg);`, which fails on a file that is not open.
unfoldable pub rewind : Stream → Stream
rewind s = record s { rest = s.contents; good = s.is_open }
