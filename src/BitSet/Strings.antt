-- ===== src/BitSet/Strings.antt =====
-- base/bitset.cc: the string forms of a bit set. A character is its code, 48 for '0' and 49 for '1'.
pub mod RoundTrip
use tf_common.Common.{
  ℕ, zero, suc, ◌+◌, ◌-◌, Bool, true, false, List, [], ◌∷◌, if◌then◌else◌, ◌==◌, length, get_or,
  replicate,
}
use tf_common.Common
use tf_common.BitSet
use tf_common.BitSet.{BitSet, npos}
use tf_common.BitSet.Search.{find_first, find_next, find_last}

-- The loop of `ToString` from a position on, with the rounds that may still follow.
pub set_ones : ℕ → BitSet → ℕ → List ℕ → List ℕ
set_ones zero b pos str = str
set_ones (suc rounds) b pos str =
    let rest = set_ones rounds b (find_next b pos) (Common.set str pos 49) in
    if pos == npos then str else rest

pub to_string : BitSet → List ℕ
unfolding set_ones
to_string b =
    let last_pos = find_last b in
    if last_pos == npos
    then []
    else set_ones (last_pos + 1) b (find_first b) (replicate (last_pos + 1) 48)

-- The loop of `FromString` from an index down, and the character at 0.
pub set_from : ℕ → List ℕ → BitSet → BitSet
set_from zero str b = if get_or str 0 48 == 49 then BitSet.set b 0 else b
set_from (suc idx) str b =
    set_from idx str (if get_or str (suc idx) 48 == 49 then BitSet.set b (suc idx) else b)

pub from_string : List ℕ → BitSet → BitSet
unfolding set_from
from_string str b =
    if length str == 0 then BitSet.clear b else set_from (length str - 1) str (BitSet.clear b)

-- What `ToNumberedString` writes, in its order.
pub data Piece : Type 0 where
  number : ℕ → Piece
  dash comma : Piece

-- The loop at a position, after `last_pos` and in a range or not.
pub number_positions : ℕ → BitSet → ℕ → ℕ → Bool → List Piece
number_positions zero b pos last_pos range = if range then dash ∷ number last_pos ∷ [] else []
number_positions (suc rounds) b pos last_pos range =
    let go_on = number_positions rounds b (find_next b pos) pos in
    let quiet = go_on range in
    let ranged = go_on true in
    let fresh = go_on false in
    if pos == npos
    then (if range then dash ∷ number last_pos ∷ [] else [])
    else (if last_pos == npos
        then number pos ∷ quiet
        else (if pos == last_pos + 1
            then ranged
            else (if range
                then dash ∷ number last_pos ∷ comma ∷ number pos ∷ fresh
                else comma ∷ number pos ∷ quiet)))

pub to_numbered_string : BitSet → List Piece
unfolding number_positions
to_numbered_string b =
    if BitSet.empty b
    then dash ∷ []
    else number_positions (find_last b + 1) b (find_first b) npos false
