-- ===== src/Compressor.antt =====
-- webgraph-rs/webgraph/src/graphs/bvgraph/comp/bvcomp.rs, `struct Compressor`: how the successors of a node are
-- described, given the successors of a reference node.
--
-- `none` is a panic: an unsigned subtraction below 0, an index out of range, or a loop that runs out
-- of fuel. The list that a loop at index `j` works on is the slice from `j`.
pub mod Blocks
pub mod Diff
pub mod Runs
pub mod Maximal
pub mod Write
use rbsc.Base.{
  ℕ, zero, suc, ◌+◌, ◌-◌, ◌*◌, ◌%◌, compare, Ordering, Bool, true, false, not, ◌&&◌, Option, none,
  some, List, [], ◌∷◌, ◌++◌, length, ◌>>=◌, ◌==◌, ltb, leb, if◌then◌else◌, checked_sub,
}

pub record Compressor : Type 0 where
  pub outdegree : ℕ
  pub blocks : List ℕ
  pub extra_nodes : List ℕ
  pub left_interval : List ℕ
  pub len_interval : List ℕ
  pub residuals : List ℕ

abbrev pub is_empty {ℓ} : {A : Type ℓ} → List A → Bool
is_empty [] = true
is_empty (_ ∷ _) = false

abbrev pub empty : Compressor
empty = record {
  outdegree = 0;
  blocks = [];
  extra_nodes = [];
  left_interval = [];
  len_interval = [];
  residuals = [];
}

-- What the loop of `diff_comp` pushes from some point on.
pub record Pushed : Type 0 where
  pub blocks : List ℕ
  pub extra_nodes : List ℕ

abbrev pub push_block : ℕ → Pushed → Pushed
push_block b p = record p { blocks = b ∷ p.blocks }

abbrev pub push_extra : ℕ → Pushed → Pushed
push_extra x p = record p { extra_nodes = x ∷ p.extra_nodes }

-- What follows the loop: the last copy block, unless it reaches the end, and the nodes left.
abbrev pub diff_end : List ℕ → List ℕ → ℕ → Bool → Pushed
diff_end curr ref len copying = record {
  blocks = if copying && not (is_empty ref) then len ∷ [] else [];
  extra_nodes = curr;
}

-- curr_list[j..], ref_list[k..], curr_block_len and copying.
unfoldable pub diff_loop : ℕ → List ℕ → List ℕ → ℕ → Bool → Option Pushed
diff_loop zero curr ref len copying = none
diff_loop (suc fuel) [] ref len copying = some (diff_end [] ref len copying)
diff_loop (suc fuel) (x ∷ xs) [] len copying = some (diff_end (x ∷ xs) [] len copying)
diff_loop (suc fuel) (x ∷ xs) (y ∷ ys) len true = elim (compare x y) [
  | Ordering.gt ↦ diff_loop fuel (x ∷ xs) (y ∷ ys) 0 false >>= λ p. some (push_block len p)
  | Ordering.lt ↦ diff_loop fuel xs (y ∷ ys) len true >>= λ p. some (push_extra x p)
  | Ordering.eq ↦ diff_loop fuel xs ys (len + 1) true
]
diff_loop (suc fuel) (x ∷ xs) (y ∷ ys) len false = elim (compare x y) [
  | Ordering.gt ↦ diff_loop fuel (x ∷ xs) ys (len + 1) false
  | Ordering.lt ↦ diff_loop fuel xs (y ∷ ys) len false >>= λ p. some (push_extra x p)
  | Ordering.eq ↦ diff_loop fuel (x ∷ xs) (y ∷ ys) 0 true >>= λ p. some (push_block len p)
]

abbrev pub bump_first : List ℕ → List ℕ
bump_first [] = []
bump_first (b ∷ bs) = (b + 1) ∷ bs

-- A round lowers the two slices, or changes `copying` before a round that does.
unfoldable pub diff_comp : List ℕ → List ℕ → Option Pushed
unfolding diff_loop
diff_comp curr ref = do
  p ← diff_loop (2 * (length curr + length ref) + 2) curr ref 0 true
  some (record p { blocks = bump_first p.blocks })

-- `while i + j < vl - 1 && extra_nodes[i + j] + 1 == extra_nodes[i + j + 1]`: how often `j += 1` runs,
-- from the element `x` and those behind it.
unfoldable pub consecutive : ℕ → List ℕ → ℕ
consecutive x [] = 0
consecutive x (y ∷ ys) = elim (x + 1 == y) [ true ↦ suc (consecutive y ys) | false ↦ 0 ]

-- `j` behind the `if` of `intervalize`: the number of integers of the interval at `x`, or 0.
unfoldable pub interval_length : ℕ → List ℕ → ℕ
unfolding consecutive
interval_length x rest = if consecutive x rest == 0 then 0 else consecutive x rest + 1

pub record Intervals : Type 0 where
  pub left_interval : List ℕ
  pub len_interval : List ℕ
  pub residuals : List ℕ

abbrev pub push_interval : ℕ → ℕ → Intervals → Intervals
push_interval start len s = record s {
  left_interval = start ∷ s.left_interval;
  len_interval = len ∷ s.len_interval;
}

abbrev pub push_residual : ℕ → Intervals → Intervals
push_residual x s = record s { residuals = x ∷ s.residuals }

-- extra_nodes[i..]. The next `jump` elements are those that `i += j - 1` passes over.
unfoldable pub intervalize : ℕ → ℕ → List ℕ → Intervals
unfolding interval_length
intervalize min_interval_length jump [] = record {
  left_interval = [];
  len_interval = [];
  residuals = [];
}
intervalize min_interval_length (suc jump) (x ∷ rest) = intervalize min_interval_length jump rest
intervalize min_interval_length zero (x ∷ rest) =
    let j = interval_length x rest in
    let found = not (j == 0) && leb min_interval_length j in
    let later = intervalize min_interval_length (if found then j - 1 else 0) rest in
    if found
    then push_interval x j later
    else (if ltb j min_interval_length then push_residual x later else later)

-- The last part of `compress`, once the extra nodes are known. Without extra nodes both branches
-- leave the three buffers empty, as the code's test does.
unfoldable pub divide_extra : ℕ → ℕ → Pushed → Compressor
divide_extra outdegree min_interval_length p =
    let s = intervalize min_interval_length 0 p.extra_nodes in
    if min_interval_length == 0
    then record empty {
      outdegree = outdegree;
      blocks = p.blocks;
      extra_nodes = p.extra_nodes;
      residuals = p.extra_nodes;
    }
    else record {
      outdegree = outdegree;
      blocks = p.blocks;
      extra_nodes = p.extra_nodes;
      left_interval = s.left_interval;
      len_interval = s.len_interval;
      residuals = s.residuals;
    }

-- The first part: the nodes are those of the reference's blocks and the extra nodes.
unfoldable pub split_list : List ℕ → Option (List ℕ) → Option Pushed
split_list curr_list (some ref_list) = diff_comp curr_list ref_list
split_list curr_list none = some (record { blocks = []; extra_nodes = curr_list })

-- `compress` clears the buffers first, so the result does not depend on their old contents.
unfoldable pub compress : List ℕ → Option (List ℕ) → ℕ → Option Compressor
compress curr_list ref_list min_interval_length =
    if is_empty curr_list
    then some empty
    else split_list curr_list ref_list >>= λ p.
        some (divide_extra (length curr_list) min_interval_length p)
