-- ===== src/LabelStore.antt =====
-- webgraph-rs/algo/src/llp/label_store.rs: the labels of the nodes, and how many nodes have each label.
--
-- `none` is a panic. The volumes are 64-bit numbers that wrap around. The calls are those of one thread.
pub mod Volumes
use rbsc.Base.{
  ℕ, ◌+◌, ◌-◌, ◌%◌, ◌^◌, Option, none, some, List, replicate, map, range, length, get_elem?, set,
  ◌>>=◌,
}

pub record LabelStore : Type 0 where
  pub labels : List ℕ
  pub volumes : List ℕ

unfoldable pub new : ℕ → LabelStore
new n = record { labels = replicate n 0; volumes = replicate n 0 }

unfoldable pub init : LabelStore → LabelStore
init s = record { labels = range 0 (length s.labels); volumes = replicate (length s.volumes) 1 }

unfoldable pub label : LabelStore → ℕ → Option ℕ
label s node = get_elem? s.labels node

unfoldable pub volume : LabelStore → ℕ → Option ℕ
volume s node = get_elem? s.volumes node

unfoldable pub fetch_sub : List ℕ → ℕ → Option (List ℕ)
fetch_sub volumes label =
    get_elem? volumes label >>= λ v. some (set volumes label ((v + 2 ^ 64 - 1) % 2 ^ 64))

unfoldable pub fetch_add : List ℕ → ℕ → Option (List ℕ)
fetch_add volumes label =
    get_elem? volumes label >>= λ v. some (set volumes label ((v + 1) % 2 ^ 64))

unfoldable pub update : LabelStore → ℕ → ℕ → Option LabelStore
unfolding fetch_sub fetch_add
update s node new_label = do
  old_label ← get_elem? s.labels node
  smaller ← fetch_sub s.volumes old_label
  volumes ← fetch_add smaller new_label
  some (record { labels = set s.labels node new_label; volumes = volumes })
