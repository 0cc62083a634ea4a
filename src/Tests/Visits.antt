-- ===== src/Tests/Visits.antt =====
-- Runs of the depth-first visit and of the topological sort.
use rbsc.Base.{
  ℕ, zero, suc, ◌≤◌, ◌<◌, ◌≡◌, refl, sym, ap, subst, ◌∙◌, inl, inr, arith, Bool, true, false,
  Option, none, some, List, [], ◌∷◌, ◌++◌, length, replicate, length-replicate, set, length-set,
  get_elem?, get_elem?-lt, get_elem?-set_self, get_elem?-set_ne, ltb, lt→ltb, ◌==◌, if◌then◌else◌,
  Bool-cases, range,
}
use mathlib.Core.Option.{some-injective}
use rbsc.DepthFirst.{Graph, Event, postvisit, FilterArgs, Loop, visit}
use rbsc.DepthFirst.States.{BitVec}
use rbsc.DepthFirst.Selectors.{three_states}
use rbsc.DepthFirst.Invariant.{count, IsGraph}
use rbsc.DepthFirst.Finish.{Arc, Reach, here, onward, Follows}
use rbsc.DepthFirst.Total.{visit-Follows}
use rbsc.TopSort.{top_sort}
use rbsc.TopSort.Laws.{Acyclic, Forward, top_sort_lem, top_sort-Acyclic}

-- A bit vector as a list.
pub get-replicate : (n i : ℕ) → i < n → get_elem? (replicate n false) i ≡ some false
get-replicate zero i h = elim h [ ]
get-replicate (suc n) zero h = refl
get-replicate (suc n) (suc i) h = get-replicate n i (omega arith)

abbrev pub set_bit : List Bool → ℕ → Bool → Option (List Bool)
set_bit v i b = if ltb i (length v) then some (set v i b) else none

pub set_bit_lem :
    (n : ℕ) (v : List Bool) (i : ℕ) (b : Bool)
    → length v ≡ n
    → i < n
    → (v' : List Bool) × (set_bit v i b ≡ some v')
      × (length v' ≡ n)
      × ((j : ℕ) → j < n → get_elem? v' j ≡ (if i == j then some b else get_elem? v j))
set_bit_lem n v i b size h =
    let inside : i < length v = omega (arith, size, h) in
    (
      set v i b,
      rw (lt→ltb i (length v) inside) refl,
      length-set v i b ∙ size,
      λ j hj. elim (Bool-cases (i == j)) [
        | inl same ↦
            let e : i ≡ j = ground arith in
            rw same (
              subst (λ (k : ℕ). get_elem? (set v i b) k ≡ some b) e
                (get_elem?-set_self v i b inside))
        | inr other ↦ rw other (get_elem?-set_ne v i j b (λ e. ground arith))
      ],
    )

abbrev pub list_bits : BitVec
list_bits = record {
  Bits = List Bool;
  new = λ n. replicate n false;
  get = get_elem?;
  set = set_bit;
  IsSized = λ n v. length v ≡ n;
  new-IsSized = λ n. length-replicate n false;
  get-new = get-replicate;
  get-IsSized = λ n v i e h. get_elem?-lt v i (omega (arith, e, h));
  set_lem = set_bit_lem;
}

-- 0 → 1, 2 and 1 → 2
abbrev pub triangle : Graph
triangle = record { num_nodes = 3; successors = get_elem? ((1 ∷ 2 ∷ []) ∷ (2 ∷ []) ∷ [] ∷ []) }

triangle-IsGraph : IsGraph triangle
triangle-IsGraph zero h = (1 ∷ 2 ∷ [], refl, (omega arith, (omega arith, tt)))
triangle-IsGraph (suc zero) h = (2 ∷ [], refl, (omega arith, tt))
triangle-IsGraph (suc (suc zero)) h = ([], refl, tt)
triangle-IsGraph (suc (suc (suc v))) h = absurd (omega arith)

pub Arc-count :
    (g : Graph) (v w : ℕ) (ss : List ℕ) → g.successors v ≡ some ss → Arc g v w → 0 < count w ss
Arc-count g v w ss e (ss', e', m) =
    let same : ss' ≡ ss = some-injective ss' ss (sym e' ∙ e) in rw same at m

triangle_ascends : (v w : ℕ) → Arc triangle v w → v < w
triangle_ascends zero w a = let m = Arc-count triangle 0 w (1 ∷ 2 ∷ []) refl a in ground (arith, m)
triangle_ascends (suc zero) w a =
    let m = Arc-count triangle 1 w (2 ∷ []) refl a in ground (arith, m)
triangle_ascends (suc (suc zero)) w a =
    let m = Arc-count triangle 2 w [] refl a in ground (arith, m)
triangle_ascends (suc (suc (suc v))) w (ss, e, m) = cc

Reach-le : (g : Graph) → ((v w : ℕ) → Arc g v w → v < w) → {u v : ℕ} → Reach g u v → u ≤ v
Reach-le g up here = omega arith
Reach-le g up (onward {u} {v} {w} r a) = omega (arith, Reach-le g up r, up v w a)

triangle-Acyclic : Acyclic triangle
triangle-Acyclic v w a r =
    absurd (omega (arith, triangle_ascends v w a, Reach-le triangle triangle_ascends r))

sorted : top_sort list_bits triangle ≡ some (0 ∷ 1 ∷ 2 ∷ [])
unfolding top_sort
sorted = refl

-- A cycle, and a node that none of it reaches.
abbrev cycle : Graph
cycle = record { num_nodes = 3; successors = get_elem? ((1 ∷ []) ∷ (0 ∷ []) ∷ (0 ∷ []) ∷ []) }

sorted_cycle : top_sort list_bits cycle ≡ some (2 ∷ 0 ∷ 1 ∷ [])
unfolding top_sort
sorted_cycle = refl

top_sort_lem_example :
    (order : List ℕ) × (top_sort list_bits triangle ≡ some order)
    × ((v : ℕ) → count v order ≡ (if ltb v 3 then 1 else 0))
    × Forward triangle order
top_sort_lem_example = top_sort_lem list_bits triangle triangle-IsGraph

top_sort-Acyclic_example :
    (order : List ℕ) × (top_sort list_bits triangle ≡ some order)
    × ((before after : List ℕ) (v w : ℕ)
        → order ≡ before ++ v ∷ after
        → Arc triangle v w
        → 0 < count w after)
top_sort-Acyclic_example = top_sort-Acyclic list_bits triangle triangle-IsGraph triangle-Acyclic

-- A callback that keeps the finished nodes.
abbrev keep : List ℕ → Event → Option (List ℕ × Option ⊥)
keep t (postvisit node pred root depth) = some (node ∷ t, none)
keep t event = some (t, none)

abbrev every_node : List ℕ → FilterArgs → List ℕ × Bool
every_node t a = (t, true)

keep-Follows : Follows triangle keep (λ l t. t ≡ l)
keep-Follows = record {
  on_init = λ l t root p. (t, refl, p);
  on_previsit = λ l t node pred root depth p. (t, refl, p);
  on_revisit = λ l t node pred root depth on_stack p. (t, refl, p);
  on_postvisit = λ l t node pred root depth less late p. (node ∷ t, refl, ap (◌∷◌ node) p);
  on_done = λ l t root p. (t, refl, p);
}

visit-Follows_example :
    (l : Loop (three_states list_bits) (List ℕ)) × (order : List ℕ) × (visit
        (three_states list_bits)
        triangle
        keep
        every_node
        (range 0 3)
        []
      ≡ some (l, none))
    × (l.stack ≡ [])
    × ((v : ℕ) → count v order ≡ (if ltb v 3 then 1 else 0))
    × (l.acc ≡ order)
visit-Follows_example =
    visit-Follows (three_states list_bits) triangle keep every_node triangle-IsGraph keep-Follows
      (λ t a. refl) [] refl
