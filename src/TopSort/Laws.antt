-- ===== src/TopSort/Laws.antt =====
-- The topological sort of a graph.
use rbsc.Base.{
  ℕ, zero, suc, ◌+◌, ◌-◌, ◌<◌, ◌≡◌, refl, sym, ap, subst, ◌⊎◌, inl, inr, arith, true, Option, none,
  some, List, [], ◌∷◌, ◌++◌, append-nil, map, length, length-append, length-replicate, replicate,
  set, leb, ltb, le→leb, if◌then◌else◌,
}
use rbsc.DepthFirst.{Graph, postvisit}
use rbsc.DepthFirst.States.{BitVec}
use rbsc.DepthFirst.Selectors.{two_states}
use rbsc.DepthFirst.Invariant.{count, IsGraph}
use rbsc.DepthFirst.Distinct.{length_eq}
use rbsc.DepthFirst.Finish.{Arc, Reach, Follows}
use rbsc.DepthFirst.Total.{visit-Follows}
use rbsc.TopSort.{Sort, write, callback, assume_init, pass_all, top_sort}

-- Each arc from a node of the list goes to a later node of the list, or closes a cycle.
abbrev pub Forward : Graph → List ℕ → Type 0
Forward g [] = Unit
Forward g (v ∷ vs) = ((w : ℕ) → Arc g v w → (0 < count w vs) ⊎ Reach g w v) × Forward g vs

abbrev pub Acyclic : Graph → Type 0
Acyclic g = (v w : ℕ) → Arc g v w → Reach g w v → ⊥

-- What the callback keeps: the finished nodes stand at the end.
abbrev sort_of : ℕ → List ℕ → Sort
sort_of pos l = record { top_sort = replicate pos none ++ map some l; pos = pos }

abbrev Written : Graph → List ℕ → Sort → Type 0
Written g l s = (pos : ℕ) × (s ≡ sort_of pos l) × (pos + length l ≡ g.num_nodes) × Forward g l

set_last :
    {A : Type 0} (n : ℕ) (a b : A) (xs : List A)
    → set (replicate (suc n) a ++ xs) n b ≡ replicate n a ++ b ∷ xs
set_last zero a b xs = refl
set_last (suc n) a b xs = ap (◌∷◌ a) (set_last n a b xs)

assume_init-some : (l : List ℕ) → assume_init (map some l) ≡ some l
unfolding assume_init
assume_init-some [] = refl
assume_init-some (v ∷ l) = rw (assume_init-some l) refl

write-sort_of :
    (pos node : ℕ) (l : List ℕ) → write (sort_of (suc pos) l) node ≡ some (sort_of pos (node ∷ l))
unfolding write
write-sort_of pos node l =
    let slots : List (Option ℕ) = replicate (suc pos) none ++ map some l in
    let positive : leb 1 (suc pos) ≡ true = le→leb 1 (suc pos) (omega arith) in
    let inside : leb (suc pos) (length slots) ≡ true = le→leb (suc pos) (length slots) (
      omega (
        arith,
        length-append (replicate {A = Option ℕ} (suc pos) none) (map some l),
        length-replicate {A = Option ℕ} (suc pos) none,
      )) in
    let before : suc pos - 1 ≡ pos = omega arith in
    rw (positive, inside, before, set_last {A = Option ℕ} pos none (some node) (map some l)) refl

postvisit-Written :
    (g : Graph) (l : List ℕ) (s : Sort) (node pred root depth : ℕ)
    → length l < g.num_nodes
    → ((w : ℕ) → Arc g node w → (0 < count w l) ⊎ Reach g w node)
    → Written g l s
    → (s' : Sort) × (callback s (postvisit node pred root depth) ≡ some (s', none))
      × Written g (node ∷ l) s'
unfolding callback
postvisit-Written g l s node pred root depth less late (zero, is, size, forward) =
    absurd (omega (arith, less, size))
postvisit-Written g l s node pred root depth less late (suc pos, is, size, forward) = (
  sort_of pos (node ∷ l),
  rw (is, write-sort_of pos node l) refl,
  (pos, refl, omega (arith, size), (late, forward)),
)

callback-Follows : (g : Graph) → Follows g callback (Written g)
unfolding callback
callback-Follows g = record {
  on_init = λ l s root p. (s, refl, p);
  on_previsit = λ l s node pred root depth p. (s, refl, p);
  on_revisit = λ l s node pred root depth on_stack p. (s, refl, p);
  on_done = λ l s root p. (s, refl, p);
  on_postvisit = λ l s node pred root depth less late p.
      postvisit-Written g l s node pred root depth less late p;
}

-- The sizes agree, so no place is left.
nothing_left :
    (g : Graph) (l : List ℕ) (pos : ℕ)
    → pos + length l ≡ g.num_nodes
    → ((v : ℕ) → count v l ≡ (if ltb v g.num_nodes then 1 else 0))
    → pos ≡ 0
nothing_left g l pos size once = omega (arith, length_eq g.num_nodes l once)

-- On a graph whose successors are nodes, the sort does not fail. It lists each node exactly once, and an
-- arc goes from a node to a later one unless it closes a cycle.
pub top_sort_lem :
    (bv : BitVec) (g : Graph)
    → IsGraph g
    → (order : List ℕ) × (top_sort bv g ≡ some order)
      × ((v : ℕ) → count v order ≡ (if ltb v g.num_nodes then 1 else 0))
      × Forward g order
unfolding top_sort
top_sort_lem bv g h =
    let (l, order, e, _, once, (pos, is, size, forward)) =
      visit-Follows (two_states bv) g callback pass_all h (callback-Follows g) (λ t a. refl)
        (record { top_sort = replicate g.num_nodes none; pos = g.num_nodes })
        (
          g.num_nodes,
          ap (λ (s : List (Option ℕ)). record { top_sort = s; pos = g.num_nodes })
              (sym (append-nil (replicate g.num_nodes none))),
          omega arith,
          tt,
        ) in
    let nowhere = nothing_left g order pos size once in
    let written : l.acc ≡ sort_of 0 order = rw nowhere at is in
    (order, rw (e, written) (assume_init-some order), once, forward)

-- What follows a node of a list in an order.
stands_behind :
    (g : Graph) (v : ℕ) (before after : List ℕ)
    → Forward g (before ++ v ∷ after)
    → (w : ℕ) → Arc g v w
    → (0 < count w after) ⊎ Reach g w v
stands_behind g v [] after f w a = f.0 w a
stands_behind g v (b ∷ before) after f w a = stands_behind g v before after f.1 w a

-- On an acyclic graph whose successors are nodes, the sort is a topological one: a successor of a node of
-- the list stands behind it.
pub top_sort-Acyclic :
    (bv : BitVec) (g : Graph)
    → IsGraph g
    → Acyclic g
    → (order : List ℕ) × (top_sort bv g ≡ some order)
      × ((before after : List ℕ) (v w : ℕ)
          → order ≡ before ++ v ∷ after
          → Arc g v w
          → 0 < count w after)
top_sort-Acyclic bv g h acyclic =
    let (order, e, _, forward) = top_sort_lem bv g h in
    (
      order,
      e,
      λ before after v w same a.
          elim (stands_behind g v before after (subst (Forward g) same forward) w a) [
            | inl later ↦ later
            | inr cycle ↦ absurd (acyclic v w a cycle)
          ],
    )
