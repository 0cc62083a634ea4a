-- ===== src/SymmSeq.antt =====
-- webgraph-rs/algo/src/sccs/symm_seq.rs: the connected components of a symmetric graph, by a visit without
-- predecessors.
pub mod Invariant
pub mod Rounds
pub mod Settled
pub mod Total
pub mod Components
use rbsc.Base.{
  ℕ, ◌+◌, Bool, true, Option, none, some, List, [], ◌∷◌, replicate, range, get_elem?, set, ◌>>=◌,
}
use rbsc.DepthFirst.{Graph}
use rbsc.DepthFirst.States.{BitVec}
use rbsc.DepthFirst.Selectors.{two_states}
use rbsc.SeqNoPred.{Event, init, previsit, revisit, done, FilterArgs, visit}
use rbsc.Sccs.{Sccs}

-- The variables that the callback captures: an entry of `component` is `none` before it is written.
pub record Labels : Type 0 where
  pub component : List (Option ℕ)
  pub number_of_components : ℕ

-- The callback never breaks.
unfoldable pub callback : Labels → Event → Option (Labels × Option ⊥)
callback t (init root) = some (t, none)
callback t (previsit node root depth) = get_elem? t.component node >>= λ _.
    some (record t { component = set t.component node (some t.number_of_components) }, none)
callback t (revisit node root depth) = some (t, none)
callback t (done root) = some (record t { number_of_components = t.number_of_components + 1 }, none)

-- `visit` passes every node.
abbrev pub no_filter {ℓ} : {T : Type ℓ} → T → FilterArgs → T × Bool
no_filter t a = (t, true)

-- `assume_init`: `none` is the read of an entry that was not written.
unfoldable pub assume_init : List (Option ℕ) → Option (List ℕ)
assume_init [] = some []
assume_init (none ∷ xs) = none
assume_init (some c ∷ xs) = assume_init xs >>= λ cs. some (c ∷ cs)

module _ (bv : BitVec) where
  unfoldable pub symm_seq : Graph → Option Sccs
  unfolding assume_init
  symm_seq g = do
    r ←
        visit (two_states bv) g callback no_filter (range 0 g.num_nodes)
          (record { component = replicate g.num_nodes none; number_of_components = 0 })
    component ← assume_init r.0.acc.component
    some (record { num_components = r.0.acc.number_of_components; components = component })
