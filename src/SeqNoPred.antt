-- ===== src/SeqNoPred.antt =====
-- webgraph-rs/algo/src/visits/depth_first/seq.rs, `impl Sequential<EventNoPred> for SeqIter`: the depth-first
-- visit without predecessors, by an explicit stack of iterators.
--
-- `none` is a panic. An iterator over successors is the list of those it has not returned. A `break` of
-- the callback carries a value of type `E`.
use rbsc.Base.{ℕ, zero, suc, Bool, Option, none, some, List, [], ◌∷◌, length, ◌>>=◌, if◌then◌else◌}
use rbsc.DepthFirst.{Graph, visit_fuel}
use rbsc.DepthFirst.States.{NodeStates}

-- `EventNoPred`
pub data Event : Type 0 where
  init : (root : ℕ) → Event
  previsit : (node root depth : ℕ) → Event
  revisit : (node root depth : ℕ) → Event
  done : (root : ℕ) → Event

-- `FilterArgsNoPred`
pub record FilterArgs : Type 0 where
  pub node : ℕ
  pub root : ℕ
  pub depth : ℕ

module _ (ns : NodeStates) where
  -- The visit, and the value `init` that the closures change. The head of the stack is its top.
  pub record Loop (T : Type 0) : Type 0 where
    pub state : ns.States
    pub stack : List (List ℕ)
    pub acc : T

pub data Status (E : Type 0) : Type 0 where
  going : Status E
  finished : Status E
  broke : E → Status E

module _ (ns : NodeStates) {T E : Type 0} (g : Graph) (callback : T → Event → Option (T × Option E))
    (filter : T → FilterArgs → T × Bool) where
  -- `callback(&mut init, event)?`, and what follows it.
  unfoldable pub emit :
      Loop ns T
      → Event
      → (Loop ns T → Option (Loop ns T × Status E))
      → Option (Loop ns T × Status E)
  emit l event k = elim (callback l.acc event) [
    | none ↦ none
    | some (t, none) ↦ k (record l { acc = t })
    | some (t, some e) ↦ some (record l { acc = t }, broke e)
  ]

  -- `self.stack.push((self.graph.successors(node).into_iter(), ()))`
  unfoldable pub push : ℕ → Loop ns T → Option (Loop ns T × Status E)
  push node l = g.successors node >>= λ iter. some (record l { stack = iter ∷ l.stack }, going)

  -- A successor that is not known.
  unfoldable pub discover : ℕ → ℕ → Loop ns T → Option (Loop ns T × Status E)
  unfolding emit push
  discover root succ l =
      let depth = length l.stack in
      let (t, pass) = filter l.acc (record { node = succ; root = root; depth = depth }) in
      if pass
      then (ns.set_known l.state succ >>= λ state.
          emit (record l { state = state; acc = t }) (previsit succ root depth) (push succ))
      else some (record l { acc = t }, going)

  unfoldable pub see : ℕ → ℕ → Loop ns T → Option (Loop ns T × Status E)
  unfolding emit discover
  see root succ l = do
    known ← ns.known l.state succ
    if known
        then emit l (revisit succ root (length l.stack)) (λ l'. some (l', going))
        else discover root succ l

  -- A round of `for succ in iter`, what follows that loop, or the end of `'recurse`.
  unfoldable pub step : ℕ → Loop ns T → List (List ℕ) → Option (Loop ns T × Status E)
  unfolding emit see
  step root l [] = emit l (done root) (λ l'. some (l', finished))
  step root l ([] ∷ below) = some (record l { stack = below }, going)
  step root l ((succ ∷ iter) ∷ below) = see root succ (record l { stack = iter ∷ below })

  -- `'recurse: loop`, which `visit_fuel` is enough for.
  unfoldable pub recurse : ℕ → ℕ → Loop ns T → Option (Loop ns T × Option E)
  unfolding step
  recurse zero root l = none
  recurse (suc fuel) root l = step root l l.stack >>= λ r. elim r.1 [
    | going ↦ recurse fuel root r.0
    | finished ↦ some (r.0, none)
    | broke e ↦ some (r.0, some e)
  ]

  -- The body of the loop over the roots behind its `continue`.
  unfoldable pub start_root : ℕ → Loop ns T → Option (Loop ns T × Option E)
  unfolding emit push recurse visit_fuel
  start_root root l =
      emit l (init root) (λ l1. do
        state ← ns.set_known l1.state root
        emit (record l1 { state = state }) (previsit root root 0) (push root))
      >>= λ r. elim r.1 [
        | broke e ↦ some (r.0, some e)
        | _ ↦ recurse (visit_fuel g g.num_nodes) root r.0
      ]

  unfoldable pub visit_root : ℕ → Loop ns T → Option (Loop ns T × Option E)
  unfolding start_root
  visit_root root l = do
    known ← ns.known l.state root
    let (t, pass) = filter l.acc (record { node = root; root = root; depth = 0 })
    if known
        then some (l, none)
        else if pass
        then start_root root (record l { acc = t })
        else some (record l { acc = t }, none)

  unfoldable pub visit_roots : List ℕ → Loop ns T → Option (Loop ns T × Option E)
  unfolding visit_root
  visit_roots [] l = some (l, none)
  visit_roots (root ∷ roots) l = visit_root root l >>= λ r. elim r.1 [
    | none ↦ visit_roots roots r.0
    | some e ↦ some (r.0, some e)
  ]

  -- `SeqIter::new(&graph).visit_filtered_with(roots, init, callback, filter)`
  unfoldable pub visit : List ℕ → T → Option (Loop ns T × Option E)
  unfolding visit_roots
  visit roots t = visit_roots roots (record { state = ns.new g.num_nodes; stack = []; acc = t })
