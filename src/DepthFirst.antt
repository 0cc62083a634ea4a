-- ===== src/DepthFirst.antt =====
-- webgraph-rs/algo/src/visits/depth_first/seq.rs, `impl Sequential<EventPred> for SeqIter`: the
-- depth-first visit with predecessors, by an explicit stack.
--
-- `none` is a panic. An iterator over successors is the list of those it has not returned. A `break` of
-- the callback carries a value of type `E`.
pub mod States
pub mod Invariant
pub mod Kept
pub mod Distinct
pub mod Finish
pub mod Rounds
pub mod Total
pub mod Selectors
use rbsc.Base.{
  ℕ, zero, suc, ◌+◌, Bool, true, false, Option, none, some, List, [], ◌∷◌, length, range, ◌>>=◌,
  if◌then◌else◌,
}
use States.{NodeStates}

-- `EventPred`
pub data Event : Type 0 where
  init : (root : ℕ) → Event
  previsit : (node pred root depth : ℕ) → Event
  revisit : (node pred root depth : ℕ) (on_stack : Bool) → Event
  postvisit : (node pred root depth : ℕ) → Event
  done : (root : ℕ) → Event

-- `FilterArgsPred`
pub record FilterArgs : Type 0 where
  pub node : ℕ
  pub pred : ℕ
  pub root : ℕ
  pub depth : ℕ

-- An entry of the stack: the iterator and the parent. The head of a stack is its top.
abbrev pub Frame : Type 0
Frame = List ℕ × ℕ

-- `num_nodes` and `successors` of a `RandomAccessGraph`.
pub record Graph : Type 0 where
  pub num_nodes : ℕ
  pub successors : ℕ → Option (List ℕ)

abbrev pub successors_or_nil : Graph → ℕ → List ℕ
successors_or_nil g v = elim (g.successors v) [ none ↦ [] | some ss ↦ ss ]

-- An upper bound of the rounds: 1 for each arc and each node, and 1 for the end.
unfoldable pub visit_fuel : Graph → ℕ → ℕ
visit_fuel g zero = 1
visit_fuel g (suc n) = length (successors_or_nil g n) + 1 + visit_fuel g n

module _ (ns : NodeStates) where
  -- The visit, `curr`, and the value `init` that the closures change.
  pub record Loop (T : Type 0) : Type 0 where
    pub state : ns.States
    pub stack : List Frame
    pub curr : ℕ
    pub acc : T

pub data Status (E : Type 0) : Type 0 where
  going : Status E
  finished : Status E
  broke : E → Status E

module _ (ns : NodeStates) {T E : Type 0} (g : Graph) (callback : T → Event → Option (T × Option E))
    (filter : T → FilterArgs → T × Bool) where
  -- `callback(&mut init, event)?`, and what follows it.
  unfoldable pub emit :
      Loop ns T
      → Event
      → (Loop ns T → Option (Loop ns T × Status E))
      → Option (Loop ns T × Status E)
  emit l event k = elim (callback l.acc event) [
    | none ↦ none
    | some (t, none) ↦ k (record l { acc = t })
    | some (t, some e) ↦ some (record l { acc = t }, broke e)
  ]

  -- `self.stack.push((self.graph.successors(node), parent)); state.set_on_stack(node); curr = node`
  unfoldable pub enter : ℕ → ℕ → Loop ns T → Option (Loop ns T × Status E)
  enter node parent l = do
    iter ← g.successors node
    state ← ns.set_on_stack l.state node
    some (record l { state = state; stack = (iter, parent) ∷ l.stack; curr = node }, going)

  -- A successor that is not known.
  unfoldable pub discover : ℕ → ℕ → Loop ns T → Option (Loop ns T × Status E)
  unfolding emit enter
  discover root succ l =
      let depth = length l.stack in
      let (t, pass) =
        filter l.acc (record { node = succ; pred = l.curr; root = root; depth = depth }) in
      if pass
      then (ns.set_known l.state succ >>= λ state.
          emit (record l { state = state; acc = t }) (previsit succ l.curr root depth)
            (enter succ l.curr))
      else some (record l { acc = t }, going)

  unfoldable pub see : ℕ → ℕ → Loop ns T → Option (Loop ns T × Status E)
  unfolding emit discover
  see root succ l = do
    known ← ns.known l.state succ
    if known
        then (ns.on_stack l.state succ >>= λ on_stack.
            emit l (revisit succ l.curr root (length l.stack) on_stack) (λ l'. some (l', going)))
        else discover root succ l

  unfoldable pub leave : ℕ → ℕ → List Frame → Loop ns T → Option (Loop ns T × Status E)
  unfolding emit
  leave root parent below l = emit l (postvisit l.curr parent root (length below)) (λ l'. do
    state ← ns.set_off_stack l'.state l'.curr
    some (record l' { state = state; stack = below; curr = parent }, going))

  -- A round of `for succ in iter`, what follows that loop, or the end of `'recurse`.
  unfoldable pub step : ℕ → Loop ns T → List Frame → Option (Loop ns T × Status E)
  unfolding emit see leave
  step root l [] = emit l (done root) (λ l'. some (l', finished))
  step root l (([], parent) ∷ below) = leave root parent below l
  step root l ((succ ∷ iter, parent) ∷ below) =
      see root succ (record l { stack = (iter, parent) ∷ below })

  -- `'recurse: loop`, which `visit_fuel` is enough for.
  unfoldable pub recurse : ℕ → ℕ → Loop ns T → Option (Loop ns T × Option E)
  unfolding step
  recurse zero root l = none
  recurse (suc fuel) root l = step root l l.stack >>= λ r. elim r.1 [
    | going ↦ recurse fuel root r.0
    | finished ↦ some (r.0, none)
    | broke e ↦ some (r.0, some e)
  ]

  -- `finished` says that the loop goes on to the next root.
  unfoldable pub visit_root : ℕ → Loop ns T → Option (Loop ns T × Option E)
  unfolding emit enter recurse visit_fuel
  visit_root root l = do
    known ← ns.known l.state root
    let (t, pass) = filter l.acc (record { node = root; pred = root; root = root; depth = 0 })
    if known
        then some (l, none)
        else if pass
        then (emit (record l { acc = t }) (init root)
              (λ l1. do
                state ← ns.set_known l1.state root
                emit (record l1 { state = state }) (previsit root root root 0) (enter root root))
            >>= λ r. elim r.1 [
              | broke e ↦ some (r.0, some e)
              | _ ↦ recurse (visit_fuel g g.num_nodes) root r.0
            ])
        else some (record l { acc = t }, none)

  unfoldable pub visit_roots : List ℕ → Loop ns T → Option (Loop ns T × Option E)
  unfolding visit_root
  visit_roots [] l = some (l, none)
  visit_roots (root ∷ roots) l = visit_root root l >>= λ r. elim r.1 [
    | none ↦ visit_roots roots r.0
    | some e ↦ some (r.0, some e)
  ]

  -- `SeqIter::new(&graph).visit_filtered_with(roots, init, callback, filter)`. The value of `curr` is not
  -- read before it is set.
  unfoldable pub visit : List ℕ → T → Option (Loop ns T × Option E)
  unfolding visit_roots
  visit roots t =
      visit_roots roots (record { state = ns.new g.num_nodes; stack = []; curr = 0; acc = t })
