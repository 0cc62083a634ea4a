-- ===== src/SymmSeq/Total.antt =====
-- `symm_seq` on a symmetric graph: the visit from all the nodes, and its start.
use rbsc.Base.{
  ℕ, zero, suc, ◌+◌, ◌<◌, ◌≡◌, refl, ap, ◌∙◌, inl, inr, arith, Bool, true, false, none, some, List,
  [], length-replicate, replicate, range, get_elem?, ◌==◌, Bool-cases,
}
use rbsc.DepthFirst.{Graph}
use rbsc.DepthFirst.States.{NodeStates}
use rbsc.DepthFirst.Invariant.{IsGraph, mark}
use rbsc.SeqNoPred.{visit_root, visit_roots}
use rbsc.SymmSeq.{Labels, callback, no_filter}
use rbsc.SymmSeq.Invariant.{IsSymmetric}
use rbsc.SymmSeq.Settled.{IsSettled, Finishes, start_root-Finishes}

get_elem?-replicate {ℓ} :
    {A : Type ℓ} (n i : ℕ) (a : A) → i < n → get_elem? (replicate n a) i ≡ some a
get_elem?-replicate zero i a h = absurd (omega arith)
get_elem?-replicate (suc n) zero a h = refl
get_elem?-replicate (suc n) (suc i) a h = get_elem?-replicate n i a (omega arith)

module _ (ns : NodeStates) (g : Graph) (h : IsGraph g) (sy : IsSymmetric g) where
  visit_root-Finishes :
      (r : ℕ) (state : ns.States) (t : Labels) (k : ℕ → Bool) (lab root : ℕ → ℕ)
      → r < g.num_nodes
      → IsSettled ns g state t k lab root
      → Finishes ns g
          (mark r k)
          (visit_root ns g callback no_filter r (record { state = state; stack = []; acc = t }))
  unfolding visit_root
  visit_root-Finishes r state t k lab root b i = elim (Bool-cases (k r)) [
    | inl e ↦
        let known : ns.known state r ≡ some true = i.run.known r b ∙ ap some e in
        record {
          after = record { state = state; stack = []; acc = t };
          known_nodes = k;
          lab = lab;
          root = root;
          eq = rw known refl;
          empty = refl;
          settled = i;
          grows = λ v m. elim (Bool-cases (r == v)) [
            | inl this ↦ let same : r ≡ v = ground arith in rw same at e
            | inr other ↦ rw other at m
          ];
        }
    | inr e ↦
        let known : ns.known state r ≡ some false = i.run.known r b ∙ ap some e in
        let rest = start_root-Finishes ns g h sy r state t k lab root b e i in
        record {
          after = rest.after;
          known_nodes = rest.known_nodes;
          lab = rest.lab;
          root = rest.root;
          eq = rw known rest.eq;
          empty = rest.empty;
          settled = rest.settled;
          grows = rest.grows;
        }
  ]

  -- The roots are the nodes from `r` on, and those before it are known.
  pub visit_roots-Finishes :
      (n r : ℕ) (state : ns.States) (t : Labels) (k : ℕ → Bool) (lab root : ℕ → ℕ)
      → r + n ≡ g.num_nodes
      → ((v : ℕ) → v < r → k v ≡ true)
      → IsSettled ns g state t k lab root
      → (q : Finishes ns g k (
          visit_roots ns g callback no_filter
            (range r n)
            (record { state = state; stack = []; acc = t })))
        × ((v : ℕ) → v < g.num_nodes → q.known_nodes v ≡ true)
  unfolding visit_roots
  visit_roots-Finishes zero r state t k lab root e seen i = (
    record {
      after = record { state = state; stack = []; acc = t };
      known_nodes = k;
      lab = lab;
      root = root;
      eq = refl;
      empty = refl;
      settled = i;
      grows = λ v m. m;
    },
    λ v b. seen v (omega arith),
  )
  visit_roots-Finishes (suc n) r state t k lab root e seen i =
      let q = visit_root-Finishes r state t k lab root (omega arith) i in
      let a = q.after in
      let (rest, all) =
        visit_roots-Finishes n (suc r) a.state a.acc q.known_nodes q.lab q.root (omega arith)
          (λ v b. elim (Bool-cases (r == v)) [
            | inl this ↦ q.grows v (rw this refl)
            | inr other ↦ q.grows v (rw other (seen v (ground arith)))
          ])
          q.settled in
      let same : q.after ≡ record { state = a.state; stack = []; acc = a.acc } =
        ap (λ (s : List (List ℕ)). record { state = a.state; stack = s; acc = a.acc }) q.empty in
      (
        record {
          after = rest.after;
          known_nodes = rest.known_nodes;
          lab = rest.lab;
          root = rest.root;
          eq = rw (q.eq, same) rest.eq;
          empty = rest.empty;
          settled = rest.settled;
          grows = λ v m. rest.grows v (q.grows v (ground (arith, m)));
        },
        all,
      )

  pub new-IsSettled :
      IsSettled ns g
        (ns.new g.num_nodes)
        (record { component = replicate g.num_nodes none; number_of_components = 0 })
        (λ v. false)
        (λ v. 0)
        (λ j. 0)
  new-IsSettled = record {
    run = record {
      fits = ns.new-Fits g.num_nodes;
      known = ns.known-new g.num_nodes;
      labelled = record {
        size = length-replicate g.num_nodes none;
        inside = λ v e. cc;
        filled = λ v b. get_elem?-replicate g.num_nodes v none b;
        below = λ v e. omega arith;
        linked = λ v e. cc;
        arcs = λ v w e a. cc;
        from = λ w p. absurd p;
      };
    };
    strict = λ v e. cc;
    rooted = λ j b. absurd (omega arith);
  }
