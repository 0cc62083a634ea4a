-- ===== src/BvComp/Places.antt =====
-- Where the bits of each node stand in the stream that `extend` writes, and what `labels` finds there.
use rbsc.Base.{
  ℕ, zero, suc, ◌+◌, ◌-◌, ◌≤◌, ◌<◌, ◌≡◌, refl, sym, ap, ◌∙◌, arith, Option, some, Bool, List, [],
  ◌∷◌, ◌++◌, append_assoc, length, length-append, All, take, get_elem?,
}
use native.Mathlib.Decide.{ℕ_discrete}
use mathlib.Core.Option.{some-injective}
use rbsc.CircularBuffer
use rbsc.CircularBuffer.Laws.{index-put_self, index-put_ne, slot-ne}
use rbsc.Codec.{CodeLibrary, CodeConsts, Symbol, encode_all, i64_min}
use rbsc.RandomAccess.Labels.{SuccAt, iterator, open_labels}
use rbsc.RandomAccess.Opens.{Finds}
use rbsc.Sequential.RestTrip.{IsSuccessors}
use rbsc.BvComp.{BvComp, extend}
use rbsc.BvComp.State.{IsState, IsPushed}
use rbsc.BvComp.Push.{push-Returns}
use rbsc.BvComp.Graph.{extend-IsExtended}

-- The buffer holds the lists of the nodes within the window.
abbrev pub Holds : BvComp → List (List ℕ) → Type 0
Holds b all =
    (d : ℕ)
    → 0 < d
    → d ≤ b.compression_window
    → d ≤ b.curr_node
    → CircularBuffer.index b.backrefs (b.curr_node - d) ≡ get_elem? all (b.curr_node - d)

module _ (lib : CodeLibrary) (cs : CodeConsts) (window min_len : ℕ) (all : List (List ℕ)) where
  -- The earlier nodes within the window are found with their lists.
  abbrev pub FindsBefore : (depth : ℕ) → (ℕ → Option (SuccAt lib cs depth)) → ℕ → Type 0
  FindsBefore depth successors node =
      (d : ℕ) (l : List ℕ)
      → 0 < d
      → d ≤ window
      → d ≤ node
      → get_elem? all (node - d) ≡ some l
      → Finds lib cs depth (successors (node - d)) l

  -- The `i`th of the lists that `extend` is given in the state `b`.
  pub record IsPlaced (b : BvComp) (lists : List (List ℕ)) (i : ℕ) (l : List ℕ) : Type 0 where
    pub result : ℕ × BvComp
    pub extended : extend lib cs b lists ≡ some result
    pub prefix : ℕ × BvComp
    pub extended_before : extend lib cs b (take i lists) ≡ some prefix
    pub before : List Bool
    pub after : List Bool
    pub calls : List Symbol
    pub written : result.1.encoder ≡ b.encoder ++ (before ++ (encode_all lib cs calls ++ after))
    pub position : prefix.0 ≡ length before
    pub opens :
        (depth : ℕ) (successors : ℕ → Option (SuccAt lib cs depth)) (rest : List Bool)
        → FindsBefore depth successors (b.curr_node + i)
        → Finds lib cs
            (suc depth)
            (open_labels lib cs
              (iterator lib cs depth)
              successors
              window
              min_len
              (b.curr_node + i)
              (encode_all lib cs calls ++ rest))
            l

module _ (lib : CodeLibrary) (cs : CodeConsts) (all : List (List ℕ)) (b : BvComp) (succs : List ℕ)
    (bits : ℕ) (b' : BvComp) (i : IsState b) (p : IsPushed lib cs b succs bits b') where
  Holds-push : Holds b all → get_elem? all b.curr_node ≡ some succs → Holds b' all
  Holds-push h e d k l m = elim (ℕ_discrete d 1) [
    | yes one ↦
        let same : b'.curr_node - d ≡ b.curr_node = omega (arith, p.node) in
        rw (same, p.refs)
          (index-put_self b.backrefs b.curr_node succs (omega (arith, i.backrefs_size)) ∙ sym e)
    | no more ↦
        let back : b'.curr_node - d ≡ b.curr_node - (d - 1) = omega (arith, p.node) in
        rw (back, p.refs)
          (index-put_ne b.backrefs b.curr_node (b.curr_node - (d - 1)) succs (
              slot-ne b.backrefs b.curr_node (d - 1) (omega arith)
                (omega (arith, i.backrefs_size, p.window)) (omega (arith, p.node)))
            ∙ h (d - 1) (omega arith) (omega (arith, p.window)) (omega (arith, p.node)))
  ]

  -- The buffer of a decoder holds the same lists.
  opens-push :
      Holds b all
      → (depth : ℕ) (successors : ℕ → Option (SuccAt lib cs depth)) (rest : List Bool)
      → FindsBefore lib cs b.compression_window b.min_interval_length all depth successors
          b.curr_node
      → Finds lib cs
          (suc depth)
          (open_labels lib cs
            (iterator lib cs depth)
            successors
            b.compression_window
            b.min_interval_length
            b.curr_node
            (encode_all lib cs p.calls ++ rest))
          succs
  opens-push h depth successors rest found = p.opens depth successors rest (λ d l k m n e.
      found d l k m n (
        sym (h d k m n)
        ∙ sym (
            index-put_ne b.backrefs b.curr_node (b.curr_node - d) []
              (slot-ne b.backrefs b.curr_node d k (omega (arith, i.backrefs_size)) n))
        ∙ e))

later_written :
    (old bits before after : List Bool) {middle last : List Bool}
    → last ≡ middle ++ (before ++ after)
    → middle ≡ old ++ bits
    → last ≡ old ++ ((bits ++ before) ++ after)
later_written old bits before after e f = rw (e, f) (simp append_assoc)

module _ (lib : CodeLibrary) (cs : CodeConsts) (window min_len : ℕ) (all : List (List ℕ)) where
  pub extend-IsPlaced :
      (lists : List (List ℕ)) (b : BvComp) (i : ℕ) (l : List ℕ)
      → IsState b
      → b.compression_window ≡ window
      → b.min_interval_length ≡ min_len
      → All IsSuccessors lists
      → b.curr_node + length lists ≤ i64_min
      → Holds b all
      → ((j : ℕ) → get_elem? all (b.curr_node + j) ≡ get_elem? lists j)
      → get_elem? lists i ≡ some l
      → IsPlaced lib cs window min_len all b lists i l
  unfolding extend
  extend-IsPlaced [] b i l s w m a n h same e = cc
  extend-IsPlaced (succs ∷ lists) b zero l s w m a n h same e =
      let ((bits, b1), (pushed, p, _)) = push-Returns lib cs b succs s (omega arith) a.0 in
      let (r, (extended, q)) =
        extend-IsExtended lib cs b1 lists p.state a.1 (omega (arith, p.node)) in
      let here : b.curr_node + 0 ≡ b.curr_node = omega arith in
      let is_l : succs ≡ l = some-injective succs l e in
      record {
        result = (bits + r.0, r.1);
        extended = rw (pushed, extended);
        prefix = (0, b);
        extended_before = refl;
        before = [];
        after = q.stream;
        calls = p.calls;
        written =
            q.written
            ∙ ap (λ l'. l' ++ q.stream) p.written
            ∙ append_assoc b.encoder (encode_all lib cs p.calls) q.stream;
        position = refl;
        opens = rw (← w, ← m, here, ← is_l) (opens-push lib cs all b succs bits b1 s p h);
      }
  extend-IsPlaced (succs ∷ lists) b (suc i) l s w m a n h same e =
      let ((bits, b1), (pushed, p, _)) = push-Returns lib cs b succs s (omega arith) a.0 in
      let this : get_elem? all b.curr_node ≡ some succs =
        ap (get_elem? all) (omega arith) ∙ same 0 in
      let placed =
        extend-IsPlaced lists b1 i l p.state (p.window ∙ w) (p.min_len ∙ m) a.1
          (omega (arith, p.node)) (Holds-push lib cs all b succs bits b1 s p h this)
          (λ j. ap (get_elem? all) (omega (arith, p.node)) ∙ same (suc j)) e in
      let there : b1.curr_node + i ≡ b.curr_node + suc i = omega (arith, p.node) in
      record {
        result = (bits + placed.result.0, placed.result.1);
        extended = rw (pushed, placed.extended);
        prefix = (bits + placed.prefix.0, placed.prefix.1);
        extended_before = rw (pushed, placed.extended_before);
        before = encode_all lib cs p.calls ++ placed.before;
        after = placed.after;
        calls = placed.calls;
        written =
            later_written b.encoder (encode_all lib cs p.calls) placed.before
              (encode_all lib cs placed.calls ++ placed.after) placed.written p.written;
        position = omega (
          arith,
          p.counted,
          placed.position,
          length-append (encode_all lib cs p.calls) placed.before,
        );
        opens = rw (← there) placed.opens;
      }
