-- ===== src/BvComp/State.antt =====
-- The state of `BvComp` between two calls of `push`, and what a call is to leave.
use rbsc.Base.{
  ℕ, ◌+◌, ◌-◌, ◌≤◌, ◌<◌, ◌≡◌, ◌⊎◌, ◌∙◌, arith, Bool, none, some, List, [], ◌++◌, length,
  length-replicate,
}
use rbsc.CircularBuffer.{CircularBuffer}
use rbsc.CircularBuffer.Laws.{
  capacity, put, capacity-new, index-put_ne, slot-ne, AllSlots, new-AllSlots, index-AllSlots,
}
use rbsc.Codec.{CodeLibrary, CodeConsts, Symbol, encode_all, estimate_all}
use rbsc.Compressor.{Compressor, compress}
use rbsc.Compressor.Write.{write}
use rbsc.Sequential.{get_successors}
use rbsc.Sequential.Stream.{Reads}
use rbsc.Sequential.ExtraTrip.{IsNode}
use rbsc.Sequential.RestTrip.{IsSuccessors}
use rbsc.RandomAccess.Opens.{Opens}
use rbsc.BvComp.{BvComp, new}
use rbsc.BvComp.Choice.{IsCandidate}
use rbsc.BvComp.Search.{IsReference}

-- The state between two calls of `push`.
pub record IsState (b : BvComp) : Type 0 where
  pub backrefs_size : capacity b.backrefs ≡ b.compression_window + 1
  pub counts_size : capacity b.ref_counts ≡ b.compression_window + 1
  pub compressors_size : length b.compressors ≡ b.compression_window + 1
  pub started : b.start_node ≤ b.curr_node
  pub lists : AllSlots IsSuccessors b.backrefs
  pub counts : AllSlots (λ n. n ≤ b.max_ref_count) b.ref_counts

pub IsSuccessors-nil : IsSuccessors []
IsSuccessors-nil = record { ascending = tt; nodes = tt }

pub new-IsState :
    (encoder : List Bool) (window max_ref_count min_len start : ℕ)
    → IsState (new encoder window max_ref_count min_len start)
unfolding new
new-IsState encoder window max_ref_count min_len start = record {
  backrefs_size = capacity-new [] (window + 1);
  counts_size = capacity-new 0 (window + 1);
  compressors_size = length-replicate (window + 1) _;
  started = omega arith;
  lists = new-AllSlots IsSuccessors [] (window + 1) IsSuccessors-nil;
  counts = new-AllSlots (λ n. n ≤ max_ref_count) 0 (window + 1) (omega arith);
}

-- What a call of `push` returns and leaves: `succs` can be read back against the buffer of a decoder,
-- which holds the same lists.
pub record IsPushed (lib : CodeLibrary) (cs : CodeConsts) (b : BvComp) (succs : List ℕ) (bits : ℕ)
    (b' : BvComp) : Type 0 where
  pub calls : List Symbol
  pub state : IsState b'
  pub written : b'.encoder ≡ b.encoder ++ encode_all lib cs calls
  pub counted : bits ≡ length (encode_all lib cs calls)
  pub refs : b'.backrefs ≡ put b.backrefs b.curr_node succs
  pub node : b'.curr_node ≡ b.curr_node + 1
  pub window : b'.compression_window ≡ b.compression_window
  pub min_len : b'.min_interval_length ≡ b.min_interval_length
  pub arcs : b'.arcs ≡ b.arcs + length succs
  pub read_back :
      Reads lib cs
        (get_successors lib cs b.compression_window b.min_interval_length b.curr_node
          (put b.backrefs b.curr_node []))
        succs
        calls
  pub opens :
      Opens lib cs b.compression_window b.min_interval_length b.curr_node
        (put b.backrefs b.curr_node [])
        succs
        calls

module _ (lib : CodeLibrary) (cs : CodeConsts) (b : BvComp) (succs : List ℕ) where
  -- The state in which `push` compresses the list.
  abbrev pub loaded : BvComp
  loaded = record b { backrefs = put b.backrefs b.curr_node succs; arcs = b.arcs + length succs }

  -- The buffer of a decoder that has taken the slot of the node.
  abbrev pub decoder_refs : CircularBuffer (List ℕ)
  decoder_refs = put b.backrefs b.curr_node []

  -- The fewest bits: no more than without a reference, or with any reference that is considered.
  pub record IsFewest (bits : ℕ) : Type 0 where
    pub plain :
        (c : Compressor) (calls : List Symbol)
        → compress succs none b.min_interval_length ≡ some c
        → write lib c b.curr_node (some 0) b.min_interval_length ≡ some calls
        → bits ≤ estimate_all lib cs calls
    pub references :
        (d : ℕ) (calls : List Symbol)
        → 0 < d
        → d ≤ b.compression_window
        → d ≤ b.curr_node - b.start_node
        → IsCandidate lib cs loaded succs d calls
        → bits ≤ estimate_all lib cs calls

  -- What is written, and which reference count is kept: 0 without a reference, and 1 more than that of the
  -- reference with one.
  pub record IsChosen (bits : ℕ) (b' : BvComp) : Type 0 where
    pub calls : List Symbol
    pub ref_delta : ℕ
    pub ref_count : ℕ
    pub written : b'.encoder ≡ b.encoder ++ encode_all lib cs calls
    pub counted : bits ≡ length (encode_all lib cs calls)
    pub kept : b'.ref_counts ≡ put b.ref_counts b.curr_node ref_count
    pub in_window : ref_delta ≤ b.compression_window
    pub in_graph : ref_delta ≤ b.curr_node - b.start_node
    pub choice :
        ((ref_delta ≡ 0)
          × (ref_count ≡ 0)
          × (c : Compressor) × (compress succs none b.min_interval_length ≡ some c)
          × (write lib c b.curr_node (some 0) b.min_interval_length ≡ some calls))
        ⊎ ((0 < ref_delta)
            × (k : IsCandidate lib cs loaded succs ref_delta calls) × (ref_count ≡ k.count + 1))

  module _ (i : IsState b) (n : IsNode b.curr_node) (s : IsSuccessors succs) where
    pub loaded-IsReference :
        (delta : ℕ)
        → 0 < delta
        → delta ≤ b.compression_window
        → delta ≤ b.curr_node
        → (plain_bits : ℕ) → IsReference lib cs loaded succs decoder_refs plain_bits delta
    loaded-IsReference delta h k l plain_bits =
        let other = slot-ne b.backrefs b.curr_node delta h (omega (arith, i.backrefs_size)) l in
        let (ref_list, has, successors) =
          index-AllSlots IsSuccessors b.backrefs (b.curr_node - delta)
            (omega (arith, i.backrefs_size)) i.lists in
        let (count, has_count, _) =
          index-AllSlots (λ m. m ≤ b.max_ref_count) b.ref_counts (b.curr_node - delta)
            (omega (arith, i.counts_size)) i.counts in
        record {
          count = count;
          ref_list = ref_list;
          has_count = has_count;
          has_list = index-put_ne b.backrefs b.curr_node (b.curr_node - delta) succs other ∙ has;
          decoder_has = index-put_ne b.backrefs b.curr_node (b.curr_node - delta) [] other ∙ has;
          successors = successors;
        }
