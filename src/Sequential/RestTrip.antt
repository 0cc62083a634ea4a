-- ===== src/Sequential/RestTrip.antt =====
-- What follows the copy list of a node, written and read, and the whole list with the copied nodes.
use rbsc.Base.{
  ℕ, zero, suc, ◌+◌, ◌-◌, ◌≤◌, ◌<◌, ◌≡◌, refl, subst, arith, Bool, true, false, ◌||◌, some, List,
  [], ◌∷◌, length, length-append, length-range, range, All, Ascending, Interleave,
  Interleave-length, Interleave-All_left, Interleave-All_right, Interleave-Ascending_right,
  Interleave-nil_left, ◌==◌,
}
use rbsc.Codec.{CodeLibrary, CodeConsts, Symbol, interval_count, u64_mod, i64_min}
use rbsc.Compressor.{Compressor, intervalize, divide_extra, is_empty}
use rbsc.Compressor.Runs.{expand, Gapped, intervalize-IsDivided}
use rbsc.Compressor.Write.{write_extra, write_residuals}
use rbsc.Sequential.{read_intervals, read_residuals}
use rbsc.Sequential.Stream.{Reads, Reads-pure, Reads-symbol}
use rbsc.Sequential.ExtraTrip.{
  IsNode, interval_symbols, residual_symbols, write_intervals-Gapped, write_residuals-Ascending,
  Reads-some_intervals, Reads-residuals,
}
use rbsc.RandomAccess.Labels.{open_intervals, read_pairs}
use rbsc.RandomAccess.Parts.{nodes_of, AllLong}
use rbsc.RandomAccess.PartsTrip.{pairs_of, vector, nodes_of-pairs_of, pairs_of-AllLong, Reads-pairs}

-- The successor lists that are compressed: strictly increasing, of nodes.
pub record IsSuccessors (xs : List ℕ) : Type 0 where
  pub ascending : Ascending 0 xs
  pub nodes : All IsNode xs

length_bound :
    (lo : ℕ) (xs : List ℕ)
    → lo ≤ i64_min
    → Ascending lo xs
    → All IsNode xs
    → lo + length xs ≤ i64_min
length_bound lo [] h a n = omega arith
length_bound lo (x ∷ xs) h a n = omega (arith, length_bound (suc x) xs n.0 a.1 n.1)

pub IsSuccessors-length : (xs : List ℕ) → IsSuccessors xs → length xs ≤ i64_min
IsSuccessors-length xs s = omega (arith, length_bound 0 xs (omega arith) s.ascending s.nodes)

Gapped-length :
    (min_len lo : ℕ) (ls ns : List ℕ)
    → 0 < min_len
    → Gapped min_len lo ls ns
    → length ls ≤ length (expand ls ns)
Gapped-length min_len lo [] ns h g = omega arith
Gapped-length min_len lo (l ∷ ls) [] h g = absurd g
Gapped-length min_len lo (l ∷ ls) (n ∷ ns) h g = omega (
  arith,
  Gapped-length min_len (suc (l + n)) ls ns h g.2,
  length-append (range l n) (expand ls ns),
  length-range l n,
)

or_true : (b : Bool) → (b || true) ≡ true
or_true true = refl
or_true false = refl

pub suc-eq-zero : (n : ℕ) → (suc n == 0) ≡ false
suc-eq-zero n = ground arith

module _ (lib : CodeLibrary) (cs : CodeConsts) (node min_len : ℕ) where
  -- The calls for the extra nodes of `c`, and what is read from them.
  pub record IsWritten (c : Compressor) (extra : List ℕ) : Type 0 where
    pub interval_calls : List Symbol
    pub residual_calls : List Symbol
    pub from_intervals : List ℕ
    pub residuals : List ℕ
    pub shuffle : Interleave from_intervals residuals extra
    pub writes_intervals : write_extra lib c node min_len ≡ some interval_calls
    pub writes_residuals : write_residuals lib node c.residuals ≡ some residual_calls
    pub reads_intervals :
        Reads lib cs
          (read_intervals lib cs node min_len (length extra))
          from_intervals
          interval_calls
    pub reads_residuals :
        Reads lib cs (read_residuals lib cs node (length residuals)) residuals residual_calls
    pub pairs : List (ℕ × ℕ)
    pub spanned : nodes_of pairs ≡ from_intervals
    pub long : AllLong pairs
    pub opens :
        Reads lib cs
          (open_intervals lib cs node min_len (length extra))
          (vector pairs, length residuals)
          interval_calls
    pub residual_calls_are : residual_calls ≡ residual_symbols lib cs node residuals

  residual_part :
      (residuals : List ℕ)
      → IsNode node
      → IsSuccessors residuals
      → Reads lib cs
          (read_residuals lib cs node (length residuals))
          residuals
          (residual_symbols lib cs node residuals)
  residual_part residuals h s = Reads-residuals lib cs node 0 residuals h s.ascending s.nodes

length-eq-zero : (xs : List ℕ) → length xs ≡ 0 → xs ≡ []
length-eq-zero [] e = refl
length-eq-zero (x ∷ xs) e = absurd (omega arith)

residuals-nil : {xs ys : List ℕ} → Interleave xs ys [] → ys ≡ []
residuals-nil {xs} {ys} i = length-eq-zero ys (omega (arith, Interleave-length i))

pub IsSuccessors-extra :
    {xs ys zs : List ℕ} → Interleave xs ys zs → IsSuccessors zs → IsSuccessors ys
IsSuccessors-extra i s = record {
  ascending = Interleave-Ascending_right 0 i s.ascending;
  nodes = Interleave-All_right IsNode i s.nodes;
}

module _ (lib : CodeLibrary) (cs : CodeConsts) (node outdegree : ℕ) (blocks : List ℕ) where
  abbrev pub divided : ℕ → List ℕ → Compressor
  divided min_len extra =
      divide_extra outdegree min_len (record { blocks = blocks; extra_nodes = extra })

  -- Without intervals all extra nodes are residuals.
  no_intervals-IsWritten :
      (extra : List ℕ)
      → IsNode node
      → IsSuccessors extra
      → IsWritten lib cs node 0 (divided 0 extra) extra
  unfolding divide_extra write_extra read_intervals open_intervals
  no_intervals-IsWritten extra h s = record {
    interval_calls = [];
    residual_calls = residual_symbols lib cs node extra;
    from_intervals = [];
    residuals = extra;
    shuffle = Interleave-nil_left extra;
    writes_intervals = rw (or_true (is_empty extra));
    writes_residuals = write_residuals-Ascending lib cs node 0 extra s.ascending;
    reads_intervals = rw (or_true (length extra == 0)) (Reads-pure lib cs []);
    reads_residuals = residual_part lib cs node 0 extra h s;
    pairs = [];
    spanned = refl;
    long = tt;
    opens = rw (or_true (length extra == 0)) (Reads-pure lib cs ([], length extra));
    residual_calls_are = refl;
  }

  no_extra-IsWritten : (m : ℕ) → IsNode node → IsWritten lib cs node (suc m) (divided (suc m) []) []
  unfolding divide_extra write_extra read_intervals open_intervals
  no_extra-IsWritten m h =
      let d = intervalize-IsDivided (suc m) 0 0 [] (omega arith) tt in
      record {
        interval_calls = [];
        residual_calls = [];
        from_intervals = [];
        residuals = [];
        shuffle = Interleave-nil_left [];
        writes_intervals = rw (suc-eq-zero m);
        writes_residuals =
            rw (suc-eq-zero m, residuals-nil d.shuffle)
              (write_residuals-Ascending lib cs node 0 [] tt);
        reads_intervals = Reads-pure lib cs [];
        reads_residuals = residual_part lib cs node 0 [] h (record { ascending = tt; nodes = tt });
        pairs = [];
        spanned = refl;
        long = tt;
        opens = Reads-pure lib cs ([], 0);
        residual_calls_are = refl;
      }

  some_extra-IsWritten :
      (m x : ℕ) (xs : List ℕ)
      → IsNode node
      → IsSuccessors (x ∷ xs)
      → IsWritten lib cs node (suc m) (divided (suc m) (x ∷ xs)) (x ∷ xs)
  unfolding divide_extra write_extra read_intervals open_intervals
  some_extra-IsWritten m x xs h s =
      let found = intervalize (suc m) 0 (x ∷ xs) in
      let ls = found.left_interval in
      let ns = found.len_interval in
      let d = intervalize-IsDivided (suc m) 0 0 (x ∷ xs) (omega arith) s.ascending in
      let rest = IsSuccessors-extra d.shuffle s in
      let count : length ls < u64_mod - 1 = omega (
        arith,
        Gapped-length (suc m) 0 ls ns (omega arith) d.gapped,
        Interleave-length d.shuffle,
        IsSuccessors-length (x ∷ xs) s,
      ) in
      record {
        interval_calls = (interval_count, length ls) ∷ interval_symbols lib cs node (suc m) ls ns;
        residual_calls = residual_symbols lib cs node found.residuals;
        from_intervals = expand ls ns;
        residuals = found.residuals;
        shuffle = d.shuffle;
        writes_intervals =
            rw (suc-eq-zero m, write_intervals-Gapped lib cs node (suc m) 0 ls ns d.gapped);
        writes_residuals =
            rw (suc-eq-zero m)
              (write_residuals-Ascending lib cs node 0 found.residuals rest.ascending);
        reads_intervals =
            rw (suc-eq-zero m, suc-eq-zero (length xs))
              (Reads-symbol lib cs interval_count (length ls) _ _ _ count (
                Reads-some_intervals lib cs node (suc m) 0 ls ns (omega arith) h d.gapped
                  (Interleave-All_left IsNode d.shuffle s.nodes)));
        reads_residuals = residual_part lib cs node 0 found.residuals h rest;
        pairs = pairs_of ls ns;
        spanned = nodes_of-pairs_of ls ns;
        long = pairs_of-AllLong (suc m) 0 ls ns (omega arith) d.gapped;
        opens =
            rw (suc-eq-zero m, suc-eq-zero (length xs))
              (Reads-symbol lib cs interval_count (length ls) _ _ _ count (
                subst
                  (λ (n : ℕ).
                    Reads lib cs (read_pairs lib cs node (suc m) n (length ls))
                      (vector (pairs_of ls ns), length found.residuals)
                      (interval_symbols lib cs node (suc m) ls ns))
                  (Interleave-length d.shuffle)
                  (Reads-pairs lib cs node (suc m) 0 ls ns (length found.residuals) (omega arith) h
                    d.gapped (Interleave-All_left IsNode d.shuffle s.nodes))));
        residual_calls_are = refl;
      }

  pub divide_extra-IsWritten :
      (min_len : ℕ) (extra : List ℕ)
      → IsNode node
      → IsSuccessors extra
      → IsWritten lib cs node min_len (divided min_len extra) extra
  divide_extra-IsWritten zero extra h s = no_intervals-IsWritten extra h s
  divide_extra-IsWritten (suc m) [] h s = no_extra-IsWritten m h
  divide_extra-IsWritten (suc m) (x ∷ xs) h s = some_extra-IsWritten m x xs h s
