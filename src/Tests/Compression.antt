-- ===== src/Tests/Compression.antt =====
-- Runs of the compressor, some of them the unit tests of bvcomp.rs, and its theorems at an input.
use rbsc.Base.{◌≡◌, refl, arith, none, some, [], ◌∷◌}
use rbsc.Compressor.{Pushed, diff_comp, intervalize, divide_extra, split_list, compress}
use rbsc.Compressor.Diff.{IsSplit, diff_comp_ends}
use rbsc.Compressor.Maximal.{runs, choose, all_nodes, Apart, intervalize-Maximal}

-- `test_compressor_no_ref`
compress_no_ref :
    compress (0 ∷ 1 ∷ 2 ∷ 5 ∷ 7 ∷ 8 ∷ 9 ∷ []) none 2
    ≡ some (record {
      outdegree = 7;
      blocks = [];
      extra_nodes = 0 ∷ 1 ∷ 2 ∷ 5 ∷ 7 ∷ 8 ∷ 9 ∷ [];
      left_interval = 0 ∷ 7 ∷ [];
      len_interval = 3 ∷ 3 ∷ [];
      residuals = 5 ∷ [];
    })
unfolding compress split_list divide_extra intervalize
compress_no_ref = refl

-- `test_compressor2`
compress_ref :
    compress (0 ∷ 1 ∷ 2 ∷ 5 ∷ 7 ∷ 8 ∷ 9 ∷ []) (some (0 ∷ 1 ∷ 2 ∷ 100 ∷ [])) 2
    ≡ some (record {
      outdegree = 7;
      blocks = 4 ∷ [];
      extra_nodes = 5 ∷ 7 ∷ 8 ∷ 9 ∷ [];
      left_interval = 7 ∷ [];
      len_interval = 3 ∷ [];
      residuals = 5 ∷ [];
    })
unfolding compress split_list divide_extra intervalize diff_comp
compress_ref = refl

diff_comp_ends_example :
    (p : Pushed) × (diff_comp (0 ∷ 2 ∷ 5 ∷ []) (0 ∷ 1 ∷ 2 ∷ []) ≡ some p)
    × IsSplit (0 ∷ 2 ∷ 5 ∷ []) (0 ∷ 1 ∷ 2 ∷ []) p
diff_comp_ends_example = diff_comp_ends (0 ∷ 2 ∷ 5 ∷ []) (0 ∷ 1 ∷ 2 ∷ [])

intervalize-Maximal_example :
    (intervalize 2 0 (0 ∷ 1 ∷ 2 ∷ 5 ∷ []) ≡ choose 2 (runs (0 ∷ 1 ∷ 2 ∷ 5 ∷ [])))
    × (all_nodes (runs (0 ∷ 1 ∷ 2 ∷ 5 ∷ [])) ≡ 0 ∷ 1 ∷ 2 ∷ 5 ∷ [])
    × Apart 0 (runs (0 ∷ 1 ∷ 2 ∷ 5 ∷ []))
intervalize-Maximal_example =
    intervalize-Maximal 2 0 (0 ∷ 1 ∷ 2 ∷ 5 ∷ []) (omega arith) (omega arith)
