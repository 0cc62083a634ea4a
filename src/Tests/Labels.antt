-- ===== src/Tests/Labels.antt =====
-- Runs of the label store.
use rbsc.Base.{ℕ, ◌<◌, ◌≡◌, refl, arith, some, [], ◌∷◌, ◌==◌, if◌then◌else◌}
use rbsc.LabelStore.{LabelStore, new, init, label, volume, update}
use rbsc.LabelStore.Volumes.{IsLabelling, init-IsLabelling, update-IsLabelling}

abbrev three_nodes : LabelStore
three_nodes = record { labels = 0 ∷ 1 ∷ 2 ∷ []; volumes = 1 ∷ 1 ∷ 1 ∷ [] }

new_three : init (new 3) ≡ three_nodes
unfolding init new
new_three = refl

init-IsLabelling_example :
    IsLabelling 3 (init three_nodes) × ((v : ℕ) → v < 3 → volume (init three_nodes) v ≡ some 1)
init-IsLabelling_example = init-IsLabelling 3 three_nodes refl refl

three_nodes-IsLabelling : IsLabelling 3 three_nodes
unfolding init volume
three_nodes-IsLabelling = (init-IsLabelling 3 three_nodes refl refl).0

update-IsLabelling_example :
    (s' : LabelStore) × (update three_nodes 0 2 ≡ some s')
    × IsLabelling 3 s'
    × ((v : ℕ) → label s' v ≡ (if 0 == v then some 2 else label three_nodes v))
update-IsLabelling_example =
    update-IsLabelling 3 three_nodes 0 2 (omega arith) three_nodes-IsLabelling (omega arith)
      (omega arith)
