-- ===== src/Tests/Acyclicity.antt =====
-- Runs of the test for cycles.
use rbsc.Base.{◌≡◌, ◌↔◌, refl, Bool, true, false, some}
use rbsc.Acyclicity.{callback, is_acyclic}
use rbsc.Acyclicity.Path.{IsAcyclic}
use rbsc.Acyclicity.Total.{is_acyclic_lem}
use rbsc.DepthFirst.{visit}
use rbsc.Tests.Visits.{list_bits, triangle}
use rbsc.Tests.Symmetric.{edge, edge-IsGraph}

no_cycle : is_acyclic list_bits triangle ≡ some true
unfolding is_acyclic visit callback
no_cycle = refl

cycle : is_acyclic list_bits edge ≡ some false
unfolding is_acyclic visit callback
cycle = refl

is_acyclic_lem_example :
    (b : Bool) × (is_acyclic list_bits edge ≡ some b) × ((b ≡ true) ↔ IsAcyclic edge)
is_acyclic_lem_example = is_acyclic_lem list_bits edge edge-IsGraph
