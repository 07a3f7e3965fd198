-- ===== src/Layout/Examples.antt =====
-- src/protocol/surface-layout.ts: five teams, and the gate from four teams to five.
use odin_sentinel.Base.{◌≡◌, refl, true, false, some, none, [], ◌∷◌, text, pos, arith, map}
use odin_sentinel.Layout.{
  SurfaceLayout, SurfaceLayoutGate, GateOptions, pass, few_or_many, compute_surface_layout,
  compute_surface_layout_gate,
}
use odin_sentinel.Layout.Placing.{
  is_placed, compute_surface_layout-placed, compute_surface_layout_gate-never_moves,
}

compute_surface_layout-placed_example :
    (l : SurfaceLayout) × (compute_surface_layout (pos 5) ≡ some l) × (is_placed 5 l ≡ true)
compute_surface_layout-placed_example = compute_surface_layout-placed 5 (omega arith)

abbrev open_options : GateOptions
open_options = record {
  cmux_available = none;
  layout_mode = none;
  degraded_mode_approved = none;
  exec_pm_workspace_mode = none;
  split_workspace_routing_proof = none;
}

abbrev fifth_team : SurfaceLayoutGate
fifth_team = record {
  requires_new_column = true;
  requires_exec_column_split = false;
  requires_move_operations = false;
  status = pass;
}

compute_surface_layout_gate-never_moves_example : fifth_team.requires_move_operations ≡ false
unfolding compute_surface_layout_gate
compute_surface_layout_gate-never_moves_example =
    compute_surface_layout_gate-never_moves (pos 4) (pos 5) open_options fifth_team refl

-- Of four teams, D stands below A; of five, it stands in a column of its own with E.
d_moves :
    (map (λ c. map (λ s. s.team) c.surfaces) ((few_or_many 4).columns)
      ≡ (text "A" ∷ text "D" ∷ []) ∷ (text "B" ∷ text "C" ∷ []) ∷ [])
    × (map (λ c. map (λ s. s.team) c.surfaces) ((few_or_many 5).columns)
        ≡ (text "A" ∷ []) ∷ (text "B" ∷ text "C" ∷ []) ∷ (text "D" ∷ text "E" ∷ []) ∷ [])
unfolding few_or_many
d_moves = (refl, refl)
