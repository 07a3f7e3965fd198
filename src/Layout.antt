-- ===== src/Layout.antt =====
-- src/protocol/surface-layout.ts: the columns of the teams' surfaces, and the gate before a launch. A
-- number of teams is an integer.
pub mod Placing
pub mod Examples
use odin_sentinel.Base.{
  ℕ, zero, suc, ◌+◌, ◌-◌, ◌*◌, ◌/◌, ◌%◌, Bool, true, false, not, ◌&&◌, ◌||◌, Option, none, some,
  List, [], ◌∷◌, ◌++◌, map, Text, text, same, length, is_empty, is_blank, starts_with, leb, ltb,
  ◌==◌, if◌then◌else◌, ℤ, pos, negsuc, ◌>>=◌, only_if,
}
use odin_sentinel.Registry.Rejections.{join}

pub record Surface : Type 0 where
  pub row_index : ℕ
  pub team : Text
  pub is_exec : Bool

pub record Column : Type 0 where
  pub column_index : ℕ
  pub surfaces : List Surface

pub record SurfaceLayout : Type 0 where
  pub team_count : ℕ
  pub total_columns : ℕ
  pub max_surfaces_per_column : ℕ
  pub is_balanced : Bool
  pub exec_column_index : ℕ
  pub exec_column_is_tall : Bool
  pub columns : List Column

abbrev pub max_teams : ℕ
max_teams = 26

abbrev pub team_letter : ℕ → Text
team_letter index = (65 + index) ∷ []

abbrev pub surface : ℕ → ℕ → Bool → Surface
surface row index exec = record { row_index = row; team = team_letter index; is_exec = exec }

abbrev pub layout_of : ℕ → Bool → Bool → List Column → SurfaceLayout
layout_of n balanced tall columns = record {
  team_count = n;
  total_columns = length columns;
  max_surfaces_per_column = 2;
  is_balanced = balanced;
  exec_column_index = 0;
  exec_column_is_tall = tall;
  columns = columns;
}

-- for (let k = 1; k <= nonExecColumnCount; k++), with `left` columns to go.
unfoldable pub pair_columns : ℕ → ℕ → List Column
pair_columns k zero = []
pair_columns k (suc left) =
    record {
      column_index = k;
      surfaces = surface 0 (2 * k - 1) false ∷ surface 1 (2 * k) false ∷ [];
    }
    ∷ pair_columns (k + 1) left

unfoldable pub exec_column : Bool → ℕ → Column
exec_column alone n = record {
  column_index = 0;
  surfaces = surface 0 0 true ∷ (if alone then [] else surface 1 (n - 1) false ∷ []);
}

unfoldable pub many_teams : ℕ → SurfaceLayout
unfolding pair_columns exec_column
many_teams n =
    let alone = n % 2 == 1 in
    layout_of n (not alone) alone
      (exec_column alone n ∷ pair_columns 1 (if alone then (n - 1) / 2 else n / 2 - 1))

unfoldable pub few_or_many : ℕ → SurfaceLayout
unfolding many_teams
few_or_many zero = layout_of 0 true false []
few_or_many (suc zero) =
    layout_of 1 true false (record { column_index = 0; surfaces = surface 0 0 true ∷ [] } ∷ [])
few_or_many (suc (suc zero)) = layout_of 2 true false (
    record { column_index = 0; surfaces = surface 0 0 true ∷ [] }
    ∷ record { column_index = 1; surfaces = surface 0 1 false ∷ [] }
    ∷ [])
few_or_many (suc (suc (suc n))) = many_teams (suc (suc (suc n)))

-- `none` is an exception.
unfoldable pub compute_surface_layout : ℤ → Option SurfaceLayout
unfolding few_or_many
compute_surface_layout (negsuc n) = none
compute_surface_layout (pos n) = only_if (leb n max_teams) (few_or_many n)

pub data LayoutMode : Type 0 where
  human_cmux_quad tab_only legacy_columns : LayoutMode

pub data WorkspaceMode : Type 0 where
  same_workspace split_workspace : WorkspaceMode

pub record GateOptions : Type 0 where
  pub cmux_available : Option Bool
  pub layout_mode : Option LayoutMode
  pub degraded_mode_approved : Option Bool
  pub exec_pm_workspace_mode : Option WorkspaceMode
  pub split_workspace_routing_proof : Option Text

pub data GateStatus : Type 0 where
  pass degraded_operator_layout not_governed_no_cmux split_workspace_blocked : GateStatus

pub record SurfaceLayoutGate : Type 0 where
  pub requires_new_column : Bool
  pub requires_exec_column_split : Bool
  pub requires_move_operations : Bool
  pub status : GateStatus

-- columns.slice(1).flatMap((column) => column.surfaces.map((s) => s.team))
unfoldable pub teams_of : List Column → List Text
teams_of [] = []
teams_of (c ∷ rest) = map (λ s. s.team) c.surfaces ++ teams_of rest

unfoldable pub non_exec : List Column → List Text
unfolding teams_of
non_exec [] = []
non_exec (c ∷ rest) = teams_of rest

-- columns[0]?.surfaces.length === n
unfoldable pub first_has : ℕ → List Column → Bool
first_has n [] = false
first_has n (c ∷ rest) = length c.surfaces == n

abbrev pub is_false : Option Bool → Bool
is_false (some false) = true
is_false (some true) = false
is_false none = false

abbrev pub approved : Option Bool → Bool
approved (some true) = true
approved (some false) = false
approved none = false

abbrev pub is_tab_only : Option LayoutMode → Bool
is_tab_only m = elim m [ some tab_only ↦ true | _ ↦ false ]

abbrev pub is_split : Option WorkspaceMode → Bool
is_split m = elim m [ some split_workspace ↦ true | _ ↦ false ]

unfoldable pub lacks_proof : Option Text → Bool
unfolding is_blank
lacks_proof none = true
lacks_proof (some t) = is_blank t

unfoldable pub gate_status : GateOptions → GateStatus
unfolding lacks_proof
gate_status o =
    if is_false o.cmux_available
    then not_governed_no_cmux
    else if is_tab_only o.layout_mode && not (approved o.degraded_mode_approved)
    then degraded_operator_layout
    else if is_split o.exec_pm_workspace_mode && lacks_proof o.split_workspace_routing_proof
    then split_workspace_blocked
    else pass

unfoldable pub moves : List Text → List Text → Bool
unfolding join starts_with
moves before after =
    not (is_empty before) && not (starts_with (join (text ",") after) (join (text ",") before))

unfoldable pub gate_between : GateOptions → SurfaceLayout → SurfaceLayout → SurfaceLayoutGate
unfolding gate_status moves non_exec first_has
gate_between o before after = record {
  requires_new_column = ltb before.total_columns after.total_columns;
  requires_exec_column_split = first_has 1 before.columns && first_has 2 after.columns;
  requires_move_operations = moves (non_exec before.columns) (non_exec after.columns);
  status = gate_status o;
}

-- to <= from, of two integers.
unfoldable pub at_most : ℤ → ℤ → Bool
at_most (pos m) (pos n) = leb m n
at_most (pos m) (negsuc n) = false
at_most (negsuc m) (pos n) = true
at_most (negsuc m) (negsuc n) = leb n m

unfoldable pub compute_surface_layout_gate : ℤ → ℤ → GateOptions → Option SurfaceLayoutGate
unfolding compute_surface_layout gate_between at_most
compute_surface_layout_gate from to o =
    if at_most to from
    then none
    else compute_surface_layout from >>= λ before.
        compute_surface_layout to >>= λ after. some (gate_between o before after)
