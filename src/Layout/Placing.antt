-- ===== src/Layout/Placing.antt =====
-- src/protocol/surface-layout.ts: where each team is, and what the gate asks for.
use odin_sentinel.Base.{
  ◌∙◌, ℕ, zero, suc, ◌≤◌, ◌<◌, ◌≡◌, refl, inl, inr, Bool, true, false, not, ◌&&◌, none, some, same,
  length, all, filter, ==_iff, subst, sym, leb→le, leb, ltb, ◌==◌, arith, Bool-cases, ap, ℤ, pos,
  negsuc, only_if,
}
use mathlib.Core.Option.{some-injective}
use odin_sentinel.Layout.{
  SurfaceLayout, team_letter, few_or_many, compute_surface_layout, teams_of, non_exec, moves,
  GateOptions, SurfaceLayoutGate, gate_between, at_most, compute_surface_layout_gate,
}

both : (a b : Bool) → a && b ≡ true → (a ≡ true) × (b ≡ true)
both a b h = ground arith

-- A test that holds of every number below a bound.
unfoldable below : (ℕ → Bool) → ℕ → Bool
below p zero = true
below p (suc n) = p n && below p n

below-at : (p : ℕ → Bool) (k n : ℕ) → below p k ≡ true → n < k → p n ≡ true
unfolding below
below-at p zero n h lt = ground arith
below-at p (suc k) n h lt = elim (Bool-cases (n == k)) [
  | inl e ↦ subst (λ x. p x ≡ true) (sym ((==_iff n k).0 e)) (both (p k) (below p k) h).0
  | inr e ↦ below-at p k n (both (p k) (below p k) h).1 (ground (arith, e, lt))
]

-- Every team of the first n has one surface, there is no other, no column has more than two, and the
-- columns are counted.
unfoldable pub is_placed : ℕ → SurfaceLayout → Bool
unfolding teams_of same below
is_placed n l =
    below (λ i. length (filter (same (team_letter i)) (teams_of l.columns)) == 1) n
    && (length (teams_of l.columns) == n)
    && all (λ c. leb (length c.surfaces) 2) l.columns
    && (l.total_columns == length l.columns)

all_placed : below (λ n. is_placed n (few_or_many n)) 27 ≡ true
unfolding is_placed few_or_many below
all_placed = refl

no_moves :
    below
      (λ from.
        below
          (λ to. not (
            ltb from to
            && moves (non_exec ((few_or_many from).columns)) (non_exec ((few_or_many to).columns))))
          27)
      27
    ≡ true
unfolding few_or_many below moves non_exec
no_moves = refl

leb-of : (n : ℕ) → n ≤ 26 → leb n 26 ≡ true
leb-of n h = ground arith

-- Up to 26 teams can be laid out; each of them has then one surface, no other surface is there, and
-- no column has more than two.
pub compute_surface_layout-placed :
    (n : ℕ)
    → n ≤ 26
    → (l : SurfaceLayout) × (compute_surface_layout (pos n) ≡ some l) × (is_placed n l ≡ true)
unfolding compute_surface_layout
compute_surface_layout-placed n h = (
  few_or_many n,
  ap (λ b. only_if b (few_or_many n)) (leb-of n h),
  below-at (λ k. is_placed k (few_or_many k)) 27 n all_placed (omega (arith, h)),
)

never :
    (m n : ℕ)
    → m < n
    → n ≤ 26
    → moves (non_exec ((few_or_many m).columns)) (non_exec ((few_or_many n).columns)) ≡ false
never m n lt top =
    let one =
      below-at
        (λ from.
          below
            (λ to. not (
              ltb from to
              && moves (non_exec ((few_or_many from).columns))
                  (non_exec ((few_or_many to).columns))))
            27)
        27 m no_moves (omega (arith, lt, top)) in
    let two =
      below-at
        (λ to. not (
          ltb m to
          && moves (non_exec ((few_or_many m).columns)) (non_exec ((few_or_many to).columns))))
        27 n one (omega (arith, top)) in
    ground (arith, two, lt)

refused : (g : SurfaceLayoutGate) → none ≡ some g → g.requires_move_operations ≡ false
refused g h = ground arith

-- The gate never asks for surfaces to be moved, from however many teams to however many more.
pub compute_surface_layout_gate-never_moves :
    (from to : ℤ) (o : GateOptions) (g : SurfaceLayoutGate)
    → compute_surface_layout_gate from to o ≡ some g
    → g.requires_move_operations ≡ false
unfolding compute_surface_layout_gate at_most compute_surface_layout gate_between
compute_surface_layout_gate-never_moves (negsuc m) (pos n) o g h = refused g h
compute_surface_layout_gate-never_moves (negsuc m) (negsuc n) o g h = elim (Bool-cases (leb m n)) [
  | inl c ↦ refused g (simp (compute_surface_layout_gate, c) at h)
  | inr c ↦ refused g (simp (compute_surface_layout_gate, c) at h)
]
compute_surface_layout_gate-never_moves (pos m) (negsuc n) o g h = refused g h
compute_surface_layout_gate-never_moves (pos m) (pos n) o g h = elim (Bool-cases (leb n m)) [
  | inl c ↦ refused g (simp (compute_surface_layout_gate, c) at h)
  | inr c ↦ elim (Bool-cases (leb m 26)) [
    | inr d ↦ refused g (simp (compute_surface_layout_gate, c, d) at h)
    | inl d ↦ elim (Bool-cases (leb n 26)) [
      | inr e ↦ refused g (simp (compute_surface_layout_gate, c, d, e) at h)
      | inl e ↦
          sym (
            ap (λ x. x.requires_move_operations)
              (some-injective _ _ (simp (compute_surface_layout_gate, c, d, e) at h)))
          ∙ never m n (ground (arith, c)) (leb→le n 26 e)
    ]
  ]
]
