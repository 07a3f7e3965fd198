-- ===== src/Watch/Probes.antt =====
-- src/odin-watch/snapshot.ts: what the probes' limits guarantee.
use odin_sentinel.Base.{
  ◌≤◌, ◌≡◌, refl, inl, inr, true, false, not, List, [], ◌∷◌, Text, ap, sym, ◌∙◌, arith, ltb,
  not_ltb→le, Bool-cases, length, any, split, is_empty, All,
}
use odin_sentinel.Registry.Lines.{byte_length, split-is_empty}
use odin_sentinel.Watch.Snapshot.{
  PgrepResult, max_pid, max_pgrep_output_bytes, max_pgrep_pid_count, is_pid_line, number_of,
  is_bad_line, without_newline, parse_pids, parse_runner_pgrep,
}

-- A line of decimal digits, of a process id that fits.
abbrev pub IsPid : Text → Type 0
IsPid line = (is_pid_line line ≡ true) × (number_of 0 line ≤ 2147483647)

is_bad_line-IsPid : (line : Text) → is_bad_line line ≡ false → IsPid line
unfolding is_bad_line
is_bad_line-IsPid line h = elim (Bool-cases (is_pid_line line)) [
  | inr c ↦ ground (arith, simp c at h)
  | inl c ↦
      let h' = simp c at h in
      elim (Bool-cases (ltb max_pid (number_of 0 line))) [
        | inl d ↦ ground (arith, d, h')
        | inr d ↦ (c, not_ltb→le max_pid (number_of 0 line) d)
      ]
]

any-IsPid : (lines : List Text) → any is_bad_line lines ≡ false → All IsPid lines
any-IsPid [] h = tt
any-IsPid (line ∷ lines) h = elim (Bool-cases (is_bad_line line)) [
  | inl c ↦ ground (arith, simp c at h)
  | inr c ↦ (is_bad_line-IsPid line c, any-IsPid lines (simp c at h))
]

-- What a valid probe of the runner means: nothing was found, or up to 256 process ids.
pub record IsProbe (output : Text) (r : PgrepResult) : Type 0 where
  pub short : byte_length output ≤ 4096
  pub few : r.pid_count ≤ 256
  pub alive_iff : r.alive ≡ not (is_empty output)
  pub pids : is_empty output ≡ false → All IsPid (split 10 (without_newline output))

pub parse_pids-valid :
    (lines : List Text)
    → (parse_pids lines).valid ≡ true
    → (length lines ≤ 256)
      × ((parse_pids lines).pid_count ≡ length lines)
      × ((parse_pids lines).alive ≡ ltb 0 (length lines))
      × All IsPid lines
unfolding parse_pids
parse_pids-valid lines h = elim (Bool-cases (ltb max_pgrep_pid_count (length lines))) [
  | inl c ↦ ground (arith, simp (parse_pids, c) at h)
  | inr c ↦ elim (Bool-cases (any is_bad_line lines)) [
    | inl d ↦ ground (arith, simp (parse_pids, c, d) at h)
    | inr d ↦ (
      not_ltb→le _ _ c,
      simp (parse_pids, c, d) refl,
      simp (parse_pids, c, d) refl,
      any-IsPid lines d,
    )
  ]
]

some_line : (lines : List Text) → is_empty lines ≡ false → ltb 0 (length lines) ≡ true
some_line [] h = ground arith
some_line (line ∷ lines) h = ground arith

several :
    (output : Text)
    → (parse_runner_pgrep output).valid ≡ true
    → parse_runner_pgrep output ≡ parse_pids (split 10 (without_newline output))
    → byte_length output ≤ 4096
    → is_empty output ≡ false
    → IsProbe output (parse_runner_pgrep output)
several output h q short e =
    let lines = split 10 (without_newline output) in
    let (few, count, alive, pids) = parse_pids-valid lines (sym (ap (λ r. r.valid) q) ∙ h) in
    record {
      short = short;
      few = rw q (rw count few);
      alive_iff =
          ap (λ r. r.alive) q
          ∙ alive
          ∙ some_line lines (split-is_empty (without_newline output))
          ∙ sym (ap not e);
      pids = λ z. pids;
    }

-- A probe that is taken as valid is no longer than 4,096 bytes; it finds the runner alive just if it
-- is not empty, and then each of its lines, 256 at most, is a process id up to 2^31 - 1.
pub parse_runner_pgrep-IsProbe :
    (output : Text)
    → (parse_runner_pgrep output).valid ≡ true
    → IsProbe output (parse_runner_pgrep output)
unfolding parse_runner_pgrep
parse_runner_pgrep-IsProbe output h =
    elim (Bool-cases (ltb max_pgrep_output_bytes (byte_length output))) [
      | inl c ↦ ground (arith, simp (parse_runner_pgrep, c) at h)
      | inr c ↦ elim (Bool-cases (is_empty output)) [
        | inl e ↦
            simp (parse_runner_pgrep, c)
              (rw e (record {
                short = not_ltb→le _ _ c;
                few = omega arith;
                alive_iff = rw e refl;
                pids = λ q. ground (arith, q, e);
              }))
        | inr e ↦ several output h (simp (parse_runner_pgrep, c, e) refl) (not_ltb→le _ _ c) e
      ]
    ]
