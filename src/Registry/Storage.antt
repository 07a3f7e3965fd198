-- ===== src/Registry/Storage.antt =====
-- src/protocol/event-registry/storage.ts: appending an event to a scope's log, reading the log, and
-- querying it.
use odin_sentinel.Base.{
  ℕ, suc, take, Bool, true, false, Option, none, some, List, [], ◌∷◌, ◌++◌, map, Text, text, same,
  if◌then◌else◌, Json,
}
use odin_sentinel.Registry.Lock.{
  Options, World, Acquisition, acquired, raised, acquire_registry_lock, at_least, exceeds, Number,
}
use odin_sentinel.Registry.Schema.{GovdispEvent}
use odin_sentinel.Registry.Event.{class_of, event_fields}
use odin_sentinel.Registry.Lines.{byte_length, split_log_lines}
use odin_sentinel.Registry.Rejections.{
  at_line, in_line, EventRejection, Result, done, rejected, Library, rejection,
  is_safe_registry_scope, unsafe_scope_rejection, Links, registry_symlink_rejection,
  validate_govdisp_event,
}

-- The text of each scope's log, where there is one.
abbrev pub Files : Type 0
Files = Text → Option Text

unfoldable pub put : Text → Text → Files → Files
unfolding same
put scope t files = λ s. if same s scope then some t else files s

unfoldable pub text_of : Option Text → Text
text_of none = []
text_of (some t) = t

-- What an append meets: links before and under the lock, the lock's world, and the faults of the
-- directory's mkdir, of the write (after how many code units) and of the lock's removal.
pub record Env : Type 0 where
  pub links : Links
  pub raced : Links
  pub world : World
  pub mkdir_fails : Bool
  pub torn : Option ℕ
  pub rmdir_fails : Bool

pub record AppendOptions : Type 0 where
  pub lock : Options
  pub max_event_bytes : Option Number

-- A call answers or throws; `stuck` is a lock's loop that has not ended.
pub data Outcome : Type 0 where
  answered : Result GovdispEvent → Outcome
  threw : Outcome
  stuck : Outcome

pub record Prepared : Type 0 where
  pub line : Text
  pub event : GovdispEvent

abbrev pub govdisp_event_max_bytes : ℕ
govdisp_event_max_bytes = 65536

module _ (lib : Library) where
  unfoldable pub event_line : GovdispEvent → Text
  unfolding event_fields
  event_line e = lib.json_text (Json.object (event_fields e)) ++ (10 ∷ [])

  -- The size cap on the line of a valid event.
  unfoldable pub sized : Option Number → Result GovdispEvent → Result Prepared
  unfolding event_line byte_length at_least exceeds class_of
  sized cap (rejected r) = rejected r
  sized cap (done e) =
      if exceeds (byte_length (event_line e)) (at_least 1 cap govdisp_event_max_bytes)
      then rejected (rejection (text "_size") (class_of e.detail) (text "event_too_large") ∷ [])
      else done (record { line = event_line e; event = e })

  unfoldable pub prepare_append : Text → Json → AppendOptions → Result Prepared
  unfolding sized validate_govdisp_event is_safe_registry_scope unsafe_scope_rejection
  prepare_append scope event options =
      if is_safe_registry_scope scope
      then sized options.max_event_bytes (validate_govdisp_event lib event)
      else rejected (unsafe_scope_rejection ∷ [])

  -- fsAppend: the line, or a part of it before the fault.
  unfoldable pub append_line : Files → Env → Text → Text → Files
  unfolding put text_of
  append_line files env scope line = elim env.torn [
    | none ↦ put scope (text_of (files scope) ++ line) files
    | some n ↦ put scope (text_of (files scope) ++ take n line) files
  ]

  -- The removal of the lock, which may throw after whatever came before it.
  unfoldable pub released : Env → Outcome → Outcome
  released env outcome = if env.rmdir_fails then threw else outcome

  -- The critical section: the links again, then the write.
  unfoldable pub locked_append : Files → Env → Text → Prepared → Files × Outcome
  unfolding registry_symlink_rejection append_line released class_of
  locked_append files env scope p =
      elim (registry_symlink_rejection env.raced (class_of p.event.detail)) [
        | some r ↦ (files, released env (answered (rejected (r ∷ []))))
        | none ↦ (
          append_line files env scope p.line,
          released env (elim env.torn [ none ↦ answered (done p.event) | some n ↦ threw ]),
        )
      ]

  unfoldable pub acquired_append :
      Files → Env → Text → Prepared → Option Acquisition → Files × Outcome
  unfolding locked_append class_of
  acquired_append files env scope p none = (files, stuck)
  acquired_append files env scope p (some raised) = (files, threw)
  acquired_append files env scope p (some (acquired false attempts elapsed)) = (
    files,
    answered (
        rejected (
          rejection (text "events.lock") (class_of p.event.detail) (text "lock_unavailable") ∷ [])),
  )
  acquired_append files env scope p (some (acquired true attempts elapsed)) =
      locked_append files env scope p

  unfoldable pub prepared_append : Files → Env → Text → Options → Result Prepared → Files × Outcome
  unfolding registry_symlink_rejection acquired_append acquire_registry_lock class_of
  prepared_append files env scope options (rejected r) = (files, answered (rejected r))
  prepared_append files env scope options (done p) =
      elim (registry_symlink_rejection env.links (class_of p.event.detail)) [
        | some r ↦ (files, answered (rejected (r ∷ [])))
        | none ↦
            if env.mkdir_fails
            then (files, threw)
            else acquired_append files env scope p (acquire_registry_lock env.world options)
      ]

  unfoldable pub append_registry_event : Files → Env → Text → Json → AppendOptions → Files × Outcome
  unfolding prepared_append prepare_append
  append_registry_event files env scope event options =
      prepared_append files env scope options.lock (prepare_append scope event options)

  -- A line's rejections, with the line's number.
  unfoldable pub of_line : ℕ → EventRejection → EventRejection
  of_line n r = record { field = in_line n r.field; event_class = r.event_class; code = r.code }

  unfoldable pub numbered : ℕ → Result GovdispEvent → Result GovdispEvent
  unfolding of_line
  numbered n (done e) = done e
  numbered n (rejected r) = rejected (map (of_line n) r)

  -- A line's value, or none where JSON.parse throws.
  unfoldable pub read_value : ℕ → Option Json → Result GovdispEvent
  unfolding validate_govdisp_event numbered
  read_value n none = rejected (
      record { field = at_line n; event_class = text "<unknown>"; code = text "corrupt_line" } ∷ [])
  read_value n (some v) = numbered n (validate_govdisp_event lib v)

  unfoldable pub read_line : ℕ → Text → Result GovdispEvent
  unfolding read_value
  read_line n line = read_value n (lib.json_parse line)

  unfoldable pub add_line :
      Result GovdispEvent
      → List GovdispEvent × List EventRejection
      → List GovdispEvent × List EventRejection
  add_line (done e) (events, rejections) = (e ∷ events, rejections)
  add_line (rejected r) (events, rejections) = (events, r ++ rejections)

  -- lines.forEach: the events and the rejections, each in the lines' order.
  unfoldable pub read_lines : ℕ → List Text → List GovdispEvent × List EventRejection
  unfolding read_line add_line
  read_lines n [] = ([], [])
  read_lines n (line ∷ rest) = add_line (read_line n line) (read_lines (suc n) rest)

  -- No partial result.
  unfoldable pub whole_or_none :
      List GovdispEvent × List EventRejection → Result (List GovdispEvent)
  whole_or_none (events, []) = done events
  whole_or_none (events, r ∷ rest) = rejected (r ∷ rest)

  unfoldable pub read_text : Text → Result (List GovdispEvent)
  unfolding read_lines whole_or_none split_log_lines
  read_text t = whole_or_none (read_lines 1 (split_log_lines t))

  -- A log that is missing is empty.
  unfoldable pub read_log : Option Text → Result (List GovdispEvent)
  unfolding read_text
  read_log none = done []
  read_log (some t) = read_text t

  unfoldable pub read_unlinked : Option EventRejection → Option Text → Result (List GovdispEvent)
  unfolding read_log
  read_unlinked (some r) t = rejected (r ∷ [])
  read_unlinked none t = read_log t

  unfoldable pub read_registry_events : Files → Links → Text → Result (List GovdispEvent)
  unfolding read_unlinked is_safe_registry_scope registry_symlink_rejection unsafe_scope_rejection
  read_registry_events files links scope =
      if is_safe_registry_scope scope
      then read_unlinked (registry_symlink_rejection links (text "<store>")) (files scope)
      else rejected (unsafe_scope_rejection ∷ [])
