-- ===== src/Timing.antt =====
-- The timings of a request, packages/core/src/observability: the marks that its parts set and the
-- durations between them, in whole milliseconds. The clock is an argument.
pub mod Marks
pub mod Tests
use molenkopf.Base.{
  ℕ, zero, suc, ◌+◌, ◌-◌, ◌*◌, ◌/◌, ◌≤◌, ◌<◌, String, ◌≡◌, refl, sym, ap, ◌∙◌, ◌≢◌, ◌↔◌, ◌⊎◌, inl,
  inr, Bool, true, false, ◌&&◌, ◌||◌, not, Option, none, some, List, [], ◌∷◌, ◌++◌, map, arith,
  ◌==◌, eq_iff, eq_refl, ltb, leb, nat_eq, if◌then◌else◌, Bool-cases, Option-cases, or_else,
  or_option, is_some, ◌>>=◌, Result, ok, fail, length, take, drop, filter, find, any, all, All,
  length-append, includes, includes-filter, includes-append, other_than, unique, includes-unique,
  IsUnique, filter-IsUnique, unique-IsUnique, all_mono, all-filter, all-of_includes,
  all-filter_self, all-const, filter-all, Dict, lookup, insert, erase, values, lookup-insert,
  lookup-erase, has, has-erase, all_rows, erase_all, map_values, is_empty, is_space, trim, size,
  every_char, is_digit, is_letter, is_id_char, is_slug,
}

pub record RequestTimer : Type 0 where
  pub started_at : ℕ
  pub marks : Dict ℕ

pub record RequestTimingSnapshot : Type 0 where
  pub auth_ms : Option ℕ
  pub redaction_ms : Option ℕ
  pub classification_ms : Option ℕ
  pub compression_ms : Option ℕ
  pub retrieval_write_ms : Option ℕ
  pub plugin_ms : Option ℕ
  pub upstream_connect_ms : Option ℕ
  pub first_byte_ms : Option ℕ
  pub first_sse_ms : Option ℕ
  pub stream_duration_ms : Option ℕ
  pub total_ms : Option ℕ

abbrev pub new_timer : ℕ → RequestTimer
new_timer now = record { started_at = now; marks = [] }

unfoldable pub mark : ℕ → String → RequestTimer → RequestTimer
mark now name t = record t { marks = insert name now t.marks }

-- No duration is negative: `Math.max(0, …)`.
unfoldable pub duration : RequestTimer → String → String → Option ℕ
duration t from to = do start ← lookup from t.marks; end ← lookup to t.marks; some (end - start)

unfoldable pub since_start : RequestTimer → String → Option ℕ
since_start t to = do end ← lookup to t.marks; some (end - t.started_at)

unfoldable pub snapshot : ℕ → RequestTimer → RequestTimingSnapshot
unfolding duration since_start
snapshot now t = record {
  auth_ms = duration t "auth:start" "auth:end";
  redaction_ms = duration t "redaction:start" "redaction:end";
  classification_ms = duration t "classification:start" "classification:end";
  compression_ms = duration t "compression:start" "compression:end";
  retrieval_write_ms = duration t "retrieval:start" "retrieval:end";
  plugin_ms = duration t "plugin:start" "plugin:end";
  upstream_connect_ms = duration t "upstream:start" "upstream:connected";
  first_byte_ms = since_start t "upstream:first-byte";
  first_sse_ms = since_start t "upstream:first-sse";
  stream_duration_ms = duration t "upstream:first-byte" "upstream:end";
  total_ms = some (now - t.started_at);
}

-- Marks one after another.
abbrev pub mark_all : List (ℕ × String) → RequestTimer → RequestTimer
mark_all [] t = t
mark_all ((now, name) ∷ ms) t = mark_all ms (mark now name t)
