-- ===== src/Timing/Tests.antt =====
-- The theorem on timings at a request with three marks.
use molenkopf.Base.{ℕ, String, List, [], ◌∷◌}

abbrev three_marks : List (ℕ × String)
three_marks = (5, "auth:start") ∷ (9, "auth:end") ∷ (30, "upstream:first-byte") ∷ []
