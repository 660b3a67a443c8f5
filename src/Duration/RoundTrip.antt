-- ===== src/Duration/RoundTrip.antt =====
-- The duration is read back from its text (StateDatabase/format_utils.cpp).
use state_db.Base.{ℕ, ◌+◌, ◌-◌, ◌*◌, Option, none, some, List, [], ◌∷◌, ◌==◌, if◌then◌else◌}
use state_db.Duration.{colon}

-- The decimal numbers of a text, between the colons.
abbrev pub fields : ℕ → List ℕ → List ℕ
fields x [] = x ∷ []
fields x (c ∷ cs) = if c == colon then x ∷ fields 0 cs else fields (x * 10 + c - 48) cs

-- Days, hours, minutes, seconds and milliseconds, as milliseconds.
abbrev pub of_fields : List ℕ → Option ℕ
of_fields (d ∷ h ∷ m ∷ s ∷ ms ∷ []) = some ((((d * 24 + h) * 60 + m) * 60 + s) * 1_000 + ms)
of_fields _ = none
