-- ===== src/Dtypes/Examples.antt =====
-- Concrete inputs for the theorems about the data types.
use state_db.Base.{ℕ, refl, List, [], ◌∷◌}
use state_db.Dtypes.{text_length}
use state_db.Dtypes.RoundTrip.{IsText}

abbrev text : List ℕ
text = 104 ∷ 105 ∷ 0 ∷ 7 ∷ []

hi-IsText : IsText 2 (104 ∷ 105 ∷ 0 ∷ [])
unfolding text_length
hi-IsText = record { whole = refl; ends = refl }
