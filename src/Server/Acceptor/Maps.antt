-- ===== src/Server/Acceptor/Maps.antt =====
-- The map of the connections and the posted removals (StateDatabase/asio_server.cpp).
use state_db.Base.{ℕ, ◌≡◌, refl, Bool, false, List, [], ◌∷◌, ◌++◌, ◌==◌, ◌||◌, if◌then◌else◌, arith}
use state_db.Server.Acceptor.{assign, erase}

abbrev pub member : ℕ → List ℕ → Bool
member id [] = false
member id (i ∷ is) = (i == id) || member id is

-- The server knows a connection of the address.
abbrev pub knows : ℕ → List (ℕ × ℕ) → Bool
knows id [] = false
knows id ((i, c) ∷ rest) = (i == id) || knows id rest

pub knows-assign :
    (id i c : ℕ) (cs : List (ℕ × ℕ)) → knows id (assign i c cs) ≡ ((i == id) || knows id cs)
unfolding assign
knows-assign id i c [] = refl
knows-assign id i c ((j, d) ∷ cs) = ground (arith, knows-assign id i c cs)

-- Each address stands in the map once.
abbrev pub AreApart : List (ℕ × ℕ) → Type 0
AreApart [] = Unit {0}
AreApart ((i, c) ∷ cs) = (knows i cs ≡ false) × AreApart cs

pub knows-erase :
    (id i : ℕ) (cs : List (ℕ × ℕ))
    → AreApart cs
    → knows id (erase i cs) ≡ (if i == id then false else knows id cs)
unfolding erase
knows-erase id i [] h = ground arith
knows-erase id i ((j, d) ∷ cs) h = ground (arith, knows-erase id i cs h.1, h.0)

pub AreApart-assign : (i c : ℕ) (cs : List (ℕ × ℕ)) → AreApart cs → AreApart (assign i c cs)
unfolding assign
AreApart-assign i c [] h = (refl, tt)
AreApart-assign i c ((j, d) ∷ cs) h =
    ground (arith, AreApart-assign i c cs h.1, knows-assign j i c cs)

pub AreApart-erase : (i : ℕ) (cs : List (ℕ × ℕ)) → AreApart cs → AreApart (erase i cs)
unfolding erase
AreApart-erase i [] h = tt
AreApart-erase i ((j, d) ∷ cs) h = ground (arith, AreApart-erase i cs h.1, knows-erase j i cs h.1)

pub member-append :
    (id i : ℕ) (ids : List ℕ) → member id (ids ++ i ∷ []) ≡ (member id ids || (i == id))
member-append id i [] = ground arith
member-append id i (j ∷ ids) = ground (arith, member-append id i ids)
