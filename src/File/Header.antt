-- ===== src/File/Header.antt =====
-- The header is read back as it was written (StateDatabase/db_header.cpp, db.h).
use state_db.Base.{
  ℕ, ◌+◌, ◌≡◌, refl, Bool, true, false, some, List, [], ◌∷◌, ◌++◌, length, drop, arith, ap, ◌∙◌,
  sym, length-append, append_assoc,
}
use state_db.File.{
  read_bytes, overwrite, name_size, description_size, DbHeader, magic, verify, write_info,
  read_info, write_header, read_header, header_size, new_header, set_defaults, make_fresh, accept,
  reload, load_header, reset_inner, generate_inner, success, or_exception,
}

read_bytes-append :
    (old xs rest : List ℕ) → length old ≡ length xs → read_bytes old (xs ++ rest) ≡ (xs, rest)
unfolding read_bytes
read_bytes-append [] [] rest h = refl
read_bytes-append [] (x ∷ xs) rest h = absurd (omega arith)
read_bytes-append (d ∷ ds) [] rest h = absurd (omega arith)
read_bytes-append (d ∷ ds) (x ∷ xs) rest h = rw (read_bytes-append ds xs rest (omega arith)) refl

-- The arrays of a header have their sizes.
pub record IsSized (h : DbHeader) : Type 0 where
  pub name : length h.info.name ≡ name_size
  pub description : length h.info.description ≡ description_size

-- A header is read back from what is written for it, over any other header and whatever follows.
pub read_header-write_header :
    (old h : DbHeader) (rest : List ℕ)
    → IsSized old
    → IsSized h
    → read_header old (write_header h ++ rest) ≡ (h, rest)
unfolding read_header write_header read_info write_info
read_header-write_header old h rest so sh =
    rw
      (
        append_assoc h.info.name h.info.description rest,
        read_bytes-append old.info.name h.info.name (h.info.description ++ rest)
            (so.name ∙ sym sh.name),
        read_bytes-append old.info.description h.info.description rest
            (so.description ∙ sym sh.description),
      )
      refl

-- `get_size` of a header is one less than the count of the bytes that are written for it.
pub write_header-header_size :
    (h : DbHeader) → IsSized h → length (write_header h) ≡ 1 + header_size h
unfolding write_header write_info
write_header-header_size h s =
    omega (arith, length-append h.info.name h.info.description, s.name, s.description)

new_header-IsSized : (debug : Bool) → IsSized (new_header debug)
new_header-IsSized debug = record { name = refl; description = refl }

pub defaults :
    (debug : Bool) → (h : DbHeader) × (set_defaults debug (new_header debug) ≡ some h) × IsSized h
unfolding set_defaults
defaults true = (_, refl, record { name = refl; description = refl })
defaults false = (_, refl, record { name = refl; description = refl })

accept-write_header :
    (debug : Bool) (h : DbHeader) (rest : List ℕ)
    → IsSized h
    → accept (new_header debug) (magic, write_header h ++ rest) ≡ some h
unfolding verify
accept-write_header debug h rest s =
    ap (λ (p : DbHeader × List ℕ). some p.0)
      (read_header-write_header (new_header debug) h rest (new_header-IsSized debug) s)

-- Where the memory of the `db` was zeroed, a header that was written behind the magic value is what
-- `reload` gives.
pub reload-overwrite :
    (debug : Bool) (h : DbHeader) (file : List ℕ)
    → IsSized h
    → reload debug 0 (overwrite (magic ++ write_header h) file) ≡ success h
unfolding reload reset_inner load_header
reload-overwrite debug h file s =
    let rest = drop (length (magic ++ write_header h)) file in
    ap or_exception (
      ap (λ (l : List ℕ). accept (new_header debug) (read_bytes magic l))
        (append_assoc magic (write_header h) rest)
      ∙ ap (accept (new_header debug)) (read_bytes-append magic magic (write_header h ++ rest) refl)
      ∙ accept-write_header debug h rest s)

pub make_fresh-defaults :
    (debug : Bool) (file : List ℕ) (h : DbHeader)
    → set_defaults debug (new_header debug) ≡ some h
    → make_fresh debug 0 file ≡ success (h, overwrite (magic ++ write_header h) file)
unfolding make_fresh generate_inner reset_inner
make_fresh-defaults debug file h e = rw e refl
