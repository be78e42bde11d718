-- ===== src/Glob.antt =====
-- internal/glob/glob.go: a pattern for host names. The regular expression that the source compiles is
-- the list of its pieces here; letters are compared as ASCII letters.
pub mod Label
use proxykit.Prelude.{ℕ, Bool, true, false, not, ◌&&◌, ◌||◌, List, [], ◌∷◌, ◌==◌, if◌then◌else◌}
use proxykit.Prelude.Text.{Bytes, lower}

-- A byte of the pattern, `[^.]+` for a star, or `.+` for two.
pub data Piece : Type 0 where
  literal : ℕ → Piece
  label : Piece
  span : Piece

-- The byte in front of pieces that are compiled; a star in front of it that waits for a second one is
-- `pending`.
pub compile_from : Bool → Bytes → List Piece
compile_from true [] = label ∷ []
compile_from false [] = []
compile_from true (c ∷ s) =
    let rest = compile_from false s in if c == b'*' then span ∷ rest else label ∷ literal c ∷ rest
compile_from false (c ∷ s) =
    let rest = compile_from (c == b'*') s in if c == b'*' then rest else literal c ∷ rest

-- `CompileGlob`, whose expression always compiles.
unfoldable pub compile : Bytes → List Piece
unfolding compile_from
compile pattern = compile_from false pattern

-- One byte or more that pass a test, and then the rest of the pattern.
pub some_then : (ℕ → Bool) → (Bytes → Bool) → Bytes → Bool
some_then ok next [] = false
some_then ok next (c ∷ s) = ok c && (next s || some_then ok next s)

pub one_then : (ℕ → Bool) → (Bytes → Bool) → Bytes → Bool
one_then ok next [] = false
one_then ok next (c ∷ s) = ok c && next s

pub is_empty : Bytes → Bool
is_empty [] = true
is_empty (c ∷ s) = false

-- `Match`; a dot stands for any byte but a newline.
unfoldable pub matches : List Piece → Bytes → Bool
unfolding some_then one_then is_empty
matches [] = is_empty
matches (literal c ∷ ps) = one_then (λ d. lower c == lower d) (matches ps)
matches (label ∷ ps) = some_then (λ d. not (d == b'.')) (matches ps)
matches (span ∷ ps) = some_then (λ d. not (d == 10)) (matches ps)
