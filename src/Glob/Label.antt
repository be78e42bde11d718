-- ===== src/Glob/Label.antt =====
-- internal/glob/glob.go: what a pattern that begins with a star and a dot matches.
use proxykit.Prelude.{◌≡◌, refl, Bool, false, not, ◌&&◌, [], ◌∷◌, ◌++◌, ◌==◌, arith}
use proxykit.Prelude.Text.{
  Bytes, codes, lower, to_lower, has_byte, bytes_eq, equal_fold, cut, has_prefix, drop_prefix,
}
use proxykit.Glob.{compile, compile_from, some_then, one_then, matches}

-- A pattern without a star matches its own text, in upper or lower case.
matches_text :
    (d s : Bytes) → has_byte b'*' d ≡ false → matches (compile_from false d) s ≡ equal_fold d s
unfolding matches compile_from has_byte equal_fold to_lower bytes_eq
matches_text [] [] h = refl
matches_text [] (a ∷ s) h = refl
matches_text (c ∷ d) [] h = ground arith
matches_text (c ∷ d) (a ∷ s) h = ground (arith, matches_text d s)

-- What `one label, a dot, and then d` says of a text, by the text's first dot.
abbrev is_label_of : Bytes → Bytes × Bytes × Bool → Bool
is_label_of d (before, after, found) = found && (not (bytes_eq before []) && equal_fold d after)

label_then :
    (d s : Bytes)
    → has_byte b'*' d ≡ false
    → some_then
        (λ c. not (c == b'.'))
        (one_then (λ c. lower b'.' == lower c) (matches (compile_from false d)))
        s
      ≡ is_label_of d (cut s (codes "."))
unfolding some_then one_then cut has_prefix drop_prefix bytes_eq lower
label_then d [] h = refl
label_then d (c ∷ []) h = ground arith
label_then d (c ∷ e ∷ s) h = ground (arith, label_then d (e ∷ s) h, matches_text d s h)

-- A pattern `*.d`, for a `d` without a star, matches exactly the hosts that consist of one label, which
-- is not empty, a dot, and `d` in upper or lower case.
star_label :
    (d host : Bytes)
    → has_byte b'*' d ≡ false
    → matches (compile (codes "*." ++ d)) host ≡ is_label_of d (cut host (codes "."))
unfolding compile compile_from matches
star_label d host h = label_then d host h
