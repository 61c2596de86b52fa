-- ===== src/Patterns.antt =====
-- The regular expressions of governance-certificates.js, governance-state.js and route-registry.js
-- that name digests and tenants, over the characters of a text.
use Prim.Native.Char.{code}
use text.Mathlib.Text.{find?}
use auth_broker_tee.Base.{
  ℕ, zero, suc, ◌+◌, String, Bool, true, false, none, some, ◌&&◌, ◌||◌, leb, ◌==◌, if◌then◌else◌,
  not, str_eq,
}

unfoldable pub in_range : ℕ → ℕ → ℕ → Bool
in_range a b n = leb a n && leb n b

-- [a-f0-9]
unfoldable pub is_lower_hex : ℕ → Bool
unfolding in_range
is_lower_hex n = in_range b'a' b'f' n || in_range b'0' b'9' n

-- [a-f0-9] under the flag i
unfoldable pub is_hex : ℕ → Bool
unfolding is_lower_hex
is_hex n = is_lower_hex n || in_range b'A' b'F' n

unfoldable pub to_lower : ℕ → ℕ
unfolding in_range
to_lower n = if in_range b'A' b'Z' n then n + 32 else n

unfoldable pub is_end : String → Bool
is_end String.[] = true
is_end (String.◌∷◌ c s) = false

-- So many characters of a class, and then what `rest` reads.
unfoldable pub repeated : (ℕ → Bool) → ℕ → (String → Bool) → String → Bool
repeated class zero rest s = rest s
repeated class (suc n) rest String.[] = false
repeated class (suc n) rest (String.◌∷◌ c s) = class (code c) && repeated class n rest s

-- A fixed text, letters in any case where `fold` is `to_lower`.
unfoldable pub literally : (ℕ → ℕ) → String → (String → Bool) → String → Bool
literally fold String.[] rest s = rest s
literally fold (String.◌∷◌ d t) rest String.[] = false
literally fold (String.◌∷◌ d t) rest (String.◌∷◌ c s) =
    (fold (code c) == code d) && literally fold t rest s

-- /^sha256:[a-f0-9]{64}$/i
unfoldable pub is_digest : String → Bool
unfolding literally repeated is_hex is_end to_lower
is_digest = literally to_lower "sha256:" (repeated is_hex 64 is_end)

-- /^sha256:[a-f0-9]{64}$/
unfoldable pub is_lower_digest : String → Bool
unfolding literally repeated is_lower_hex is_end
is_lower_digest = literally (λ n. n) "sha256:" (repeated is_lower_hex 64 is_end)

-- /^[0-9a-f]{8}-[0-9a-f]{4}-[0-9a-f]{4}-[0-9a-f]{4}-[0-9a-f]{12}$/i
unfoldable pub is_uuid : String → Bool
unfolding literally repeated is_hex is_end
is_uuid = hex 8 (dash (hex 4 (dash (hex 4 (dash (hex 4 (dash (hex 12 is_end))))))))
  where
    hex : ℕ → (String → Bool) → String → Bool
    hex = repeated is_hex

    dash : (String → Bool) → String → Bool
    dash = literally (λ n. n) "-"

-- `text.includes(part)`
unfoldable pub includes : String → String → Bool
includes s part = elim (find? s part) [ none ↦ false | some i ↦ true ]

-- `text.length`; a text with characters beyond U+FFFF is longer in the source.
unfoldable pub text_length : String → ℕ
text_length String.[] = 0
text_length (String.◌∷◌ c s) = suc (text_length s)

-- `text.endsWith(part)`
unfoldable pub ends_with : String → String → Bool
ends_with String.[] part = str_eq "" part
ends_with (String.◌∷◌ c s) part = str_eq (String.◌∷◌ c s) part || ends_with s part

-- [a-z0-9]
unfoldable pub is_host_edge : ℕ → Bool
unfolding in_range
is_host_edge n = in_range b'a' b'z' n || in_range b'0' b'9' n

-- [a-z0-9.-]
unfoldable pub is_host_inner : ℕ → Bool
unfolding is_host_edge
is_host_inner n = is_host_edge n || (n == b'.') || (n == b'-')

unfoldable pub is_host_rest : String → Bool
unfolding is_host_edge is_host_inner is_end
is_host_rest String.[] = false
is_host_rest (String.◌∷◌ c s) =
    (is_end s && is_host_edge (code c)) || (is_host_inner (code c) && is_host_rest s)

-- /^[a-z0-9][a-z0-9.-]*[a-z0-9]$/
unfoldable pub is_host : String → Bool
unfolding is_host_edge is_host_rest
is_host String.[] = false
is_host (String.◌∷◌ c s) = is_host_edge (code c) && is_host_rest s

-- [A-Za-z0-9._-]
unfoldable pub is_repo_char : ℕ → Bool
unfolding in_range is_host_inner
is_repo_char n = is_host_inner n || in_range b'A' b'Z' n || (n == b'_')

unfoldable pub each_char : (ℕ → Bool) → String → Bool
each_char class String.[] = true
each_char class (String.◌∷◌ c s) = class (code c) && each_char class s

-- /^[A-Za-z0-9._-]+$/
unfoldable pub is_repo : String → Bool
unfolding each_char is_repo_char is_end
is_repo s = not (is_end s) && each_char is_repo_char s

-- /^[a-f0-9]{40}$/i
unfoldable pub is_sha : String → Bool
unfolding repeated is_hex is_end
is_sha = repeated is_hex 40 is_end

-- A white space, or the end of a line, that `trim` removes.
unfoldable pub is_space : ℕ → Bool
is_space n =
    (leb 9 n && leb n 13)
    || (n == 32)
    || (n == 160)
    || (n == 5760)
    || (leb 8192 n && leb n 8202)
    || (n == 8232)
    || (n == 8233)
    || (n == 8239)
    || (n == 8287)
    || (n == 12288)
    || (n == 65279)

unfoldable pub trim_start : String → String
unfolding is_space
trim_start String.[] = String.[]
trim_start (String.◌∷◌ c s) = if is_space (code c) then trim_start s else String.◌∷◌ c s

-- The space at the end goes from its last character on.
unfoldable pub trim_end : String → String
unfolding is_space is_end
trim_end String.[] = String.[]
trim_end (String.◌∷◌ c s) =
    let rest = trim_end s in
    if is_space (code c) && is_end rest then String.[] else String.◌∷◌ c rest

-- `text.trim()`
unfoldable pub trim : String → String
unfolding trim_start trim_end
trim s = trim_start (trim_end s)
