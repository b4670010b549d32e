-- ===== src/Trie/Domain.antt =====
-- `ValidAndSplitDomain` of component/trie/domain.go: a domain cut at its dots.
use rule_base_proxy.Common.{
  Bool, List, Option, Text, [], false, if◌then◌else◌, none, some, true, ℕ, ◌==◌, ◌∷◌,
}

-- Prefixes a byte to the first piece.
abbrev pub push_first : ℕ → List Text → List Text
push_first c [] = (c ∷ []) ∷ []
push_first c (p ∷ ps) = (c ∷ p) ∷ ps

-- `strings.Split(s, ".")`: always at least one piece.
unfoldable pub split_dot : Text → List Text
split_dot [] = [] ∷ []
split_dot (c ∷ cs) = if c == b'.' then [] ∷ split_dot cs else push_first c (split_dot cs)

-- `domain != "" && domain[len(domain)-1] == '.'`
unfoldable pub ends_with_dot : Text → Bool
ends_with_dot [] = false
ends_with_dot (c ∷ []) = c == b'.'
ends_with_dot (c ∷ d ∷ s) = ends_with_dot (d ∷ s)

-- `part == ""` for one of the parts
unfoldable pub has_empty : List Text → Bool
has_empty [] = false
has_empty ([] ∷ ps) = true
has_empty ((_ ∷ _) ∷ ps) = has_empty ps

-- `part == ""`
abbrev pub is_empty : Text → Bool
is_empty [] = true
is_empty (_ ∷ _) = false

-- The checks on the parts: of a single one, and of those after the first.
unfoldable pub check_parts : List Text → Option (List Text)
check_parts [] = none
check_parts (p ∷ []) = if is_empty p then none else some (p ∷ [])
check_parts (p ∷ q ∷ ps) = if has_empty (q ∷ ps) then none else some (p ∷ q ∷ ps)

unfoldable pub valid_and_split_domain : Text → Option (List Text)
valid_and_split_domain domain =
    if ends_with_dot domain then none else check_parts (split_dot domain)
