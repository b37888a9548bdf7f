-- ===== src/App/Text.antt =====
-- app/src/freeplay/model.rs: the texts that the client reads, as lists of bytes. Of the white space
-- only that of ASCII is trimmed, which is all that the client writes.
use ten_cent_poker_client.Prelude.{
  ℕ, ◌+◌, ◌-◌, ◌*◌, Bool, true, false, ◌&&◌, ◌||◌, Option, none, some, List, [], ◌∷◌, ltb, leb,
  ◌==◌, if◌then◌else◌, u64_mod,
}
use ten_cent_poker_client.Prelude.Exec.{maybe}
use ten_cent_poker_client.Net.Uri.{scheme, strip_prefix}
use mathlib.Core.List.{reverse}

-- White space of ASCII: tab, line feed, vertical tab, form feed, carriage return, space.
abbrev pub is_space : ℕ → Bool
is_space c = c == 32 || leb 9 c && leb c 13

unfoldable pub trim_start : List ℕ → List ℕ
trim_start [] = []
trim_start (c ∷ s) = let rest = trim_start s in if is_space c then rest else c ∷ s

unfoldable pub trim : List ℕ → List ℕ
trim s = reverse (trim_start (reverse (trim_start s)))

-- The parts before and behind the first `sep`.
unfoldable pub split_once : ℕ → List ℕ → Option (List ℕ × List ℕ)
split_once sep [] = none
split_once sep (c ∷ s) =
    let rest = maybe (split_once sep s) none (λ (p : List ℕ × List ℕ). some (c ∷ p.0, p.1)) in
    if c == sep then some ([], s) else rest

-- The digits of a number after the value so far; none beyond a u64.
unfoldable pub digits : ℕ → List ℕ → Option ℕ
digits n [] = some n
digits n (c ∷ s) =
    let next = n * 10 + (c - 48) in
    let rest = digits next s in if leb 48 c && leb c 57 && ltb next u64_mod then rest else none

-- `parse::<u64>().ok()`, which takes one leading plus sign.
unfoldable pub parse_u64 : List ℕ → Option ℕ
parse_u64 [] = none
parse_u64 (c ∷ []) = if c == 43 then none else digits 0 (c ∷ [])
parse_u64 (c ∷ d ∷ s) = if c == 43 then digits 0 (d ∷ s) else digits 0 (c ∷ d ∷ s)

unfoldable pub parse_blinds : List ℕ → Option (ℕ × ℕ)
parse_blinds s = maybe (split_once 47 s) none λ p.
    maybe (parse_u64 (trim p.0)) none λ sb. maybe (parse_u64 (trim p.1)) none λ bb. some (sb, bb)

unfoldable pub is_valid_invite : List ℕ → Bool
is_valid_invite s = maybe (strip_prefix scheme (trim s)) false (λ rest. true)
