-- ===== src/Shell/Tokens/Matches.antt =====
-- sevmgr/ui/cmdline/sevmgr.cpp, `extractTokenList`: the tokens of a line that matches.
use sevmgr.Prelude.{
  ℕ, zero, suc, ◌+◌, ◌%◌, ◌^◌, ◌≤◌, ◌<◌, ◌≡◌, refl, ap, ◌∙◌, List, [], ◌∷◌, ◌++◌, length,
  length-append, codes, arith,
}
use sevmgr.Stdair.{Stdair}
use sevmgr.Shell.Platform.{Platform}
use sevmgr.Shell.Tokens.{
  join_loop, to_string, match_at, match_loop, tokens_of_matches, extract_token_list,
}

-- The tokens with a space before each.
spaced : List (List ℕ) → List ℕ
spaced [] = []
spaced (token ∷ tokens) = codes " " ++ (token ++ spaced tokens)

-- The tokens with a space between each two.
unfoldable pub joined : List (List ℕ) → List ℕ
unfolding spaced
joined [] = []
joined (token ∷ tokens) = token ++ spaced tokens

join_loop-spaced :
    (idx : ℕ) (tokens : List (List ℕ))
    → 0 < idx
    → idx + length tokens ≤ 2 ^ 16
    → join_loop idx tokens ≡ spaced tokens
unfolding join_loop spaced
join_loop-spaced idx [] h room = refl
join_loop-spaced idx (token ∷ []) h room = ground arith
join_loop-spaced idx (token ∷ (token' ∷ tokens)) h room =
    ground (arith, join_loop-spaced (idx + 1) (token' ∷ tokens))

to_string-joined :
    (tokens : List (List ℕ)) → length tokens ≤ 2 ^ 16 → to_string tokens ≡ joined tokens
unfolding to_string joined join_loop spaced
to_string-joined [] h = refl
to_string-joined (token ∷ tokens) h = ground (arith, join_loop-spaced 1 tokens)

match_at-append :
    (l : List (List ℕ)) (m : List ℕ) (r : List (List ℕ)) → match_at (length l) (l ++ m ∷ r) ≡ m
unfolding match_at
match_at-append [] m r = refl
match_at-append (x ∷ l) m r = match_at-append l m r

append_assoc_one :
    (l : List (List ℕ)) (m : List ℕ) (r : List (List ℕ)) → (l ++ m ∷ []) ++ r ≡ l ++ m ∷ r
append_assoc_one [] m r = refl
append_assoc_one (x ∷ l) m r = ap (λ t. x ∷ t) (append_assoc_one l m r)

match_loop-append :
    (fuel : ℕ) (l r : List (List ℕ))
    → length r < fuel
    → length l + length r < 2 ^ 16
    → match_loop fuel (length l + length r) (length l) (l ++ r) ≡ r
unfolding match_loop
match_loop-append zero l r h room = absurd (omega arith)
match_loop-append (suc fuel) l [] h room = ground arith
match_loop-append (suc fuel) l (m ∷ r) h room =
    let next = match_loop-append fuel (l ++ m ∷ []) r (omega arith) in
    ground (arith, match_at-append l m r, append_assoc_one l m r, length-append l (m ∷ []), next)

tokens_of_matches-tail :
    (m : List ℕ) (r : List (List ℕ)) → 1 + length r < 2 ^ 16 → tokens_of_matches (m ∷ r) ≡ r
unfolding tokens_of_matches
tokens_of_matches-tail m r room =
    let small : suc (length r) % 2 ^ 16 ≡ 1 + length r = omega arith in
    ap (λ n. match_loop (2 ^ 16) n 1 (m ∷ r)) small
    ∙ match_loop-append (2 ^ 16) (m ∷ []) r (omega arith) (omega arith)

module _ {s : Stdair} (p : Platform s) where
  -- `extractTokenList` searches the line of the tokens, with one space between each two, and
  -- returns what the subexpressions match, in their order, without the match of the whole
  -- expression. There must be 65536 tokens and 65534 subexpressions at most, since the indices are
  -- `unsigned short`.
  pub extract_token_list_matches :
      (tokens : List (List ℕ)) (expression m : List ℕ) (matches : List (List ℕ))
      → length tokens ≤ 2 ^ 16
      → p.regex_search expression (joined tokens) ≡ m ∷ matches
      → 1 + length matches < 2 ^ 16
      → extract_token_list p tokens expression ≡ matches
  unfolding extract_token_list
  extract_token_list_matches tokens expression m matches few found room =
      ap (λ line. tokens_of_matches (p.regex_search expression line)) (to_string-joined tokens few)
      ∙ ap tokens_of_matches found
      ∙ tokens_of_matches-tail m matches room
