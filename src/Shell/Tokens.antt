-- ===== src/Shell/Tokens.antt =====
-- sevmgr/ui/cmdline/sevmgr.cpp: the tokens of a line and the command that it starts with.
pub mod Names
pub mod Matches
use sevmgr.Prelude.{
  ℕ, zero, suc, ◌+◌, ◌%◌, ◌^◌, Bool, true, false, not, Option, none, some, List, [], ◌∷◌, ◌++◌,
  ◌==◌, if◌then◌else◌, length, codes,
}
use sevmgr.Stdair.{Stdair}
use sevmgr.Shell.Platform.{Platform}

-- `Command_T`.
pub data Command : Type 0 where
  nop : Command
  quit : Command
  help : Command
  list : Command
  display : Command
  select : Command
  next : Command
  run : Command
  json_list : Command
  json_display : Command
  unknown : Command

-- `==` on strings.
unfoldable pub same_text : List ℕ → List ℕ → Bool
same_text [] [] = true
same_text [] (c ∷ b) = false
same_text (c ∷ a) [] = false
same_text (c ∷ a) (c' ∷ b) = let rest = same_text a b in if c == c' then rest else false

-- The command that a word in lower case names.
unfoldable pub command_of : List ℕ → Command
unfolding same_text
command_of word =
    if same_text word (codes "help")
    then help
    else if same_text word (codes "list")
    then list
    else if same_text word (codes "display")
    then display
    else if same_text word (codes "select")
    then select
    else if same_text word (codes "next")
    then next
    else if same_text word (codes "run")
    then run
    else if same_text word (codes "json_list")
    then json_list
    else if same_text word (codes "json_display")
    then json_display
    else if same_text word (codes "quit")
    then quit
    else unknown

module _ {s : Stdair} (p : Platform s) where
  -- The command, and the tokens behind it.
  unfoldable pub extract_command : List (List ℕ) → Command × List (List ℕ)
  unfolding command_of
  extract_command [] = (nop, [])
  extract_command (word ∷ tokens) = (command_of (p.to_lower word), tokens)

-- The loop of `toString`, whose index is an `unsigned short`.
unfoldable pub join_loop : ℕ → List (List ℕ) → List ℕ
join_loop idx [] = []
join_loop idx (token ∷ tokens) =
    (if idx == 0 then [] else codes " ") ++ (token ++ join_loop ((idx + 1) % 2 ^ 16) tokens)

unfoldable pub to_string : List (List ℕ) → List ℕ
unfolding join_loop
to_string tokens = join_loop 0 tokens

-- A match, or the empty one behind the last.
unfoldable pub match_at : ℕ → List (List ℕ) → List ℕ
match_at n [] = []
match_at zero (m ∷ matches) = m
match_at (suc n) (m ∷ matches) = match_at n matches

-- The loop of `extractTokenList`, over indices that are `unsigned short` too, so that there are
-- 2^16 rounds at most; the fuel is as much.
unfoldable pub match_loop : ℕ → ℕ → ℕ → List (List ℕ) → List (List ℕ)
unfolding match_at
match_loop zero size idx matches = []
match_loop (suc fuel) size idx matches =
    let rest = match_loop fuel size ((idx + 1) % 2 ^ 16) matches in
    if idx == size then [] else match_at idx matches ∷ rest

unfoldable pub tokens_of_matches : List (List ℕ) → List (List ℕ)
unfolding match_loop
tokens_of_matches matches = match_loop (2 ^ 16) (length matches % 2 ^ 16) 1 matches

abbrev pub date_time_expression : List ℕ
date_time_expression =
    codes "^([[:digit:]]{2,4})?[/-]?[[:space:]]*"
    ++ (codes "([[:alpha:]]{3}|[[:digit:]]{1,2})?[/-]?[[:space:]]*"
        ++ (codes "([[:digit:]]{1,2})?[[:space:]]*"
            ++ (codes "([[:digit:]]{1,2})?[:-]?[[:space:]]*"
                ++ (codes "([[:alpha:]]{3}|[[:digit:]]{1,2})?[:-]?[[:space:]]*"
                    ++ codes "([[:digit:]]{1,2})?[[:space:]]*$"))))

module _ {s : Stdair} (p : Platform s) where
  unfoldable pub extract_token_list : List (List ℕ) → List ℕ → List (List ℕ)
  unfolding tokens_of_matches
  extract_token_list tokens expression =
      tokens_of_matches (p.regex_search expression (to_string tokens))

  unfoldable pub extract_token_list_for_date_time : List (List ℕ) → List (List ℕ)
  unfolding extract_token_list
  extract_token_list_for_date_time tokens = extract_token_list tokens date_time_expression
