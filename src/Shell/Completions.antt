-- ===== src/Shell/Completions.antt =====
-- sevmgr/ui/cmdline/sevmgr.cpp, `initReadline`: the completions that readline offers, and the
-- commands.
use sevmgr.Prelude.{ℕ, ◌≡◌, Bool, true, false, List, [], ◌∷◌, ◌==◌, if◌then◌else◌, codes, arith}
use sevmgr.Shell.Tokens.{Command, unknown, same_text, command_of}

-- What `initReadline` registers.
unfoldable pub init_readline : List (List ℕ)
init_readline =
    codes "help"
    ∷ codes "list"
    ∷ codes "list BookingRequest"
    ∷ codes "list BreakPoint"
    ∷ codes "select %date %time"
    ∷ codes "display"
    ∷ codes "next"
    ∷ codes "run"
    ∷ codes "json_list"
    ∷ codes "json_display"
    ∷ codes "quit"
    ∷ []

-- A text up to its first space.
abbrev pub first_word : List ℕ → List ℕ
first_word [] = []
first_word (c ∷ text) = let rest = c ∷ first_word text in if c == b' ' then [] else rest

-- Does a completion begin with a word?
abbrev pub is_offered : List ℕ → List (List ℕ) → Bool
is_offered word [] = false
is_offered word (completion ∷ completions) =
    let rest = is_offered word completions in
    if same_text word (first_word completion) then true else rest

abbrev pub is_understood : Command → Bool
is_understood unknown = false
is_understood command = true

-- The completions begin with the words for the commands and no others: a word, in lower case, is
-- that of a command exactly if a completion begins with it.
pub init_readline_commands :
    (word : List ℕ) → is_offered word init_readline ≡ is_understood (command_of word)
unfolding init_readline command_of
init_readline_commands word = ground arith
