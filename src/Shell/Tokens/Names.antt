-- ===== src/Shell/Tokens/Names.antt =====
-- sevmgr/ui/cmdline/sevmgr.cpp, `extractCommand`: the words for the commands.
use sevmgr.Prelude.{
  ℕ, ◌≡◌, ◌≢◌, refl, sym, ap, ◌∙◌, ◌⊎◌, inl, inr, true, Option, none, some, List, [], ◌∷◌, codes,
  arith, subst,
}
use sevmgr.Stdair.{Stdair}
use sevmgr.Shell.Platform.{Platform}
use sevmgr.Shell.Tokens.{
  Command, nop, quit, help, list, display, select, next, run, json_list, json_display, unknown,
  same_text, command_of, extract_command,
}

-- The word for a command, if it has one.
abbrev pub name_of : Command → Option (List ℕ)
name_of nop = none
name_of quit = some (codes "quit")
name_of help = some (codes "help")
name_of list = some (codes "list")
name_of display = some (codes "display")
name_of select = some (codes "select")
name_of next = some (codes "next")
name_of run = some (codes "run")
name_of json_list = some (codes "json_list")
name_of json_display = some (codes "json_display")
name_of unknown = none

same_text_eq : (a b : List ℕ) → same_text a b ≡ true → a ≡ b
unfolding same_text
same_text_eq [] [] h = refl
same_text_eq [] (c ∷ b) h = absurd (ground arith)
same_text_eq (c ∷ a) [] h = absurd (ground arith)
same_text_eq (c ∷ a) (c' ∷ b) h = ground (arith, same_text_eq a b)

-- A word is that of its command, or no command has it.
name_of-command_of : (w : List ℕ) → (command_of w ≡ unknown) ⊎ (name_of (command_of w) ≡ some w)
unfolding command_of
name_of-command_of w = ground (
  arith,
  same_text_eq w (codes "help"),
  same_text_eq w (codes "list"),
  same_text_eq w (codes "display"),
  same_text_eq w (codes "select"),
  same_text_eq w (codes "next"),
  same_text_eq w (codes "run"),
  same_text_eq w (codes "json_list"),
  same_text_eq w (codes "json_display"),
  same_text_eq w (codes "quit"),
)

-- The word for a command names it.
IsNamed : Command → Option (List ℕ) → Type 0
IsNamed c none = Unit {0}
IsNamed c (some w) = command_of w ≡ c

name_of-IsNamed : (c : Command) → IsNamed c (name_of c)
unfolding IsNamed command_of same_text
name_of-IsNamed nop = tt
name_of-IsNamed quit = refl
name_of-IsNamed help = refl
name_of-IsNamed list = refl
name_of-IsNamed display = refl
name_of-IsNamed select = refl
name_of-IsNamed next = refl
name_of-IsNamed run = refl
name_of-IsNamed json_list = refl
name_of-IsNamed json_display = refl
name_of-IsNamed unknown = tt

command_of-name_of : (c : Command) (w : List ℕ) → name_of c ≡ some w → command_of w ≡ c
unfolding IsNamed
command_of-name_of c w h = subst (IsNamed c) h (name_of-IsNamed c)

no_name : (c : Command) (w : List ℕ) → command_of w ≡ unknown → name_of c ≢ some w
no_name c w e h = absurd (ground (arith, ap name_of (sym (command_of-name_of c w h) ∙ e)))

module _ {s : Stdair} (p : Platform s) where
  -- `extractCommand` takes off the first token. It gives the command of which the token, in lower
  -- case, is the word, if there is one, and else the value for a command that is not understood.
  pub extract_command_names :
      (word : List ℕ) (tokens : List (List ℕ))
      → ((c : Command) × (extract_command p (word ∷ tokens) ≡ (c, tokens))
          × (name_of c ≡ some (p.to_lower word)))
        ⊎ ((extract_command p (word ∷ tokens) ≡ (unknown, tokens))
            × ((c : Command) → name_of c ≢ some (p.to_lower word)))
  unfolding extract_command
  extract_command_names word tokens = elim (name_of-command_of (p.to_lower word)) [
    | inl e ↦ inr (ap (λ c. (c, tokens)) e, λ c. no_name c (p.to_lower word) e)
    | inr e ↦ inl (command_of (p.to_lower word), refl, e)
  ]
