-- ===== src/Shell/Printing/Outputs.antt =====
-- sevmgr/ui/cmdline/sevmgr.cpp: what the shell prints for a command that it does not understand.
use sevmgr.Prelude.{
  ℕ, ◌≡◌, refl, ap, ◌∙◌, List, [], ◌∷◌, ◌++◌, codes, new_line, done, bind_result, pure,
  if◌then◌else◌,
}
use sevmgr.Stdair.{Stdair}
use sevmgr.Service.{Session}
use sevmgr.Shell.Platform.{Platform}
use sevmgr.Shell.Tokens.{unknown, extract_command}
use sevmgr.Shell.Commands.{Reply, not_understood, dispatch, is_quit, go_on, command_loop}
use sevmgr.Shell.Printing.{
  texts, print_tokens, print_not_understood, print_reply, farewell, Line, tokens_of, session_text,
}

-- Each token with a space behind it.
abbrev pub spaced : List (List ℕ) → List ℕ
spaced [] = []
spaced (token ∷ tokens) = token ++ (codes " " ++ spaced tokens)

print_tokens-spaced :
    (tokens : List (List ℕ)) (stream : List ℕ)
    → print_tokens tokens stream ≡ (spaced tokens, stream)
unfolding print_tokens
print_tokens-spaced [] stream = refl
print_tokens-spaced (token ∷ tokens) stream =
    ap (λ r. (token ++ (codes " " ++ r.0), r.1)) (print_tokens-spaced tokens stream)

-- The message for a line.
abbrev pub message : List ℕ → List ℕ
message input = texts (codes "That command is not yet understood: '" ∷ input ∷ codes "' => " ∷ [])

print_not_understood-spaced :
    (input : List ℕ) (tokens : List (List ℕ))
    → print_not_understood input tokens ≡ spaced tokens ++ (message input ++ new_line)
unfolding print_not_understood
print_not_understood-spaced input tokens =
    ap (λ r. r.0 ++ (r.1 ++ new_line)) (print_tokens-spaced tokens (message input))

module _ {s : Stdair} (p : Platform s) where
  loop_unknown :
      (tokens : List (List ℕ)) (σ : Session s)
      → (extract_command p tokens).0 ≡ unknown
      → command_loop p (tokens ∷ []) σ ≡ done (not_understood (extract_command p tokens).1 ∷ []) σ
  unfolding command_loop dispatch
  loop_unknown tokens σ h =
      ap
        (λ c.
          bind_result (dispatch p c (extract_command p tokens).1 σ)
            λ r τ. bind_result (go_on p (is_quit p c) (command_loop p []) τ) λ rs. pure (r ∷ rs))
        h

  text_unknown :
      (line : Line p) (tokens : List (List ℕ))
      → (extract_command p line.tokens).0 ≡ unknown
      → session_text p (line ∷ []) (not_understood tokens ∷ [])
        ≡ (spaced tokens ++ (message line.input ++ new_line)) ++ (new_line ++ farewell p)
  unfolding session_text print_reply
  text_unknown line tokens h =
      ap
        (λ c.
          print_not_understood line.input tokens
          ++ (if is_quit p c then farewell p else new_line ++ farewell p))
        h
      ∙ ap (λ t. t ++ (new_line ++ farewell p)) (print_not_understood-spaced line.input tokens)

  -- A line whose first token is not a command changes nothing and is answered by a message that is
  -- to end in the other tokens of the line. On the standard output these tokens stand in front of
  -- the message, each with a space behind it, and the message ends in the arrow that announces
  -- them.
  pub unknown_command_text :
      (line : Line p) (σ : Session s)
      → (extract_command p line.tokens).0 ≡ unknown
      → (replies : List (Reply p)) × (command_loop p (tokens_of p (line ∷ [])) σ ≡ done replies σ)
        × (session_text p (line ∷ []) replies
            ≡ (spaced (extract_command p line.tokens).1 ++ (message line.input ++ new_line))
              ++ (new_line ++ farewell p))
  unknown_command_text line σ h = (
    not_understood (extract_command p line.tokens).1 ∷ [],
    loop_unknown line.tokens σ h,
    text_unknown line (extract_command p line.tokens).1 h,
  )
