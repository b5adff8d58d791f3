-- ===== src/Arguments/Loop.antt =====
-- What the loop of `Arguments::parse` (src/arguments.cpp) makes of the arguments, errors included.
use Prim.Native.String.{String}
use async_profiler.Base.{
  ◌≡◌, ◌≢◌, ◌↔◌, ◌∙◌, refl, subst, ap, sym, arith, Bool, true, List, [], ◌∷◌, Option, none, some,
}
use async_profiler.Base.Texts.{Text}
use async_profiler.Arguments.{Arguments}
use async_profiler.Arguments.Handlers.Formats.{Handled}
use async_profiler.Arguments.Parse.{
  tokens, on_token, on_tokens, later_message, after_loop, complete, parse,
}

-- The options after the arguments, one by one.
abbrev pub applied : Bool → List Text → Arguments → Arguments
applied is_linux [] a = a
applied is_linux (token ∷ rest) a = applied is_linux rest (on_token is_linux token a).0

-- No argument leaves a message at its turn.
abbrev pub Succeeds : Bool → List Text → Arguments → Type 0
Succeeds is_linux [] a = Unit
Succeeds is_linux (token ∷ rest) a =
    ((on_token is_linux token a).1 ≡ none) × Succeeds is_linux rest (on_token is_linux token a).0

abbrev reported : Bool → List Text → Arguments → Option String → Option String
reported is_linux [] a msg = msg
reported is_linux (token ∷ rest) a msg =
    reported is_linux rest (on_token is_linux token a).0
      (later_message msg (on_token is_linux token a).1)

on_tokens_lem :
    (is_linux : Bool) (ts : List Text) (a : Arguments) (msg : Option String)
    → on_tokens is_linux ts (a, msg) ≡ (applied is_linux ts a, reported is_linux ts a msg)
unfolding on_tokens
on_tokens_lem is_linux [] a msg = refl
on_tokens_lem is_linux (token ∷ rest) a msg =
    on_tokens_lem is_linux rest (on_token is_linux token a).0
      (later_message msg (on_token is_linux token a).1)

later_message-none :
    (msg message : Option String)
    → (later_message msg message ≡ none) ↔ ((msg ≡ none) × (message ≡ none))
unfolding later_message
later_message-none msg none = (λ e. (e, refl), λ p. p.0)
later_message-none msg (some m) = (λ e. absurd (ground arith), λ p. absurd (ground arith))

-- Nothing is reported exactly when nothing was before and no argument fails.
reported_iff :
    (is_linux : Bool) (ts : List Text) (a : Arguments) (msg : Option String)
    → (reported is_linux ts a msg ≡ none) ↔ ((msg ≡ none) × Succeeds is_linux ts a)
reported_iff is_linux [] a msg = (λ e. (e, tt), λ p. p.0)
reported_iff is_linux (token ∷ rest) a msg =
    let (b, message) = on_token is_linux token a in
    let later = reported_iff is_linux rest b (later_message msg message) in
    let now = later_message-none msg message in
    (
      λ e.
          let (none_yet, succeeds) = later.0 e in
          let (before, here) = now.0 none_yet in (before, (here, succeeds)),
      λ (before, (here, succeeds)). later.1 (now.1 (before, here), succeeds),
    )

after_loop_lem :
    (a : Arguments) (msg : Option String)
    → ((after_loop (a, msg)).1 ≡ msg)
      × ((msg ≡ none → (after_loop (a, msg)).0 ≡ complete a)
          × (msg ≢ none → (after_loop (a, msg)).0 ≡ a))
unfolding after_loop
after_loop_lem a none = (refl, (λ e. refl, λ h. absurd (h refl)))
after_loop_lem a (some m) = (refl, (λ e. absurd (ground arith), λ h. refl))

-- How a parse of the tokens ends.
abbrev Outcome : Bool → List Text → Arguments → Handled → Type 0
Outcome is_linux ts a result =
    ((result.1 ≡ none) ↔ Succeeds is_linux ts a)
    × ((result.1 ≡ none → result.0 ≡ complete (applied is_linux ts a))
        × (result.1 ≢ none → result.0 ≡ applied is_linux ts a))

loop_outcome :
    (is_linux : Bool) (ts : List Text) (a : Arguments)
    → Outcome is_linux ts a (after_loop (on_tokens is_linux ts (a, none)))
loop_outcome is_linux ts a =
    let msg : Option String = reported is_linux ts a none in
    let (message, (ok, failed)) = after_loop_lem (applied is_linux ts a) msg in
    let (to, from) = reported_iff is_linux ts a none in
    let outcome : Outcome is_linux ts a (after_loop (applied is_linux ts a, msg)) = (
      (λ e. (to (sym message ∙ e)).1, λ h. message ∙ from (refl, h)),
      (λ e. ok (sym message ∙ e), λ h. failed (λ e. h (message ∙ e))),
    ) in
    subst (Outcome is_linux ts a) (sym (ap after_loop (on_tokens_lem is_linux ts a none))) outcome

-- When the memory for the text is granted: parsing succeeds exactly when no argument fails at its turn.
-- Every argument is applied, also behind one that fails; what is left unset is completed only on
-- success.
pub parse_result :
    (is_linux : Bool) (args : Text) (a : Arguments)
    → (((parse is_linux true (some args) a).1 ≡ none) ↔ Succeeds is_linux (tokens args) a)
      × (((parse is_linux true (some args) a).1 ≡ none
            → (parse is_linux true (some args) a).0 ≡ complete (applied is_linux (tokens args) a))
          × ((parse is_linux true (some args) a).1 ≢ none
              → (parse is_linux true (some args) a).0 ≡ applied is_linux (tokens args) a))
unfolding parse
parse_result is_linux args a = loop_outcome is_linux (tokens args) a
