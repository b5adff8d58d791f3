-- ===== src/Arguments/LogFile.antt =====
-- The `log` argument in `Arguments::parse` (src/arguments.cpp), among arguments that may be in error.
use async_profiler.Base.{
  ◌≡◌, ◌≢◌, ◌∙◌, refl, ap, sym, arith, Bool, true, List, [], ◌∷◌, ◌++◌, Option, none, some, if_both,
  Option-cases, inl, inr,
}
use mathlib.Core.Option.{some-ne-none}
use async_profiler.Base.Texts.{Text, before_char, after_char}
use async_profiler.Arguments.{Arguments}
use async_profiler.Arguments.Names.{OptionArg, a_basic, log_arg, option_of}
use async_profiler.Arguments.Handlers.Basics.{on_basic}
use async_profiler.Arguments.Parse.{
  tokens, on_token, on_case, on_unknown, complete, with_engine, with_output, with_output_for,
  with_action, parse,
}
use async_profiler.Arguments.Loop.{applied, parse_result}
use async_profiler.Arguments.Logging.{Keeps, on_option-Keeps}

-- The option of a token.
abbrev pub token_option : Text → Option OptionArg
token_option token = option_of (before_char b'=' token)

abbrev pub NoLog : List Text → Type 0
NoLog [] = Unit
NoLog (token ∷ rest) = (token_option token ≢ some (a_basic log_arg)) × NoLog rest

taken :
    (is_linux : Bool) (o : Option OptionArg) (name : Text) (v : Option Text) (a : Arguments)
    → o ≢ some (a_basic log_arg)
    → Keeps a (on_case is_linux o name v a)
unfolding on_case on_unknown
taken is_linux none name v a h = ground arith
taken is_linux (some o) name v a h = on_option-Keeps is_linux o v a (λ e. h (ap some e))

on_token-Keeps :
    (is_linux : Bool) (token : Text) (a : Arguments)
    → token_option token ≢ some (a_basic log_arg)
    → Keeps a (on_token is_linux token a)
unfolding on_token
on_token-Keeps is_linux token a h =
    taken is_linux (token_option token) (before_char b'=' token) (after_char b'=' token) a h

applied_same :
    (is_linux : Bool) (ts : List Text) (a : Arguments)
    → NoLog ts
    → (applied is_linux ts a).log ≡ a.log
applied_same is_linux [] a h = refl
applied_same is_linux (token ∷ rest) a (h, hs) =
    applied_same is_linux rest (on_token is_linux token a).0 hs ∙ on_token-Keeps is_linux token a h

applied_append :
    (is_linux : Bool) (xs ys : List Text) (a : Arguments)
    → applied is_linux (xs ++ ys) a ≡ applied is_linux ys (applied is_linux xs a)
applied_append is_linux [] ys a = refl
applied_append is_linux (token ∷ xs) ys a =
    applied_append is_linux xs ys (on_token is_linux token a).0

-- The log argument itself.
logged :
    (file : Text) (a : Arguments) → file ≢ [] → (on_basic log_arg (some file) a).0.log ≡ some file
unfolding on_basic
logged [] a full = absurd (full refl)
logged (c ∷ cs) a full = refl

log_token :
    (is_linux : Bool) (token file : Text) (a : Arguments)
    → token_option token ≡ some (a_basic log_arg)
    → after_char b'=' token ≡ some file
    → file ≢ []
    → (on_token is_linux token a).0.log ≡ some file
unfolding on_token
log_token is_linux token file a named valued full =
    ap
      (λ (o : Option OptionArg).
        (on_case is_linux o (before_char b'=' token) (after_char b'=' token) a).0.log)
      named
    ∙ ap (λ (v : Option Text). (on_basic log_arg v a).0.log) valued
    ∙ logged file a full

with_output_for_same : (file : Option Text) (a : Arguments) → (with_output_for file a).log ≡ a.log
unfolding with_output_for
with_output_for_same none a = refl
with_output_for_same (some file) a = if_both (λ (b : Arguments). b.log ≡ a.log) _ _ _ refl refl

complete_same : (a : Arguments) → (complete a).log ≡ a.log
unfolding complete with_engine with_output with_action
complete_same a =
    let b : Arguments = with_engine a in
    let c : Arguments = with_output_for b.file b in
    let action_same : (with_action c).log ≡ c.log =
      if_both (λ (x : Arguments). x.log ≡ c.log) _ _ _ refl refl in
    let engine_same : b.log ≡ a.log = if_both (λ (x : Arguments). x.log ≡ a.log) _ _ _ refl refl in
    action_same ∙ with_output_for_same b.file b ∙ engine_same

-- When the memory for the text is granted: whether the parse succeeds or not, a log file that is named
-- by the last `log` argument is set.
pub parse-log :
    (is_linux : Bool) (args file token : Text) (before after : List Text) (a : Arguments)
    → tokens args ≡ before ++ token ∷ after
    → token_option token ≡ some (a_basic log_arg)
    → after_char b'=' token ≡ some file
    → file ≢ []
    → NoLog after
    → (parse is_linux true (some args) a).0.log ≡ some file
parse-log is_linux args file token before after a split named valued full last =
    let b : Arguments = applied is_linux before a in
    let set : (applied is_linux (tokens args) a).log ≡ some file =
      ap (λ (ts : List Text). (applied is_linux ts a).log) split
      ∙ ap (λ (x : Arguments). x.log) (applied_append is_linux before (token ∷ after) a)
      ∙ applied_same is_linux after (on_token is_linux token b).0 last
      ∙ log_token is_linux token file b named valued full in
    let (_, (ok, failed)) = parse_result is_linux args a in
    elim (Option-cases (parse is_linux true (some args) a).1) [
      | inl e ↦
          ap (λ (x : Arguments). x.log) (ok e)
          ∙ complete_same (applied is_linux (tokens args) a)
          ∙ set
      | inr (m, e) ↦
          ap (λ (x : Arguments). x.log) (failed (λ e'. some-ne-none m (sym e ∙ e'))) ∙ set
    ]
