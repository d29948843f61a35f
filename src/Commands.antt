-- ===== src/Commands.antt =====
-- The Command trait of inengine-core/src/command.rs, and the commands of
-- inengine-core/src/commands that need no system call: chain.rs and echo.rs. A context is a state
-- that a run changes.
mod Examples
use in_engine_net.Prelude.{
  ◌≡◌, refl, sym, ap, ◌∙◌, ◌⊎◌, inl, inr, List, [], ◌∷◌, ◌++◌, Bytes, codes, ok, err, Result,
  Result-cases,
}
use in_engine_net.Error.{CommandError}
use in_engine_net.Command.{CommandResult}
use in_engine_net.Output.{Terminal, Output}
use in_engine_net.Output

pub record Command (Context : Type 0) : Type 0 where
  pub name : Bytes
  pub run : Context → CommandResult × Context

abbrev pub and_then :
    {Context : Type 0}
    → CommandResult × Context
    → (Context → CommandResult × Context)
    → CommandResult × Context
and_then (err e, ctx) rest = (err e, ctx)
and_then (ok done, ctx) rest = rest ctx

module _ {Context : Type 0} where
  unfoldable pub run_chain : List (Command Context) → Context → CommandResult × Context
  run_chain [] ctx = (ok tt, ctx)
  run_chain (cmd ∷ commands) ctx = and_then (cmd.run ctx) (λ ctx'. run_chain commands ctx')

  unfoldable pub chain : List (Command Context) → Command Context
  unfolding run_chain
  chain commands = record { name = codes "chain"; run = λ ctx. run_chain commands ctx }

  -- The commands succeed one after the other, from the first context to the second.
  pub data AllOk : List (Command Context) → Context → Context → Type 0 where
    none_left : (ctx : Context) → AllOk [] ctx ctx
    ran :
        (cmd : Command Context) (rest : List (Command Context)) (ctx ctx' last : Context)
        → cmd.run ctx ≡ (ok tt, ctx')
        → AllOk rest ctx' last
        → AllOk (cmd ∷ rest) ctx last

  -- A command fails after those before it succeeded, and the answer is its own.
  abbrev pub FailsAt : List (Command Context) → Context → CommandResult × Context → Type 0
  FailsAt commands ctx answer =
      (before : List (Command Context)) × (cmd : Command Context) × (rest : List (Command Context))
      × (commands ≡ before ++ cmd ∷ rest)
      × (ctx1 : Context) × AllOk before ctx ctx1
      × (e : CommandError) × (last : Context) × (cmd.run ctx1 ≡ (err e, last))
      × (answer ≡ (err e, last))

  abbrev pub Chained : List (Command Context) → Context → CommandResult × Context → Type 0
  Chained commands ctx answer =
      ((last : Context) × AllOk commands ctx last × (answer ≡ (ok tt, last)))
      ⊎ FailsAt commands ctx answer

  after_first :
      (cmd : Command Context) (rest : List (Command Context)) (ctx ctx' : Context)
      (answer : CommandResult × Context)
      → cmd.run ctx ≡ (ok tt, ctx')
      → Chained rest ctx' answer
      → Chained (cmd ∷ rest) ctx answer
  after_first cmd rest ctx ctx' answer r (inl (last, all, same)) =
      inl (last, ran cmd rest ctx ctx' last r all, same)
  after_first cmd rest ctx ctx' answer r
        (inr (before, at, after, split, ctx1, all, e, last, fails, same)) =
      inr (
        cmd ∷ before,
        at,
        after,
        ap (◌∷◌ cmd) split,
        ctx1,
        ran cmd before ctx ctx' ctx1 r all,
        e,
        last,
        fails,
        same,
      )

  first_run :
      (cmd : Command Context) (rest : List (Command Context)) (ctx : Context)
      (p : CommandResult × Context)
      → cmd.run ctx ≡ p
      → ((ctx' : Context) → Chained rest ctx' (run_chain rest ctx'))
      → Chained (cmd ∷ rest) ctx (and_then p (λ ctx'. run_chain rest ctx'))
  first_run cmd rest ctx (ok done, ctx') r h = after_first cmd rest ctx ctx' _ r (h ctx')
  first_run cmd rest ctx (err e, ctx') r h =
      inr ([], cmd, rest, refl, ctx, none_left ctx, e, ctx', r, refl)

  -- A chain runs its commands in order, each in the context that the one before it left, and
  -- succeeds with the last one's context when all succeed; otherwise its error and its context are
  -- those of the first command that fails, and no later command is run.
  pub run_chain-Chained :
      (commands : List (Command Context)) (ctx : Context)
      → Chained commands ctx (run_chain commands ctx)
  unfolding run_chain
  run_chain-Chained [] ctx = inl (ctx, none_left ctx, refl)
  run_chain-Chained (cmd ∷ rest) ctx =
      first_run cmd rest ctx (cmd.run ctx) refl (λ ctx'. run_chain-Chained rest ctx')

-- Echo
module _ (t : Terminal) where
  unfoldable pub echo : Bytes → Command (Output t)
  echo text = record { name = codes "echo"; run = λ output. (ok tt, Output.line t output text) }
