-- ===== src/Server/Lifecycle/Outcome.antt =====
-- How the result of inengine-core/src/server/lifecycle.rs follows the command's own.
use mathlib.Core.Path.{subst}
use in_engine_net.Prelude.{◌≡◌, refl, Option, none, some, Bytes, codes, ◌++◌, Result, ok, err}
use in_engine_net.Error.{CommandError}
use in_engine_net.Command.{CommandResult}
use in_engine_net.Server.Lifecycle.{
  World, LifecycleOptions, LifecycleHooks, Step, if_some, call_hook, persist_output, before, finish,
  run_with_lifecycle, go_on,
}

-- A call for an option that is set succeeded; without the option nothing changed.
abbrev pub Went : {S A : Type 0} → (A → Step S (Unit {0})) → Option A → S → S → Type 0
Went call none s s' = s' ≡ s
Went call (some a) s s' = call a s ≡ (ok tt, s')

abbrev pub Hooked : {S : Type 0} → Option (S → S) → S → S → Type 0
Hooked none s s' = s' ≡ s
Hooked (some action) s s' = s' ≡ action s

-- A step succeeded with a result.
abbrev Gave : {S A : Type 0} → (A → S → Type 0) → Result CommandError A × S → Type 0
Gave P (ok a, s) = P a s
Gave P (err e, s) = Unit {0}

-- When the second of two steps succeeds, so does the first.
Gave-go_on :
    {S A B : Type 0} (P : A → S → Type 0) (Q : B → S → Type 0) (f : A → Step S B)
    (p : Result CommandError A × S)
    → Gave P p
    → ((a : A) (s : S) → P a s → Gave Q (f a s))
    → Gave Q (go_on f p)
Gave-go_on P Q f (ok a, s) h k = k a s h
Gave-go_on P Q f (err e, s) h k = tt

Gave-map :
    {S A : Type 0} (P Q : A → S → Type 0) (p : Result CommandError A × S)
    → ((a : A) (s : S) → P a s → Q a s)
    → Gave P p
    → Gave Q p
Gave-map P Q (ok a, s) k h = k a s h
Gave-map P Q (err e, s) k h = tt

Gave-self : {S A : Type 0} (p : Result CommandError A × S) → Gave (λ a s. p ≡ (ok a, s)) p
Gave-self (ok a, s) = refl
Gave-self (err e, s) = tt

Gave-if_some :
    {S A : Type 0} (o : Option A) (call : A → Step S (Unit {0})) (s : S)
    → Gave (λ u s'. Went call o s s') (if_some o call s)
Gave-if_some none call s = refl
Gave-if_some (some a) call s = Gave-self (call a s)

Gave-call_hook :
    {S : Type 0} (o : Option (S → S)) (s : S) → Gave (λ u s'. Hooked o s s') (call_hook o s)
Gave-call_hook none s = refl
Gave-call_hook (some action) s = refl

module _ {S : Type 0} (world : World S) (options : LifecycleOptions) (hooks : LifecycleHooks S)
    (name : Bytes) where
  -- The saves of an output, with the subject and the body of the mail.
  abbrev pub Saved : Bytes → Bytes → Bytes → S → S → Type 0
  Saved text subject body s s' =
      (s1 : S) × Went (λ p. world.write_file p text) options.write_output_to s s1
      × (s2 : S) × Went (λ p. world.append_file p text) options.append_output_to s1 s2
      × Went (λ address. world.send_email address subject body) options.email_output_to s2 s'

  -- What comes before the run, and after it with its output.
  abbrev pub Started : S → S → Type 0
  Started s s' =
      (s1 : S) × Went world.ping options.ping_before_url s s1 × Hooked hooks.before_run s1 s'

  abbrev pub Finished : Bytes → S → S → Type 0
  Finished text s s' =
      (s1 : S) × Hooked hooks.after_run s s1
      × (s2 : S) × Went world.ping options.ping_after_url s1 s2
      × Saved text (codes "Command completed: " ++ name) text s2 s'

  -- A run of which the lifecycle reports success, from a state to another.
  abbrev pub Succeeded : S → S → Type 0
  Succeeded s s' =
      (s0 : S) × (s1 : S) × (text : Bytes) × Started s s0
      × (world.run_blocking options.timeout s0 ≡ (ok (ok tt, text), s1))
      × Finished text s1 s'

  Gave-persist_output :
      (text subject body : Bytes) (s : S)
      → Gave
          (λ u s'. Saved text subject body s s')
          (persist_output world options text subject body s)
  unfolding persist_output
  Gave-persist_output text subject body s =
      Gave-go_on _ _ _ (if_some options.write_output_to (λ p. world.write_file p text) s)
        (Gave-if_some options.write_output_to (λ p. world.write_file p text) s)
        (λ u s1 w.
          Gave-go_on _ _ _ (if_some options.append_output_to (λ p. world.append_file p text) s1)
            (Gave-if_some options.append_output_to (λ p. world.append_file p text) s1)
            (λ u s2 a.
              Gave-map _ _
                (if_some options.email_output_to (λ address. world.send_email address subject body)
                  s2)
                (λ u s' m. (s1, w, s2, a, m))
                (Gave-if_some options.email_output_to
                  (λ address. world.send_email address subject body) s2)))

  Gave-before : (s : S) → Gave (λ u s'. Started s s') (before world options hooks s)
  unfolding before
  Gave-before s =
      Gave-go_on _ _ _ (if_some options.ping_before_url world.ping s)
        (Gave-if_some options.ping_before_url world.ping s)
        (λ u s1 w.
          Gave-map _ _ (call_hook hooks.before_run s1) (λ u s' h. (s1, w, h))
            (Gave-call_hook hooks.before_run s1))

  -- The end of a run that gave an answer: its own success, and what comes after it.
  abbrev SucceededWith : S → CommandResult × Bytes → S → Type 0
  SucceededWith s (ok done, text) s' = Finished text s s'
  SucceededWith s (err e, text) s' = ⊥

  Gave-finish :
      (s : S) (answer : CommandResult × Bytes)
      → Gave (λ u s'. SucceededWith s answer s') (finish world options hooks name answer s)
  unfolding finish
  Gave-finish s (ok done, text) =
      Gave-go_on _ _ _ (call_hook hooks.after_run s) (Gave-call_hook hooks.after_run s) (λ u s1 h.
        Gave-go_on _ _ _ (if_some options.ping_after_url world.ping s1)
          (Gave-if_some options.ping_after_url world.ping s1)
          (λ u s2 w.
            Gave-map _ _
              (persist_output world options text (codes "Command completed: " ++ name) text s2)
              (λ u s' saved. (s1, h, s2, w, saved))
              (Gave-persist_output text (codes "Command completed: " ++ name) text s2)))
  Gave-finish s (err e, text) = tt

  with_answer :
      (s s0 s1 s' : S) (answer : CommandResult × Bytes)
      → Started s s0
      → world.run_blocking options.timeout s0 ≡ (ok answer, s1)
      → SucceededWith s1 answer s'
      → Succeeded s s'
  with_answer s s0 s1 s' (ok done, text) before r finished = (s0, s1, text, before, r, finished)
  with_answer s s0 s1 s' (err e, text) before r finished = elim finished [ ]

  Gave-run_with_lifecycle :
      (s : S) → Gave (λ u s'. Succeeded s s') (run_with_lifecycle world options hooks name s)
  unfolding run_with_lifecycle
  Gave-run_with_lifecycle s =
      Gave-go_on _ _ _ (before world options hooks s) (Gave-before s) (λ u s0 b.
        Gave-go_on _ _ _ (world.run_blocking options.timeout s0)
          (Gave-self (world.run_blocking options.timeout s0))
          (λ answer s1 r.
            Gave-map _ _ (finish world options hooks name answer s1)
              (λ u s' h. with_answer s s0 s1 s' answer b r h) (Gave-finish s1 answer)))

  -- When the lifecycle reports success, these calls were made in this order, each in the state
  -- that the one before left, and all went through: the first ping, the first hook, the run with
  -- the time limit, which succeeded itself, the last hook, the last ping, and the file, the
  -- appended file and the mail with the run's output. Of the pings, hooks and saves only those
  -- that are set are made.
  pub run_with_lifecycle_ok :
      (s s' : S) → run_with_lifecycle world options hooks name s ≡ (ok tt, s') → Succeeded s s'
  run_with_lifecycle_ok s s' e = subst (Gave (λ u s'. Succeeded s s')) e (Gave-run_with_lifecycle s)
