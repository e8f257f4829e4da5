-- ===== src/Tests/Sessions.antt =====
-- A channel of one slot, with handles that wait on it, are cancelled and are served.
use condy.Prelude.{ℕ, refl, true, false, List, [], ◌∷◌, arith}
use condy.Channel.Sessions.{
  Act, starts_push, starts_pop, cancels_push, cancels_pop, offers, takes, shuts, delivers,
  perform_all, new_session,
}
use condy.Channel.Sessions.Keeps.{Accounts, perform_all-Accounts}

-- A pop waits and is served by a push; two pushes fill the slot and wait; one is cancelled, and then
-- the channel is closed under a waiting pop.
abbrev history : List (Act ℕ)
history =
    starts_pop true 1
    ∷ starts_push true 2 70
    ∷ delivers
    ∷ starts_push false 3 71
    ∷ starts_push true 4 72
    ∷ starts_push true 5 73
    ∷ cancels_push 4
    ∷ cancels_push 9
    ∷ offers 74
    ∷ delivers
    ∷ takes
    ∷ takes
    ∷ delivers
    ∷ starts_pop true 6
    ∷ starts_pop true 7
    ∷ cancels_pop 7
    ∷ shuts
    ∷ []

perform_all-Accounts_example : Accounts history (perform_all 0 history (new_session 1))
perform_all-Accounts_example =
    perform_all-Accounts 0 1 history (omega arith)
      (refl, (refl, (refl, (refl, (refl, (refl, (refl, tt)))))))
