-- ===== src/Async/Entry.antt =====
-- include/condy/detail/async_operations.hpp and include/condy/detail/op_states.hpp: the submission entry
-- of an operation, with what its making, its flags and its start write to it.
use condy.Prelude.{
  ℕ, ◌%◌, ◌≡◌, refl, ap, ◌∙◌, Bool, true, false, List, [], ◌∷◌, bit_or, Outcome, ok,
}
use condy.Ring.{Ring, maybe_submit}
use condy.Finish.{Cqe, pend_work}
use condy.Senders.{op, flag, start, Act, prepare}
use condy.Launch.{
  Launch, Operation, maybe_set_cancel, write_sqe, start_sqe, start_op, perform_act, perform,
}
use condy.Launch.Settle.{encode_common}
use condy.Launch.Chain.{maybe_set_cancel-ring}
use condy.Async.{Sqe, Fd, plain, fixed, maybe_flag_fixed_fd, Made, fill}

-- The flags that an operation on a file is started with.
abbrev pub with_fd : ℕ → ℕ → Fd → ℕ
with_fd fixed_file flags (plain fd) = flags
with_fd fixed_file flags (fixed fd) = bit_or flags fixed_file

start-maybe_flag_fixed_fd :
    (fixed_file flags a : ℕ) (fd : Fd)
    → start flags (maybe_flag_fixed_fd fixed_file (op a) fd)
      ≡ prepare a (with_fd fixed_file flags fd) ∷ []
unfolding start maybe_flag_fixed_fd flag
start-maybe_flag_fixed_fd fixed_file flags a (plain fd) = refl
start-maybe_flag_fixed_fd fixed_file flags a (fixed fd) = refl

-- An operation that was made, connected: the address of its finish handle, and what its stop token
-- says.
abbrev pub connect_made : {R S : Type 0} → Made R S → ℕ → Bool → Operation R S
connect_made m address possible = record {
  prep_func = m.prep_func;
  address = address;
  stop_requested = false;
  stop_possible = possible;
}

-- `change` through a pointer to an entry is seen through that pointer.
module _ {R S X B : Type 0} (io_uring_submit : R → R) (space_left : R → ℕ) (entry : S → R → Sqe X)
    (change : S → (Sqe X → Sqe X) → R → R)
    (seen : (s : S) (f : Sqe X → Sqe X) (r : R) → entry s (change s f r) ≡ f (entry s r))
    (cqe_handler : Cqe → B) (get_sqe : Ring R → S × Ring R) where
  abbrev pub write : ℕ → ℕ → S → R → R
  write =
      write_sqe (λ s r. (entry s r).flags) (λ s f. change s (λ e. record e { flags = f }))
        (λ s w. change s (λ e. record e { user_data = w }))

  write-entry :
      (flags work : ℕ) (s : S) (f : Sqe X → Sqe X) (r : R)
      → entry s (write flags work s (change s f r))
        ≡ record (f (entry s r)) { flags = bit_or (f (entry s r)).flags flags; user_data = work }
  unfolding write_sqe
  write-entry flags work s f r =
      let r1 = change s f r in
      let all = bit_or (entry s r1).flags flags in
      seen s (λ e. record e { user_data = work }) (change s (λ e. record e { flags = all }) r1)
      ∙ ap (λ (e : Sqe X). record e { user_data = work })
          (seen s (λ e. record e { flags = all }) r1)
      ∙ ap (λ (e : Sqe X). record e { flags = bit_or e.flags flags; user_data = work }) (seen s f r)

  -- The launch ends with the entry `e` at `sqe`, on the ring `r` as it was when the entry was taken, and
  -- with the request counted.
  abbrev pub Enters : Outcome (Launch R B) → S → Ring R → Sqe X → Type 0
  Enters m sqe r e =
      (s' : Launch R B) × (u : R) × (m ≡ ok s')
      × (s'.ring ≡ maybe_submit io_uring_submit (record r { ring = u }))
      × (entry sqe u ≡ e)

  abbrev pub perform_one : Operation R S → List Act → Launch R B → Outcome (Launch R B)
  perform_one o acts s = perform io_uring_submit space_left write cqe_handler true (λ _. o) acts s

  pub start_filled :
      (a flags : ℕ) (f : Sqe X → Sqe X) (o : Operation R S) (s : Launch R B)
      → o.address % 8 ≡ 0
      → o.stop_requested ≡ false
      → o.prep_func s.ring ≡ fill change f (get_sqe s.ring)
      → let (sqe, r) = get_sqe s.ring in
        let e = f (entry sqe r.ring) in
        Enters
          (perform_one o (prepare a flags ∷ []) s)
          sqe
          r
          (record e { flags = bit_or e.flags flags; user_data = o.address })
  unfolding perform perform_act start_op start_sqe
  start_filled a flags f o s aligned going prep =
      let (sqe, r) = get_sqe s.ring in
      let u = write flags o.address sqe (change sqe f r.ring) in
      let s1 : Launch R B = record {
        ring = maybe_submit io_uring_submit (record r { ring = u });
        loop = pend_work s.loop;
      } in
      (
        maybe_set_cancel o s1,
        u,
        simp (going, prep, encode_common o.address aligned),
        maybe_set_cancel-ring o s1 o.stop_possible refl,
        write-entry flags o.address sqe f r.ring,
      )

  -- The same for an operation on a file.
  pub start_on_file :
      (fixed_file flags a : ℕ) (fd : Fd) (f : Sqe X → Sqe X) (o : Operation R S) (s : Launch R B)
      → o.address % 8 ≡ 0
      → o.stop_requested ≡ false
      → o.prep_func s.ring ≡ fill change f (get_sqe s.ring)
      → let (sqe, r) = get_sqe s.ring in
        let e = f (entry sqe r.ring) in
        Enters
          (perform_one o (start flags (maybe_flag_fixed_fd fixed_file (op a) fd)) s)
          sqe
          r
          (record e { flags = bit_or e.flags (with_fd fixed_file flags fd); user_data = o.address })
  start_on_file fixed_file flags a fd f o s aligned going prep =
      let (s1, u, e, counted, written) =
        start_filled a (with_fd fixed_file flags fd) f o s aligned going prep in
      (
        s1,
        u,
        ap (λ (acts : List Act). perform_one o acts s)
              (start-maybe_flag_fixed_fd fixed_file flags a fd)
            ∙ e,
        counted,
        written,
      )
