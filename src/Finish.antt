-- ===== src/Finish.antt =====
-- include/condy/detail/finish_handles.hpp: the handles that take the completions of an operation, with
-- include/condy/runtime.hpp: `Runtime::process_cqe_`, which finds the handle of a completion. What a
-- CQE handler makes of a completion is a parameter `cqe_handler`; a call of the receiver, of the
-- multishot function or of the release function appends its argument to the handle's record.
pub mod Streams
pub mod Dispatch
use condy.Prelude.{
  ℕ, Bool, true, false, List, [], ◌∷◌, ◌++◌, ◌==◌, if◌then◌else◌, panic, bad_access, Outcome, ok,
  abort, check, ◌>>=◌, ◌>>◌,
}
use condy.Prelude.Int.{ℤ, pos, negsuc, is_neg}
use condy.Prelude.Words.{add_size, sub_size}
use condy.Work.{decode_work}

pub record Cqe : Type 0 where
  pub user_data : ℕ
  pub res : ℤ
  pub flag_more : Bool
  pub flag_notif : Bool

-- `OpFinishHandle`, `MultiShotOpFinishHandle` and `ZeroCopyOpFinishHandle`
pub data Kind : Type 0 where
  op multi_shot zero_copy : Kind

pub record Handle (B : Type 0) : Type 0 where
  pub kind : Kind
  pub stop_callback : Bool
  pub received : List B
  pub called : List B
  pub freed : List ℤ
  pub deleted : Bool

-- The runtime's count of pending works, the handle at each address, the works that were invoked and
-- the operations whose cancellation was prepared.
pub record Loop (B : Type 0) : Type 0 where
  pub pending_works : ℕ
  pub handles : ℕ → Handle B
  pub invoked : List ℕ
  pub cancelled : List ℕ

abbrev pub is_einval : ℤ → Bool
is_einval (pos n) = false
is_einval (negsuc n) = n == 21

module _ {B : Type 0} where
  unfoldable pub pend_work : Loop B → Loop B
  pend_work l = record l { pending_works = add_size l.pending_works 1 }

  unfoldable pub resume_work : Loop B → Loop B
  resume_work l = record l { pending_works = sub_size l.pending_works 1 }

  abbrev pub put : ℕ → Handle B → Loop B → Loop B
  put p h l = record l { handles = λ q. if q == p then h else l.handles q }

  -- The work is resumed when the operation is over.
  abbrev pub settle : ℕ → Bool × Handle B → Loop B → Loop B
  settle p (true, h) l = resume_work (put p h l)
  settle p (false, h) l = put p h l

module _ {B : Type 0} (cqe_handler : Cqe → B) where
  unfoldable pub finish : Cqe → Handle B → Handle B
  finish c h = record h { stop_callback = false; received = h.received ++ cqe_handler c ∷ [] }

  unfoldable pub notify : ℤ → Handle B → Handle B
  notify res h = record h { freed = h.freed ++ res ∷ []; deleted = true }

  -- `handle_impl_` of each class: whether the operation is over, and the handle.
  unfoldable pub handle_as : Kind → Cqe → Handle B → Bool × Handle B
  unfolding finish notify
  handle_as op c h = (true, finish c h)
  handle_as multi_shot c h =
      if c.flag_more
      then (false, record h { called = h.called ++ cqe_handler c ∷ [] })
      else (true, finish c h)
  handle_as zero_copy c h =
      if c.flag_more
      then (false, finish c h)
      else if c.flag_notif
      then (true, notify c.res h)
      else (true, notify (pos 0) (finish c h))

  -- `handle->handle(cqe)` through `handle_func_`; a handle that was deleted must not be used.
  unfoldable pub handle : Cqe → Handle B → Outcome (Bool × Handle B)
  unfolding handle_as
  handle c h = if h.deleted then abort bad_access else ok (handle_as h.kind c h)

  unfoldable pub finish_at : ℕ → Cqe → Loop B → Outcome (Loop B)
  unfolding handle resume_work
  finish_at p c l = do done ← handle c (l.handles p); ok (settle p done l)

  -- `process_cqe_`
  unfoldable pub process_cqe : Cqe → Loop B → Outcome (Loop B)
  unfolding finish_at resume_work
  process_cqe c l =
      let (data_, type) = decode_work c.user_data in
      if type == 1
      then (do check (if is_einval c.res then false else true); ok l)
      else if type == 2
      then (if data_ == 0
          then (if is_neg c.res then abort panic else ok (resume_work l))
          else ok (record l { invoked = l.invoked ++ data_ ∷ [] }))
      else if type == 3
      then ok (record l { cancelled = l.cancelled ++ data_ ∷ [] })
      else if type == 0
      then finish_at data_ c l
      else abort bad_access

  unfoldable pub process_each : List Cqe → Loop B → Outcome (Loop B)
  unfolding process_cqe
  process_each [] l = ok l
  process_each (c ∷ cs) l = do l1 ← process_cqe c l; process_each cs l1
