-- ===== src/Finish/Streams.antt =====
-- include/condy/detail/finish_handles.hpp: the completions that the kernel posts for one operation.
use condy.Prelude.{true, false, ◌≡◌, List, [], ◌∷◌}
use condy.Prelude.Int.{ℤ, pos}
use condy.Finish.{Cqe, Kind, op, multi_shot, zero_copy}

-- One completion; or any number that announce more, and a last one; or, for a zero-copy send, one
-- that announces a notification and the notification, or just one.
pub data IsStream : Kind → List Cqe → Type 0 where
  single : {c : Cqe} → IsStream op (c ∷ [])
  shot :
      {c d : Cqe} {cs : List Cqe}
      → c.flag_more ≡ true
      → IsStream multi_shot (d ∷ cs)
      → IsStream multi_shot (c ∷ d ∷ cs)
  last_shot : {c : Cqe} → c.flag_more ≡ false → IsStream multi_shot (c ∷ [])
  lone : {c : Cqe} → c.flag_more ≡ false → c.flag_notif ≡ false → IsStream zero_copy (c ∷ [])
  released :
      {c n : Cqe}
      → c.flag_more ≡ true
      → n.flag_more ≡ false
      → n.flag_notif ≡ true
      → IsStream zero_copy (c ∷ n ∷ [])

-- The completion whose result the operation has, and those that the multishot function gets.
abbrev pub result_of : Kind → Cqe → List Cqe → Cqe
result_of op c cs = c
result_of multi_shot c [] = c
result_of multi_shot c (c' ∷ cs) = result_of multi_shot c' cs
result_of zero_copy c cs = c

abbrev pub shots_of : Kind → Cqe → List Cqe → List Cqe
shots_of op c cs = []
shots_of multi_shot c [] = []
shots_of multi_shot c (c' ∷ cs) = c ∷ shots_of multi_shot c' cs
shots_of zero_copy c cs = []

-- What the release function gets: the result of the notification, or 0 without one.
abbrev pub releases_of : Kind → List Cqe → List ℤ
releases_of op cs = []
releases_of multi_shot cs = []
releases_of zero_copy [] = pos 0 ∷ []
releases_of zero_copy (n ∷ ns) = n.res ∷ []
