-- ===== src/Service/Ivc/Tests.antt =====
-- A shared ring whose indices are about to wrap.
use novavisor.Base.{ℕ, ◌+◌, ◌-◌, ◌^◌, ◌<◌}
use novavisor.Base.{◌≡◌, refl}
use novavisor.Base.{true, false, [], ◌∷◌, ◌++◌}
use novavisor.Base.{arith}
use novavisor.Base.{replicate}
use novavisor.Service.Ivc.{Ring, push, pop}
use novavisor.Service.Ivc.Queue.{IsRing, queue, ivc_push-queue, ivc_pop-queue}

abbrev given : ℕ
given = 2 ^ 32 - 1

abbrev near_wrap : Ring
near_wrap = record { widx = 0; ridx = 2 ^ 32 - 1; slots = replicate 15 0 ++ (42 ∷ []) }

near_wrap-IsRing : IsRing near_wrap (given + 1) given
near_wrap-IsRing = record {
  cells = refl;
  write_at = refl;
  read_at = refl;
  order = omega arith;
  room = omega arith;
}

ivc_push-queue_example :
    (given + 1 - given ≡ 16 → push near_wrap 7 ≡ (false, near_wrap))
    × (given + 1 - given < 16
        → ((push near_wrap 7).0 ≡ true)
          × IsRing ((push near_wrap 7).1) (given + 1 + 1) given
          × (queue ((push near_wrap 7).1) (given + 1 + 1) given
              ≡ queue near_wrap (given + 1) given ++ (7 ∷ [])))
ivc_push-queue_example = ivc_push-queue near_wrap (given + 1) given 7 near_wrap-IsRing

ivc_pop-queue_example :
    (given + 1 ≡ given → pop near_wrap 9 ≡ (false, 9, near_wrap))
    × (given < given + 1
        → ((pop near_wrap 9).0 ≡ true)
          × IsRing ((pop near_wrap 9).2) (given + 1) (given + 1)
          × (queue near_wrap (given + 1) given
              ≡ (pop near_wrap 9).1 ∷ queue ((pop near_wrap 9).2) (given + 1) (given + 1)))
ivc_pop-queue_example = ivc_pop-queue near_wrap (given + 1) given 9 near_wrap-IsRing
