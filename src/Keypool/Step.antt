-- ===== src/Keypool/Step.antt =====
-- The methods of a pool as steps of the requests that share it: its mutex puts every history of
-- concurrent requests into one order, and `run` takes any such order.
use all2api.Prelude.{List, [], ◌∷◌}
use all2api.Text.{Bytes}
use all2api.Clock.{Time}
use all2api.RateLimit.{RateLimitSnapshot}
use all2api.Keypool.{Pool, acquire}
use all2api.Keypool.Mark.{
  mark_exhausted, mark_rate_limited, mark_error, mark_key_invalid, update_from_upstream,
}

pub data Call : Type 0 where
  acquires : Call
  exhausts rate_limits : Bytes → Call
  errors invalidates : Bytes → Bytes → Call
  updates : Bytes → RateLimitSnapshot → Call

-- The pool after a call, at the time that the method reads.
unfoldable pub step : Pool → Time × Call → Pool
unfolding acquire mark_exhausted mark_rate_limited mark_error mark_key_invalid update_from_upstream
step p (now, acquires) = (acquire now p).0
step p (now, exhausts label) = mark_exhausted now label p
step p (now, rate_limits label) = mark_rate_limited now label p
step p (now, errors label reason) = mark_error now label reason p
step p (now, invalidates label reason) = mark_key_invalid now label reason p
step p (now, updates label snap) = (update_from_upstream now label snap p).0

unfoldable pub run : Pool → List (Time × Call) → Pool
run p [] = p
run p (c ∷ cs) = run (step p c) cs
