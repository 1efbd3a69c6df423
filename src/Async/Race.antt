-- ===== src/Async/Race.antt =====
-- `Timer` of src/async_opaque.rs, and `futures::future::select` of an execution and a timer, which
-- polls the execution first. The executor polls again when the timer's thread has woken the task.
pub mod Deadline
pub mod Kept
use proc_mw.Common.{ℕ, ◌+◌, leb, Bool, if◌then◌else◌}
use proc_mw.Effect.{Ended, ok, err, panicked}
use proc_mw.Dispatch.{Host}
use proc_mw.Async.{Poll, ready, pending, Poller}

-- `AsyncTimeoutError`, with the codes of a type-erased chain for `E`, and `AsyncMwTimeoutError`, with
-- `MwError`.
pub data TimeoutError (E : Type 0) : Type 0 where
  chain : E → TimeoutError E
  timeout : TimeoutError E

abbrev pub map_chain : {E A : Type 0} → Ended E A → Ended (TimeoutError E) A
map_chain (ok a) = ok a
map_chain (err e) = err (chain e)
map_chain panicked = panicked

-- `exec_timeout` before its first poll, which makes the timer, and after it.
pub data Racing (P : Type 0) : Type 0 where
  unstarted : P → Racing P
  racing : ℕ → P → Racing P

module _ {W : Type 0} (host : Host W) where
  -- `Timer::new` and `Timer::poll`
  unfoldable pub new_timer : ℕ → W → ℕ × W
  new_timer dur w = let (now, w') = host.now w in (now + dur, w')

  unfoldable pub poll_timer : ℕ → W → Bool × W
  poll_timer deadline w = let (now, w') = host.now w in (leb deadline now, w')

  module _ {S P E A : Type 0} where
    -- the second half of a poll of `select`
    unfoldable pub or_timer : ℕ → Poll P E A × S × W → Poll (Racing P) (TimeoutError E) A × S × W
    or_timer deadline (ready a, s, w) = (ready (map_chain a), s, w)
    or_timer deadline (pending p, s, w) =
        let (over, w') = poll_timer deadline w in
        (if over then ready (err timeout) else pending (racing deadline p), s, w')

    -- The execution that is pending is dropped when the time is over.
    unfoldable pub with_timeout : ℕ → Poller W S P E A → Poller W S (Racing P) (TimeoutError E) A
    unfolding or_timer
    with_timeout dur poll (unstarted p) s w =
        let (deadline, w') = new_timer dur w in or_timer deadline (poll p s w')
    with_timeout dur poll (racing deadline p) s w = or_timer deadline (poll p s w)
