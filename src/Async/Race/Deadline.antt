-- ===== src/Async/Race/Deadline.antt =====
-- An execution with a timeout ends, and not too early.
use proc_mw.Common.{
  ⊤, ℕ, zero, suc, ◌+◌, ◌≤◌, ◌<◌, ◌≡◌, refl, ap, Bool, true, false, Bool-cases, inl, inr, leb,
  if◌then◌else◌, some, arith,
}
use proc_mw.Effect.{Ended, ok, err, panicked}
use proc_mw.Dispatch.{Host}
use proc_mw.Async.{Poll, ready, pending, Poller, block_on, go_on_polling}
use proc_mw.Async.Race.{
  TimeoutError, timeout, map_chain, unstarted, racing, new_timer, poll_timer, or_timer,
  with_timeout,
}

-- The clock shows `time w`; nothing sets it back, and it moves while a task waits to be woken.
pub record IsClock {W : Type 0} (host : Host W) (idle : W → W) (time : W → ℕ) : Type 0 where
  pub shows : (w : W) → (host.now w).0 ≡ time w
  pub reads : (w : W) → time w ≤ time (host.now w).1
  pub waits : (w : W) → time w < time (idle w)

-- A poll does not set it back, and what is polled again is as `IsKept` says, if it was at first.
abbrev pub StillKept : {P E A : Type 0} → (P → Type 0) → Poll P E A → Type 0
StillKept IsKept (ready _) = ⊤
StillKept IsKept (pending p) = IsKept p

abbrev pub KeepsTime : {W S P E A : Type 0} → (W → ℕ) → (P → Type 0) → Poller W S P E A → Type 0
KeepsTime {W} {S} {P} time IsKept poll =
    (p : P) (s : S) (w : W)
    → IsKept p
    → (time w ≤ time (poll p s w).2) × StillKept IsKept (poll p s w).0

module _ {W S P E A : Type 0} (host : Host W) (idle : W → W) (time : W → ℕ) (dur : ℕ)
    (IsKept : P → Type 0) (poll : Poller W S P E A) where
  abbrev Outcome : Type 0
  Outcome = Ended (TimeoutError E) A × S × W

  or_timer_ends :
      (n d : ℕ) (x : Poll P E A × S × W)
      → IsClock host idle time
      → KeepsTime time IsKept poll
      → StillKept IsKept x.0
      → d ≤ time x.2 + n
      → (res : Outcome) × (go_on_polling idle (with_timeout host dur poll) n (or_timer host d x)
          ≡ some res)
  unfolding or_timer poll_timer block_on with_timeout
  or_timer_ends n d (ready a, s, w) c keeps kept le = ((map_chain a, s, w), refl)
  or_timer_ends zero d (pending p, s, w) c keeps kept le =
      let over : leb d (host.now w).0 ≡ true = ground (arith, c.shows w) in rw over (_, refl)
  or_timer_ends (suc n) d (pending p, s, w) c keeps kept le =
      elim (Bool-cases (leb d (host.now w).0)) [
        | inl over ↦ rw over (_, refl)
        | inr early ↦
            let w' = idle (host.now w).1 in
            rw early (
              or_timer_ends n d (poll p s w') c keeps (keeps p s w' kept).1
                (omega (arith, c.reads w, c.waits (host.now w).1, (keeps p s w' kept).0)))
      ]

  -- With a clock that nothing sets back, and that moves on while the task waits, an execution with a
  -- timeout ends after at most `dur` + 1 polls, also if the execution itself would never end.
  pub with_timeout_ends :
      (n : ℕ) (p : P) (s : S) (w : W)
      → IsClock host idle time
      → KeepsTime time IsKept poll
      → IsKept p
      → dur < n
      → (res : Outcome) × (block_on idle (with_timeout host dur poll) n (unstarted p) s w
          ≡ some res)
  unfolding block_on with_timeout new_timer
  with_timeout_ends zero p s w c keeps kept lt = absurd (omega arith)
  with_timeout_ends (suc n) p s w c keeps kept lt =
      let w' = (host.now w).1 in
      or_timer_ends n ((host.now w).0 + dur) (poll p s w') c keeps (keeps p s w' kept).1
        (omega (arith, c.shows w, c.reads w, (keeps p s w' kept).0))

module _ {W S P E A : Type 0} (host : Host W) (idle : W → W) (time : W → ℕ) (dur : ℕ)
    (poll : Poller W S P E A) where
  or_timer_late :
      (n d : ℕ) (x : Poll P E A × S × W) (s' : S) (w' : W)
      → IsClock host idle time
      → go_on_polling idle (with_timeout host dur poll) n (or_timer host d x)
        ≡ some (err timeout, s', w')
      → d ≤ time w'
  unfolding or_timer poll_timer block_on with_timeout
  or_timer_late n d (ready (ok a), s, w) s' w' c e = absurd (ground arith)
  or_timer_late n d (ready (err x), s, w) s' w' c e = absurd (ground arith)
  or_timer_late n d (ready panicked, s, w) s' w' c e = absurd (ground arith)
  or_timer_late zero d (pending p, s, w) s' w' c e = after (leb d (host.now w).0) refl e
    where
      after :
          (over : Bool)
          → leb d (host.now w).0 ≡ over
          → go_on_polling idle
              (with_timeout host dur poll)
              zero
              (if over then ready (err timeout) else pending (racing d p), s, (host.now w).1)
            ≡ some (err timeout, s', w')
          → d ≤ time w'
      after true o q =
          let same : (host.now w).1 ≡ w' = ground (arith, q) in
          ground (arith, o, c.shows w, c.reads w, ap time same)
      after false o q = absurd (ground arith)
  or_timer_late (suc n) d (pending p, s, w) s' w' c e =
      after (leb d (host.now w).0) refl (or_timer_late n d (poll p s (idle (host.now w).1)) s' w' c)
        e
    where
      after :
          (over : Bool)
          → leb d (host.now w).0 ≡ over
          → (go_on_polling idle
                  (with_timeout host dur poll)
                  (suc n)
                  (pending (racing d p), s, (host.now w).1)
                ≡ some (err timeout, s', w')
              → d ≤ time w')
          → go_on_polling idle
              (with_timeout host dur poll)
              (suc n)
              (if over then ready (err timeout) else pending (racing d p), s, (host.now w).1)
            ≡ some (err timeout, s', w')
          → d ≤ time w'
      after true o ih q =
          let same : (host.now w).1 ≡ w' = ground (arith, q) in
          ground (arith, o, c.shows w, c.reads w, ap time same)
      after false o ih q = ih q

  -- With a clock that is not set back when it is read, and that moves on while the task waits, an
  -- execution ends with a timeout only when the clock shows the time at which it began and `dur`
  -- more.
  pub with_timeout_late :
      (n : ℕ) (p : P) (s s' : S) (w w' : W)
      → IsClock host idle time
      → block_on idle (with_timeout host dur poll) n (unstarted p) s w ≡ some (err timeout, s', w')
      → time w + dur ≤ time w'
  unfolding block_on with_timeout new_timer
  with_timeout_late zero p s s' w w' c e = absurd (ground arith)
  with_timeout_late (suc n) p s s' w w' c e =
      omega (
        arith,
        c.shows w,
        or_timer_late n ((host.now w).0 + dur) (poll p s (host.now w).1) s' w' c e,
      )
