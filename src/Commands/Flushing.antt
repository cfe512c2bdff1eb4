-- ===== src/Commands/Flushing.antt =====
-- `_flush` of `flush_messages`: the loop of a worker that flushes the outgoing messages. Times are
-- numbers in a small unit. The worker first sleeps for a random part of the period, which is left out.
use swpt_debtors.Prelude.{
  ℕ, zero, suc, ◌+◌, ◌-◌, Bool, Option, none, some, List, [], ◌∷◌, ◌++◌, if◌then◌else◌,
}

-- What a round of the loop meets: whether a signal has stopped the worker, the clock at the start,
-- the number of messages that `flushmany` has sent or its exception, and the clock after that.
pub record Round : Type 0 where
  pub stopped : Bool
  pub started_at : ℕ
  pub count : Option ℕ
  pub finished_at : ℕ

pub data Action : Type 0 where
  -- `flushmany`, at a time
  flush : ℕ → Action
  sleep : ℕ → Action

pub data Finish : Type 0 where
  -- by a signal, by `--quit-early`, by `sys.exit(1)`
  was_stopped : Finish
  quit : Finish
  failed : Finish

-- `max(0.0, wait + started_at - time.time())`: the subtraction stops at zero.
unfoldable pub pause : ℕ → Round → ℕ
pause wait r = wait + r.started_at - r.finished_at

-- One round of `while not stopped`: what it does, and how the worker finishes, if it does.
unfoldable pub flush_round : Bool → ℕ → Round → List Action × Option Finish
unfolding pause
flush_round quit_early wait r = if r.stopped then ([], some was_stopped) else elim r.count [
  | none ↦ (flush r.started_at ∷ [], some failed)
  | some count ↦
      if quit_early
      then (flush r.started_at ∷ [], some quit)
      else (flush r.started_at ∷ sleep (pause wait r) ∷ [], none)
]

-- The loop, in at most `fuel` rounds from number `n` on
unfoldable pub flush_loop : ℕ → Bool → ℕ → (ℕ → Round) → ℕ → List Action × Option Finish
unfolding flush_round
flush_loop zero quit_early wait rounds n = ([], none)
flush_loop (suc fuel) quit_early wait rounds n =
    let now = flush_round quit_early wait (rounds n) in
    elim now.1 [
      | some finish ↦ (now.0, some finish)
      | none ↦
          (let later = flush_loop fuel quit_early wait rounds (suc n) in
            (now.0 ++ later.0, later.1))
    ]
