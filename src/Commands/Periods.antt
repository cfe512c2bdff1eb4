-- ===== src/Commands/Periods.antt =====
-- How often a worker flushes the outgoing messages.
use swpt_debtors.Prelude.{
  ℕ, zero, suc, ◌+◌, ◌≤◌, ◌≡◌, ◌⊎◌, Bool, none, some, List, [], ◌∷◌, inl, inr, Bool-cases,
  Option-cases, arith,
}
use swpt_debtors.Commands.Flushing.{
  Round, Action, flush, sleep, Finish, was_stopped, failed, quit, pause, flush_round, flush_loop,
}

-- The clock does not go back, and a worker sleeps at least as long as it asks for.
pub record IsPunctual (wait : ℕ) (rounds : ℕ → Round) : Type 0 where
  pub forward : (n : ℕ) → (rounds n).started_at ≤ (rounds n).finished_at
  pub rested :
      (n : ℕ) → (rounds n).finished_at + pause wait (rounds n) ≤ (rounds (suc n)).started_at

-- Every flush begins at the earliest at a given time, and at least `wait` after the flush before it.
abbrev pub SpacedFrom : ℕ → ℕ → List Action → Type 0
SpacedFrom wait t [] = Unit
SpacedFrom wait t (flush u ∷ rest) = (t ≤ u) × SpacedFrom wait (u + wait) rest
SpacedFrom wait t (sleep d ∷ rest) = SpacedFrom wait t rest

-- A round is the last one, with a flush or without, or it flushes and sleeps.
round_cases :
    (quit_early : Bool) (wait : ℕ) (r : Round)
    → ((e : Finish) × (flush_round quit_early wait r ≡ ([], some e)))
      ⊎ ((e : Finish) × (flush_round quit_early wait r ≡ (flush r.started_at ∷ [], some e)))
      ⊎ (flush_round quit_early wait r ≡ (flush r.started_at ∷ sleep (pause wait r) ∷ [], none))
unfolding flush_round
round_cases quit_early wait r = elim (Bool-cases r.stopped) [
  | inl e ↦ inl (was_stopped, ground (arith, e))
  | inr e ↦ elim (Option-cases r.count) [
    | inl raised ↦ inr (inl (failed, ground (arith, e, raised)))
    | inr (k, sent) ↦ elim (Bool-cases quit_early) [
      | inl early ↦ inr (inl (quit, ground (arith, e, sent, early)))
      | inr on ↦ inr (inr (ground (arith, e, sent, on)))
    ]
  ]
]

loop_spaced :
    (fuel n t wait : ℕ) (quit_early : Bool) (rounds : ℕ → Round)
    → IsPunctual wait rounds
    → t ≤ (rounds n).started_at
    → SpacedFrom wait t (flush_loop fuel quit_early wait rounds n).0
unfolding flush_loop
loop_spaced zero n t wait quit_early rounds p h = tt
loop_spaced (suc fuel) n t wait quit_early rounds p h =
    elim (round_cases quit_early wait (rounds n)) [
      | inl (e, ended) ↦ rw (flush_loop, ended, ended) tt
      | inr (inl (e, ended)) ↦ rw (flush_loop, ended, ended) (h, tt)
      | inr (inr on) ↦
          rw (flush_loop, on, on)
            (
              h,
              loop_spaced fuel (suc n) ((rounds n).started_at + wait) wait quit_early rounds p
                  (unfold pause in omega (arith, p.rested n)),
            )
    ]

-- If a worker sleeps at least as long as it asks for, its flushes begin at least `wait` apart,
-- however long the worker runs and however it ends.
pub flush_loop-SpacedFrom :
    (fuel wait : ℕ) (quit_early : Bool) (rounds : ℕ → Round)
    → IsPunctual wait rounds
    → SpacedFrom wait 0 (flush_loop fuel quit_early wait rounds 0).0
flush_loop-SpacedFrom fuel wait quit_early rounds p =
    loop_spaced fuel 0 0 wait quit_early rounds p (omega arith)
