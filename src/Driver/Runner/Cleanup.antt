-- ===== src/Driver/Runner/Cleanup.antt =====
-- How the clean-up loop ends.
use simkube.Common.{
  ℕ, zero, suc, ◌+◌, ◌*◌, ◌<◌, ◌≤◌, ◌≡◌, ◌⊎◌, inl, inr, refl, sym, ◌∙◌, true, false, String,
  Outcome, ok, err, cleanup_failed, cleanup_timeout, arith, ◌==◌, nat_eq, nat_beq, nat_beq_iff,
  Bool-cases, if◌then◌else◌,
}
use mathlib.Core.Path.{subst}
use simkube.Common.Int.{ℤ, pos, int_laws, +ℤ_parts, ltb_ℤ, ◌≤ℤ◌, ◌<ℤ◌, ◌+ℤ◌}
use simkube.Core.Constants.{retry_delay_seconds}
use simkube.Driver.Runner.{Deletion, pending, over, other_error, api_error, Turns, cleanup_trace}

-- Between two turns the loop sleeps for the retry delay.
abbrev pub Sleeps : Turns → Type 0
Sleeps turns = (i : ℕ) → (turns.now i +ℤ pos retry_delay_seconds) ≤ℤ turns.now (i + 1)

-- What an answer that is not pending makes of the loop.
abbrev pub verdict : String → Deletion → Outcome (Unit {0})
verdict root_name over = ok tt
verdict root_name (api_error code) = if code == 404 then ok tt else err (cleanup_failed root_name)
verdict root_name other_error = err (cleanup_failed root_name)
verdict root_name pending = err (cleanup_timeout root_name)

-- The loop ends at turn `n`: with its answer, or since the time is over.
abbrev pub EndsAt : String → Turns → ℤ → ℕ → ℕ → Outcome (Unit {0}) → Type 0
EndsAt root_name turns timeout i n result =
    ((j : ℕ) → i ≤ j → j < n → (turns.answer j ≡ pending) × (turns.now j <ℤ timeout))
    × (((turns.now n <ℤ timeout)
          × ((turns.answer n ≡ pending) → ⊥)
          × (result ≡ verdict root_name (turns.answer n)))
        ⊎ ((timeout ≤ℤ turns.now n) × (result ≡ err (cleanup_timeout root_name))))

module _ (root_name : String) (turns : Turns) (timeout : ℤ) (sleeps : Sleeps turns) where
  abbrev Ends : ℕ → ℕ → Type 0
  Ends fuel i =
      (n : ℕ) × (i ≤ n)
      × EndsAt root_name turns timeout i n (cleanup_trace (suc fuel) root_name turns timeout i)

  Ends-late : (fuel i : ℕ) → timeout ≤ℤ turns.now i → Ends fuel i
  unfolding cleanup_trace
  Ends-late fuel i late =
      let l : ltb_ℤ (turns.now i) timeout ≡ false = ground arith in
      (i, omega arith, ((λ j a b. absurd (omega arith)), inr (late, rw (cleanup_trace, l) refl)))

  Ends-now :
      (fuel i : ℕ) (d : Deletion)
      → turns.answer i ≡ d
      → (d ≡ pending → ⊥)
      → turns.now i <ℤ timeout
      → Ends fuel i
  unfolding cleanup_trace
  Ends-now fuel i d a decided early =
      let l : ltb_ℤ (turns.now i) timeout ≡ true = ground arith in
      let result : cleanup_trace (suc fuel) root_name turns timeout i
          ≡ verdict root_name (turns.answer i) =
        rw (cleanup_trace, l, a) (decide d decided) in
      (
        i,
        omega arith,
        ((λ j x y. absurd (omega arith)), inl (early, (λ e. decided (sym a ∙ e)), result)),
      )
    where
      decide :
          (d : Deletion)
          → (d ≡ pending → ⊥)
          → (elim d as (λ _. Outcome (Unit {0})) [
            | over ↦ ok tt
            | api_error code ↦ if code == 404 then ok tt else err (cleanup_failed root_name)
            | other_error ↦ err (cleanup_failed root_name)
            | pending ↦ cleanup_trace fuel root_name turns timeout (i + 1)
          ])
            ≡ verdict root_name d
      decide over n = refl
      decide (api_error code) n = refl
      decide other_error n = refl
      decide pending n = absurd (n refl)

  abbrev Waits : ℕ → Type 0
  Waits j = (turns.answer j ≡ pending) × (turns.now j <ℤ timeout)

  here_or_before :
      (i j n : ℕ)
      → turns.answer i ≡ pending
      → turns.now i <ℤ timeout
      → ((k : ℕ) → i + 1 ≤ k → k < n → Waits k)
      → i ≤ j
      → j < n
      → Waits j
  here_or_before i j n a early before x y = elim (Bool-cases (nat_beq i j)) [
    | inl e ↦ let same : i ≡ j = ground (arith, nat_beq_iff i j) in subst Waits same (a, early)
    | inr e ↦ before j (ground (arith, nat_beq_iff i j)) y
  ]

  Ends-next :
      (fuel i : ℕ)
      → turns.answer i ≡ pending
      → turns.now i <ℤ timeout
      → Ends fuel (i + 1)
      → Ends (suc fuel) i
  unfolding cleanup_trace
  Ends-next fuel i a early (n, after, (before, ending)) =
      let l : ltb_ℤ (turns.now i) timeout ≡ true = ground arith in
      let same : cleanup_trace (suc (suc fuel)) root_name turns timeout i
          ≡ cleanup_trace (suc fuel) root_name turns timeout (i + 1) =
        rw (cleanup_trace, l, a) refl in
      (
        n,
        omega (arith, after),
        ((λ j x y. here_or_before i j n a early before x y), rw same ending),
      )

  -- The loop ends, whatever the server answers: a turn takes at least the retry delay, so as many
  -- turns as fit before the timeout, and one, are enough. Up to its last turn every answer was
  -- pending. It succeeds if the last answer is that the deletion is over or that nothing is found,
  -- and fails on any other error, and when the time is over.
  pub cleanup_trace-EndsAt :
      (fuel i : ℕ)
      → timeout ≤ℤ (turns.now i +ℤ pos (retry_delay_seconds * fuel))
      → (n : ℕ) × (i ≤ n)
        × EndsAt root_name turns timeout i n (cleanup_trace (suc fuel) root_name turns timeout i)
  cleanup_trace-EndsAt zero i l = Ends-late zero i (grind int_laws)
  cleanup_trace-EndsAt (suc fuel) i l = elim (Bool-cases (ltb_ℤ (turns.now i) timeout)) [
    | inr late ↦ Ends-late (suc fuel) i (ground arith)
    | inl early ↦ go (turns.answer i) refl (ground arith) (cleanup_trace-EndsAt fuel (i + 1))
  ]
    where
      next : (timeout ≤ℤ (turns.now (i + 1) +ℤ pos (retry_delay_seconds * fuel)))
      next = omega (
        arith,
        l,
        sleeps i,
        +ℤ_parts (turns.now i) (pos (retry_delay_seconds * suc fuel)),
        +ℤ_parts (turns.now i) (pos retry_delay_seconds),
        +ℤ_parts (turns.now (i + 1)) (pos (retry_delay_seconds * fuel)),
      )

      go :
          (d : Deletion)
          → turns.answer i ≡ d
          → turns.now i <ℤ timeout
          → (timeout ≤ℤ (turns.now (i + 1) +ℤ pos (retry_delay_seconds * fuel)) → Ends fuel (i + 1))
          → Ends (suc fuel) i
      go pending a early ih = Ends-next fuel i a early (ih next)
      go over a early ih = Ends-now (suc fuel) i over a (λ e. ground (arith, e)) early
      go other_error a early ih = Ends-now (suc fuel) i other_error a (λ e. ground (arith, e)) early
      go (api_error code) a early ih =
          Ends-now (suc fuel) i (api_error code) a (λ e. ground (arith, e)) early
