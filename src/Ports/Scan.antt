-- ===== src/Ports/Scan.antt =====
-- What the loop of `Allocate` finds.
use overworld_ops.Base.{
  zero, suc, ℕ, Bool, List, ◌≡◌, ◌≤◌, ◌+◌, ◌<◌, true, false, Bool-cases, ◌⊎◌, ◌==◌, arith, inl,
  ==_iff, inr, refl,
}
use overworld_ops.System.{Env, World, Result, ok, err, ◌>>=◌, ask, Act, ticked}
use overworld_ops.Ports.{scan, claims, AllocateError, pool_exhausted, ◌>>=◌, ask, try_port, Act}

module _ (e : Env) (claimed : List ℕ) where
  -- A record claims the port, or the probe is on and at some moment did not get it.
  abbrev pub IsBusy : Bool → ℕ → Type 0
  IsBusy probe p =
      (claims p claimed ≡ true) ⊎ ((probe ≡ true) × ((n : ℕ) × (e.port_binds n p ≡ false)))

  -- No record claims the port, and the probe, where it is on, got it.
  abbrev pub IsFree : Bool → ℕ → Type 0
  IsFree probe p = (claims p claimed ≡ false) × (probe ≡ true → (n : ℕ) × (e.port_binds n p ≡ true))

  -- From `p`, with `left` ports to try: the first that is free, or none of them is.
  abbrev pub IsFirstFree : Bool → ℕ → ℕ → Result AllocateError ℕ → Type 0
  IsFirstFree probe p left (ok q) =
      (p ≤ q) × (q < p + left) × IsFree probe q × ((r : ℕ) → p ≤ r → r < q → IsBusy probe r)
  IsFirstFree probe p left (err x) =
      (x ≡ pool_exhausted) × ((r : ℕ) → p ≤ r → r < p + left → IsBusy probe r)

  skip_busy :
      (probe : Bool) (p left : ℕ) (r : Result AllocateError ℕ)
      → IsBusy probe p
      → IsFirstFree probe (p + 1) left r
      → IsFirstFree probe p (suc left) r
  skip_busy probe p left (ok q) busy (low, high, free, before) = (
    omega arith,
    omega arith,
    free,
    λ r h k. elim (Bool-cases (p == r)) [
      | inl same ↦ rw (← (==_iff p r).0 same) busy
      | inr other ↦ before r (ground arith) k
    ],
  )
  skip_busy probe p left (err x) busy (all, none_free) = (
    all,
    λ r h k. elim (Bool-cases (p == r)) [
      | inl same ↦ rw (← (==_iff p r).0 same) busy
      | inr other ↦ none_free r (ground arith) (omega arith)
    ],
  )

  -- The probe of a port that no record claims.
  probed :
      (probe : Bool) (p left : ℕ) (rest : Act AllocateError ℕ) (s : World)
      → claims p claimed ≡ false
      → ((t : World) → IsFirstFree probe (p + 1) left (rest e t).0)
      → IsFirstFree probe p (suc left) (try_port probe p rest e s).0
  unfolding try_port ◌>>=◌ ask
  probed true p left rest s free later = elim (Bool-cases (e.port_binds s.ticks p)) [
    | inl binds ↦
        rw binds
          (omega arith, omega arith, (free, λ _. (s.ticks, binds)), λ r h k. absurd (omega arith))
    | inr fails ↦
        rw fails (skip_busy true p left _ (inr (refl, (s.ticks, fails))) (later (ticked s)))
  ]
  probed false p left rest s free later =
      (omega arith, omega arith, (free, λ on. cc), λ r h k. absurd (omega arith))

  pub scan-IsFirstFree :
      (probe : Bool) (left p : ℕ) (s : World)
      → IsFirstFree probe p left (scan probe claimed left p e s).0
  unfolding scan ◌>>=◌ ask
  scan-IsFirstFree probe zero p s = (refl, λ r h k. absurd (omega arith))
  scan-IsFirstFree probe (suc left) p s = elim (Bool-cases (claims p claimed)) [
    | inl taken ↦
        rw taken (skip_busy probe p left _ (inl taken) (scan-IsFirstFree probe left (p + 1) s))
    | inr free ↦ rw free (
        probed probe p left (scan probe claimed left (p + 1)) s free
          (scan-IsFirstFree probe left (p + 1)))
  ]
