-- ===== src/Docker/Logs/Fuel.antt =====
-- The loop of `DemuxLogs` ends on every stream.
use overworld_ops.Base.{
  refl, [], ◌∷◌, ◌≡◌, ℕ, zero, suc, arith, length, some, none, ◌≤◌, Option-cases, inl, inr, ap,
  Text, Option,
}
use overworld_ops.Docker.Logs.{read_full, be32, demux_on, demux_logs}
use overworld_ops.Docker.Logs.RoundTrip.{demux_on-whole, demux_on-short}

-- What is left after a read is no longer than what was there.
read_full_rest : (n : ℕ) (s p r : Text) → read_full n s ≡ some (p, r) → length r ≤ length s
unfolding read_full
read_full_rest zero s p r h = let same : s ≡ r = cc in omega (arith, ap length same)
read_full_rest (suc n) [] p r h = absurd cc
read_full_rest (suc n) (b ∷ s) p r h = elim (Option-cases (read_full n s)) [
  | inl missing ↦
      let q : ◌≡◌ {A = Option (Text × Text)} none (some (p, r)) = rw missing at h in absurd cc
  | inr ((front, rest), read) ↦
      let q : ◌≡◌ {A = Option (Text × Text)} (some (b ∷ front, rest)) (some (p, r)) =
        rw read at h in
      let same : rest ≡ r = cc in omega (arith, ap length same, read_full_rest n s front rest read)
]

demux_on_empty : (f : ℕ) → demux_on f [] ≡ []
unfolding demux_on
demux_on_empty zero = refl
demux_on_empty (suc f) = refl

demux_on_enough : (f g : ℕ) (s : Text) → length s ≤ f → length s ≤ g → demux_on f s ≡ demux_on g s
unfolding demux_on
demux_on_enough f g [] hf hg = rw (demux_on_empty f, demux_on_empty g) refl
demux_on_enough zero g (c ∷ s) hf hg = absurd (omega arith)
demux_on_enough (suc f) zero (c ∷ s) hf hg = absurd (omega arith)
demux_on_enough (suc f) (suc g) (stream ∷ x ∷ y ∷ z ∷ a ∷ b ∷ c ∷ d ∷ s) hf hg =
    elim (Option-cases (read_full (be32 a b c d) s)) [
      | inl missing ↦
          rw
            (
              demux_on-short f stream x y z a b c d s missing,
              demux_on-short g stream x y z a b c d s missing,
            )
            refl
      | inr ((p, r), read) ↦
          let shorter = read_full_rest (be32 a b c d) s p r read in
          rw
            (
              demux_on-whole f stream x y z a b c d s p r read,
              demux_on-whole g stream x y z a b c d s p r read,
              demux_on_enough f g r (omega arith) (omega arith),
            )
            refl
    ]
demux_on_enough (suc f) (suc g) s hf hg = refl

-- Whatever the bytes, any fuel of at least their number gives the same lines, so the fuel of
-- `demux_logs` never cuts the loop off.
pub demux_logs-demux_on : (fuel : ℕ) (s : Text) → length s ≤ fuel → demux_on fuel s ≡ demux_logs s
unfolding demux_logs
demux_logs-demux_on fuel s enough = demux_on_enough fuel (length s) s enough (omega arith)
