-- ===== src/Stats/Effect/Labels.antt =====
-- The labels of `describe_delta`, ranked.
use time_sensitive_packet.Base.{
  ℕ, suc, ◌≡◌, true, not, List, [], ◌∷◌, count_if, if◌then◌else◌, arith,
}
use time_sensitive_packet.Floats.{FloatOps, FloatOrder}
use time_sensitive_packet.Stats.Effect.{
  Effect, not_available, negligible, small, medium, large, describe_delta,
}

abbrev pub rank : Effect → ℕ
rank not_available = 0
rank negligible = 1
rank small = 2
rank medium = 3
rank large = 4

module _ (F : FloatOps) (order : FloatOrder F) where
  -- The thresholds of Romano et al.
  abbrev pub thresholds : List F.Float
  thresholds = F.decimal 147 3 ∷ F.decimal 33 2 ∷ F.decimal 474 3 ∷ []

  -- Their order.
  pub record AreOrdered : Type 0 where
    pub small_lt : F.lt (F.decimal 147 3) (F.decimal 33 2) ≡ true
    pub medium_lt : F.lt (F.decimal 33 2) (F.decimal 474 3) ≡ true

  -- The thresholds that a number is not below.
  abbrev pub reached : F.Float → ℕ
  reached d = count_if (λ t. not (F.lt d t)) thresholds

  -- If the three thresholds are in order, the label says how many of them the absolute value has
  -- reached: from negligible, for none, to large, for all three. For nan, and only for it, the label
  -- is n/a.
  pub describe_delta-rank :
      (delta : F.Float)
      → AreOrdered
      → rank (describe_delta F delta)
        ≡ (if F.is_nan (F.absolute delta) then 0 else suc (reached (F.absolute delta)))
  unfolding describe_delta
  describe_delta-rank delta ordered =
      let d = F.absolute delta in
      ground (
        arith,
        order.lt_trans d (F.decimal 147 3) (F.decimal 33 2),
        order.lt_trans d (F.decimal 33 2) (F.decimal 474 3),
        ordered.small_lt,
        ordered.medium_lt,
      )
