-- ===== src/Metrics/Loss.antt =====
-- `loss_summary` of metrics.py: loss, duplicates and late arrivals from the sequence numbers. The
-- int64 numbers are unbounded integers here; `expected` fits while the largest is below 2 ** 63 - 1.
pub mod Laws
pub mod Missing
use time_sensitive_packet.Base.{
  ℕ, suc, ◌+◌, ◌≡◌, Bool, true, false, List, [], ◌∷◌, length, if◌then◌else◌,
}
use time_sensitive_packet.Base.Int.{ℤ, pos, ◌+ℤ◌, ◌-ℤ◌, ltb_ℤ}
use time_sensitive_packet.Base.{beq_ℤ}
use time_sensitive_packet.Floats.{FloatOps}
use time_sensitive_packet.Numpy.{IntArrays}

-- `arr[1:]`
abbrev pub tail : List ℤ → List ℤ
tail [] = []
tail (x ∷ xs) = xs

-- `arr[:-1]`
abbrev pub init : List ℤ → List ℤ
init [] = []
init (x ∷ []) = []
init (x ∷ y ∷ xs) = x ∷ init (y ∷ xs)

-- `np.count_nonzero(a < b)` of two arrays of one length.
abbrev pub count_less : List ℤ → List ℤ → ℕ
count_less [] bs = 0
count_less (a ∷ as') [] = 0
count_less (a ∷ as') (b ∷ bs) = if ltb_ℤ a b then suc (count_less as' bs) else count_less as' bs

-- The integers that the function computes before it makes floats of them.
pub record LossCounts : Type 0 where
  pub expected : ℤ
  pub received : ℤ
  pub unique : ℤ
  pub lost : ℤ
  pub reorders : ℤ

pub record LossSummary (F : FloatOps) : Type 0 where
  pub expected : F.Float
  pub received : F.Float
  pub unique : F.Float
  pub lost : F.Float
  pub loss_pct : F.Float
  pub duplicates : F.Float
  pub reorders : F.Float

module _ (np : IntArrays) where
  unfoldable pub loss_counts : List ℤ → LossCounts
  loss_counts arr =
      let expected = np.int_max arr +ℤ pos 1 in
      let unique = pos (length (np.unique arr)) in
      record {
        expected = expected;
        received = pos (length arr);
        unique = unique;
        lost = expected -ℤ unique;
        reorders = pos (count_less (tail arr) (init (np.accumulate_max arr)));
      }

  module _ (F : FloatOps) where
    abbrev pub zero_float : F.Float
    zero_float = F.of_int (pos 0)

    -- The dict that is returned for a sample with rows.
    unfoldable pub float_counts : LossCounts → LossSummary F
    float_counts c = record {
      expected = F.of_int c.expected;
      received = F.of_int c.received;
      unique = F.of_int c.unique;
      lost = F.of_int c.lost;
      loss_pct =
          if beq_ℤ c.expected (pos 0)
          then F.nan
          else F.over (F.times (F.of_int (pos 100)) (F.of_int c.lost)) (F.of_int c.expected);
      duplicates = F.of_int (c.received -ℤ c.unique);
      reorders = F.of_int c.reorders;
    }

    unfoldable pub loss_summary : List ℤ → LossSummary F
    unfolding loss_counts float_counts
    loss_summary [] = record {
      expected = zero_float;
      received = zero_float;
      unique = zero_float;
      lost = zero_float;
      loss_pct = F.nan;
      duplicates = zero_float;
      reorders = zero_float;
    }
    loss_summary (x ∷ xs) = float_counts (loss_counts (x ∷ xs))
