-- ===== src/Tests/Statistics.antt =====
-- The statistics on small samples of integers.
use time_sensitive_packet.Base.{
  ℕ, zero, suc, ◌+◌, ◌*◌, ◌/◌, ◌^◌, ◌≤◌, ◌<◌, ◌≡◌, refl, some, List, [], ◌∷◌, length, replicate,
  arith, Result, ok, err, value_error,
}
use time_sensitive_packet.Base.Int.{ℤ, pos, negsuc, ◌-ℤ◌}
use time_sensitive_packet.Floats.{FloatOps, FloatOrder}
use time_sensitive_packet.Floats.Plain.{Number, number, plain_floats, plain_floats_order}
use time_sensitive_packet.Numpy.Samples.{IsTotal, FloatArrays}
use time_sensitive_packet.Numpy.Samples.Sorting.{sorting_arrays, sorting_arrays_laws}
use time_sensitive_packet.Stats.Effect.{cliffs_delta, describe_delta}
use time_sensitive_packet.Stats.Effect.Pairs.{pairs_above, cliffs_delta-pairs}
use time_sensitive_packet.Stats.Effect.Labels.{rank, AreOrdered, describe_delta-rank}
use time_sensitive_packet.Stats.Bootstrap.{
  Generator, Statistic, BootstrapCi, nonempty, resolve_statistic, bootstrap_ci,
}
use time_sensitive_packet.Stats.Bootstrap.Resamples.{
  IsRow, AreRows, GeneratorLaws, IsConfidence, IsInterval, bootstrap_ci-resamples,
}
use time_sensitive_packet.Stats.Compare.{compare}
use Prim.Native.String.{String}

abbrev np : FloatArrays plain_floats
np = sorting_arrays plain_floats

abbrev pub float_of : String → Result Number
float_of s = ok (number (pos 99))

-- A generator that always draws the first member.
-- A seed that is not negative.
abbrev seeded : ℤ → Result (Unit {0})
seeded (pos n) = ok tt
seeded (negsuc n) = err value_error

abbrev pub first_always : Generator
first_always = record {
  Rng = Unit;
  default_rng = seeded;
  integers = λ high rows columns rng. (replicate rows (replicate columns 0), tt);
}

zeros-IsRow : (high columns : ℕ) → 0 < high → IsRow high columns (replicate columns 0)
zeros-IsRow high zero h = (refl, refl)
zeros-IsRow high (suc n) h =
    let ih = zeros-IsRow high n h in (omega (arith, ih.0), ground (arith, ih.1))

zeros-AreRows :
    (high rows columns : ℕ) → 0 < high → AreRows high columns (replicate rows (replicate columns 0))
zeros-AreRows high zero columns h = tt
zeros-AreRows high (suc n) columns h = (zeros-IsRow high columns h, zeros-AreRows high n columns h)

length-replicate : (n : ℕ) (row : List ℕ) → length (replicate n row) ≡ n
length-replicate zero row = refl
length-replicate (suc n) row = omega (arith, length-replicate n row)

pub first_always_laws : GeneratorLaws first_always
first_always_laws = record {
  default_rng-Gives = λ n. (tt, refl, tt);
  length-integers = λ high rows columns rng. length-replicate rows (replicate columns 0);
  integers-AreRows = λ high rows columns rng h. zeros-AreRows high rows columns h;
}

abbrev slow : List Number
slow = number (pos 9) ∷ number (pos 4) ∷ number (pos 7) ∷ []

abbrev fast : List Number
fast = number (pos 5) ∷ number (pos 4) ∷ []

-- Of six pairs four go one way and one goes the other way.
slow-pairs : (pairs_above plain_floats slow fast ≡ 4) × (pairs_above plain_floats fast slow ≡ 1)
slow-pairs = (refl, refl)

cliffs_delta-pairs_example :
    (cliffs_delta plain_floats np slow fast
      ≡ plain_floats.over (number (pos 4 -ℤ pos 1)) (number (pos (3 * 2))))
    × (pairs_above plain_floats slow fast + pairs_above plain_floats fast slow ≤ 3 * 2)
cliffs_delta-pairs_example =
    cliffs_delta-pairs plain_floats np (sorting_arrays_laws plain_floats plain_floats_order)
      plain_floats_order (number (pos 9)) (number (pos 5)) (number (pos 4) ∷ number (pos 7) ∷ [])
      (number (pos 4) ∷ []) refl refl

-- Numbers that count tenths: the thresholds are 1, 3 and 4 of them.
abbrev tenths : FloatOps
tenths = record plain_floats { decimal = λ m k. number (pos (m * 10 / 10 ^ k)) }

tenths_order : FloatOrder tenths
tenths_order = record {
  lt_irrefl = plain_floats_order.lt_irrefl;
  lt_trans = plain_floats_order.lt_trans;
  lt_split = plain_floats_order.lt_split;
}

thresholds_ordered : AreOrdered tenths tenths_order
thresholds_ordered = record { small_lt = refl; medium_lt = refl }

describe_delta-rank_example : rank (describe_delta tenths (number (negsuc 2))) ≡ 3
describe_delta-rank_example =
    describe_delta-rank tenths tenths_order (number (negsuc 2)) thresholds_ordered

known :
    resolve_statistic plain_floats np float_of "MAX" "linear"
    ≡ ok (nonempty plain_floats np np.largest)
unfolding resolve_statistic
known = refl

abbrev largest : Statistic plain_floats
largest = nonempty plain_floats np np.largest

largest-IsTotal : IsTotal plain_floats largest
largest-IsTotal x xs = (np.largest (x ∷ xs), refl, tt)

confident : IsConfidence plain_floats np float_of first_always first_always_laws (number (pos 1))
confident = ((λ x xs. (_, refl, tt)), (λ x xs. (_, refl, tt)))

bootstrap_ci-resamples_example :
    (c : BootstrapCi plain_floats) × (boots : List Number) × (bootstrap_ci plain_floats np float_of
        first_always slow "MAX"
        (pos 5)
        (number (pos 1))
        (pos 7)
        2
        "linear"
      ≡ ok (some c))
    × IsInterval plain_floats np float_of first_always first_always_laws slow largest 5
        (number (pos 1))
        c
        boots
bootstrap_ci-resamples_example =
    bootstrap_ci-resamples plain_floats np float_of first_always first_always_laws (number (pos 9))
      (number (pos 4)) (number (pos 7) ∷ []) "MAX" "linear" 4 (number (pos 1)) (pos 7) 2 largest
      (omega arith) tt confident known largest-IsTotal

-- numpy takes no negative seed, and the exception is passed on.
negative_seed :
    compare plain_floats np float_of first_always slow fast "MAX"
      (pos 5)
      (number (pos 1))
      (negsuc 0)
      "linear"
    ≡ err value_error
unfolding compare resolve_statistic
negative_seed = refl
