-- ===== src/Partition/Wilson.antt =====
-- src/north_standard/evaluation_protocol.py, `wilson_interval`.
use north_standard.Base.{
  ◌||◌, Result, ok, value_error, overflow_error, or_raise, ◌>>=◌, ◌>>◌, raise_if, if◌then◌else◌,
}
use north_standard.Base.Int.{ℤ, pos, ltb_ℤ, leb_ℤ}
use north_standard.Value.{Float}
use north_standard.Experiments.{Noise}
use north_standard.Recorded.{Measure}
use north_standard.Challenges.{Scheduler}

pub record WilsonInterval (F : Type 0) : Type 0 where
  pub estimate : F
  pub lower : F
  pub upper : F
  pub confidence : F
  pub numerator : ℤ
  pub denominator : ℤ

-- `math.sqrt`
pub record Root (F : Type 0) : Type 0 where
  pub sqrt : F → F

module _ {F : Type 0} ⦃fl : Float F⦄ ⦃ms : Measure F⦄ ⦃ns : Noise F⦄ ⦃sc : Scheduler F⦄
    ⦃rt : Root F⦄ where
  -- `max(0.0, x)` and `min(1.0, x)`
  abbrev pub at_least_0 : F → F
  at_least_0 x = if fl.lt (fl.lit 0 0) x then x else fl.lit 0 0

  abbrev pub at_most_1 : F → F
  at_most_1 x = if fl.lt x (fl.lit 1 0) then x else fl.lit 1 0

  unfoldable pub wilson_interval : (successes total : ℤ) → (z : F) → Result (WilsonInterval F)
  wilson_interval successes total z = do
    raise_if (leb_ℤ total (pos 0)) (value_error "total must be positive")
    raise_if (ltb_ℤ successes (pos 0) || ltb_ℤ total successes)
        (value_error "successes must satisfy 0 <= successes <= total")
    raise_if (fl.lt z (fl.lit 0 0) || fl.is_zero z) (value_error "z must be positive")
    p_hat ← or_raise (sc.int_div successes total) overflow_error
    count ← or_raise (fl.of_int total) overflow_error
    let z2 = ns.mul z z
    let scaled = ns.add (fl.lit 1 0) (ms.div z2 count)
    let center = ms.div (ns.add p_hat (ms.div z2 (ns.mul (fl.lit 2 0) count))) scaled
    let spread =
        ns.add (ms.div (ns.mul p_hat (ns.sub (fl.lit 1 0) p_hat)) count)
          (ms.div z2 (ns.mul (ns.mul (fl.lit 4 0) count) count))
    let margin = ms.div (ns.mul z (rt.sqrt spread)) scaled
    ok (record {
      estimate = p_hat;
      lower = at_least_0 (ns.sub center margin);
      upper = at_most_1 (ns.add center margin);
      confidence = fl.lit 95 2;
      numerator = successes;
      denominator = total;
    })

  -- the interval at the default z = 1.959963984540054
  abbrev pub default_interval : (successes total : ℤ) → Result (WilsonInterval F)
  default_interval successes total =
      wilson_interval successes total (fl.lit 1_959_963_984_540_054 15)
