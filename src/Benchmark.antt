-- ===== src/Benchmark.antt =====
-- Price benchmarks of the GPM: src/gpm/pricing/benchmark_engine.py and src/gpm/normalization.
mod Percentiles
mod Engine
mod Laws
mod Order
unfoldable pub use Percentiles.{percentile, between}
pub use Percentiles.{item, percentile_mono}
unfoldable pub use Engine.{
  normalization_of, is_usable, normalize_unit, select_tier, effective_price, comparable_price,
  gather, build_benchmark,
}
pub use Engine.{Sample, Normalization, Requirement, BenchmarkSnapshot}
pub use Laws.{HasQuartiles, HasNone, sorted_prices, build_benchmark_lem}
pub use Order.{build_benchmark-perm}
